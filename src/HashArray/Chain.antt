-- ===== src/HashArray/Chain.antt =====
-- `tHashArray::sItem`: the items of one bucket. The head's own test and the loop over `mNext` are
-- one recursion here. An item that the code changes through a pointer is written back.
use verlihub.Base.{
  ℕ, ◌+◌, ◌-◌, min, ◌≡◌, ◌≢◌, refl, arith, Option, none, List, [], ◌∷◌, ◌++◌, inl, inr, ◌==◌,
  if◌then◌else◌, Bool-cases, length,
}

pub record Item {ℓ} (D : Type ℓ) : Type ℓ where
  pub value : Option D
  pub hash : ℕ

module _ {ℓ} {D : Type ℓ} where
  unfoldable pub find : ℕ → List (Item D) → Option D
  find h [] = none
  find h (i ∷ c) = if i.hash == h then i.value else find h c

  -- The old value, and the chain with the value overwritten.
  unfoldable pub set_item : ℕ → Option D → List (Item D) → Option D × List (Item D)
  set_item h v [] = (none, [])
  set_item h v (i ∷ c) =
      let (old, c') = set_item h v c in
      if i.hash == h then (i.value, record i { value = v } ∷ c) else (old, i ∷ c')

  -- The value that is there, or NULL with a new item at the end.
  unfoldable pub add_data : Option D → ℕ → List (Item D) → Option D × List (Item D)
  add_data v h [] = (none, record { value = v; hash = h } ∷ [])
  add_data v h (i ∷ c) =
      let (old, c') = add_data v h c in if i.hash == h then (i.value, i ∷ c) else (old, i ∷ c')

  -- The value that was there, and the chain without its item.
  unfoldable pub delete_hash : ℕ → List (Item D) → Option D × List (Item D)
  delete_hash h [] = (none, [])
  delete_hash h (i ∷ c) =
      let (old, c') = delete_hash h c in if i.hash == h then (i.value, c) else (old, i ∷ c')

  -- How many items of a chain have a hash.
  unfoldable pub count : ℕ → List (Item D) → ℕ
  count h [] = 0
  count h (i ∷ c) = (if i.hash == h then 1 else 0) + count h c

  pub find-eq-none : (h : ℕ) (c : List (Item D)) → count h c ≡ 0 → find h c ≡ none
  unfolding find count
  find-eq-none h [] e = refl
  find-eq-none h (i ∷ c) e = ground (arith, find-eq-none h c)

  pub count-append : (h : ℕ) (a b : List (Item D)) → count h (a ++ b) ≡ count h a + count h b
  unfolding count
  count-append h [] b = omega arith
  count-append h (i ∷ a) b = omega (arith, count-append h a b)

  pub find-append_absent :
      (h : ℕ) (a b : List (Item D)) → count h a ≡ 0 → find h (a ++ b) ≡ find h b
  unfolding find count
  find-append_absent h [] b e = refl
  find-append_absent h (i ∷ a) b e = ground (arith, find-append_absent h a b)

  pub find-append_present :
      (h : ℕ) (a b : List (Item D)) → count h a ≢ 0 → find h (a ++ b) ≡ find h a
  unfolding find count
  find-append_present h [] b e = absurd (e refl)
  find-append_present h (i ∷ a) b e = ground (arith, find-append_present h a b)

  pub find-append_first : (h : ℕ) (a b : List (Item D)) → count h b ≡ 0 → find h (a ++ b) ≡ find h a
  unfolding find
  find-append_first h [] b e = find-eq-none h b e
  find-append_first h (i ∷ a) b e = ground (arith, find-append_first h a b e)

  pub add_data_absent :
      (v : Option D) (h : ℕ) (c : List (Item D))
      → count h c ≡ 0
      → add_data v h c ≡ (none, c ++ record { value = v; hash = h } ∷ [])
  unfolding add_data count
  add_data_absent v h [] e = refl
  add_data_absent v h (i ∷ c) e = ground (arith, add_data_absent v h c)

  pub add_data_present :
      (v : Option D) (h : ℕ) (c : List (Item D)) → count h c ≢ 0 → add_data v h c ≡ (find h c, c)
  unfolding add_data count find
  add_data_present v h [] e = absurd (e refl)
  add_data_present v h (i ∷ c) e = ground (arith, add_data_present v h c)

  pub delete_hash-find : (h : ℕ) (c : List (Item D)) → (delete_hash h c).0 ≡ find h c
  unfolding delete_hash find
  delete_hash-find h [] = refl
  delete_hash-find h (i ∷ c) = ground (arith, delete_hash-find h c)

  pub count-delete_hash :
      (h q : ℕ) (c : List (Item D))
      → count q (delete_hash h c).1 ≡ (if q == h then count q c - 1 else count q c)
  unfolding delete_hash count
  count-delete_hash h q [] = ground arith
  count-delete_hash h q (i ∷ c) = ground (arith, count-delete_hash h q c)

  pub find-delete_hash_ne :
      (h q : ℕ) (c : List (Item D)) → q ≢ h → find q (delete_hash h c).1 ≡ find q c
  unfolding delete_hash find
  find-delete_hash_ne h q [] n = refl
  find-delete_hash_ne h q (i ∷ c) n = ground (arith, find-delete_hash_ne h q c n)

  pub length-delete_hash :
      (h : ℕ) (c : List (Item D)) → length (delete_hash h c).1 + min 1 (count h c) ≡ length c
  unfolding delete_hash count
  length-delete_hash h [] = omega arith
  length-delete_hash h (i ∷ c) = elim (Bool-cases (i.hash == h)) [
    | inl e ↦ rw e (omega arith)
    | inr e ↦ rw e (omega (arith, length-delete_hash h c))
  ]

  pub set_item-find : (h : ℕ) (v : Option D) (c : List (Item D)) → (set_item h v c).0 ≡ find h c
  unfolding set_item find
  set_item-find h v [] = refl
  set_item-find h v (i ∷ c) = ground (arith, set_item-find h v c)

  pub count-set_item :
      (h q : ℕ) (v : Option D) (c : List (Item D)) → count q (set_item h v c).1 ≡ count q c
  unfolding set_item count
  count-set_item h q v [] = refl
  count-set_item h q v (i ∷ c) = ground (arith, count-set_item h q v c)

  pub find-set_item :
      (h q : ℕ) (v : Option D) (c : List (Item D))
      → find q (set_item h v c).1
        ≡ (if q == h then (if count h c == 0 then none else v) else find q c)
  unfolding set_item count find
  find-set_item h q v [] = ground arith
  find-set_item h q v (i ∷ c) = ground (arith, find-set_item h q v c)

  pub length-set_item :
      (h : ℕ) (v : Option D) (c : List (Item D)) → length (set_item h v c).1 ≡ length c
  unfolding set_item
  length-set_item h v [] = refl
  length-set_item h v (i ∷ c) = ground (arith, length-set_item h v c)
