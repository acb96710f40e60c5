-- ===== src/HashArray/Buckets.antt =====
-- Where the items of a table stand, and writes to one bucket.
use mathlib.Core.List.{flatten}
use verlihub.Base.{
  ℕ, zero, suc, ap, ◌++◌, ◌+◌, ◌%◌, ◌≤◌, ◌<◌, ◌≡◌, ◌≢◌, refl, arith, Option, none, List, [], ◌∷◌,
  ◌∙◌, sym, ◌==◌, if◌then◌else◌, length, get_or, set, length-append, length-set, get_or-set,
}
use verlihub.HashArray.Chain.{
  Item, find, count, count-append, find-append_absent, find-append_first,
}

module _ {ℓ} {A : Type ℓ} where
  -- The buckets around one of them.
  record Around (bs : List (List A)) (i : ℕ) : Type ℓ where
    before : List (List A)
    after : List (List A)
    whole : bs ≡ before ++ get_or bs i [] ∷ after
    written : (c : List A) → set bs i c ≡ before ++ c ∷ after

  around : (i : ℕ) (bs : List (List A)) → i < length bs → Around bs i
  unfolding get_or set
  around i [] inside = absurd (omega arith)
  around zero (b ∷ bs) inside = record {
    before = [];
    after = bs;
    whole = refl;
    written = λ c. refl;
  }
  around (suc i) (b ∷ bs) inside =
      let tail = around i bs (omega arith) in
      record {
        before = b ∷ tail.before;
        after = tail.after;
        whole = ap (◌∷◌ b) tail.whole;
        written = λ c. ap (◌∷◌ b) (tail.written c);
      }

  length-flatten_around :
      (before after : List (List A)) (c : List A)
      → length (flatten (before ++ c ∷ after))
        ≡ length (flatten before) + length c + length (flatten after)
  unfolding flatten
  length-flatten_around [] after c = omega (arith, length-append c (flatten after))
  length-flatten_around (b ∷ before) after c = omega (
    arith,
    length-append b (flatten (before ++ c ∷ after)),
    length-append b (flatten before),
    length-flatten_around before after c,
  )

  -- A write to a bucket changes the number of items by the change of that bucket.
  pub length-flatten-set :
      (i : ℕ) (new : List A) (bs : List (List A))
      → i < length bs
      → length (get_or bs i []) + length (flatten (set bs i new)) ≡ length new + length (flatten bs)
  length-flatten-set i new bs inside =
      let r = around i bs inside in
      omega (
        arith,
        ap (λ k. length (flatten k)) r.whole,
        ap (λ k. length (flatten k)) (r.written new),
        length-flatten_around r.before r.after new,
        length-flatten_around r.before r.after (get_or bs i []),
      )

module _ {D : Type 0} where
  -- The bucket of a hash, and what the table stores under it.
  abbrev pub bucket_of : List (List (Item D)) → ℕ → List (Item D)
  bucket_of bs h = get_or bs (h % length bs) []

  abbrev pub view : List (List (Item D)) → ℕ → Option D
  view bs h = find h (bucket_of bs h)

  -- Items stand in the bucket of their hash, once each, and hold no NULL.
  pub record Fits (q i n : ℕ) (c : List (Item D)) : Type 0 where
    pub once : count q c ≤ 1
    pub home : q % n ≢ i → count q c ≡ 0
    pub filled : find q c ≡ none → count q c ≡ 0

  abbrev pub IsPlaced : List (List (Item D)) → Type 0
  IsPlaced bs = (q i : ℕ) → Fits q i (length bs) (get_or bs i [])

  -- No bucket but `home` has items of a hash.
  abbrev StaysIn : ℕ → ℕ → List (List (Item D)) → Type 0
  StaysIn home q bs = (other : ℕ) → other ≢ home → count q (get_or bs other []) ≡ 0

  -- The home of a hash is behind the first bucket, or it is the first one.
  StaysIn-tail :
      (home q : ℕ) (b : List (Item D)) (bs : List (List (Item D)))
      → StaysIn (suc home) q (b ∷ bs)
      → StaysIn home q bs
  unfolding get_or
  StaysIn-tail home q b bs stays other far = stays (suc other) (omega arith)

  count-outside : (q : ℕ) (cs : List (List (Item D))) → count q (get_or cs (length cs) []) ≡ 0
  unfolding get_or count
  count-outside q [] = refl
  count-outside q (c ∷ cs) = count-outside q cs

  count-flatten_home :
      (home q : ℕ) (bs : List (List (Item D)))
      → StaysIn home q bs
      → count q (flatten bs) ≡ count q (get_or bs home [])
  unfolding flatten get_or
  count-flatten_home home q [] stays = refl
  count-flatten_home (suc home) q (b ∷ bs) stays = omega (
    arith,
    count-append q b (flatten bs),
    stays 0 (omega arith),
    count-flatten_home home q bs (StaysIn-tail home q b bs stays),
  )
  count-flatten_home zero q (b ∷ bs) stays = omega (
    arith,
    count-append q b (flatten bs),
    count-flatten_home (length bs) q bs (λ other far. stays (suc other) (omega arith)),
    count-outside q bs,
  )

  find-flatten_home :
      (home q : ℕ) (bs : List (List (Item D)))
      → StaysIn home q bs
      → find q (flatten bs) ≡ find q (get_or bs home [])
  unfolding flatten get_or
  find-flatten_home home q [] stays = refl
  find-flatten_home (suc home) q (b ∷ bs) stays =
      find-append_absent q b (flatten bs) (stays 0 (omega arith))
      ∙ find-flatten_home home q bs (StaysIn-tail home q b bs stays)
  find-flatten_home zero q (b ∷ bs) stays =
      find-append_first q b (flatten bs)
        (omega (arith, count-append q b (flatten bs), count-flatten_home zero q (b ∷ bs) stays))

  -- Reading the whole table in the iterator's order finds what a lookup finds.
  pub flatten-view :
      (bs : List (List (Item D))) (q : ℕ)
      → IsPlaced bs
      → (find q (flatten bs) ≡ view bs q) × (count q (flatten bs) ≡ count q (bucket_of bs q))
  flatten-view bs q placed =
      let stays : StaysIn (q % length bs) q bs =
        λ other far. (placed q other).home (λ e. far (sym e)) in
      (find-flatten_home (q % length bs) q bs stays, count-flatten_home (q % length bs) q bs stays)

  -- `bs` has `n` buckets and `total` items, all in place, and reads as `f`.
  pub record Holds (n total : ℕ) (f : ℕ → Option D) (bs : List (List (Item D))) : Type 0 where
    pub width : length bs ≡ n
    pub entries : length (flatten bs) ≡ total
    pub placed : IsPlaced bs
    pub reads : (q : ℕ) → view bs q ≡ f q

  abbrev pub update : (ℕ → Option D) → ℕ → Option D → ℕ → Option D
  update f h v q = if q == h then v else f q

  module _ (bs : List (List (Item D))) (pos : 0 < length bs) (placed : IsPlaced bs) (h : ℕ) where
    -- Every write replaces the bucket of `h` by a chain that differs in the items of `h` only.
    pub write-Holds :
        (v : Option D) (c : List (Item D)) (total : ℕ)
        → total + length (bucket_of bs h) ≡ length (flatten bs) + length c
        → ((q : ℕ) → q ≢ h → count q c ≡ count q (bucket_of bs h))
        → ((q : ℕ) → q ≢ h → find q c ≡ find q (bucket_of bs h))
        → count h c ≤ 1
        → find h c ≡ v
        → (v ≡ none → count h c ≡ 0)
        → Holds (length bs) total (update (view bs) h v) (set bs (h % length bs) c)
    write-Holds v c total size counts finds once reads filled = record {
      width = length-set bs _ c;
      entries = omega (arith, length-flatten-set (h % length bs) c bs (omega arith));
      placed = λ q i.
          rw (length-set, get_or-set bs (h % length bs) i c [] (omega arith))
            (ground (arith, placed q i, placed q (h % length bs), counts q, finds q));
      reads = λ q.
          rw (length-set, get_or-set bs (h % length bs) (q % length bs) c [] (omega arith))
            (ground (arith, finds q));
    }
