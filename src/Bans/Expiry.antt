-- ===== src/Bans/Expiry.antt =====
-- `RemoveOldShortTempBans`
use mathlib.Core.List.{flatten}
use mathlib.Core.Path.{fun_ext}
use verlihub.Base.{
  ℕ, ◌+◌, ◌%◌, ◌≡◌, ◌≢◌, refl, ap, ◌∙◌, sym, subst, arith, true, false, Option, none, some, List,
  [], ◌∷◌, ◌⊎◌, inl, inr, ◌==◌, ==_refl, if◌then◌else◌, length, Bool-cases, Option-cases,
  ℕ_discrete,
}
use verlihub.Run.{◌>>=◌, Returns}
use verlihub.HashArray.Chain.{Item, find, count, find-eq-none}
use verlihub.HashArray.Buckets.{update, flatten-view}
use verlihub.HashArray.{HashArray, is_some}
use verlihub.HashArray.Table.{stored}
use verlihub.HashArray.History.{Refines}
use verlihub.Bans.{TempBan, is_old, is_old_item, expire_items}
use verlihub.Bans.Lookup.{removed-Refines}

-- A ban that is not old, or none.
unfoldable pub unexpired : ℕ → Option TempBan → Option TempBan
unexpired limit none = none
unexpired limit (some b) = if is_old limit b then none else some b

-- The items that are still to come are items of the table, once each.
Pending : List (Item TempBan) → (ℕ → Option TempBan) → ℕ → Type 0
Pending is f q = (count q is ≡ 0) ⊎ ((count q is ≡ 1) × (find q is ≡ f q) × (is_some (f q) ≡ true))

-- The map without the old bans of some items.
abbrev without : ℕ → List (Item TempBan) → (ℕ → Option TempBan) → ℕ → Option TempBan
without limit is f q = if count q is == 0 then f q else unexpired limit (f q)

module _ (limit : ℕ) (i : Item TempBan) (is : List (Item TempBan)) (f : ℕ → Option TempBan)
    (p : (q : ℕ) → Pending (i ∷ is) f q) where
  head-value : (i.value ≡ f i.hash) × (is_some (f i.hash) ≡ true) × (count i.hash is ≡ 0)
  unfolding Pending count find
  head-value = elim (p i.hash) [
    | inl none' ↦ absurd (ground (arith, none', ==_refl i.hash))
    | inr (once, same, there) ↦ ground (arith, ==_refl i.hash)
  ]

  -- So are the others, also after a change of the first one's hash.
  rest-Pending :
      (g : ℕ → Option TempBan) → ((q : ℕ) → q ≢ i.hash → g q ≡ f q) → (q : ℕ) → Pending is g q
  unfolding Pending count find
  rest-Pending g same q = elim (ℕ_discrete q i.hash) [
    | yes e ↦ inl (ap (λ k. count k is) e ∙ head-value.2)
    | no n ↦ elim (p q) [
      | inl gone ↦ inl (ground arith)
      | inr (once, read, there) ↦
          inr (ground (arith, n), ground (arith, n, same q n), rw (same q n) there)
    ]
  ]

module _ (limit : ℕ) (i : Item TempBan) (is : List (Item TempBan)) (f : ℕ → Option TempBan)
    (b : TempBan) (there : f i.hash ≡ some b) (last : count i.hash is ≡ 0) where
  without-old :
      is_old limit b ≡ true
      → (q : ℕ) → without limit is (update f i.hash none) q ≡ without limit (i ∷ is) f q
  unfolding count unexpired
  without-old old q = elim (ℕ_discrete q i.hash) [
    | yes e ↦ rw (e, last, ==_refl i.hash, there, old) (ground arith)
    | no n ↦ ground (arith, n)
  ]

  without-young :
      is_old limit b ≡ false → (q : ℕ) → without limit is f q ≡ without limit (i ∷ is) f q
  unfolding count unexpired
  without-young young q = elim (ℕ_discrete q i.hash) [
    | yes e ↦ rw (e, last, ==_refl i.hash, there, young) (ground arith)
    | no n ↦ ground (arith, n)
  ]

expire_items-Refines :
    (limit : ℕ) (is : List (Item TempBan)) (f : ℕ → Option TempBan) (m : HashArray TempBan) (n : ℕ)
    → Refines f m
    → ((q : ℕ) → Pending is f q)
    → Returns (expire_items limit is m n) (λ r. Refines (without limit is f) r.1)
unfolding expire_items is_old_item count is_some
expire_items-Refines limit [] f m n v p = ((n, m), refl, v)
expire_items-Refines limit (i ∷ is) f m n v p =
    let (value, some', last) = head-value limit i is f p in
    elim (Option-cases (f i.hash)) [
      | inl none' ↦ cc (rw none' at some')
      | inr (b, there) ↦ elim (Bool-cases (is_old limit b)) [
        | inl old ↦
            let (r, go, k) = removed-Refines f m v i.hash in
            let (z, rest, w) =
              expire_items-Refines limit is (update f i.hash none) r.1 (n + 1) k
                (rest-Pending limit i is f p (update f i.hash none) (λ q ne. ground arith)) in
            (
              z,
              rw (value, there, ◌>>=◌, old, go) rest,
              subst (λ g. Refines g z.1) (fun_ext (without-old limit i is f b there last old)) w,
            )
        | inr young ↦
            let (z, rest, w) =
              expire_items-Refines limit is f m n v
                (rest-Pending limit i is f p f (λ q ne. refl)) in
            (
              z,
              rw (value, there, ◌>>=◌, young) rest,
              subst (λ g. Refines g z.1) (fun_ext (without-young limit i is f b there last young))
                  w,
            )
      ]
    ]

module _ (f : ℕ → Option TempBan) (m : HashArray TempBan) (v : Refines f m) where
  all-Pending : (q : ℕ) → Pending (flatten m.buckets.cells) f q
  unfolding Pending is_some
  all-Pending q =
      let (found, number) = flatten-view m.buckets.cells q v.valid.table.placed in
      let placed = v.valid.table.placed q (q % length m.buckets.cells) in
      let read : stored m q ≡ f q = ap (λ g. g q) v.reads in
      elim (Option-cases (f q)) [
        | inl none' ↦ inl (number ∙ placed.filled (read ∙ none'))
        | inr (b, there) ↦
            let present : count q (flatten m.buckets.cells) ≢ 0 = λ e.
              let gone = find-eq-none q (flatten m.buckets.cells) e in
              cc (gone, found, read, there) in
            inr (omega (arith, number, placed.once, present), found ∙ read, rw there refl)
      ]

  without-all : (limit q : ℕ) → without limit (flatten m.buckets.cells) f q ≡ unexpired limit (f q)
  unfolding unexpired Pending
  without-all limit q = elim (all-Pending q) [
    | inl gone ↦
        let (found, number) = flatten-view m.buckets.cells q v.valid.table.placed in
        let read : stored m q ≡ f q = ap (λ g. g q) v.reads in
        let none' : f q ≡ none =
          sym (found ∙ read) ∙ find-eq-none q (flatten m.buckets.cells) gone in
        rw (gone, none') refl
    | inr (once, same, there) ↦ rw once refl
  ]

  -- One of the two loops removes the bans that are old, or all if the limit is 0, and no others.
  pub expire-Refines :
      (limit n : ℕ)
      → Returns
          (expire_items limit (flatten m.buckets.cells) m n)
          (λ r. Refines (λ q. unexpired limit (f q)) r.1)
  expire-Refines limit n =
      let (z, go, w) = expire_items-Refines limit (flatten m.buckets.cells) f m n v all-Pending in
      (z, go, subst (λ g. Refines g z.1) (fun_ext (without-all limit)) w)
