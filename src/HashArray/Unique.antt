-- ===== src/HashArray/Unique.antt =====
-- `tUniqueHashArray` by itself: its bounds check lets one index through.
use verlihub.Base.{
  ℕ, ◌%◌, ◌<◌, ◌≡◌, ◌≢◌, ap, sym, ◌∙◌, arith, ◌↔◌, inl, inr, ◌==◌, ltb, Bool-cases, if◌then◌else◌,
  length, get_elem?-ge, get_or, set, get_or-set, length-set, ℕ_discrete,
}
use native.Mathlib.Nat.{mod-eq_of_lt}
use verlihub.Run.{ok, fault, out_of_range, ◌>>=◌, at, or_out_of_range, Returns}
use verlihub.HashArray.{Nullable, UniqueHashArray, unique_slot, unique_get, unique_update, inc, dec}
use verlihub.HashArray.Table.{modulo-pos, at-lt}

module _ {A : Type 0} ⦃nullable : Nullable A⦄ (a : UniqueHashArray A)
    (width : length a.cells ≡ a.capacity) (pos : 0 < a.capacity) where
  unique_slot-ne : (h : ℕ) → h ≢ a.capacity → unique_slot a h ≡ ok (h % a.capacity)
  unfolding unique_slot
  unique_slot-ne h n = elim (Bool-cases (ltb a.capacity h)) [
    | inl big ↦ rw (big, modulo-pos h a.capacity pos)
    | inr small ↦ rw small (ap ok (sym (mod-eq_of_lt (ground arith))))
  ]

  unique_get-ne :
      (h : ℕ) → h ≢ a.capacity → unique_get a h ≡ ok (get_or a.cells (h % a.capacity) nullable.null)
  unfolding unique_get
  unique_get-ne h n =
      rw (unique_slot-ne h n, ◌>>=◌)
        (at-lt a.cells (h % a.capacity) nullable.null (omega (arith, width, pos)))

  at_capacity : unique_get a a.capacity ≡ fault out_of_range
  unfolding unique_get unique_slot at or_out_of_range
  at_capacity = ground (arith, get_elem?-ge a.cells a.capacity (omega (arith, width)))

module _ {A : Type 0} ⦃nullable : Nullable A⦄ (a : UniqueHashArray A)
    (width : length a.cells ≡ a.capacity) (pos : 0 < a.capacity) where
  -- The vector has `mCapacity` cells. `Get` reads behind its end exactly at the hash that equals
  -- the capacity, since the guard is `hash > mCapacity`.
  pub unique_get-out_of_range : (h : ℕ) → (unique_get a h ≡ fault out_of_range) ↔ (h ≡ a.capacity)
  unique_get-out_of_range h = (
    λ e. elim (ℕ_discrete h a.capacity) [
      | yes same ↦ same
      | no n ↦ cc (unique_get-ne a width pos h n)
    ],
    λ e. rw e (at_capacity a width pos),
  )

  updated : A → ℕ → UniqueHashArray A
  updated new i = record a {
    cells = set a.cells i new;
    used =
        (if nullable.is_null (get_or a.cells i nullable.null)
          then (if nullable.is_null new then a.used else inc a.used)
          else (if nullable.is_null new then dec a.used else a.used));
  }

  -- `Update` at a hash other than the capacity returns what `Get` returned there. `Get` then reads
  -- the new data at every hash of that cell, and what it read before at every hash of another.
  pub unique_update-get :
      (new : A) (h : ℕ)
      → h ≢ a.capacity
      → Returns (unique_update a new h) λ r.
        (unique_get a h ≡ ok r.0)
        × ((q : ℕ)
            → q ≢ a.capacity
            → unique_get r.1 q
              ≡ (if h % a.capacity == q % a.capacity then ok new else unique_get a q))
  unfolding unique_update updated
  unique_update-get new h n =
      let i = h % a.capacity in
      let b = updated new i in
      (
        (get_or a.cells i nullable.null, b),
        rw (
          unique_slot-ne a width pos h n,
          ◌>>=◌,
          at-lt a.cells i nullable.null (omega (arith, width, pos)),
        ),
        (
          unique_get-ne a width pos h n,
          λ q m.
              unique_get-ne b (length-set a.cells i new ∙ width) pos q m
              ∙ rw
                  (
                    get_or-set a.cells i (q % a.capacity) new nullable.null
                        (omega (arith, width, pos)),
                    unique_get-ne a width pos q m,
                  )
                  (ground arith),
        ),
      )
