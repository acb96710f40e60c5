-- ===== src/HashArray/Table.antt =====
-- Tables whose items are in place: `GetByHash` and `ContainsHash` read a map from hashes.
use mathlib.Core.List.{flatten}
use verlihub.Base.{
  ℕ, zero, suc, ◌%◌, ◌<◌, ◌≡◌, refl, ◌∙◌, sym, arith, Option, List, [], length, get_or,
  get_elem?-lt,
}
use verlihub.Run.{ok, ◌>>=◌, modulo, at, or_out_of_range}
use verlihub.HashArray.Chain.{Item}
use verlihub.HashArray.Buckets.{bucket_of, view, IsPlaced, Holds}
use verlihub.HashArray.{
  UniqueHashArray, unique_slot, unique_get, HashArray, nullable_chain, is_some, word, get_by_hash,
  contains_hash,
}

pub modulo-pos : (a n : ℕ) → 0 < n → modulo a n ≡ ok (a % n)
unfolding modulo
modulo-pos a zero h = absurd (omega arith)
modulo-pos a (suc n) h = refl

pub at-lt {κ} :
    {A : Type κ} (xs : List A) (i : ℕ) (d : A) → i < length xs → at xs i ≡ ok (get_or xs i d)
unfolding at or_out_of_range
at-lt xs i d h = rw (get_elem?-lt xs i d h)

module _ {D : Type 0} where
  -- The capacity is the vector's, there is a bucket, and items are in place.
  pub record IsTable (a : UniqueHashArray (List (Item D))) : Type 0 where
    pub width : length a.cells ≡ a.capacity
    pub pos : 0 < a.capacity
    pub placed : IsPlaced a.cells

  -- Beside that, `mSize` counts the items modulo the width of `unsigned`.
  pub record IsValid (m : HashArray D) : Type 0 where
    pub table : IsTable m.buckets
    pub counts : m.size ≡ length (flatten m.buckets.cells) % word

  -- What the table stores, as a map from hashes.
  abbrev pub stored : HashArray D → ℕ → Option D
  stored m = view m.buckets.cells

  abbrev pub total : HashArray D → ℕ
  total m = length (flatten m.buckets.cells)

  module _ (a : UniqueHashArray (List (Item D))) (t : IsTable a) (h : ℕ) where
    slot_lt : h % a.capacity < a.capacity
    slot_lt = omega (arith, t.pos)

    pub unique_slot-in : unique_slot a (h % a.capacity) ≡ ok (h % a.capacity)
    unfolding unique_slot
    unique_slot-in = ground (arith, slot_lt)

    pub at-bucket : at a.cells (h % a.capacity) ≡ ok (bucket_of a.cells h)
    at-bucket = rw t.width (at-lt a.cells (h % a.capacity) [] (omega (arith, t.width, slot_lt)))

    pub unique_get-bucket : unique_get a (h % a.capacity) ≡ ok (bucket_of a.cells h)
    unfolding unique_get
    unique_get-bucket = rw unique_slot-in at-bucket

    -- A write of a chain that differs from the bucket in the items of `h` only.
    pub write-IsTable :
        (b : UniqueHashArray (List (Item D))) {n : ℕ} {f : ℕ → Option D}
        → Holds (length a.cells) n f b.cells
        → b.capacity ≡ a.capacity
        → IsTable b
    write-IsTable b w e = record {
      width = w.width ∙ t.width ∙ sym e;
      pos = omega (arith, t.pos, e);
      placed = w.placed;
    }

  module _ (m : HashArray D) (t : IsTable m.buckets) (h : ℕ) where
    -- `GetByHash` reads the map, and never faults.
    pub get_by_hash-stored : get_by_hash m h ≡ ok (stored m h)
    unfolding get_by_hash
    get_by_hash-stored =
        rw (modulo-pos h m.buckets.capacity t.pos, ◌>>=◌, unique_get-bucket m.buckets t h)

    pub contains_hash-stored : contains_hash m h ≡ ok (is_some (stored m h))
    unfolding contains_hash
    contains_hash-stored =
        rw (modulo-pos h m.buckets.capacity t.pos, ◌>>=◌, unique_get-bucket m.buckets t h)
