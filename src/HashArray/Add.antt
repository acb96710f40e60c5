-- ===== src/HashArray/Add.antt =====
-- `AddWithHash` against the map that a table stores.
use mathlib.Core.List.{flatten}
use verlihub.Base.{
  ℕ, ◌+◌, ◌%◌, ◌≡◌, ◌≢◌, refl, ap, ◌∙◌, sym, subst, arith, Bool, true, false, not, ◌&&◌, some, List,
  [], ◌∷◌, ◌++◌, inl, inr, ◌==◌, if◌then◌else◌, length, set, length-append, Option-cases,
  set-get_or, ℕ_discrete,
}
use verlihub.Run.{◌>>=◌, Returns}
use verlihub.HashArray.Chain.{
  Item, find, count, find-eq-none, count-append, find-append_absent, find-append_first,
  add_data_absent, add_data_present,
}
use verlihub.HashArray.Buckets.{bucket_of, Holds, update, write-Holds}
use verlihub.HashArray.{
  UniqueHashArray, unique_insert, HashArray, on_add, nullable_chain, is_some, inc, counted,
  added_unless, write_chain, add_to_chain, add_with_hash,
}
use verlihub.HashArray.Table.{
  modulo-pos, IsTable, IsValid, stored, total, unique_slot-in, at-bucket, unique_get-bucket,
  write-IsTable,
}

module _ {D : Type 0} where
  -- What `AddWithHash` does with an element that is not NULL.
  pub record Added (m : HashArray D) (d : D) (h : ℕ) (r : Bool × HashArray D) : Type 0 where
    pub answers : r.0 ≡ not (is_some (stored m h))
    pub reads :
        (q : ℕ)
        → stored r.1 q ≡ (if q == h && not (is_some (stored m h)) then some d else stored m q)
    pub table : IsTable r.1.buckets
    pub capacity : r.1.buckets.capacity ≡ m.buckets.capacity
    pub total_is : total r.1 ≡ (if r.0 then total m + 1 else total m)
    pub size : r.1.size ≡ (if r.0 && not m.is_resizing then inc m.size else m.size)
    pub hooks : r.1.hooks ≡ (if r.0 && not m.is_resizing then on_add d ∷ m.hooks else m.hooks)
    pub resizing : r.1.is_resizing ≡ m.is_resizing

  module _ (m : HashArray D) (t : IsTable m.buckets) (d : D) (h : ℕ) where
    abbrev item : Item D
    item = record { value = some d; hash = h }

    append-Holds :
        count h (bucket_of m.buckets.cells h) ≡ 0
        → Holds (length m.buckets.cells) (total m + 1) (update (stored m) h (some d)) (
            set m.buckets.cells
              (h % length m.buckets.cells)
              (bucket_of m.buckets.cells h ++ item ∷ []))
    unfolding count find
    append-Holds absent =
        let c = bucket_of m.buckets.cells h in
        write-Holds m.buckets.cells (omega (arith, t.width, t.pos)) t.placed h (some d)
          (c ++ item ∷ []) (total m + 1) (omega (arith, length-append c (item ∷ [])))
          (λ q n. ground (arith, count-append q c (item ∷ [])))
          (λ q n. find-append_first q c (item ∷ []) (ground arith))
          (ground (arith, count-append h c (item ∷ [])))
          (find-append_absent h c (item ∷ []) absent ∙ ground arith) (λ e. cc)

    -- The new item stands at the end of its bucket, and is counted.
    Added-append :
        (a : UniqueHashArray (List (Item D)))
        → count h (bucket_of m.buckets.cells h) ≡ 0
        → a.cells
          ≡ set m.buckets.cells
              (h % length m.buckets.cells)
              (bucket_of m.buckets.cells h ++ item ∷ [])
        → a.capacity ≡ m.buckets.capacity
        → Added m d h (true, counted (record m { buckets = a }) d)
    unfolding counted is_some
    Added-append a absent cells cap =
        let w =
          subst (Holds (length m.buckets.cells) (total m + 1) (update (stored m) h (some d)))
            (sym cells) (append-Holds absent) in
        let f = find-eq-none h (bucket_of m.buckets.cells h) absent in
        record {
          answers = rw f;
          reads = λ q. w.reads q ∙ rw f (ground arith);
          table = write-IsTable m.buckets t h a w cap;
          capacity = cap;
          total_is = w.entries;
          size = ground arith;
          hooks = ground arith;
          resizing = refl;
        }

    held : count h (bucket_of m.buckets.cells h) ≢ 0 → (x : D) × (stored m h ≡ some x)
    held present = elim (Option-cases (stored m h)) [
      | inl e ↦ absurd (present ((t.placed h (h % length m.buckets.cells)).filled e))
      | inr found ↦ found
    ]

    -- An item with the hash is left as it is.
    Added-keep :
        (a : UniqueHashArray (List (Item D)))
        → count h (bucket_of m.buckets.cells h) ≢ 0
        → a.cells ≡ set m.buckets.cells (h % length m.buckets.cells) (bucket_of m.buckets.cells h)
        → a.capacity ≡ m.buckets.capacity
        → Added m d h (false, record m { buckets = a })
    unfolding is_some
    Added-keep a present cells cap =
        let same = cells ∙ set-get_or m.buckets.cells (h % length m.buckets.cells) [] in
        let here : is_some (stored m h) ≡ true = rw (held present).1 in
        record {
          answers = rw here;
          reads = λ q. rw (same, here) (ground arith);
          table = record {
            width = ap length same ∙ t.width ∙ sym cap;
            pos = omega (arith, t.pos, cap);
            placed = rw same t.placed;
          };
          capacity = cap;
          total_is = ap (λ cs. length (flatten cs)) same;
          size = refl;
          hooks = refl;
          resizing = refl;
        }

    add_to_chain-Added :
        (c : List (Item D))
        → bucket_of m.buckets.cells h ≡ c
        → Returns (add_to_chain m d h (h % m.buckets.capacity) c) (Added m d h)
    unfolding add_to_chain unique_insert write_chain added_unless count
    add_to_chain-Added [] e =
        let a = record m.buckets {
          cells = set m.buckets.cells (h % m.buckets.capacity) (item ∷ []);
          used = inc m.buckets.used;
        } in
        (
          (true, counted (record m { buckets = a }) d),
          rw (unique_slot-in m.buckets t h, ◌>>=◌, at-bucket m.buckets t h, e),
          Added-append a (rw e) (rw (e, t.width)) refl,
        )
    add_to_chain-Added (i ∷ c) e = elim (ℕ_discrete (count h (i ∷ c)) 0) [
      | yes absent ↦
          let a = write_chain m.buckets (h % m.buckets.capacity) ((i ∷ c) ++ item ∷ []) in
          (
            (true, counted (record m { buckets = a }) d),
            rw (add_data_absent (some d) h (i ∷ c) absent),
            Added-append a (rw e absent) (rw (e, t.width)) refl,
          )
      | no present ↦
          let a = write_chain m.buckets (h % m.buckets.capacity) (i ∷ c) in
          (
            (false, record m { buckets = a }),
            rw (
              add_data_present (some d) h (i ∷ c) present,
              ap (find h) (sym e) ∙ (held (rw e present)).1,
            ),
            Added-keep a (rw e present) (rw (e, t.width)) refl,
          )
    ]

    -- `AddWithHash` never faults on such a table.
    pub add_with_hash-Added : Returns (add_with_hash m (some d) h) (Added m d h)
    unfolding add_with_hash
    add_with_hash-Added =
        rw (modulo-pos h m.buckets.capacity t.pos, ◌>>=◌, unique_get-bucket m.buckets t h)
          (add_to_chain-Added (bucket_of m.buckets.cells h) refl)

  -- Outside a resize the counter follows the number of items.
  pub Added-IsValid :
      (m : HashArray D) (d : D) (h : ℕ) (r : Bool × HashArray D)
      → IsValid m
      → m.is_resizing ≡ false
      → Added m d h r
      → IsValid r.1
  Added-IsValid m d h r v idle a = record {
    table = a.table;
    counts = ground (arith, a.size, a.total_is, v.counts);
  }
