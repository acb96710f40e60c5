-- ===== src/HashArray/Remove.antt =====
-- `RemoveByHash` and `SetByHash` against the map that a table stores.
use verlihub.Base.{
  ℕ, ◌+◌, ◌-◌, ◌%◌, ◌≤◌, min, ◌≡◌, refl, ap, sym, subst, arith, Bool, false, Option, none, some,
  List, [], ◌∷◌, inl, inr, ◌⊎◌, ◌==◌, if◌then◌else◌, length, set, Option-cases, Bool-cases,
  ℕ_discrete,
}
use verlihub.Run.{◌>>=◌, Returns}
use verlihub.HashArray.Chain.{
  Item, find, count, delete_hash, find-eq-none, delete_hash-find, count-delete_hash,
  find-delete_hash_ne, length-delete_hash,
}
use verlihub.HashArray.Buckets.{bucket_of, Holds, update, write-Holds, length-flatten-set}
use verlihub.HashArray.{
  UniqueHashArray, unique_update, HashArray, Hook, on_remove, nullable_chain, is_some, dec,
  write_chain, removed, remove_from_chain, remove_by_hash,
}
use verlihub.HashArray.Table.{
  modulo-pos, IsTable, IsValid, stored, total, unique_slot-in, at-bucket, unique_get-bucket,
  write-IsTable,
}

abbrev pub removal_hooks {ℓ} : {D : Type ℓ} → Option D → List (Hook D) → List (Hook D)
removal_hooks none hs = hs
removal_hooks (some d) hs = on_remove d ∷ hs

module _ {D : Type 0} where
  -- What `RemoveByHash` does.
  pub record Removed (m : HashArray D) (h : ℕ) (r : Bool × HashArray D) : Type 0 where
    pub answers : r.0 ≡ is_some (stored m h)
    pub reads : (q : ℕ) → stored r.1 q ≡ (if q == h then none else stored m q)
    pub table : IsTable r.1.buckets
    pub capacity : r.1.buckets.capacity ≡ m.buckets.capacity
    pub total_is : total r.1 + (if r.0 then 1 else 0) ≡ total m
    pub size : r.1.size ≡ (if r.0 then dec m.size else m.size)
    pub hooks : r.1.hooks ≡ removal_hooks (stored m h) m.hooks
    pub resizing : r.1.is_resizing ≡ m.is_resizing

  module _ (m : HashArray D) (t : IsTable m.buckets) (h : ℕ) where
    abbrev c : List (Item D)
    c = bucket_of m.buckets.cells h

    bucket_le : length c ≤ total m
    bucket_le = omega (
      arith,
      length-flatten-set (h % length m.buckets.cells) [] m.buckets.cells
          (omega (arith, t.width, t.pos)),
    )

    delete-Holds :
        Holds
          (length m.buckets.cells)
          (total m - min 1 (count h c))
          (update (stored m) h none)
          (set m.buckets.cells (h % length m.buckets.cells) (delete_hash h c).1)
    delete-Holds =
        let once = (t.placed h (h % length m.buckets.cells)).once in
        let gone : count h (delete_hash h c).1 ≡ 0 =
          ground (arith, count-delete_hash h h c, once) in
        write-Holds m.buckets.cells (omega (arith, t.width, t.pos)) t.placed h none
          (delete_hash h c).1 (total m - min 1 (count h c))
          (omega (arith, bucket_le, length-delete_hash h c))
          (λ q n. ground (arith, count-delete_hash h q c)) (λ q n. find-delete_hash_ne h q c n)
          (omega (arith, gone)) (find-eq-none h (delete_hash h c).1 gone) (λ e. gone)

    found : (count h c ≡ 0) ⊎ ((d : D) × (stored m h ≡ some d) × (count h c ≡ 1))
    found = elim (ℕ_discrete (count h c) 0) [
      | yes absent ↦ inl absent
      | no present ↦ elim (Option-cases (stored m h)) [
        | inl e ↦ absurd (present ((t.placed h (h % length m.buckets.cells)).filled e))
        | inr (d, e) ↦ inr (d, e, omega (arith, (t.placed h (h % length m.buckets.cells)).once))
      ]
    ]

    Removed-write :
        (a : UniqueHashArray (List (Item D)))
        → a.cells ≡ set m.buckets.cells (h % length m.buckets.cells) (delete_hash h c).1
        → a.capacity ≡ m.buckets.capacity
        → Removed m h (removed (delete_hash h c).0 (record m { buckets = a }))
    unfolding removed is_some
    Removed-write a cells cap =
        let w =
          subst (Holds _ (total m - min 1 (count h c)) (update (stored m) h none)) (sym cells)
            delete-Holds in
        let table = write-IsTable m.buckets t h a w cap in
        elim found [
          | inl absent ↦
              let f = find-eq-none h c absent in
              rw (delete_hash-find h c, f)
                (record {
                  answers = rw f;
                  reads = w.reads;
                  table = table;
                  capacity = cap;
                  total_is = omega (arith, w.entries, absent);
                  size = refl;
                  hooks = rw f;
                  resizing = refl;
                })
          | inr (d, f, present) ↦
              rw (delete_hash-find h c, f)
                (record {
                  answers = rw f;
                  reads = w.reads;
                  table = table;
                  capacity = cap;
                  total_is = omega (arith, w.entries, present, bucket_le, length-delete_hash h c);
                  size = refl;
                  hooks = rw f;
                  resizing = refl;
                })
        ]

    Removed-absent : stored m h ≡ none → Removed m h (false, m)
    unfolding is_some
    Removed-absent f = record {
      answers = rw f;
      reads = λ q. ground arith;
      table = t;
      capacity = refl;
      total_is = omega arith;
      size = refl;
      hooks = rw f;
      resizing = refl;
    }

    remove_from_chain-Removed :
        (b : List (Item D))
        → c ≡ b
        → Returns (remove_from_chain m h (h % m.buckets.capacity) b) (Removed m h)
    unfolding remove_from_chain unique_update write_chain find
    remove_from_chain-Removed [] e = ((false, m), refl, Removed-absent (ap (find h) e))
    remove_from_chain-Removed (i ∷ b) e = elim (Bool-cases (i.hash == h)) [
      | inl head ↦
          rw (head, unique_slot-in m.buckets t h, ◌>>=◌, at-bucket m.buckets t h, ← e)
            (_, refl, Removed-write _ (rw t.width) refl)
      | inr tail ↦
          rw (tail, ← e)
            (
              _,
              refl,
              Removed-write (write_chain m.buckets (h % m.buckets.capacity) (delete_hash h c).1)
                  (rw t.width) refl,
            )
    ]

    -- `RemoveByHash` never faults on such a table.
    pub remove_by_hash-Removed : Returns (remove_by_hash m h) (Removed m h)
    unfolding remove_by_hash
    remove_by_hash-Removed =
        rw (modulo-pos h m.buckets.capacity t.pos, ◌>>=◌, unique_get-bucket m.buckets t h)
          (remove_from_chain-Removed c refl)

  -- The counter follows the number of items.
  pub Removed-IsValid :
      (m : HashArray D) (h : ℕ) (r : Bool × HashArray D) → IsValid m → Removed m h r → IsValid r.1
  Removed-IsValid m h r v a = record {
    table = a.table;
    counts = ground (arith, a.size, a.total_is, v.counts);
  }
