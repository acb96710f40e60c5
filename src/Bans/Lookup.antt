-- ===== src/Bans/Lookup.antt =====
-- A change of one ban of a table, against the map that the table stores.
use mathlib.Core.Path.{fun_ext}
use verlihub.Base.{
  ℕ, ◌%◌, ◌≡◌, ◌≢◌, refl, ap, ◌∙◌, sym, arith, true, Option, none, some, List, inl, inr, ◌==◌,
  if◌then◌else◌, length, set, Option-cases,
}
use verlihub.Run.{◌>>=◌, Returns}
use verlihub.HashArray.Chain.{
  Item, count, set_item, find-eq-none, count-set_item, find-set_item, length-set_item,
}
use verlihub.HashArray.Buckets.{bucket_of, Holds, update, write-Holds}
use verlihub.HashArray.{HashArray, nullable_chain, is_some, word, write_chain, remove_by_hash}
use verlihub.HashArray.Table.{
  modulo-pos, IsTable, stored, total, unique_get-bucket, write-IsTable, get_by_hash-stored,
}
use verlihub.HashArray.Add.{add_with_hash-Added, Added-IsValid}
use verlihub.HashArray.Remove.{remove_by_hash-Removed, Removed-IsValid}
use verlihub.HashArray.History.{Refines}
use verlihub.Bans.{TempBan, write_ban, put_ban, drop_ban}

module _ (f : ℕ → Option TempBan) (m : HashArray TempBan) (v : Refines f m) (h : ℕ) where
  abbrev t : IsTable m.buckets
  t = v.valid.table

  abbrev c : List (Item TempBan)
  c = bucket_of m.buckets.cells h

  reads-at : stored m h ≡ f h
  reads-at = ap (λ g. g h) v.reads

  written-Holds :
      (b : TempBan)
      → is_some (f h) ≡ true
      → Holds
          (length m.buckets.cells)
          (total m)
          (update (stored m) h (some b))
          (set m.buckets.cells (h % length m.buckets.cells) (set_item h (some b) c).1)
  unfolding is_some
  written-Holds b there =
      let once = (t.placed h (h % length m.buckets.cells)).once in
      let present : count h c ≢ 0 = λ e. ground (arith, find-eq-none h c e, reads-at, there) in
      write-Holds m.buckets.cells (omega (arith, t.width, t.pos)) t.placed h (some b)
        (set_item h (some b) c).1 (total m) (omega (arith, length-set_item h (some b) c))
        (λ q n. count-set_item h q (some b) c) (λ q n. ground (arith, find-set_item h q (some b) c))
        (omega (arith, count-set_item h h (some b) c, once))
        (ground (arith, find-set_item h h (some b) c, present)) (λ e. cc)

  write_ban-Refines :
      (b : TempBan)
      → is_some (f h) ≡ true
      → Returns (write_ban m h b) (Refines (update f h (some b)))
  unfolding write_ban write_chain
  write_ban-Refines b there =
      let a = write_chain m.buckets (h % m.buckets.capacity) (set_item h (some b) c).1 in
      let w : Holds (length m.buckets.cells) (total m) (update (stored m) h (some b)) a.cells =
        rw (sym t.width) (written-Holds b there) in
      (
        record m { buckets = a },
        rw (modulo-pos h m.buckets.capacity t.pos, ◌>>=◌, unique_get-bucket m.buckets t h) refl,
        record {
          valid = record {
            table = write-IsTable m.buckets t h a w refl;
            counts = v.valid.counts ∙ ap (λ n. n % word) (sym w.entries);
          };
          idle = v.idle;
          reads =
              fun_ext
                (λ q. w.reads q ∙ ap (λ k. if q == h then some b else k) (ap (λ g. g q) v.reads));
        },
      )

  -- The functions that add a ban: the ban of the hash is this one now.
  pub put_ban-Refines : (b : TempBan) → Returns (put_ban m h b) (Refines (update f h (some b)))
  unfolding put_ban is_some
  put_ban-Refines b = elim (Option-cases (f h)) [
    | inl none' ↦
        let (r, go, a) = add_with_hash-Added m t b h in
        let absent : stored m h ≡ none = reads-at ∙ none' in
        (
          r.1,
          rw (get_by_hash-stored m t h, absent, ◌>>=◌, go) refl,
          record {
            valid = Added-IsValid m b h r v.valid v.idle a;
            idle = a.resizing ∙ v.idle;
            reads = fun_ext (λ q. a.reads q ∙ rw (absent, ap (λ g. g q) v.reads) (ground arith));
          },
        )
    | inr (old, there) ↦
        let (r, go, k) = write_ban-Refines b (rw there refl) in
        (r, rw (get_by_hash-stored m t h, reads-at, there, ◌>>=◌) go, k)
  ]

  pub removed-Refines : Returns (remove_by_hash m h) (λ r. Refines (update f h none) r.1)
  removed-Refines =
      let (r, go, a) = remove_by_hash-Removed m t h in
      (
        r,
        go,
        record {
          valid = Removed-IsValid m h r v.valid a;
          idle = a.resizing ∙ v.idle;
          reads =
              fun_ext
                (λ q. a.reads q ∙ ap (λ k. if q == h then none else k) (ap (λ g. g q) v.reads));
        },
      )

  -- The functions that delete one: there is none for the hash.
  pub drop_ban-Refines : Returns (drop_ban m h) (Refines (update f h none))
  unfolding drop_ban is_some
  drop_ban-Refines = elim (Option-cases (f h)) [
    | inl none' ↦
        let absent : stored m h ≡ none = reads-at ∙ none' in
        (
          m,
          rw (get_by_hash-stored m t h, absent, ◌>>=◌) refl,
          record {
            valid = v.valid;
            idle = v.idle;
            reads = v.reads ∙ fun_ext (λ q. ground (arith, none'));
          },
        )
    | inr (old, there) ↦
        let (r, go, k) = removed-Refines in
        (r.1, rw (get_by_hash-stored m t h, reads-at, there, ◌>>=◌, go) refl, k)
  ]
