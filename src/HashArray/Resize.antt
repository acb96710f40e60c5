-- ===== src/HashArray/Resize.antt =====
-- `Resize` and `AutoResize` keep what a table stores.
use mathlib.Core.List.{flatten}
use mathlib.Core.Option.{or_else}
use mathlib.Core.Path.{fun_ext}
use verlihub.Base.{
  ℕ, zero, suc, ◌+◌, ◌%◌, ◌≤◌, ◌<◌, ◌≡◌, ◌≢◌, refl, ◌∙◌, sym, arith, Bool, true, false, none, some,
  List, [], ◌∷◌, ◌++◌, inl, inr, length, replicate, Option-cases, ==_refl, length-replicate,
  get_or-replicate,
}
use verlihub.Run.{◌>>=◌, Returns, regroup_steps}
use verlihub.HashArray.Chain.{Item, find, count, find-eq-none}
use verlihub.HashArray.Buckets.{view, flatten-view}
use verlihub.HashArray.{
  unique_new, nullable_chain, is_some, HashArray, move_items, move_buckets, resize,
}
use verlihub.HashArray.Table.{IsTable, stored, total}
use verlihub.HashArray.Add.{Added, add_with_hash-Added}

no-items {ℓ} : {D : Type ℓ} (n : ℕ) → flatten {A = Item D} (replicate n []) ≡ []
unfolding replicate flatten
no-items zero = refl
no-items (suc n) = no-items n

module _ {D : Type 0} where
  -- The two loops of `Resize` are one loop over all items.
  move_items-append :
      (a b : List (Item D)) (m : HashArray D)
      → move_items (a ++ b) m ≡ move_items a m >>= move_items b
  unfolding move_items
  move_items-append [] b m = refl
  move_items-append (i ∷ a) b m = simp (regroup_steps, move_items-append a b)

  move_buckets-flatten :
      (cs : List (List (Item D))) (m : HashArray D) → move_buckets cs m ≡ move_items (flatten cs) m
  unfolding move_items move_buckets flatten
  move_buckets-flatten [] m = refl
  move_buckets-flatten (c ∷ cs) m = rw (move_items-append, ← fun_ext (move_buckets-flatten cs))

  -- An empty table.
  pub unique_new-IsTable : (n : ℕ) → 0 < n → IsTable {D = D} (unique_new n)
  unfolding unique_new count find
  unique_new-IsTable n pos = record {
    width = length-replicate n [];
    pos = pos;
    placed = λ q i.
        rw get_or-replicate (record { once = omega arith; home = λ _. refl; filled = λ _. refl });
  }

  pub view-unique_new : (n q : ℕ) → view {D = D} (unique_new n).cells q ≡ none
  unfolding unique_new find
  view-unique_new n q = rw get_or-replicate

  pub total-unique_new : (m : HashArray D) (n : ℕ) → total (record m { buckets = unique_new n }) ≡ 0
  unfolding unique_new
  total-unique_new m n = rw no-items

  -- Items with different hashes and no NULL.
  record AreItems (es : List (Item D)) : Type 0 where
    once : (q : ℕ) → count q es ≤ 1
    filled : (q : ℕ) → find q es ≡ none → count q es ≡ 0

  -- `m'` stores the items `es` beside those of `m`; a table that is being resized counts nothing.
  record Moved (es : List (Item D)) (m m' : HashArray D) : Type 0 where
    table : IsTable m'.buckets
    capacity : m'.buckets.capacity ≡ m.buckets.capacity
    total_is : total m' ≡ total m + length es
    reads : (q : ℕ) → stored m' q ≡ or_else (stored m q) (find q es)
    size : m'.size ≡ m.size
    hooks : m'.hooks ≡ m.hooks
    resizing : m'.is_resizing ≡ true

  count-head : (i : Item D) (es : List (Item D)) → count i.hash (i ∷ es) ≡ 1 + count i.hash es
  unfolding count
  count-head i es = ground arith

  AreItems-head :
      (i : Item D) (es : List (Item D))
      → AreItems (i ∷ es)
      → (d : D) × (i.value ≡ some d) × (count i.hash es ≡ 0)
  unfolding find
  AreItems-head i es w = elim (Option-cases i.value) [
    | inl e ↦ absurd (omega (arith, w.filled i.hash (rw ==_refl e), count-head i es))
    | inr (d, e) ↦ (d, e, omega (arith, w.once i.hash, count-head i es))
  ]

  AreItems-tail : (i : Item D) (es : List (Item D)) → AreItems (i ∷ es) → AreItems es
  unfolding count find
  AreItems-tail i es w = record {
    once = λ q. ground (arith, w.once q);
    filled = λ q e. ground (arith, w.once q, w.filled q);
  }

  module _ (i : Item D) (es : List (Item D)) (m : HashArray D) where
    -- One round of the loop, with the rounds after it.
    Moved-cons :
        (d : D) (r : Bool × HashArray D) (m' : HashArray D)
        → i.value ≡ some d
        → count i.hash es ≡ 0
        → stored m i.hash ≡ none
        → m.is_resizing ≡ true
        → Added m d i.hash r
        → Moved es r.1 m'
        → Moved (i ∷ es) m m'
    unfolding or_else find is_some
    Moved-cons d r m' e rest fresh busy a moved =
        let new : r.0 ≡ true = a.answers ∙ rw fresh in
        record {
          table = moved.table;
          capacity = moved.capacity ∙ a.capacity;
          total_is = ground (arith, moved.total_is, a.total_is, new);
          reads =
              λ q. moved.reads q ∙ ground (arith, a.reads q, find-eq-none i.hash es rest, e, fresh);
          size = moved.size ∙ a.size ∙ rw (new, busy);
          hooks = moved.hooks ∙ a.hooks ∙ rw (new, busy);
          resizing = moved.resizing;
        }

  move_items-Moved :
      (es : List (Item D)) (m : HashArray D)
      → IsTable m.buckets
      → m.is_resizing ≡ true
      → AreItems es
      → ((q : ℕ) → count q es ≢ 0 → stored m q ≡ none)
      → Returns (move_items es m) (Moved es m)
  unfolding move_items find or_else count is_some
  move_items-Moved [] m t busy w apart = (
    m,
    refl,
    record {
      table = t;
      capacity = refl;
      total_is = omega arith;
      reads = λ q. ground arith;
      size = refl;
      hooks = refl;
      resizing = busy;
    },
  )
  move_items-Moved (i ∷ es) m t busy w apart =
      let (d, e, rest) = AreItems-head i es w in
      let fresh : stored m i.hash ≡ none = apart i.hash (λ z. omega (arith, z, count-head i es)) in
      let (r, run, a) = add_with_hash-Added m t d i.hash in
      let (m', go, moved) =
        move_items-Moved es r.1 a.table (a.resizing ∙ busy) (AreItems-tail i es w)
          (λ q n. a.reads q ∙ ground (arith, rest, apart q, fresh)) in
      (m', rw (e, run, ◌>>=◌) go, Moved-cons i es m d r m' e rest fresh busy a moved)

  -- `Resize` copies every item, and changes nothing but the buckets.
  pub record Resized (m : HashArray D) (n : ℕ) (r : HashArray D) : Type 0 where
    pub table : IsTable r.buckets
    pub capacity : r.buckets.capacity ≡ n
    pub total_is : total r ≡ total m
    pub reads : (q : ℕ) → stored r q ≡ stored m q
    pub size : r.size ≡ m.size
    pub hooks : r.hooks ≡ m.hooks
    pub resizing : r.is_resizing ≡ false

  -- Resizing to a positive number of buckets never faults.
  pub resize-Resized :
      (m : HashArray D) (n : ℕ) → IsTable m.buckets → 0 < n → Returns (resize m n) (Resized m n)
  unfolding resize or_else unique_new
  resize-Resized m n t pos =
      let es = flatten m.buckets.cells in
      let items : AreItems es = record {
        once = λ q.
            let (f, c) = flatten-view m.buckets.cells q t.placed in
            omega (arith, c, (t.placed q (q % length m.buckets.cells)).once);
        filled = λ q e.
            let (f, c) = flatten-view m.buckets.cells q t.placed in
            c ∙ (t.placed q (q % length m.buckets.cells)).filled (sym f ∙ e);
      } in
      let start = record m { buckets = unique_new n; is_resizing = true } in
      let (m', go, moved) =
        move_items-Moved es start (unique_new-IsTable n pos) refl items
          (λ q _. view-unique_new n q) in
      (
        record m' { is_resizing = false },
        rw (move_buckets-flatten, go),
        record {
          table = moved.table;
          capacity = moved.capacity;
          total_is = omega (arith, moved.total_is, total-unique_new m n);
          reads = λ q.
              moved.reads q
              ∙ ground (arith, view-unique_new n q, (flatten-view m.buckets.cells q t.placed).0);
          size = moved.size;
          hooks = moved.hooks;
          resizing = refl;
        },
      )
