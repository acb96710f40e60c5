-- ===== src/HashArray/AutoResize.antt =====
-- `AutoResize`, which the hub's timer calls on its user list.
use verlihub.Base.{
  ℕ, ◌+◌, ◌*◌, ◌/◌, ◌%◌, ◌^◌, ◌≤◌, ◌<◌, ◌≡◌, refl, ap, ◌∙◌, sym, arith, false, ◌||◌, inl, inr, ltb,
  Bool-cases,
}
use verlihub.Run.{Returns}
use verlihub.HashArray.{nullable_chain, HashArray, word, auto_resize}
use verlihub.HashArray.Table.{IsValid, stored, total}
use verlihub.HashArray.Resize.{resize-Resized}

-- The new number of buckets of `AutoResize`.
abbrev grown : ℕ → ℕ
grown size = (size + size / 2 + 1) % word

module _ {D : Type 0} where
  -- Nothing that a lookup sees has changed, and the capacity is near the number of items.
  pub record Kept (m r : HashArray D) : Type 0 where
    pub valid : IsValid r
    pub reads : (q : ℕ) → stored r q ≡ stored m q
    pub size : r.size ≡ m.size
    pub total_is : total r ≡ total m
    pub idle : r.is_resizing ≡ false
    pub hooks : r.hooks ≡ m.hooks
    pub roomy : r.size ≤ 2 * r.buckets.capacity
    pub tight : r.buckets.capacity ≤ 2 * r.size + 1

  -- While the counter is below 2 ^ 30 and the capacity below 2 ^ 31, `AutoResize` on a valid table
  -- that is not being resized never faults. Every lookup, the counter, the number of items and
  -- the calls of OnAdd and OnRemove stay as they are, the table stays valid, and then `mSize <= 2 * capacity` and
  -- `capacity <= 2 * mSize + 1` hold.
  pub auto_resize-Kept :
      (m : HashArray D)
      → IsValid m
      → m.is_resizing ≡ false
      → m.size < 2 ^ 30
      → m.buckets.capacity < 2 ^ 31
      → Returns (auto_resize m) (Kept m)
  unfolding auto_resize
  auto_resize-Kept m v idle small narrow =
      elim (Bool-cases (
        ltb (m.buckets.capacity * 2 % word) m.size
        || ltb ((m.size * 2 + 1) % word) m.buckets.capacity)) [
          | inl off ↦
              let (r, run, k) = resize-Resized m (grown m.size) v.table (omega arith) in
              (
                r,
                rw off run,
                record {
                  valid = record {
                    table = k.table;
                    counts = k.size ∙ v.counts ∙ ap (λ n. n % word) (sym k.total_is);
                  };
                  reads = k.reads;
                  size = k.size;
                  total_is = k.total_is;
                  idle = k.resizing;
                  hooks = k.hooks;
                  roomy = omega (arith, k.size, k.capacity);
                  tight = omega (arith, k.size, k.capacity);
                },
              )
          | inr fine ↦ (
            m,
            rw fine,
            record {
              valid = v;
              reads = λ q. refl;
              size = refl;
              total_is = refl;
              idle = idle;
              hooks = refl;
              roomy = ground arith;
              tight = ground arith;
            },
          )
        ]
