-- ===== src/HashArray/History.antt =====
-- Any history of calls of a `tHashArray` against a plain map from hashes to elements.
use mathlib.Core.Path.{fun_ext}
use verlihub.Base.{
  ℕ, suc, ◌%◌, ◌<◌, ◌≡◌, refl, ap, ◌∙◌, sym, arith, Bool, true, false, not, ◌&&◌, Option, none,
  some, List, [], ◌∷◌, ◌==◌, if◌then◌else◌,
}
use verlihub.Run.{Run, ok, ◌>>=◌, Returns}
use verlihub.HashArray.{HashArray, is_some, word, new, add_with_hash, remove_by_hash, resize}
use verlihub.HashArray.Table.{IsValid, stored}
use verlihub.HashArray.Add.{Added-IsValid, add_with_hash-Added}
use verlihub.HashArray.Remove.{Removed-IsValid, remove_by_hash-Removed}
use verlihub.HashArray.Resize.{
  resize-Resized, unique_new-IsTable, view-unique_new, total-unique_new,
}

pub data Call {ℓ} (D : Type ℓ) : Type ℓ where
  adds : Option D → ℕ → Call D
  removes : ℕ → Call D
  -- to one more bucket than the number says
  resizes : ℕ → Call D

module _ {ℓ} {D : Type ℓ} where
  unfoldable pub step : HashArray D → Call D → Run (Bool × HashArray D)
  step m (adds e h) = add_with_hash m e h
  step m (removes h) = remove_by_hash m h
  step m (resizes n) = do r ← resize m (suc n); ok (true, r)

  unfoldable pub run : HashArray D → List (Call D) → Run (List Bool × HashArray D)
  run m [] = ok ([], m)
  run m (c ∷ cs) = do (b, m') ← step m c; (bs, last) ← run m' cs; ok (b ∷ bs, last)

  -- The specification: a map in which the first element of a hash stays until it is removed.
  unfoldable pub spec_step : (ℕ → Option D) → Call D → Bool × (ℕ → Option D)
  spec_step f (adds none h) = (false, f)
  spec_step f (adds (some d) h) =
      (not (is_some (f h)), λ q. if q == h && not (is_some (f h)) then some d else f q)
  spec_step f (removes h) = (is_some (f h), λ q. if q == h then none else f q)
  spec_step f (resizes n) = (true, f)

  unfoldable pub spec_run : (ℕ → Option D) → List (Call D) → List Bool × (ℕ → Option D)
  spec_run f [] = ([], f)
  spec_run f (c ∷ cs) =
      let r = spec_step f c in let rest = spec_run r.1 cs in (r.0 ∷ rest.0, rest.1)

module _ {D : Type 0} where
  pub record Refines (f : ℕ → Option D) (m : HashArray D) : Type 0 where
    pub valid : IsValid m
    pub idle : m.is_resizing ≡ false
    pub reads : stored m ≡ f

  StepsTo : Bool × (ℕ → Option D) → Bool × HashArray D → Type 0
  StepsTo s r = (r.0 ≡ s.0) × Refines s.1 r.1

  step-Refines :
      (c : Call D) (f : ℕ → Option D) (m : HashArray D)
      → Refines f m
      → Returns (step m c) (StepsTo (spec_step f c))
  unfolding step spec_step StepsTo add_with_hash is_some
  step-Refines (adds none h) f m v = ((false, m), refl, (refl, v))
  step-Refines (adds (some d) h) f m v =
      let (r, go, a) = add_with_hash-Added m v.valid.table d h in
      let at_h = ap (λ g. g h) v.reads in
      (
        r,
        go,
        (
          a.answers ∙ rw at_h,
          record {
            valid = Added-IsValid m d h r v.valid v.idle a;
            idle = a.resizing ∙ v.idle;
            reads = fun_ext (λ q. a.reads q ∙ rw (at_h, ap (λ g. g q) v.reads));
          },
        ),
      )
  step-Refines (removes h) f m v =
      let (r, go, a) = remove_by_hash-Removed m v.valid.table h in
      let at_h = ap (λ g. g h) v.reads in
      (
        r,
        go,
        (
          a.answers ∙ rw at_h,
          record {
            valid = Removed-IsValid m h r v.valid a;
            idle = a.resizing ∙ v.idle;
            reads = fun_ext (λ q. a.reads q ∙ rw (ap (λ g. g q) v.reads));
          },
        ),
      )
  step-Refines (resizes n) f m v =
      let (r, go, a) = resize-Resized m (suc n) v.valid.table (omega arith) in
      (
        (true, r),
        rw go,
        (
          refl,
          record {
            valid = record {
              table = a.table;
              counts = a.size ∙ v.valid.counts ∙ ap (λ n. n % word) (sym a.total_is);
            };
            idle = a.resizing;
            reads = fun_ext a.reads ∙ v.reads;
          },
        ),
      )

  run-Refines :
      (cs : List (Call D)) (f : ℕ → Option D) (m : HashArray D)
      → Refines f m
      → Returns (run m cs) (λ r. (r.0 ≡ (spec_run f cs).0) × Refines (spec_run f cs).1 r.1)
  unfolding run spec_run StepsTo
  run-Refines [] f m v = (([], m), refl, (refl, v))
  run-Refines (c ∷ cs) f m v =
      let (r, go, (same, w)) = step-Refines c f m v in
      let (r', go', (same', w')) = run-Refines cs (spec_step f c).1 r.1 w in
      ((r.0 ∷ r'.0, r'.1), rw (go, ◌>>=◌, go'), ((cc), w'))

  pub new-Refines : (n : ℕ) → 0 < n → Refines (λ q. none) (new n)
  unfolding new
  new-Refines n pos = record {
    valid = record {
      table = unique_new-IsTable n pos;
      counts = omega (arith, total-unique_new (new n) n);
    };
    idle = refl;
    reads = fun_ext (λ q. view-unique_new n q);
  }

  -- A table with a positive number of buckets, after any sequence of AddWithHash, RemoveByHash and
  -- Resize (to a positive size) calls, never faults. Each call answers as the map does, and the
  -- table stores exactly the map; it is valid, so `mSize` is the number of its items modulo 2 ^ 32.
  pub run-new :
      (n : ℕ) (cs : List (Call D))
      → 0 < n
      → Returns
          (run (new n) cs)
          λ r. (r.0 ≡ (spec_run (λ q. none) cs).0) × Refines (spec_run (λ q. none) cs).1 r.1
  run-new n cs pos = run-Refines cs (λ q. none) (new n) (new-Refines n pos)
