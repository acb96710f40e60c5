-- ===== src/Timing/Sums.antt =====
-- What `Insert` and `CountAll` of `cMeanFrequency` do to the counts around the ring.
use native.Mathlib.Nat.{
  suc-mod, mod-lt, mod_self, mod-eq_of_lt, mod-eq-sub-mod, mod-add-mod, add-mod_right, zero-mod,
}
use verlihub.Base.{
  ℕ, zero, suc, ◌+◌, ◌-◌, ◌*◌, ◌%◌, ◌^◌, ◌≤◌, ◌<◌, ◌≡◌, ◌≢◌, refl, ap, ◌∙◌, sym, subst, arith, List,
  ltb, leb, ◌==◌, ==_refl, inl, inr, Bool-cases, if◌then◌else◌, length, get_or, set, get_or-set,
  length-set,
}
use verlihub.Run.{ok, ◌>>=◌, Returns}
use verlihub.HashArray.Table.{at-lt}
use verlihub.Timing.{Frequency, adjust, insert, sum_parts, count_all}
use verlihub.Timing.Moments.{micros}
use verlihub.Timing.Window.{IsWindow, IsRing}
use verlihub.Timing.Loops.{Covers, adjust-Covers}

-- The sum of `n` cells of a ring of `r` cells, from cell `i` on.
abbrev pub ring_sum : List ℕ → ℕ → ℕ → ℕ → ℕ
ring_sum cs r i zero = 0
ring_sum cs r i (suc n) = get_or cs (i % r) 0 + ring_sum cs r (suc i) n

-- The filled parts of a window.
abbrev pub window_sum : Frequency → ℕ
window_sum f = ring_sum f.counts f.resolution f.start_idx f.num_fill

next-mod : (i r : ℕ) → 0 < r → (if leb r (i % r + 1) then 0 else i % r + 1) ≡ suc i % r
next-mod i r pos = elim (Bool-cases (leb r (i % r + 1))) [
  | inl last ↦
      let edge : suc (i % r) ≡ r = ground (arith, mod-lt i pos) in
      rw last (sym (suc-mod i r ∙ (ap (λ k. k % r) edge ∙ mod_self r)))
  | inr inside ↦
      rw inside (omega (arith, suc-mod i r ∙ mod-eq_of_lt {n = suc (i % r)} {m = r} (ground arith)))
]

sum_parts-ring :
    (n : ℕ) (f : Frequency) (i sum : ℕ)
    → IsRing f
    → sum_parts n f (i % f.resolution) (sum % 2 ^ f.bits)
      ≡ ok ((sum + ring_sum f.counts f.resolution i n) % 2 ^ f.bits)
unfolding sum_parts
sum_parts-ring zero f i sum w = ap ok (ap (λ k. k % 2 ^ f.bits) (omega arith))
sum_parts-ring (suc n) f i sum w =
    let c = get_or f.counts (i % f.resolution) 0 in
    let here = at-lt f.counts (i % f.resolution) 0 (omega (arith, mod-lt i w.parts, w.wide)) in
    rw (here, next-mod i f.resolution w.parts, mod-add-mod sum (2 ^ f.bits) c)
      (sum_parts-ring n f (suc i) (sum + c) w ∙ ap ok (ap (λ k. k % 2 ^ f.bits) (omega arith)))

-- Below two turns.
turn : (p r : ℕ) → 0 < r → p < 2 * r → p % r ≡ (if ltb p r then p else p - r)
turn p r pos h = elim (Bool-cases (ltb p r)) [
  | inl first ↦ rw first (mod-eq_of_lt (ground arith))
  | inr second ↦
      rw second (mod-eq-sub-mod {n = p} {m = r} (ground arith) ∙ mod-eq_of_lt (ground arith))
]

-- Two indices less than a turn apart are different cells.
mod-ne : (p q r : ℕ) → 0 < r → q < p → p < q + r → p < 2 * r → p % r ≢ q % r
mod-ne p q r pos h k l e = ground (arith, turn p r pos l, turn q r pos (omega arith), e)

ring_sum-set :
    (cs : List ℕ) (r i n p v : ℕ)
    → 0 < r
    → r ≤ length cs
    → ((q : ℕ) → i ≤ q → q < i + n → p % r ≢ q % r)
    → ring_sum (set cs (p % r) v) r i n ≡ ring_sum cs r i n
ring_sum-set cs r i zero p v pos wide apart = refl
ring_sum-set cs r i (suc n) p v pos wide apart =
    let here : get_or (set cs (p % r) v) (i % r) 0 ≡ get_or cs (i % r) 0 =
      get_or-set cs (p % r) (i % r) v 0 (omega (arith, mod-lt p pos, wide))
      ∙ ground (arith, apart i (omega arith) (omega arith)) in
    omega (
      arith,
      here,
      ring_sum-set cs r (suc i) n p v pos wide (λ q a b. apart q (omega arith) (omega arith)),
    )

sum_parts-window :
    (g : Frequency)
    → IsRing g
    → sum_parts g.num_fill g g.start_idx 0 ≡ ok (window_sum g % 2 ^ g.bits)
sum_parts-window g ring =
    ap (λ j. sum_parts g.num_fill g j 0) (sym (mod-eq_of_lt ring.first))
    ∙ (ap (sum_parts g.num_fill g (g.start_idx % g.resolution)) (sym (zero-mod (2 ^ g.bits)))
        ∙ (sum_parts-ring g.num_fill g g.start_idx 0 ring
            ∙ ap ok (ap (λ k. k % 2 ^ g.bits) (omega arith))))

-- `CountAll` on a well-formed window never faults: it adjusts the window, and answers the sum of
-- the filled parts, modulo the width of its counters.
pub count_all-sum :
    (f : Frequency) (t : ℕ)
    → IsWindow f
    → Returns
        (count_all f (micros t))
        λ r. Covers f r.1 t × (adjust f (micros t) ≡ ok r.1) × (r.0 ≡ window_sum r.1 % 2 ^ r.1.bits)
unfolding count_all
count_all-sum f t w =
    let (g, run, c) = adjust-Covers f t w in
    (
      (window_sum g % 2 ^ g.bits, g),
      rw (run, ◌>>=◌, sum_parts-window g c.window.ring) refl,
      (c, run, refl),
    )

-- The cell that `Insert` writes to.
abbrev slot : Frequency → ℕ
slot a = (a.start_idx + a.num_fill) % a.resolution

abbrev added : Frequency → ℕ → Frequency
added a amount = record a {
  counts = set a.counts (slot a) ((get_or a.counts (slot a) 0 + amount) % 2 ^ a.bits);
}

-- What is added to the first of all cells.
full-sum :
    (cs : List ℕ) (r i n amount width : ℕ)
    → 0 < r
    → r ≤ length cs
    → i < r
    → n ≡ r
    → ring_sum (set cs ((i + n) % r) ((get_or cs ((i + n) % r) 0 + amount) % width)) r i n % width
      ≡ (ring_sum cs r i n + amount) % width
full-sum cs r i zero amount width pos wide first e = absurd (omega arith)
full-sum cs r i (suc n) amount width pos wide first e =
    let v = (get_or cs (i % r) 0 + amount) % width in
    let turned : (i + suc n) % r ≡ i % r = ap (λ k. (i + k) % r) e ∙ add-mod_right i r in
    let rest : ring_sum (set cs (i % r) v) r (suc i) n ≡ ring_sum cs r (suc i) n =
      ring_sum-set cs r (suc i) n i v pos wide
        (λ q lo hi same. mod-ne q i r pos (omega arith) (omega arith) (omega arith) (sym same)) in
    let here : get_or (set cs (i % r) v) (i % r) 0 ≡ v =
      get_or-set cs (i % r) (i % r) v 0 (omega (arith, mod-lt i pos))
      ∙ ap (λ b. if b then v else get_or cs (i % r) 0) (==_refl (i % r)) in
    ap (λ k. ring_sum (set cs k ((get_or cs k 0 + amount) % width)) r i (suc n) % width) turned
    ∙ rw (here, rest, mod-add-mod) (ap (λ k. k % width) (omega arith))

-- While a window is not full, what is added stands behind the filled parts; in a full one, it is
-- added to the first of them.
added-sum :
    (a : Frequency) (amount : ℕ)
    → IsRing a
    → window_sum (added a amount) % 2 ^ a.bits
      ≡ (window_sum a + (if a.num_fill == a.resolution then amount else 0)) % 2 ^ a.bits
added-sum a amount ring = elim (Bool-cases (a.num_fill == a.resolution)) [
  | inl full ↦ rw full (
      full-sum a.counts a.resolution a.start_idx a.num_fill amount (2 ^ a.bits) ring.parts ring.wide
        ring.first (ground arith))
  | inr room ↦
      let same : window_sum (added a amount) ≡ window_sum a =
        ring_sum-set a.counts a.resolution a.start_idx a.num_fill (a.start_idx + a.num_fill) _
          ring.parts ring.wide
          (λ q lo hi.
            mod-ne (a.start_idx + a.num_fill) q a.resolution ring.parts (ground arith)
              (ground (arith, ring.filled)) (omega (arith, ring.first, ring.filled))) in
      rw room (ap (λ k. k % 2 ^ a.bits) (omega (arith, same)))
]

-- `Insert` on a well-formed window never faults, and leaves a well-formed one. After its adjustment
-- the sum over the filled parts, modulo the width of the counters, grows by the added amount if
-- all parts are filled, and not at all otherwise: then the amount stands in the part behind them.
pub insert-sum :
    (f : Frequency) (t amount : ℕ)
    → IsWindow f
    → Returns (insert f (micros t) amount) λ g.
      Covers f g t
      × ((a : Frequency)
          → adjust f (micros t) ≡ ok a
          → window_sum g % 2 ^ g.bits
            ≡ (window_sum a + (if a.num_fill == a.resolution then amount else 0)) % 2 ^ g.bits)
unfolding insert
insert-sum f t amount w =
    let (a, run, c) = adjust-Covers f t w in
    let i : (if ltb 0 a.resolution
          then (a.start_idx + a.num_fill) % a.resolution
          else a.start_idx + a.num_fill)
        ≡ slot a =
      ground (arith, c.window.ring.parts) in
    (
      added a amount,
      rw
          (
            run,
            ◌>>=◌,
            i,
            at-lt a.counts (slot a) 0 (
                omega (
                  arith,
                  mod-lt (a.start_idx + a.num_fill) c.window.ring.parts,
                  c.window.ring.wide,
                )),
          )
          refl,
      (
        record {
          window = record {
            times = record {
              over = c.window.times.over;
              piece = c.window.times.piece;
              finish = c.window.times.finish;
              edge = c.window.times.edge;
              over_is = c.window.times.over_is;
              piece_is = c.window.times.piece_is;
              end_is = c.window.times.end_is;
              part_is = c.window.times.part_is;
              share = c.window.times.share;
              ticks = c.window.times.ticks;
            };
            ring = record {
              parts = c.window.ring.parts;
              wide = rw length-set c.window.ring.wide;
              first = c.window.ring.first;
              filled = c.window.ring.filled;
            };
          };
          reaches = c.reaches;
          same_parts = c.same_parts;
        },
        λ b same.
            let eq : a ≡ b = cc in
            subst
              (λ k.
                window_sum (added a amount) % 2 ^ a.bits
                ≡ (window_sum k + (if k.num_fill == k.resolution then amount else 0)) % 2 ^ a.bits)
              eq (added-sum a amount c.window.ring),
      ),
    )
