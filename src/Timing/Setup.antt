-- ===== src/Timing/Setup.antt =====
-- The constructor of `cMeanFrequency` and `SetPeriod`, and whole histories of a counter.
use native.Mathlib.Nat.{le-div_iff_mul-le}
use verlihub.Base.{
  ℕ, ◌+◌, ◌/◌, ◌≤◌, ◌<◌, ◌≡◌, refl, ap, ◌∙◌, arith, true, List, [], ◌∷◌, ltb, if◌then◌else◌,
  length-replicate,
}
use verlihub.Run.{Run, ok, ◌>>=◌, Returns}
use verlihub.Timing.{Frequency, reset, set_period, new_frequency, divided, insert, count_all}
use verlihub.Timing.Moments.{micros, plus-micros, divided-micros}
use verlihub.Timing.Window.{IsWindow}
use verlihub.Timing.Sums.{insert-sum, count_all-sum}

-- A part of a period that has a microsecond for each is not empty.
piece_pos : (over res : ℕ) → 0 < res → res ≤ over → 0 < over / res
piece_pos over res pos room =
    (le-div_iff_mul-le {k = res} {x = 1} {y = over} pos).1 (omega (arith, room))

shared :
    (over res : ℕ)
    → 0 < res
    → (if ltb 0 res then divided (micros over) res else micros over) ≡ micros (over / res)
shared over res pos =
    let yes : ltb 0 res ≡ true = ground arith in
    ap (λ b. if b then divided (micros over) res else micros over) yes ∙ divided-micros over res pos

-- A new window, of a period in which each part has at least a microsecond, and of an array that
-- has a cell for each part, is well formed.
pub new-IsWindow :
    (bits width now over res : ℕ)
    → 0 < res
    → res ≤ width
    → res ≤ over
    → IsWindow (new_frequency bits width (micros now) (micros over) res)
unfolding new_frequency reset
new-IsWindow bits width now over res pos wide room = record {
  times = record {
    over = over;
    piece = over / res;
    finish = now + over;
    edge = now + over / res;
    over_is = refl;
    piece_is = shared over res pos;
    end_is = plus-micros now over;
    part_is = rw (shared over res pos) (plus-micros now (over / res));
    share = refl;
    ticks = piece_pos over res pos room;
  };
  ring = record {
    parts = pos;
    wide = rw (length-replicate, length-replicate) wide;
    first = pos;
    filled = omega arith;
  };
}

-- So is one whose period was set anew.
pub set_period-IsWindow :
    (f : Frequency) (over : ℕ)
    → IsWindow f
    → f.resolution ≤ over
    → IsWindow (set_period f (micros over))
unfolding set_period
set_period-IsWindow f over w room = record {
  times = record {
    over = over;
    piece = over / f.resolution;
    finish = w.times.finish;
    edge = w.times.edge;
    over_is = refl;
    piece_is = shared over f.resolution w.ring.parts;
    end_is = w.times.end_is;
    part_is = w.times.part_is;
    share = refl;
    ticks = piece_pos over f.resolution w.ring.parts room;
  };
  ring = record {
    parts = w.ring.parts;
    wide = w.ring.wide;
    first = w.ring.first;
    filled = w.ring.filled;
  };
}

-- What a server does with a counter: it counts an amount, reads the count, or sets the period.
pub data Event : Type 0 where
  adds_amount : ℕ → ℕ → Event
  reads_count : ℕ → Event
  sets_period : ℕ → Event

unfoldable pub handle : Frequency → Event → Run Frequency
handle f (adds_amount t amount) = insert f (micros t) amount
handle f (reads_count t) = count_all f (micros t) >>= (λ r. ok r.1)
handle f (sets_period over) = ok (set_period f (micros over))

unfoldable pub handle_all : Frequency → List Event → Run Frequency
handle_all f [] = ok f
handle_all f (e ∷ es) = handle f e >>= (λ g. handle_all g es)

-- A period gives each part a microsecond at least.
abbrev pub AreLong : ℕ → List Event → Type 0
AreLong res [] = Unit {0}
AreLong res (adds_amount t amount ∷ es) = AreLong res es
AreLong res (reads_count t ∷ es) = AreLong res es
AreLong res (sets_period over ∷ es) = (res ≤ over) × AreLong res es

Stays : ℕ → Frequency → Type 0
Stays res g = IsWindow g × (g.resolution ≡ res)

handle_all-Stays :
    (es : List Event) (f : Frequency) (res : ℕ)
    → Stays res f
    → AreLong res es
    → Returns (handle_all f es) (Stays res)
unfolding handle handle_all Stays set_period
handle_all-Stays [] f res w long = (f, refl, w)
handle_all-Stays (adds_amount t amount ∷ es) f res w long =
    let (g, go, (c, sums)) = insert-sum f t amount w.0 in
    let (h, rest, s) = handle_all-Stays es g res (c.window, c.same_parts ∙ w.1) long in
    (h, rw (go, ◌>>=◌) rest, s)
handle_all-Stays (reads_count t ∷ es) f res w long =
    let (r, go, (c, same, sum)) = count_all-sum f t w.0 in
    let (h, rest, s) = handle_all-Stays es r.1 res (c.window, c.same_parts ∙ w.1) long in
    (h, rw (go, ◌>>=◌) rest, s)
handle_all-Stays (sets_period over ∷ es) f res w long =
    handle_all-Stays es (set_period f (micros over)) res
      (set_period-IsWindow f over w.0 (rw w.1 long.0), w.1) long.1

-- A counter with a cell for each part, and with periods in which each part has at least a
-- microsecond, never faults and always ends, whatever amounts are counted and counts are read at
-- whatever moments and in whatever order, also when the clock goes back; it stays well formed.
pub handle_all-new :
    (bits width now over res : ℕ) (es : List Event)
    → 0 < res
    → res ≤ width
    → res ≤ over
    → AreLong res es
    → Returns (handle_all (new_frequency bits width (micros now) (micros over) res) es) IsWindow
unfolding Stays new_frequency reset
handle_all-new bits width now over res es pos wide room long =
    let (g, go, s) =
      handle_all-Stays es (new_frequency bits width (micros now) (micros over) res) res
        (new-IsWindow bits width now over res pos wide room, refl) long in
    (g, go, s.0)
