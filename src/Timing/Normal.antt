-- ===== src/Timing/Normal.antt =====
-- `Normalize` on any seconds and microseconds.
use verlihub.Base.{
  ℕ, suc, ◌+◌, ◌*◌, ◌/◌, ◌%◌, ◌<◌, ◌≡◌, ap, ◌∙◌, sym, arith, true, false, ℤ, pos, negsuc, sub_ℕ,
  ltb, ◌+ℤ◌, ◌-ℤ◌, mul_int, lt_int,
}
use verlihub.Timing.{
  Time, carry_seconds, borrow_negative, borrow_positive, normalize, minus, before,
}
use verlihub.Timing.Moments.{second, micros}

-- A moment in microseconds.
abbrev pub value : Time → ℤ
value t = mul_int t.sec second +ℤ t.usec

-- Less than a second of microseconds, with the sign of the seconds.
abbrev pub magnitude : ℤ → ℕ
magnitude (pos n) = n
magnitude (negsuc n) = suc n

pub record IsNormal (t : Time) : Type 0 where
  pub small : magnitude t.usec < second
  pub not_below : lt_int t.sec (pos 0) ≡ true → lt_int (pos 0) t.usec ≡ false
  pub not_above : lt_int (pos 0) t.sec ≡ true → lt_int t.usec (pos 0) ≡ false

abbrev at_time : ℤ → ℤ → Time
at_time s u = record { sec = s; usec = u }

carry-value : (s u : ℤ) → value (carry_seconds (at_time s u)) ≡ value (at_time s u)
unfolding carry_seconds
carry-value (pos s) (pos u) = ground arith
carry-value (pos s) (negsuc u) = ground arith
carry-value (negsuc s) (pos u) = ground arith
carry-value (negsuc s) (negsuc u) = ground arith

carry-small : (s u : ℤ) → magnitude (carry_seconds (at_time s u)).usec < second
unfolding carry_seconds
carry-small (pos s) (pos u) = ground arith
carry-small (pos s) (negsuc u) = ground arith
carry-small (negsuc s) (pos u) = ground arith
carry-small (negsuc s) (negsuc u) = ground arith

negative-value : (s u : ℤ) → value (borrow_negative (at_time s u)) ≡ value (at_time s u)
unfolding borrow_negative
negative-value (pos s) (pos u) = ground arith
negative-value (pos s) (negsuc u) = ground arith
negative-value (negsuc s) (pos u) = ground arith
negative-value (negsuc s) (negsuc u) = ground arith

positive-value : (s u : ℤ) → value (borrow_positive (at_time s u)) ≡ value (at_time s u)
unfolding borrow_positive
positive-value (pos s) (pos u) = ground arith
positive-value (pos s) (negsuc u) = ground arith
positive-value (negsuc s) (pos u) = ground arith
positive-value (negsuc s) (negsuc u) = ground arith

borrow-IsNormal :
    (s u : ℤ) → magnitude u < second → IsNormal (borrow_positive (borrow_negative (at_time s u)))
unfolding borrow_positive borrow_negative
borrow-IsNormal (pos s) (pos u) h = record {
  small = ground arith;
  not_below = ground arith;
  not_above = ground arith;
}
borrow-IsNormal (pos s) (negsuc u) h = record {
  small = ground arith;
  not_below = ground arith;
  not_above = ground arith;
}
borrow-IsNormal (negsuc s) (pos u) h = record {
  small = ground arith;
  not_below = ground arith;
  not_above = ground arith;
}
borrow-IsNormal (negsuc s) (negsuc u) h = record {
  small = ground arith;
  not_below = ground arith;
  not_above = ground arith;
}

-- For any seconds and microseconds, `Normalize` keeps the moment in microseconds, and leaves less
-- than a second of microseconds, which do not have the opposite sign of the seconds.
pub normalize-IsNormal : (t : Time) → (value (normalize t) ≡ value t) × IsNormal (normalize t)
unfolding normalize
normalize-IsNormal t =
    let c = carry_seconds t in
    let b = borrow_negative c in
    (
      positive-value b.sec b.usec ∙ (negative-value c.sec c.usec ∙ carry-value t.sec t.usec),
      borrow-IsNormal c.sec c.usec (carry-small t.sec t.usec),
    )

-- Against a moment from the epoch on, a normal moment is compared by its microseconds.
before-normal :
    (s u : ℤ) (c : ℕ)
    → IsNormal (at_time s u)
    → (before (at_time s u) (micros c) ≡ lt_int (value (at_time s u)) (pos c))
      × (before (micros c) (at_time s u) ≡ lt_int (pos c) (value (at_time s u)))
unfolding before micros
before-normal (pos s) (pos u) c n = (ground (arith, n.small), ground (arith, n.small))
before-normal (pos s) (negsuc u) c n =
    (ground (arith, n.small, n.not_above), ground (arith, n.small, n.not_above))
before-normal (negsuc s) (pos u) c n =
    (ground (arith, n.small, n.not_below), ground (arith, n.small, n.not_below))
before-normal (negsuc s) (negsuc u) c n = (ground (arith, n.small), ground (arith, n.small))

difference :
    (s u s' u' : ℕ)
    → value (at_time (pos s -ℤ pos s') (pos u -ℤ pos u'))
      ≡ sub_ℕ (s * second + u) (s' * second + u')
difference s u s' u' = ground arith

whole-seconds : (a : ℕ) → a ≡ a / second * second + a % second
whole-seconds a = omega arith

minus-IsNormal : (a b : ℕ) → IsNormal (minus (micros a) (micros b))
unfolding minus
minus-IsNormal a b = (normalize-IsNormal _).1

value-minus : (a b : ℕ) → value (minus (micros a) (micros b)) ≡ sub_ℕ a b
unfolding minus micros
value-minus a b =
    (normalize-IsNormal _).0
    ∙ difference (a / second) (a % second) (b / second) (b % second)
    ∙ (ap (λ k. sub_ℕ k (b / second * second + b % second)) (sym (whole-seconds a))
        ∙ ap (sub_ℕ a) (sym (whole-seconds b)))

-- The difference of two moments is compared as it is in numbers, also when the clock went back.
pub minus-before_micros :
    (a b c : ℕ) → before (minus (micros a) (micros b)) (micros c) ≡ ltb a (b + c)
minus-before_micros a b c =
    let d = minus (micros a) (micros b) in
    (before-normal d.sec d.usec c (minus-IsNormal a b)).0
    ∙ (ap (λ v. lt_int v (pos c)) (value-minus a b) ∙ ground arith)

pub micros-before_minus :
    (a b c : ℕ) → before (micros c) (minus (micros a) (micros b)) ≡ ltb (b + c) a
micros-before_minus a b c =
    let d = minus (micros a) (micros b) in
    (before-normal d.sec d.usec c (minus-IsNormal a b)).1
    ∙ (ap (λ v. lt_int (pos c) v) (value-minus a b) ∙ ground arith)
