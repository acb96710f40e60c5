-- ===== src/Timing/Moments.antt =====
-- Moments from the epoch on as numbers of microseconds.
use verlihub.Base.{ℕ, ◌+◌, ◌*◌, ◌/◌, ◌%◌, ◌<◌, ◌≡◌, ap, ◌∙◌, arith, pos, ltb}
use native.Mathlib.Nat.{div-add-mod, mul-add-div, div-lt_iff_lt-mul, mod-lt}
use verlihub.Timing.{
  Time, carry_seconds, borrow_negative, borrow_positive, normalize, plus, divided, before, is_set,
}

abbrev pub second : ℕ
second = 1000000

abbrev moment : ℕ → ℕ → Time
moment sec usec = record { sec = pos sec; usec = pos usec }

-- The moment at a number of microseconds.
unfoldable pub micros : ℕ → Time
micros n = moment (n / second) (n % second)

normalize-moment : (s u : ℕ) → u < 2 * second → normalize (moment s u) ≡ micros (s * second + u)
unfolding normalize carry_seconds borrow_negative borrow_positive micros
normalize-moment s u h = ground arith

pub plus-micros : (a b : ℕ) → plus (micros a) (micros b) ≡ micros (a + b)
unfolding plus micros
plus-micros a b =
    normalize-moment (a / second + b / second) (a % second + b % second) (omega arith)
    ∙ ap micros (omega arith)

pub before-micros : (a b : ℕ) → before (micros a) (micros b) ≡ ltb a b
unfolding before micros
before-micros a b = ground arith

pub is_set-micros : (a : ℕ) → is_set (micros a) ≡ ltb 0 a
unfolding is_set micros
is_set-micros a = ground arith

pub divided-micros : (a n : ℕ) → 0 < n → divided (micros a) n ≡ micros (a / n)
unfolding divided micros
divided-micros a n h =
    let q = a / second in
    let y = a % second + q % n * second in
    let whole : a ≡ n * (q / n * second) + y = omega (arith, div-add-mod q n) in
    let each : a / n ≡ q / n * second + y / n =
      ap (λ k. k / n) whole ∙ mul-add-div h (q / n * second) y in
    let left : q % n < n = mod-lt q h in
    let small : y / n < second = (div-lt_iff_lt-mul h).1 (omega arith) in
    normalize-moment (q / n) (y / n) (omega arith) ∙ ap micros (omega (arith, each))
