-- ===== src/Address/Decimal.antt =====
-- Decimal numbers of up to three digits, written and scanned.
use verlihub.Base.{
  ℕ, suc, ◌+◌, ◌*◌, ◌/◌, ◌%◌, ◌≤◌, ◌<◌, ◌≡◌, refl, ap, ◌∙◌, arith, true, false, some, [], ◌∷◌, ◌++◌,
  ltb, ◌==◌, inl, inr, Bool-cases, if◌then◌else◌, length, Bytes,
}
use verlihub.Address.{
  decimal, decimal_digits, is_space, is_digit, skip_space, scan_digits, scan_number, scan_signed,
  scan_unsigned,
}

-- The digits of a number below 1000.
abbrev pub short_decimal : ℕ → Bytes
short_decimal n =
    if ltb n 10
    then (b'0' + n) ∷ []
    else if ltb n 100
    then (b'0' + n / 10) ∷ (b'0' + n % 10) ∷ []
    else (b'0' + n / 100) ∷ (b'0' + n / 10 % 10) ∷ (b'0' + n % 10) ∷ []

digits-last : (fuel n : ℕ) → n < 10 → decimal_digits (suc fuel) n ≡ (b'0' + n) ∷ []
unfolding decimal_digits
digits-last fuel n h = let last : ltb n 10 ≡ true = ground arith in rw last refl

digits-more :
    (fuel n : ℕ)
    → 10 ≤ n
    → decimal_digits (suc fuel) n ≡ decimal_digits fuel (n / 10) ++ (b'0' + n % 10) ∷ []
unfolding decimal_digits
digits-more fuel n h = let more : ltb n 10 ≡ false = ground arith in rw more refl

pub decimal-short : (n : ℕ) → n < 1000 → decimal n ≡ short_decimal n
unfolding decimal
decimal-short n h = elim (Bool-cases (ltb n 10)) [
  | inl one ↦ digits-last 19 n (ground arith) ∙ rw one refl
  | inr more ↦ elim (Bool-cases (ltb n 100)) [
    | inl two ↦
        rw (more, two, digits-more 19 n (ground arith), digits-last 18 (n / 10) (ground arith)) refl
    | inr three ↦
        rw
          (
            more,
            three,
            digits-more 19 n (ground arith),
            digits-more 18 (n / 10) (ground arith),
            digits-last 17 (n / 10 / 10) (omega arith),
          )
          (ap (λ k. (b'0' + k) ∷ (b'0' + n / 10 % 10) ∷ (b'0' + n % 10) ∷ []) (omega arith))
  ]
]

-- What stands behind a scanned number.
abbrev pub Stops : Bytes → Type 0
Stops [] = Unit {0}
Stops (c ∷ s) = is_digit c ≡ false

pub length-decimal : (n : ℕ) → n < 1000 → (1 ≤ length (decimal n)) × (length (decimal n) ≤ 3)
length-decimal n h = rw (decimal-short n h) (ground arith)

scan_digits-stop : (k : ℕ) (rest : Bytes) → Stops rest → scan_digits k rest ≡ (k, rest)
unfolding scan_digits
scan_digits-stop k [] s = refl
scan_digits-stop k (c ∷ rest) s = rw s

scan_digits-digit :
    (k d : ℕ) (rest : Bytes)
    → d < 10
    → scan_digits k ((b'0' + d) ∷ rest) ≡ scan_digits (k * 10 + d) rest
unfolding scan_digits
scan_digits-digit k d rest h =
    let yes : is_digit (b'0' + d) ≡ true = unfold is_digit in ground arith in
    rw yes (ap (λ e. scan_digits (k * 10 + e) rest) (omega arith))

scan_unsigned-digit :
    (d : ℕ) (rest : Bytes) → d < 10 → scan_unsigned ((b'0' + d) ∷ rest) ≡ some (scan_digits d rest)
unfolding scan_unsigned skip_space scan_signed scan_number
scan_unsigned-digit d rest h =
    let yes : is_digit (b'0' + d) ≡ true = unfold is_digit in ground arith in
    let solid : is_space (b'0' + d) ≡ false = unfold is_space in ground arith in
    let minus : (b'0' + d == b'-') ≡ false = ground arith in
    let plus : (b'0' + d == b'+') ≡ false = ground arith in
    rw (solid, minus, plus, yes)
      (ap some (scan_digits-digit 0 d rest h ∙ ap (λ k. scan_digits k rest) (omega arith)))

-- A written number is scanned as what it is, up to what stands behind it.
pub scan_unsigned-decimal :
    (n : ℕ) (rest : Bytes)
    → n < 1000
    → Stops rest
    → scan_unsigned (decimal n ++ rest) ≡ some (n, rest)
scan_unsigned-decimal n rest h s = rw (decimal-short n h) (elim (Bool-cases (ltb n 10)) [
  | inl one ↦
      rw one (scan_unsigned-digit n rest (ground arith) ∙ ap some (scan_digits-stop n rest s))
  | inr more ↦ elim (Bool-cases (ltb n 100)) [
    | inl two ↦
        rw (more, two)
          (scan_unsigned-digit (n / 10) _ (ground arith)
            ∙ ap some (
                scan_digits-digit (n / 10) (n % 10) rest (omega arith)
                ∙ (ap (λ k. scan_digits k rest) (omega arith) ∙ scan_digits-stop n rest s)))
    | inr three ↦
        rw (more, three)
          (scan_unsigned-digit (n / 100) _ (omega arith)
            ∙ ap some (
                scan_digits-digit (n / 100) (n / 10 % 10) _ (omega arith)
                ∙ (scan_digits-digit (n / 100 * 10 + n / 10 % 10) (n % 10) rest (omega arith)
                    ∙ (ap (λ k. scan_digits k rest) (omega arith) ∙ scan_digits-stop n rest s))))
  ]
])
