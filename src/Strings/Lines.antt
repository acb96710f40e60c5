-- ===== src/Strings/Lines.antt =====
-- The number of lines of a text: `CountLines` and `LimitLines`.
use verlihub.Base.{
  ℕ, ◌+◌, ◌%◌, ◌^◌, ◌≤◌, ◌<◌, ◌≡◌, refl, ap, ◌∙◌, arith, Bool, true, false, not, ◌-◌, ◌||◌, leb, [],
  ◌∷◌, inl, inr, ◌==◌, if◌then◌else◌, Bool-cases, length, Bytes, ℤ, pos, negsuc, lt_int,
}
use verlihub.Run.{Run, ok, fault, signed_overflow}
use verlihub.Strings.{add_lines, count_lines, limit_from, limit_lines}

-- How many line ends a text has.
unfoldable pub line_ends : Bytes → ℕ
line_ends [] = 0
line_ends (c ∷ s) = (if c == 10 then 1 else 0) + line_ends s

line_ends-le : (s : Bytes) → line_ends s ≤ length s
unfolding line_ends
line_ends-le [] = omega arith
line_ends-le (c ∷ s) = ground (arith, line_ends-le s)

add_lines-sum : (s : Bytes) (n : ℕ) → n + length s < 2 ^ 32 → add_lines n s ≡ n + line_ends s
unfolding add_lines line_ends
add_lines-sum [] n h = omega arith
add_lines-sum (c ∷ s) n h = elim (Bool-cases (c == 10)) [
  | inl e ↦ rw (e, add_lines-sum s ((n + 1) % 2 ^ 32) (omega arith)) (omega arith)
  | inr e ↦ rw (e, add_lines-sum s n (omega arith)) (omega arith)
]

-- The limit is met by a text without a line end, or if the lines are no more. With the largest
-- `int` as the limit the lines may pass it.
within : ℤ → ℕ → ℕ → Run Bool
within max n ends =
    if ends == 0
    then ok true
    else if lt_int max (pos (n + ends))
    then (if lt_int max (pos (2 ^ 31 - 1)) then ok false else fault signed_overflow)
    else ok true

-- The lines so far are within the limit, unless it is only one.
reached : ℤ → ℕ → Bool
reached max n = n == 1 || not (lt_int max (pos n))

passed :
    (max : ℤ) (n ends : ℕ)
    → lt_int max (pos (2 ^ 31)) ≡ true
    → 1 ≤ n
    → reached max n ≡ true
    → lt_int max (pos (n + 1)) ≡ true
    → (if leb (2 ^ 31) (n + 1) then fault signed_overflow else ok false) ≡ within max n (1 + ends)
unfolding within reached
passed (pos max) n ends small some_line fine over = ground arith
passed (negsuc max) n ends small some_line fine over = ground arith

not_passed :
    (max : ℤ) (n ends : ℕ)
    → lt_int max (pos (2 ^ 31)) ≡ true
    → lt_int max (pos (n + 1)) ≡ false
    → (if leb (2 ^ 31) (n + 1) then fault signed_overflow else within max (n + 1) ends)
      ≡ within max n (1 + ends)
unfolding within
not_passed (pos max) n ends small under = ground arith
not_passed (negsuc max) n ends small under = ground arith

at_end : (max : ℤ) (n : ℕ) → ok true ≡ within max n 0
unfolding within
at_end max n = refl

limit_from-within :
    (max : ℤ) (s : Bytes) (n : ℕ)
    → lt_int max (pos (2 ^ 31)) ≡ true
    → 1 ≤ n
    → reached max n ≡ true
    → limit_from max n s ≡ within max n (line_ends s)
unfolding limit_from line_ends reached
limit_from-within max [] n small some_line fine = at_end max n
limit_from-within max (c ∷ s) n small some_line fine = elim (Bool-cases (c == 10)) [
  | inr other ↦
      let same : line_ends s ≡ 0 + line_ends s = omega arith in
      rw other (limit_from-within max s n small some_line fine ∙ ap (within max n) same)
  | inl ends ↦ elim (Bool-cases (lt_int max (pos (n + 1)))) [
    | inl over ↦ rw (ends, over) (passed max n (line_ends s) small some_line fine over)
    | inr under ↦
        rw
          (ends, under, limit_from-within max s (n + 1) small (omega arith) (ground (arith, under)))
          (not_passed max n (line_ends s) small under)
  ]
]

-- On a text shorter than 2 ^ 32 - 1 bytes, CountLines is one more than the number of line ends. With
-- an int as the limit, LimitLines is true if that is at most the limit, or the text has only one
-- line; so a text of one line passes a limit below one. Else it is false, but with the largest int
-- as the limit its counter overflows.
pub limit_lines-count :
    (s : Bytes) (max : ℤ)
    → 1 + length s < 2 ^ 32
    → lt_int max (pos (2 ^ 31)) ≡ true
    → (count_lines s ≡ 1 + line_ends s)
      × (limit_lines s max ≡ (
          if count_lines s == 1
          then ok true
          else if lt_int max (pos (count_lines s))
          then (if lt_int max (pos (2 ^ 31 - 1)) then ok false else fault signed_overflow)
          else ok true))
unfolding count_lines limit_lines within reached
limit_lines-count s max h small =
    let counts = add_lines-sum s 1 h in
    (counts, limit_from-within max s 1 small (omega arith) refl ∙ rw counts (ground arith))
