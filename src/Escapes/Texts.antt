-- ===== src/Escapes/Texts.antt =====
-- `EscapeChars` and `UnEscapeChars` on strings.
use mathlib.Core.List.{append_assoc}
use mathlib.Core.Option
use verlihub.Base.{
  ℕ, zero, suc, ◌+◌, ◌≤◌, ◌≡◌, ◌≢◌, refl, ap, ◌∙◌, sym, arith, Bool, true, false, not, ◌&&◌, Option,
  none, some, [], ◌∷◌, ◌++◌, inl, inr, ◌==◌, if◌then◌else◌, Bool-cases, length, length-append, drop,
  get_or, Bytes, bytes, starts_with, find_byte, replace, subst, ℕ_discrete,
}
use verlihub.Address.{decimal, decimal_digits}
use verlihub.Message.Search.{drop-append}
use verlihub.Strings.Replacing.{replace-at, replaced, Lacks-head}
use verlihub.Strings.Loops.{replace_each-replaced}
use verlihub.Escapes.{
  then_pipes, un_escape_chars, is_special, find_special, find_special_from, escape_text,
  escape_loop, escape_chars,
}

-- Every special byte becomes its escape.
unfoldable pub escaped : Bool → Bytes → Bytes
escaped dcn [] = []
escaped dcn (c ∷ s) = (if is_special c then escape_text dcn c else c ∷ []) ++ escaped dcn s

-- No byte of a text passes the test.
unfoldable pub lacks_all : (ℕ → Bool) → Bytes → Bool
lacks_all test [] = true
lacks_all test (c ∷ s) = not (test c) && lacks_all test s

pub lacks_all-append :
    (test : ℕ → Bool) (a b : Bytes)
    → lacks_all test a ≡ true
    → lacks_all test b ≡ true
    → lacks_all test (a ++ b) ≡ true
unfolding lacks_all
lacks_all-append test [] b ha hb = hb
lacks_all-append test (c ∷ a) b ha hb =
    let rest = lacks_all-append test a b (ground (arith, ha)) hb in ground (arith, ha, rest)

pub special-one :
    (P : ℕ → Type 0) → P 5 → P 36 → P 96 → P 124 → P 126 → (c : ℕ) → is_special c ≡ true → P c
unfolding is_special
special-one P a b d e f c h = elim (ℕ_discrete c 5) [
  | yes q ↦ subst P (sym q) a
  | no n5 ↦ elim (ℕ_discrete c 36) [
    | yes q ↦ subst P (sym q) b
    | no n36 ↦ elim (ℕ_discrete c 96) [
      | yes q ↦ subst P (sym q) d
      | no n96 ↦ elim (ℕ_discrete c 124) [
        | yes q ↦ subst P (sym q) e
        | no n124 ↦ let q : c ≡ 126 = ground arith in subst P (sym q) f
      ]
    ]
  ]
]

escape_text-lacks_all :
    (dcn : Bool) (c : ℕ) → is_special c ≡ true → lacks_all is_special (escape_text dcn c) ≡ true
unfolding lacks_all escape_text is_special decimal decimal_digits
escape_text-lacks_all true =
    special-one (λ c. lacks_all is_special (escape_text true c) ≡ true) refl refl refl refl refl
escape_text-lacks_all false =
    special-one (λ c. lacks_all is_special (escape_text false c) ≡ true) refl refl refl refl refl

moved : (n : ℕ) (o : Option ℕ) → n ≡ 0 → o ≡ Option.map (λ i. n + i) o
moved n none e = refl
moved n (some i) e = ap some (omega (arith, e))

moved_suc :
    (n m : ℕ) (o : Option ℕ)
    → m ≡ n + 1
    → Option.map (λ i. n + i) (Option.map suc o) ≡ Option.map (λ i. m + i) o
moved_suc n m none e = refl
moved_suc n m (some i) e = ap some (omega (arith, e))

moved_twice :
    (n k m : ℕ) (o : Option ℕ)
    → m ≡ n + k
    → Option.map (λ i. n + i) (Option.map (λ i. k + i) o) ≡ Option.map (λ i. m + i) o
moved_twice n k m none e = refl
moved_twice n k m (some i) e = ap some (omega (arith, e))

suc_moved :
    (n : ℕ) (o : Option ℕ)
    → Option.map suc (Option.map (λ i. n + i) o) ≡ Option.map (λ i. suc n + i) o
suc_moved n none = refl
suc_moved n (some i) = ap some (omega arith)

found_behind :
    (a s : Bytes)
    → lacks_all is_special a ≡ true
    → find_special (a ++ s) ≡ Option.map (λ i. length a + i) (find_special s)
unfolding lacks_all find_special
found_behind [] s h = moved 0 (find_special s) refl
found_behind (c ∷ a) s h =
    let plain : is_special c ≡ false = ground (arith, h) in
    rw plain (
      ap (Option.map suc) (found_behind a s (ground (arith, h)))
      ∙ suc_moved (length a) (find_special s))

get_or-append : (pre s : Bytes) (c : ℕ) → get_or (pre ++ c ∷ s) (length pre) 0 ≡ c
unfolding get_or
get_or-append [] s c = refl
get_or-append (b ∷ pre) s c = get_or-append pre s c

-- One turn of the loop.
escape-turn :
    (pre by s : Bytes) (c : ℕ) (n : ℕ)
    → n ≡ length pre
    → (replace (pre ++ c ∷ s) n 1 by ≡ (pre ++ by) ++ s) × (get_or (pre ++ c ∷ s) n 0 ≡ c)
escape-turn pre by s c n e = (
  rw e (replace-at pre (c ∷ []) s by ∙ sym (append_assoc pre by s)),
  rw e (get_or-append pre s c),
)

found_from :
    (pre by s : Bytes) (n : ℕ)
    → n ≡ length pre
    → lacks_all is_special by ≡ true
    → find_special_from ((pre ++ by) ++ s) n
      ≡ Option.map (λ i. length (pre ++ by) + i) (find_special s)
unfolding find_special_from
found_from pre by s n e h =
    ap (λ k. Option.map (λ i. n + i) (find_special k))
      (ap (drop n) (append_assoc pre by s)
        ∙ ap (λ m. drop m (pre ++ (by ++ s))) e
        ∙ drop-append pre (by ++ s))
    ∙ ap (Option.map (λ i. n + i)) (found_behind by s h)
    ∙ moved_twice n (length by) (length (pre ++ by)) (find_special s)
        (omega (arith, e, length-append pre by))

special-loop :
    (dcn : Bool) (s : Bytes) (fuel : ℕ) (pre : Bytes)
    → length s ≤ fuel
    → escape_loop dcn fuel (pre ++ s) (Option.map (λ i. length pre + i) (find_special s))
      ≡ some (pre ++ escaped dcn s)
unfolding escape_loop find_special escaped
special-loop dcn [] fuel pre enough = refl
special-loop dcn (c ∷ s) zero pre enough = absurd (omega arith)
special-loop dcn (c ∷ s) (suc fuel) pre enough = elim (Bool-cases (is_special c)) [
  | inl special ↦
      let n = length pre + 0 in
      let start : n ≡ length pre = omega arith in
      let by = escape_text dcn c in
      let turn = escape-turn pre by s c n start in
      rw special (
        ap
          (λ k.
            escape_loop dcn fuel (replace (pre ++ c ∷ s) n 1 (escape_text dcn k))
              (find_special_from (replace (pre ++ c ∷ s) n 1 (escape_text dcn k)) n))
          turn.1
        ∙ ap (λ k. escape_loop dcn fuel k (find_special_from k n)) turn.0
        ∙ ap (escape_loop dcn fuel ((pre ++ by) ++ s))
            (found_from pre by s n start (escape_text-lacks_all dcn c special))
        ∙ special-loop dcn s fuel (pre ++ by) (omega (arith, enough))
        ∙ ap some (append_assoc pre by (escaped dcn s)))
  | inr plain ↦
      let one = c ∷ [] in
      rw plain (
        ap (escape_loop dcn (suc fuel) (pre ++ c ∷ s)) (
          moved_suc (length pre) (length (pre ++ one)) (find_special s)
            (omega (arith, length-append pre one)))
        ∙ ap
            (λ k.
              escape_loop dcn (suc fuel) k
                (Option.map (λ i. length (pre ++ one) + i) (find_special s)))
            (sym (append_assoc pre one s))
        ∙ special-loop dcn s (suc fuel) (pre ++ one) (omega (arith, enough))
        ∙ ap some (append_assoc pre one (escaped dcn s)))
]

-- EscapeChars ends: with as much fuel as the text is long, it gives the text with each of the bytes
-- 5, 36, 96, 124 and 126 escaped, and no others.
pub escape_chars-escaped :
    (src : Bytes) (dcn : Bool) → escape_chars (length src) src dcn ≡ some (escaped dcn src)
unfolding escape_chars
escape_chars-escaped src dcn =
    ap (escape_loop dcn (length src) src) (moved 0 (find_special src) refl)
    ∙ special-loop dcn src (length src) [] (omega arith)

-- With the dollars, or with neither dollars nor pipes escaped.
unfoldable un_dollared : Bytes → Bytes
un_dollared [] = []
un_dollared (c ∷ s) = (if c == 124 then bytes "&#124;" else c ∷ []) ++ un_dollared s

-- A byte that a client's text may have: no ampersand, and of the special ones only $ and |.
unfoldable pub is_plain : ℕ → Bool
is_plain c = not (c == 38) && not (c == 5) && not (c == 96) && not (c == 126)

unfoldable pub all_plain : Bytes → Bool
all_plain [] = true
all_plain (c ∷ s) = is_plain c && all_plain s

module _ (v : Bytes) (by : Bytes) where
  -- In front of what does not begin with an ampersand, nothing is replaced.
  replaced-other :
      (c : ℕ) (t : Bytes)
      → (c == 38) ≡ false
      → replaced (38 ∷ v) by 0 (c ∷ t) ≡ c ∷ replaced (38 ∷ v) by 0 t
  unfolding replaced starts_with
  replaced-other c t n = rw n refl

  replaced-clean :
      (a t : Bytes)
      → find_byte 38 a ≡ none
      → replaced (38 ∷ v) by 0 (a ++ t) ≡ a ++ replaced (38 ∷ v) by 0 t
  replaced-clean [] t l = refl
  replaced-clean (c ∷ a) t l =
      let k = Lacks-head 38 v c a l in
      replaced-other c (a ++ t) k.0 ∙ ap (◌∷◌ c) (replaced-clean a t k.1)

replaced-nil : (v by : Bytes) → replaced v by 0 [] ≡ []
unfolding replaced
replaced-nil v by = refl

plain-ampersand : (c : ℕ) → is_plain c ≡ true → (c == 38) ≡ false
unfolding is_plain
plain-ampersand c h = ground (arith, h)

abbrev dollar_of : Bytes → Bytes
dollar_of s = replaced (bytes "&#36;") (bytes "$") 0 s

abbrev pipe_of : Bytes → Bytes
pipe_of s = replaced (bytes "&#124;") (bytes "|") 0 s

dollar_of-dollar : (t : Bytes) → dollar_of (bytes "&#36;" ++ t) ≡ 36 ∷ dollar_of t
unfolding replaced starts_with
dollar_of-dollar t = refl

dollar_of-pipe : (t : Bytes) → dollar_of (bytes "&#124;" ++ t) ≡ bytes "&#124;" ++ dollar_of t
unfolding replaced starts_with
dollar_of-pipe t = refl

pipe_of-pipe : (t : Bytes) → pipe_of (bytes "&#124;" ++ t) ≡ 124 ∷ pipe_of t
unfolding replaced starts_with
pipe_of-pipe t = refl

-- The escape of a byte that is special, and of one that is not.
abbrev one_escaped : ℕ → Bytes
one_escaped c = if is_special c then escape_text false c else c ∷ []

escaped-36 : one_escaped 36 ≡ bytes "&#36;"
unfolding is_special escape_text decimal decimal_digits
escaped-36 = refl

escaped-124 : one_escaped 124 ≡ bytes "&#124;"
unfolding is_special escape_text decimal decimal_digits
escaped-124 = refl

escaped-other : (c : ℕ) → is_plain c ≡ true → c ≢ 36 → c ≢ 124 → one_escaped c ≡ c ∷ []
unfolding is_special is_plain
escaped-other c h a b = let plain : is_special c ≡ false = ground (arith, h, a, b) in rw plain refl

dollars-back : (s : Bytes) → all_plain s ≡ true → dollar_of (escaped false s) ≡ un_dollared s
unfolding all_plain escaped un_dollared
dollars-back [] h = replaced-nil _ _
dollars-back (c ∷ s) h =
    let rest = dollars-back s (ground (arith, h)) in
    elim (ℕ_discrete c 36) [
      | yes dollar ↦ rw (dollar, escaped-36) (dollar_of-dollar (escaped false s) ∙ ap (◌∷◌ 36) rest)
      | no n36 ↦ elim (ℕ_discrete c 124) [
        | yes pipe ↦
            rw (pipe, escaped-124)
              (dollar_of-pipe (escaped false s) ∙ ap (◌++◌ (bytes "&#124;")) rest)
        | no n124 ↦
            let other : (c == 124) ≡ false = ground (arith, n124) in
            rw (escaped-other c (ground (arith, h)) n36 n124, other)
              (replaced-other _ _ c (escaped false s) (plain-ampersand c (ground (arith, h)))
                ∙ ap (◌∷◌ c) rest)
      ]
    ]

pipes-back : (s : Bytes) → all_plain s ≡ true → pipe_of (un_dollared s) ≡ s
unfolding all_plain un_dollared
pipes-back [] h = replaced-nil _ _
pipes-back (c ∷ s) h =
    let rest = pipes-back s (ground (arith, h)) in
    elim (ℕ_discrete c 124) [
      | yes pipe ↦ rw pipe (pipe_of-pipe (un_dollared s) ∙ ap (◌∷◌ 124) rest)
      | no n124 ↦
          let other : (c == 124) ≡ false = ground (arith, n124) in
          rw other (
            replaced-other _ _ c (un_dollared s) (plain-ampersand c (ground (arith, h)))
            ∙ ap (◌∷◌ c) rest)
    ]

length-one_escaped : (c : ℕ) → 1 ≤ length (one_escaped c)
unfolding escape_text
length-one_escaped c = elim (Bool-cases (is_special c)) [
  | inl special ↦ rw special (omega arith)
  | inr plain ↦ rw plain (omega arith)
]

length-un_dollared : (s : Bytes) → length (un_dollared s) ≤ length (escaped false s)
unfolding un_dollared escaped
length-un_dollared [] = omega arith
length-un_dollared (c ∷ s) = elim (ℕ_discrete c 124) [
  | yes pipe ↦
      rw (pipe, escaped-124)
        (omega (
          arith,
          length-un_dollared s,
          length-append (bytes "&#124;") (un_dollared s),
          length-append (bytes "&#124;") (escaped false s),
        ))
  | no n124 ↦
      let other : (c == 124) ≡ false = ground (arith, n124) in
      rw other (
        omega (
          arith,
          length-un_dollared s,
          length-append (one_escaped c) (escaped false s),
          length-one_escaped c,
        ))
]

-- A text with no ampersand and none of the bytes 5, 96 and 126: EscapeChars, and UnEscapeChars of its
-- result with as much fuel as that is long, give the text back.
pub un_escape_chars-escape_chars :
    (s : Bytes)
    → all_plain s ≡ true
    → let e = escaped false s in
      (escape_chars (length s) s false ≡ some e) × (un_escape_chars (length e) e ≡ some s)
unfolding un_escape_chars then_pipes find_byte
un_escape_chars-escape_chars s h =
    let e = escaped false s in
    (
      escape_chars-escaped s false,
      ap (then_pipes (length e)) (
            replace_each-replaced 38 _ (bytes "$") e (length e) refl (omega arith)
            ∙ ap some (dollars-back s h))
          ∙ replace_each-replaced 38 _ (bytes "|") (un_dollared s) (length e) refl
              (length-un_dollared s)
          ∙ ap some (pipes-back s h),
    )
