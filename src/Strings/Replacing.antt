-- ===== src/Strings/Replacing.antt =====
-- The loops that replace parts of a text, against a replacement in one pass.
use mathlib.Core.List.{append_assoc}
use mathlib.Core.Option
use verlihub.Base.{
  ℕ, zero, suc, ◌+◌, ◌-◌, ◌≤◌, ◌≡◌, refl, ap, ◌∙◌, sym, arith, true, false, Option, none, some, [],
  ◌∷◌, ◌++◌, inl, inr, ◌==◌, if◌then◌else◌, Bool-cases, Option-cases, length, drop, length-append,
  Bytes, starts_with, find_text, find_text_from, find_byte, replace, subst,
}
use verlihub.Message.Search.{drop-append, take-append, Lacks, NotIn, starts_with-append}
use verlihub.Strings.{replace_loop}

-- In one pass from the left: `skip` bytes belong to an occurrence that was replaced.
unfoldable pub replaced : (var : Bytes) (by : Bytes) → (skip : ℕ) → Bytes → Bytes
replaced var by skip [] = []
replaced var by (suc skip) (c ∷ s) = replaced var by skip s
replaced var by zero (c ∷ s) =
    let behind = replaced var by (length var - 1) s in
    let next = replaced var by 0 s in if starts_with var (c ∷ s) then by ++ behind else c ∷ next

starts_with-split : (lim s : Bytes) → starts_with lim s ≡ true → (t : Bytes) × (s ≡ lim ++ t)
unfolding starts_with
starts_with-split [] s e = (s, refl)
starts_with-split (l ∷ lim) [] e = absurd (cc)
starts_with-split (l ∷ lim) (c ∷ s) e =
    let (t, rest) = starts_with-split lim s (ground arith) in
    let same : c ≡ l = ground arith in (t, ap (λ k. k ∷ s) same ∙ ap (◌∷◌ l) rest)

moved : (o : Option ℕ) → o ≡ Option.map (λ i. 0 + i) o
moved none = refl
moved (some i) = ap some (omega arith)

moved_suc :
    (n : ℕ) (o : Option ℕ)
    → Option.map suc (Option.map (λ i. n + i) o) ≡ Option.map (λ i. suc n + i) o
moved_suc n none = refl
moved_suc n (some i) = ap some (omega arith)

pub replace-at :
    (x var t by : Bytes) → replace (x ++ (var ++ t)) (length x) (length var) by ≡ x ++ (by ++ t)
unfolding replace
replace-at x var t by =
    let behind : drop (length x + length var) (x ++ (var ++ t)) ≡ t =
      ap (λ n. drop n (x ++ (var ++ t))) (sym (length-append x var))
      ∙ ap (drop (length (x ++ var))) (sym (append_assoc x var t))
      ∙ drop-append (x ++ var) t in
    rw (take-append x (var ++ t), behind) refl

moved_twice :
    (m n k : ℕ) (o : Option ℕ)
    → m + n ≡ k
    → Option.map (λ i. m + i) (Option.map (λ i. n + i) o) ≡ Option.map (λ i. k + i) o
moved_twice m n k none e = refl
moved_twice m n k (some i) e = ap some (omega (arith, e))

module _ (v : ℕ) (vs : Bytes) where
  abbrev var : Bytes
  var = v ∷ vs

  -- Where the first occurrence stands.
  pub record First (s : Bytes) (i : ℕ) : Type 0 where
    pub before : Bytes
    pub after : Bytes
    pub whole : s ≡ before ++ (var ++ after)
    pub long : length before ≡ i
    pub first : NotIn var before (var ++ after)

  pub found_here :
      (c : ℕ) (s : Bytes) → starts_with var (c ∷ s) ≡ true → find_text var (c ∷ s) ≡ some 0
  unfolding find_text
  found_here c s here = rw here refl

  pub found_there :
      (c : ℕ) (s : Bytes)
      → starts_with var (c ∷ s) ≡ false
      → find_text var (c ∷ s) ≡ Option.map suc (find_text var s)
  unfolding find_text
  found_there c s there = rw there refl

  found_nowhere : (c : ℕ) (s : Bytes) → find_text var (c ∷ s) ≡ none → find_text var s ≡ none
  found_nowhere c s e = elim (Bool-cases (starts_with var (c ∷ s))) [
    | inl here ↦ absurd (let clash : some 0 ≡ none = sym (found_here c s here) ∙ e in cc)
    | inr there ↦ elim (Option-cases (find_text var s)) [
      | inl n ↦ n
      | inr (j, f) ↦ absurd (
          let clash : some (suc j) ≡ none =
            ap (Option.map suc) (sym f) ∙ sym (found_there c s there) ∙ e in
          cc)
    ]
  ]

  pub nothing_in_nil : find_text var [] ≡ none
  unfolding find_text starts_with
  nothing_in_nil = refl

  pub find_text-First : (s : Bytes) (i : ℕ) → find_text var s ≡ some i → First s i
  find_text-First [] i e = absurd (let clash : none ≡ some i = sym nothing_in_nil ∙ e in cc)
  find_text-First (c ∷ s) i e = elim (Bool-cases (starts_with var (c ∷ s))) [
    | inl here ↦
        let (t, whole) = starts_with-split var (c ∷ s) here in
        let start : some 0 ≡ some i = sym (found_here c s here) ∙ e in
        let zero_is : ◌≡◌ {A = ℕ} 0 i = cc in
        record {
          before = [];
          after = t;
          whole = whole;
          long = zero_is;
          first = starts_with-append var t;
        }
    | inr there ↦ elim (Option-cases (find_text var s)) [
      | inl n ↦ absurd (
          let clash : none ≡ some i =
            ap (Option.map suc) (sym n) ∙ sym (found_there c s there) ∙ e in
          cc)
      | inr (j, f) ↦
          let next : some (suc j) ≡ some i =
            ap (Option.map suc) (sym f) ∙ sym (found_there c s there) ∙ e in
          let suc_is : suc j ≡ i = cc in
          let tail = find_text-First s j f in
          record {
            before = c ∷ tail.before;
            after = tail.after;
            whole = ap (◌∷◌ c) tail.whole;
            long = omega (arith, tail.long, suc_is);
            first = (subst (λ k. starts_with var (c ∷ k) ≡ false) tail.whole there, tail.first);
          }
    ]
  ]

  replaced-skip : (by u t : Bytes) → replaced var by (length u) (u ++ t) ≡ replaced var by 0 t
  unfolding replaced
  replaced-skip by [] t = refl
  replaced-skip by (c ∷ u) t = replaced-skip by u t

  pub replaced-first :
      (by a t : Bytes)
      → NotIn var a (var ++ t)
      → replaced var by 0 (a ++ (var ++ t)) ≡ a ++ (by ++ replaced var by 0 t)
  unfolding replaced
  replaced-first by [] t n = rw (starts_with-append var t) (
      ap (λ n. by ++ replaced var by n (vs ++ t)) (omega arith)
      ∙ ap (◌++◌ by) (replaced-skip by vs t))
  replaced-first by (c ∷ a) t n = rw (n.0) (ap (◌∷◌ c) (replaced-first by a t n.1))

  pub replaced-none : (by s : Bytes) → find_text var s ≡ none → replaced var by 0 s ≡ s
  unfolding replaced
  replaced-none by [] e = refl
  replaced-none by (c ∷ s) e = elim (Bool-cases (starts_with var (c ∷ s))) [
    | inl here ↦ absurd (let clash : some 0 ≡ none = sym (found_here c s here) ∙ e in cc)
    | inr there ↦ rw there (ap (◌∷◌ c) (replaced-none by s (found_nowhere c s e)))
  ]

  pub Lacks-head : (c : ℕ) (s : Bytes) → Lacks v (c ∷ s) → ((c == v) ≡ false) × Lacks v s
  unfolding find_byte
  Lacks-head c s l = elim (Bool-cases (c == v)) [
    | inl same ↦ absurd (cc (rw same at l))
    | inr other ↦ (
      other,
      elim (Option-cases (find_byte v s)) [
        | inl n ↦ n
        | inr (i, f) ↦ absurd (cc (rw (other, f) at l))
      ],
    )
  ]

  other_head : (c : ℕ) (s : Bytes) → (c == v) ≡ false → starts_with var (c ∷ s) ≡ false
  unfolding starts_with
  other_head c s other = rw other refl

  -- Nothing is found inside a text that lacks the first byte.
  pub find_text-Lacks :
      (by rest : Bytes)
      → Lacks v by
      → find_text var (by ++ rest) ≡ Option.map (λ i. length by + i) (find_text var rest)
  find_text-Lacks [] rest l = moved (find_text var rest)
  find_text-Lacks (c ∷ by) rest l =
      let (other, l') = Lacks-head c by l in
      found_there c (by ++ rest) (other_head c (by ++ rest) other)
      ∙ ap (Option.map suc) (find_text-Lacks by rest l')
      ∙ moved_suc (length by) (find_text var rest)

  pub find_text_from-end :
      (pre s : Bytes)
      → find_text_from var (pre ++ s) (length pre)
        ≡ Option.map (λ i. length pre + i) (find_text var s)
  unfolding find_text_from
  find_text_from-end pre s = rw (drop-append pre s) (ground (arith, length-append pre s))

  -- One turn of the loop.
  replace-first :
      (by pre a t : Bytes)
      → replace (pre ++ (a ++ (var ++ t))) (length pre + length a) (length var) by
        ≡ (pre ++ (a ++ by)) ++ t
  replace-first by pre a t =
      ap (λ k. replace k (length pre + length a) (length var) by)
        (sym (append_assoc pre a (var ++ t)))
      ∙ ap (λ n. replace ((pre ++ a) ++ (var ++ t)) n (length var) by) (sym (length-append pre a))
      ∙ replace-at (pre ++ a) var t by
      ∙ sym (append_assoc (pre ++ a) by t)
      ∙ ap (λ k. k ++ t) (append_assoc pre a by)

  module _ (by : Bytes) (inert : Lacks v by) where
    found_behind :
        (pre a t : Bytes)
        → find_text_from var ((pre ++ (a ++ by)) ++ t) (length pre + length a)
          ≡ Option.map (λ i. length (pre ++ (a ++ by)) + i) (find_text var t)
    found_behind pre a t =
        ap (λ k. find_text_from var k (length pre + length a))
          (ap (λ k. k ++ t) (sym (append_assoc pre a by)) ∙ append_assoc (pre ++ a) by t)
        ∙ ap (find_text_from var ((pre ++ a) ++ (by ++ t))) (sym (length-append pre a))
        ∙ find_text_from-end (pre ++ a) (by ++ t)
        ∙ ap (Option.map (λ i. length (pre ++ a) + i)) (find_text-Lacks by t inert)
        ∙ moved_twice (length (pre ++ a)) (length by) (length (pre ++ (a ++ by))) (find_text var t)
            (omega (arith, length-append pre a, length-append a by, length-append pre (a ++ by)))

    turn :
        (fuel : ℕ) (pre a t : Bytes)
        → NotIn var a (var ++ t)
        → ((pre' : Bytes)
            → replace_loop var by fuel
                (pre' ++ t)
                (Option.map (λ i. length pre' + i) (find_text var t))
              ≡ some (pre' ++ replaced var by 0 t))
        → replace_loop var by (suc fuel) (pre ++ (a ++ (var ++ t))) (some (length pre + length a))
          ≡ some (pre ++ replaced var by 0 (a ++ (var ++ t)))
    unfolding replace_loop
    turn fuel pre a t n rest =
        ap (λ k. replace_loop var by fuel k (find_text_from var k (length pre + length a)))
          (replace-first by pre a t)
        ∙ ap (replace_loop var by fuel ((pre ++ (a ++ by)) ++ t)) (found_behind pre a t)
        ∙ rest (pre ++ (a ++ by))
        ∙ ap some (
            append_assoc pre (a ++ by) (replaced var by 0 t)
            ∙ ap (◌++◌ pre)
                (append_assoc a by (replaced var by 0 t) ∙ sym (replaced-first by a t n)))

    pub loop-replaced :
        (fuel : ℕ) (pre s : Bytes)
        → length s ≤ fuel
        → replace_loop var by fuel (pre ++ s) (Option.map (λ i. length pre + i) (find_text var s))
          ≡ some (pre ++ replaced var by 0 s)
    unfolding replace_loop
    loop-replaced zero pre [] enough =
        rw nothing_in_nil (ap (λ k. some (pre ++ k)) (sym (replaced-none by [] nothing_in_nil)))
    loop-replaced zero pre (c ∷ s) enough = absurd (omega arith)
    loop-replaced (suc fuel) pre s enough = elim (Option-cases (find_text var s)) [
      | inl n ↦ rw (n, replaced-none by s n) refl
      | inr (i, f) ↦
          let k = find_text-First s i f in
          let size : length s ≡ length k.before + (length var + length k.after) =
            ap length k.whole
            ∙ length-append k.before (var ++ k.after)
            ∙ ap (λ n. length k.before + n) (length-append var k.after) in
          ap (replace_loop var by (suc fuel) (pre ++ s)) (ap (Option.map (λ j. length pre + j)) f)
          ∙ rw (k.whole, ← k.long)
              (turn fuel pre k.before k.after k.first
                (λ pre'. loop-replaced fuel pre' k.after (omega (arith, size, enough))))
    ]
