-- ===== src/Strings/Loops.antt =====
-- `FilterPath` and `ReplaceVarInString`: what their loops give, and when one never ends.
use mathlib.Core.Option
use verlihub.Base.{
  ℕ, zero, suc, ◌+◌, ◌≤◌, ◌≡◌, refl, ap, ◌∙◌, sym, arith, Option, none, some, [], ◌∷◌, ◌++◌, length,
  take, drop, length-append, length-take, Bytes, bytes, find_text, find_text_from, find_byte,
  replace, starts_with, true, false, inl, inr, Bool-cases, Option-cases,
}
use verlihub.Message.Search.{Lacks}
use verlihub.Strings.{replace_loop, replace_each, filter_path, search_var, replace_var_in_string}
use verlihub.Strings.Replacing.{
  replaced, loop-replaced, find_text-First, find_text_from-end, nothing_in_nil, found_here,
  found_there,
}

module _ (v : ℕ) (vs : Bytes) where
  same_found : (o : Option ℕ) → o ≡ Option.map (λ i. length {A = ℕ} [] + i) o
  same_found none = refl
  same_found (some i) = ap some (omega arith)

  pub replace_each-replaced :
      (by s : Bytes) (fuel : ℕ)
      → Lacks v by
      → length s ≤ fuel
      → replace_each (v ∷ vs) by fuel s ≡ some (replaced (v ∷ vs) by 0 s)
  unfolding replace_each
  replace_each-replaced by s fuel inert enough =
      ap (replace_loop (v ∷ vs) by fuel s) (same_found (find_text (v ∷ vs) s))
      ∙ loop-replaced v vs by inert fuel [] s enough

  starts_with-longer :
      (lim s rest : Bytes) → starts_with lim s ≡ true → starts_with lim (s ++ rest) ≡ true
  unfolding starts_with
  starts_with-longer [] s rest e = refl
  starts_with-longer (l ∷ lim) [] rest e = absurd (cc)
  starts_with-longer (l ∷ lim) (c ∷ s) rest e =
      let tail : starts_with lim (s ++ rest) ≡ true =
        starts_with-longer lim s rest (ground (arith, e)) in
      ground (arith, e, tail)

  -- What contains the text still does with more behind it.
  abbrev FoundWithin : Bytes → ℕ → Type 0
  FoundWithin s n = (i : ℕ) × (find_text (v ∷ vs) s ≡ some i) × (i ≤ n)

  found-append :
      (by rest : Bytes) (j : ℕ)
      → find_text (v ∷ vs) by ≡ some j
      → FoundWithin (by ++ rest) (length by)
  found-append [] rest j f =
      absurd (let clash : none ≡ some j = sym (nothing_in_nil v vs) ∙ f in cc)
  found-append (c ∷ by) rest j f = elim (Bool-cases (starts_with (v ∷ vs) (c ∷ (by ++ rest)))) [
    | inl here ↦ (0, found_here v vs c (by ++ rest) here, omega arith)
    | inr there ↦ elim (Bool-cases (starts_with (v ∷ vs) (c ∷ by))) [
      | inl before ↦ absurd (
          let longer = starts_with-longer (v ∷ vs) (c ∷ by) rest before in
          let clash : true ≡ false = sym longer ∙ there in cc)
      | inr not_before ↦ elim (Option-cases (find_text (v ∷ vs) by)) [
        | inl n ↦ absurd (
            let clash : none ≡ some j =
              ap (Option.map suc) (sym n) ∙ sym (found_there v vs c by not_before) ∙ f in
            cc)
        | inr (i, g) ↦
            let (k, found, inside) = found-append by rest i g in
            (
              suc k,
              found_there v vs c (by ++ rest) there ∙ ap (Option.map suc) found,
              omega (arith, inside),
            )
      ]
    ]
  ]

  found_inside : (s : Bytes) (i : ℕ) → find_text (v ∷ vs) s ≡ some i → i ≤ length s
  found_inside s i f =
      let k = find_text-First v vs s i f in
      omega (arith, k.long, ap length k.whole, length-append k.before ((v ∷ vs) ++ k.after))

  endless :
      (by : Bytes) (j : ℕ)
      → find_text (v ∷ vs) by ≡ some j
      → (fuel : ℕ) (dest : Bytes) (at : ℕ) → at ≤ length dest
      → replace_loop (v ∷ vs) by fuel dest (some at) ≡ none
  unfolding replace_loop replace
  endless by j f zero dest at inside = refl
  endless by j f (suc fuel) dest at inside =
      let x = take at dest in
      let rest = drop (at + length (v ∷ vs)) dest in
      let here : length x ≡ at = length-take at dest ∙ omega (arith, inside) in
      let (k, found, within) = found-append by rest j f in
      ap
        (λ n.
          replace_loop (v ∷ vs) by fuel (x ++ (by ++ rest))
            (find_text_from (v ∷ vs) (x ++ (by ++ rest)) n))
        (sym here)
      ∙ ap (replace_loop (v ∷ vs) by fuel (x ++ (by ++ rest)))
          (find_text_from-end v vs x (by ++ rest) ∙ ap (Option.map (λ i. length x + i)) found)
      ∙ endless by j f fuel (x ++ (by ++ rest)) (length x + k)
          (omega (arith, within, length-append x (by ++ rest), length-append by rest))

-- FilterPath ends: with as much fuel as the path is long, it gives the path with each "../" taken
-- out in one pass from the left. What the parts around it then make is not looked at again.
pub filter_path-replaced :
    (path : Bytes) → filter_path (length path) path ≡ some (replaced (bytes "../") [] 0 path)
unfolding filter_path find_byte
filter_path-replaced path = replace_each-replaced _ _ [] path (length path) refl (omega arith)

-- If the new text has no percent sign, ReplaceVarInString ends: with as much fuel as the source is
-- long, it gives the source with each occurrence of the variable replaced in one pass from the left.
pub replace_var_in_string-replaced :
    (src name by : Bytes)
    → find_byte b'%' by ≡ none
    → replace_var_in_string (length src) src name by ≡ some (replaced (search_var name) by 0 src)
unfolding replace_var_in_string search_var
replace_var_in_string-replaced src name by inert =
    replace_each-replaced b'%' _ by src (length src) inert (omega arith)

-- If the new text contains the variable itself and the source does, ReplaceVarInString never ends:
-- no fuel is enough.
pub replace_var_in_string-endless :
    (src name by : Bytes) (i j : ℕ)
    → find_text (search_var name) src ≡ some i
    → find_text (search_var name) by ≡ some j
    → (fuel : ℕ) → replace_var_in_string fuel src name by ≡ none
unfolding replace_var_in_string replace_each search_var
replace_var_in_string-endless src name by i j there again fuel =
    let inside : i ≤ length src = found_inside b'%' _ src i there in
    ap (replace_loop _ by fuel src) there ∙ endless b'%' _ by j again fuel src i inside
