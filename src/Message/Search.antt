-- ===== src/Message/Search.antt =====
-- Searches in a text that is made of parts.
use verlihub.Base.{
  ℕ, ◌+◌, ◌≡◌, refl, ap, arith, true, false, none, some, List, [], ◌∷◌, ◌++◌, inl, inr, ◌==◌,
  ==_refl, Bool-cases, Option-cases, length, take, drop, length-append, Bytes, starts_with,
  find_text, find_byte, find_byte_from, find_text_from, substr,
}

module _ {ℓ} {A : Type ℓ} where
  pub drop-append : (xs ys : List A) → drop (length xs) (xs ++ ys) ≡ ys
  unfolding drop
  drop-append [] ys = refl
  drop-append (x ∷ xs) ys = drop-append xs ys

  pub take-append : (xs ys : List A) → take (length xs) (xs ++ ys) ≡ xs
  unfolding take
  take-append [] ys = refl
  take-append (x ∷ xs) ys = ap (◌∷◌ x) (take-append xs ys)

  pub take-length : (xs : List A) → take (length xs) xs ≡ xs
  unfolding take
  take-length [] = refl
  take-length (x ∷ xs) = ap (◌∷◌ x) (take-length xs)

-- A byte does not occur in a text.
abbrev pub Lacks : ℕ → Bytes → Type 0
Lacks b s = find_byte b s ≡ none

-- The first occurrence is behind a part that lacks the byte.
pub find_byte-append :
    (b : ℕ) (s rest : Bytes) → Lacks b s → find_byte b (s ++ b ∷ rest) ≡ some (length s)
unfolding find_byte
find_byte-append b [] rest h = rw ==_refl
find_byte-append b (c ∷ s) rest h = elim (Bool-cases (c == b)) [
  | inl e ↦ cc (rw e at h)
  | inr e ↦
      let h' : Lacks b s = elim (Option-cases (find_byte b s)) [
        | inl n ↦ n
        | inr (i, f) ↦ cc (rw (e, f) at h)
      ] in
      rw (e, find_byte-append b s rest h')
]

pub find_byte_from-append :
    (b : ℕ) (pre s rest : Bytes)
    → Lacks b s
    → find_byte_from b (pre ++ (s ++ b ∷ rest)) (length pre) ≡ some (length pre + length s)
unfolding find_byte_from
find_byte_from-append b pre s rest h =
    rw (drop-append pre (s ++ b ∷ rest), find_byte-append b s rest h)

-- A text that begins nowhere in `s ++ rest` before `rest`.
abbrev pub NotIn : Bytes → Bytes → Bytes → Type 0
NotIn lim [] rest = starts_with lim rest ≡ true
NotIn lim (c ∷ s) rest = (starts_with lim (c ∷ (s ++ rest)) ≡ false) × NotIn lim s rest

pub find_text-append :
    (lim s rest : Bytes) → NotIn lim s rest → find_text lim (s ++ rest) ≡ some (length s)
unfolding find_text
find_text-append lim [] [] h = rw h
find_text-append lim [] (c ∷ rest) h = rw h
find_text-append lim (c ∷ s) rest h = rw (h.0, find_text-append lim s rest h.1)

pub find_text_from-append :
    (lim pre s rest : Bytes)
    → NotIn lim s rest
    → find_text_from lim (pre ++ (s ++ rest)) (length pre) ≡ some (length pre + length s)
unfolding find_text_from
find_text_from-append lim pre s rest h =
    rw (drop-append pre (s ++ rest), find_text-append lim s rest h)
      (ground (arith, length-append pre (s ++ rest)))

pub starts_with-append : (lim rest : Bytes) → starts_with lim (lim ++ rest) ≡ true
unfolding starts_with
starts_with-append [] rest = refl
starts_with-append (c ∷ lim) rest = rw (==_refl, starts_with-append lim rest)

-- The bytes at a position.
pub substr-append : (pre s rest : Bytes) → substr (pre ++ (s ++ rest)) (length pre) (length s) ≡ s
unfolding substr
substr-append pre s rest = rw (drop-append pre (s ++ rest)) (take-append s rest)

pub substr-append_last : (pre s : Bytes) → substr (pre ++ s) (length pre) (length s) ≡ s
unfolding substr
substr-append_last pre s = rw (drop-append pre s) (take-length s)
