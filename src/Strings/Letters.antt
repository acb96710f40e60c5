-- ===== src/Strings/Letters.antt =====
-- Letters and paths: `toLower`, `toUpper` and `GetPath`.
use mathlib.Core.List.{append_assoc}
use verlihub.Base.{
  ◌-◌, ◌&&◌, ◌||◌, not, leb, ℕ, ◌+◌, ◌≡◌, refl, sym, arith, Bool, true, none, some, [], ◌∷◌, ◌++◌,
  inl, inr, ◌==◌, ==_refl, if◌then◌else◌, Bool-cases, Option-cases, length, length-append, Bytes,
  find_byte, find_last_byte,
}
use verlihub.Message.Search.{Lacks, drop-append, take-append}
use verlihub.Strings.{lower_cyrillic, upper_cyrillic, split_path, get_path}

-- `tolower` and `toupper` on bytes in the C locale.
pub record IsPlainLocale (lower upper : ℕ → ℕ) : Type 0 where
  pub lowers : (b : ℕ) → lower b ≡ (if leb b'A' b && leb b b'Z' then b + 32 else b)
  pub uppers : (b : ℕ) → upper b ≡ (if leb b'a' b && leb b b'z' then b - 32 else b)

-- The capital and the small letters, in code page 1251 if the Cyrillic ones are meant.
unfoldable pub is_capital : Bool → ℕ → Bool
is_capital cyr b = (leb b'A' b && leb b b'Z') || (cyr && (leb 192 b && leb b 223 || b == 168))

unfoldable pub is_small : Bool → ℕ → Bool
is_small cyr b = (leb b'a' b && leb b b'z') || (cyr && (leb 224 b && leb b 255 || b == 184))

unfoldable pub has_no : (ℕ → Bool) → Bytes → Bool
has_no test [] = true
has_no test (c ∷ s) = not (test c) && has_no test s

module _ (lower upper : ℕ → ℕ) (locale : IsPlainLocale lower upper) where
  lower_byte : Bool → ℕ → ℕ
  lower_byte cyr b = if cyr then lower_cyrillic (lower b) else lower b

  upper_byte : Bool → ℕ → ℕ
  upper_byte cyr b = if cyr then upper_cyrillic (upper b) else upper b

-- The last slash is in front of a part that has none.
find_last_byte-Lacks : (b : ℕ) (s : Bytes) → Lacks b s → find_last_byte b s ≡ none
unfolding find_last_byte find_byte
find_last_byte-Lacks b [] l = refl
find_last_byte-Lacks b (c ∷ s) l = elim (Bool-cases (c == b)) [
  | inl e ↦ absurd (cc (rw e at l))
  | inr e ↦
      let l' : Lacks b s = elim (Option-cases (find_byte b s)) [
        | inl n ↦ n
        | inr (i, f) ↦ absurd (cc (rw (e, f) at l))
      ] in
      rw (find_last_byte-Lacks b s l', e) refl
]

find_last_byte-append :
    (b : ℕ) (dir s : Bytes) → Lacks b s → find_last_byte b (dir ++ b ∷ s) ≡ some (length dir)
unfolding find_last_byte
find_last_byte-append b [] s l = rw (find_last_byte-Lacks b s l, ==_refl b) refl
find_last_byte-append b (c ∷ dir) s l = rw (find_last_byte-append b dir s l) refl

-- GetPath cuts a name behind its last slash: the path with the slash, and the file. A name without a
-- slash is both the path and the file.
pub get_path-parts :
    (dir file : Bytes)
    → find_byte b'/' file ≡ none
    → (get_path (dir ++ b'/' ∷ file) ≡ (dir ++ b'/' ∷ [], file)) × (get_path file ≡ (file, file))
unfolding get_path split_path
get_path-parts dir file l =
    let slash = b'/' ∷ [] in
    let whole : dir ++ b'/' ∷ file ≡ (dir ++ slash) ++ file = sym (append_assoc dir slash file) in
    let size : length dir + 1 ≡ length (dir ++ slash) = omega (arith, length-append dir slash) in
    (
      rw (find_last_byte-append b'/' dir file l, size, whole, take-append, drop-append) refl,
      rw (find_last_byte-Lacks b'/' file l) refl,
    )
