-- ===== src/Message/SplitLaws.antt =====
-- `SplitOnTwo` and `ChunkString` on a message that is made of parts.
use mathlib.Core.List.{append_assoc}
use verlihub.Base.{
  ℕ, ◌+◌, ◌-◌, ◌%◌, ◌^◌, ◌≤◌, ◌<◌, ◌≡◌, ◌≢◌, ap, arith, true, false, some, [], ◌∷◌, ◌++◌, ◌⊎◌, inr,
  ◌==◌, ==_refl, leb, length, get_or, set, get_or-set, length-append, length-set, Bytes, ℤ, pos,
  sub_ℕ, find_byte_from, find_text_from, substr,
}
use verlihub.Message.{
  Parser, set_chunk, set_both, split_left, split_len, split_on_byte, split_on_text,
  split_chunk_byte, split_chunk_text, chunk_at, chunk_string, cut_chunk, no_chunk, in_message,
}
use verlihub.Message.Search.{
  Lacks, NotIn, find_byte_from-append, find_text_from-append, substr-append,
}

-- The state after a split of `pre ++ s ++ delimiter ++ rest` behind `pre`, with a delimiter of
-- `width` bytes.
abbrev pub split_at : Parser → ℕ → ℕ → Bytes → Bytes → ℕ → Bytes → Parser
split_at p cn1 cn2 pre s width rest =
    set_chunk (set_chunk p cn1 (pos (length pre)) (pos (length s))) cn2
      (pos (length pre + length s + width)) (pos (length rest))

-- The part of a message that `SplitOnTwo` is told to search is none, or holds the delimiter.
abbrev pub Reaches : ℕ → Bytes → Type 0
Reaches n s = (n ≡ 0) ⊎ (length s < n)

split_left-found :
    (p : Parser) (cn1 cn2 : ℕ) (pre s rest : Bytes) (width n : ℕ)
    → length p.str ≡ length pre + length s + width + length rest
    → p.len ≡ length p.str
    → 0 < width
    → Reaches n s
    → split_left p cn1 cn2 (length pre) (split_len p n) width (some (length pre + length s))
      ≡ (true, split_at p cn1 cn2 pre s width rest)
unfolding split_left set_both
split_left-found p cn1 cn2 pre s rest width n size whole w reach =
    let inside : leb (split_len p n) (length pre + length s - length pre) ≡ false = ground arith in
    let left : length pre + length s - length pre ≡ length s = omega arith in
    let right : sub_ℕ p.len (length pre + length s + width) ≡ pos (length rest) = ground arith in
    rw (inside, left, right)

module _ (p : Parser) (cn1 cn2 n : ℕ) (pre s rest : Bytes) (whole : p.len ≡ length p.str)
    (reach : Reaches n s) where
  pub split_on_byte-append :
      (lim : ℕ)
      → p.str ≡ pre ++ (s ++ lim ∷ rest)
      → Lacks lim s
      → split_on_byte lim (length pre) cn1 cn2 n true p ≡ (true, split_at p cn1 cn2 pre s 1 rest)
  unfolding split_on_byte
  split_on_byte-append lim made lacks =
      let size : length p.str ≡ length pre + length s + 1 + length rest = omega (
        arith,
        ap length made,
        length-append pre (s ++ lim ∷ rest),
        length-append s (lim ∷ rest),
      ) in
      let here : find_byte_from lim p.str (length pre) ≡ some (length pre + length s) =
        rw made (find_byte_from-append lim pre s rest lacks) in
      rw here (split_left-found p cn1 cn2 pre s rest 1 n size whole (omega arith) reach)

  pub split_on_text-append :
      (lim : Bytes)
      → 0 < length lim
      → p.str ≡ pre ++ (s ++ (lim ++ rest))
      → NotIn lim s (lim ++ rest)
      → split_on_text lim (length pre) cn1 cn2 n true p
        ≡ (true, split_at p cn1 cn2 pre s (length lim) rest)
  unfolding split_on_text
  split_on_text-append lim w made lacks =
      let size : length p.str ≡ length pre + length s + length lim + length rest = omega (
        arith,
        ap length made,
        length-append pre (s ++ (lim ++ rest)),
        length-append s (lim ++ rest),
        length-append lim rest,
      ) in
      let here : find_text_from lim p.str (length pre) ≡ some (length pre + length s) =
        rw made (find_text_from-append lim pre s (lim ++ rest) lacks) in
      rw here (split_left-found p cn1 cn2 pre s rest (length lim) n size whole w reach)

-- A chunk of a message shorter than 2 ^ 31.
pub record IsChunk (p : Parser) (ch : ℕ) (pre s : Bytes) : Type 0 where
  pub stands : chunk_at p ch ≡ record { first = pos (length pre); second = pos (length s) }
  pub short : length p.str < 2 ^ 31
  pub before : length pre ≤ length p.str
  pub fits : length s ≤ length p.str

module _ (p : Parser) (ch cn1 cn2 : ℕ) (pre s rest : Bytes) (whole : p.len ≡ length p.str) where
  pub split_chunk_byte-append :
      (lim : ℕ)
      → IsChunk p ch pre (s ++ lim ∷ rest)
      → p.str ≡ pre ++ (s ++ lim ∷ rest)
      → Lacks lim s
      → split_chunk_byte lim ch cn1 cn2 true p ≡ (true, split_at p cn1 cn2 pre s 1 rest)
  unfolding split_chunk_byte
  split_chunk_byte-append lim c made lacks =
      let n = length (s ++ lim ∷ rest) in
      let a : length pre % 2 ^ 64 ≡ length pre = omega (arith, c.before, c.short) in
      let b : n % 2 ^ 64 ≡ n = omega (arith, c.fits, c.short) in
      rw (c.stands, a, b)
        (split_on_byte-append p cn1 cn2 n pre s rest whole
          (inr (omega (arith, length-append s (lim ∷ rest)))) lim made lacks)

  pub split_chunk_text-append :
      (lim : Bytes)
      → 0 < length lim
      → IsChunk p ch pre (s ++ (lim ++ rest))
      → p.str ≡ pre ++ (s ++ (lim ++ rest))
      → NotIn lim s (lim ++ rest)
      → split_chunk_text lim ch cn1 cn2 true p ≡ (true, split_at p cn1 cn2 pre s (length lim) rest)
  unfolding split_chunk_text
  split_chunk_text-append lim w c made lacks =
      let n = length (s ++ (lim ++ rest)) in
      let a : length pre % 2 ^ 64 ≡ length pre = omega (arith, c.before, c.short) in
      let b : n % 2 ^ 64 ≡ n = omega (arith, c.fits, c.short) in
      rw (c.stands, a, b)
        (split_on_text-append p cn1 cn2 n pre s rest whole
          (inr (omega (arith, length-append s (lim ++ rest), length-append lim rest))) lim w made
          lacks)

-- A chunk that was not read before is cut out of the message.
pub chunk_string-cut :
    (p : Parser) (n : ℕ) (pre s rest : Bytes)
    → n ≢ 0
    → n < length p.chunks
    → n < length p.strings
    → get_or p.str_map n false ≡ false
    → chunk_at p n ≡ record { first = pos (length pre); second = pos (length s) }
    → length p.str < 2 ^ 31
    → p.str ≡ pre ++ (s ++ rest)
    → (chunk_string p n).0 ≡ s
unfolding chunk_string cut_chunk
chunk_string-cut p n pre s rest nz inside room new stands short made =
    let size : length p.str ≡ length pre + length s + length rest =
      omega (arith, ap length made, length-append pre (s ++ rest), length-append s rest) in
    let a : length pre % 2 ^ 64 ≡ length pre = omega (arith, size, short) in
    let b : length s % 2 ^ 64 ≡ length s = omega (arith, size, short) in
    let nz' : (n == 0) ≡ false = ground arith in
    let inside' : leb (length p.chunks) n ≡ false = ground arith in
    let ok : in_message p (record { first = pos (length pre); second = pos (length s) }) ≡ true =
      ground (arith, size, short) in
    rw
      (
        nz',
        inside',
        new,
        stands,
        ok,
        get_or-set p.strings n n (substr p.str (length pre % 2 ^ 64) (length s % 2 ^ 64)) [] room,
        ==_refl,
        a,
        b,
        made,
      )
      (substr-append pre s rest)

pub length-set_chunk :
    (p : Parser) (n : ℕ) (a b : ℤ) → length (set_chunk p n a b).chunks ≡ length p.chunks
unfolding set_chunk
length-set_chunk p n a b = length-set p.chunks n (record { first = a; second = b })

-- The second part of a split is a chunk that ends with the message.
pub split_at-IsChunk :
    (p : Parser) (cn1 cn2 : ℕ) (pre s lim rest : Bytes)
    → cn2 < length p.chunks
    → length p.str < 2 ^ 31
    → p.str ≡ pre ++ (s ++ (lim ++ rest))
    → IsChunk (split_at p cn1 cn2 pre s (length lim) rest) cn2 (pre ++ (s ++ lim)) rest
unfolding set_chunk
split_at-IsChunk p cn1 cn2 pre s lim rest room short made =
    let a : length (pre ++ (s ++ lim)) ≡ length pre + length s + length lim =
      omega (arith, length-append pre (s ++ lim), length-append s lim) in
    let size : length p.str ≡ length pre + length s + length lim + length rest = omega (
      arith,
      ap length made,
      length-append pre (s ++ (lim ++ rest)),
      length-append s (lim ++ rest),
      length-append lim rest,
    ) in
    record {
      stands = rw (
        get_or-set (set p.chunks cn1 (record { first = pos (length pre); second = pos (length s) }))
            cn2 cn2
            (record {
              first = pos (length pre + length s + length lim);
              second = pos (length rest);
            })
            no_chunk (rw length-set room),
        ==_refl,
        a,
      );
      short = short;
      before = omega (arith, size, a);
      fits = omega (arith, size);
    }

-- The message, cut behind the delimiter.
pub regroup : (pre s lim rest : Bytes) → pre ++ (s ++ (lim ++ rest)) ≡ (pre ++ (s ++ lim)) ++ rest
regroup pre s lim rest = simp append_assoc
