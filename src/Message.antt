-- ===== src/Message.antt =====
-- src/cprotocol.{h,cpp} and src/cprotocommand.cpp: `cMessageParser`, a protocol message with the
-- chunks that it is split into. Positions and lengths of messages are below 2 ^ 31, so an `int`
-- holds them as they are; the conversions of a negative `int` to an unsigned type are written out.
-- Chunk numbers are constants below `mMaxChunks`, so a chunk is always there.
pub mod Command
pub mod Split
pub mod Search
pub mod Recognise
pub mod Parsed
pub mod ConnectToMe
pub mod Private
pub mod Single
pub mod SplitLaws
use verlihub.Base.{
  ℕ, suc, ◌+◌, ◌-◌, ◌*◌, ◌%◌, ◌^◌, Bool, true, false, ◌&&◌, Option, none, some, List, [], ℤ, pos,
  negsuc, sub_ℕ, add_nat, sub_nat, is_nonneg, to_unsigned, ◌==◌, ltb, leb, if◌then◌else◌, length,
  get_or, set, replicate, Bytes, find_text_from, find_byte_from, find_last_byte_to,
  find_last_text_to, substr, replace,
}
use verlihub.Run.{Run, ok, fault, out_of_range}
use Command.{DcMsg}

pub record Chunk : Type 0 where
  pub first : ℤ
  pub second : ℤ

abbrev pub no_chunk : Chunk
no_chunk = record { first = pos 0; second = pos 0 }

-- `type` is `none` for `eMSG_UNPARSED`; `str_map` lists the bits of `mChStrMap`.
pub record Parser : Type 0 where
  pub str : Bytes
  pub chunks : List Chunk
  pub strings : List Bytes
  pub str_map : List Bool
  pub error : Bool
  pub modified : Bool
  pub type : Option DcMsg
  pub len : ℕ
  pub kw_size : ℕ
  pub max_chunks : ℕ

unfoldable pub new_parser : ℕ → Parser
new_parser n = record {
  str = [];
  chunks = replicate n no_chunk;
  strings = replicate (2 * n) [];
  str_map = replicate n false;
  error = false;
  modified = false;
  type = none;
  len = 0;
  kw_size = 0;
  max_chunks = n;
}

-- The strings of the last message stay in `mChStrings`.
unfoldable pub re_init : Parser → Parser
re_init p = record {
  str = [];
  chunks = replicate p.max_chunks no_chunk;
  strings = p.strings;
  str_map = replicate p.max_chunks false;
  error = false;
  modified = false;
  type = none;
  len = 0;
  kw_size = 0;
  max_chunks = p.max_chunks;
}

abbrev pub chunk_at : Parser → ℕ → Chunk
chunk_at p n = get_or p.chunks n no_chunk

-- `mStr.replace(chu.first, chu.second, mChStrings[n])`, which throws behind the end of `mStr`
replace_chunk : Parser → ℕ → Chunk → Run Parser
replace_chunk p n c =
    let start = to_unsigned 64 c.first in
    if leb start (length p.str)
    then ok (record p {
      str = replace p.str start (to_unsigned 64 c.second) (get_or p.strings n []);
      modified = true;
    })
    else fault out_of_range

unfoldable pub apply_chunk : Parser → ℕ → Run Parser
unfolding replace_chunk
apply_chunk p n =
    if n == 0
    then ok p
    else if leb (length p.chunks) n
    then ok p
    else if get_or p.str_map n false
    then replace_chunk p n (chunk_at p n)
    else ok p

-- The guard of `ChunkString`; the casts are to `unsigned int`.
abbrev pub in_message : Parser → Chunk → Bool
in_message p c =
    is_nonneg c.first
    && is_nonneg c.second
    && leb (to_unsigned 32 c.first) (length p.str)
    && leb (to_unsigned 32 c.second) (length p.str)

-- The first reading of a chunk.
unfoldable pub cut_chunk : Parser → ℕ → Chunk → Parser
cut_chunk p n c = record p {
  str_map = set p.str_map n true;
  strings =
      (if in_message p c
        then set p.strings n (substr p.str (to_unsigned 64 c.first) (to_unsigned 64 c.second))
        else p.strings);
}

unfoldable pub chunk_string : Parser → ℕ → Bytes × Parser
chunk_string p n =
    if n == 0
    then (p.str, p)
    else if leb (length p.chunks) n
    then (get_or p.strings 0 [], p)
    else if get_or p.str_map n false
    then (get_or p.strings n [], p)
    else (get_or (cut_chunk p n (chunk_at p n)).strings n [], cut_chunk p n (chunk_at p n))

unfoldable pub set_chunk : Parser → ℕ → ℤ → ℤ → Parser
set_chunk p n start len = record p {
  chunks = set p.chunks n (record { first = start; second = len });
}

-- Both chunks of a split at position `i`, by a delimiter of `width` bytes.
unfoldable pub set_both : Parser → ℕ → ℕ → ℕ → ℕ → ℕ → Parser
set_both p cn1 cn2 start i width =
    set_chunk (set_chunk p cn1 (pos start) (pos (i - start))) cn2 (pos (i + width))
      (sub_ℕ p.len (i + width))

-- `if (!len) len = mLen;`
abbrev pub split_len : Parser → ℕ → ℕ
split_len p len = if len == 0 then p.len else len

-- What each `SplitOnTwo` does with the position that its search returns.
unfoldable pub split_left : Parser → ℕ → ℕ → ℕ → ℕ → ℕ → Option ℕ → Bool × Parser
split_left p cn1 cn2 start len width none = (false, p)
split_left p cn1 cn2 start len width (some i) =
    if leb len (i - start) then (false, p) else (true, set_both p cn1 cn2 start i width)

unfoldable pub split_right : Parser → ℕ → ℕ → ℕ → ℕ → Option ℕ → Bool × Parser
split_right p cn1 cn2 start width none = (false, p)
split_right p cn1 cn2 start width (some i) =
    if ltb i start then (false, p) else (true, set_both p cn1 cn2 start i width)

unfoldable pub split_on_text : Bytes → ℕ → ℕ → ℕ → ℕ → Bool → Parser → Bool × Parser
split_on_text lim start cn1 cn2 len left p =
    let n = split_len p len in
    if left
    then split_left p cn1 cn2 start n (length lim) (find_text_from lim p.str start)
    else split_right p cn1 cn2 start (length lim)
        (find_last_text_to lim p.str ((start + n + 2 ^ 64 - length lim) % 2 ^ 64))

unfoldable pub split_on_byte : ℕ → ℕ → ℕ → ℕ → ℕ → Bool → Parser → Bool × Parser
split_on_byte lim start cn1 cn2 len left p =
    let n = split_len p len in
    if left
    then split_left p cn1 cn2 start n 1 (find_byte_from lim p.str start)
    else split_right p cn1 cn2 start 1
        (find_last_byte_to lim p.str ((start + n + 2 ^ 64 - 1) % 2 ^ 64))

-- The same on a chunk.
unfoldable pub split_chunk_byte : ℕ → ℕ → ℕ → ℕ → Bool → Parser → Bool × Parser
split_chunk_byte lim ch cn1 cn2 left p =
    let c = chunk_at p ch in
    split_on_byte lim (to_unsigned 64 c.first) cn1 cn2 (to_unsigned 64 c.second) left p

unfoldable pub split_chunk_text : Bytes → ℕ → ℕ → ℕ → Bool → Parser → Bool × Parser
split_chunk_text lim ch cn1 cn2 left p =
    let c = chunk_at p ch in
    split_on_text lim (to_unsigned 64 c.first) cn1 cn2 (to_unsigned 64 c.second) left p

unfoldable pub chunk_red_left : ℕ → ℕ → Parser → Bool × Parser
chunk_red_left cn amount p =
    let c = chunk_at p cn in
    if ltb (to_unsigned 32 (add_nat c.first amount)) p.len
    then (true, set_chunk p cn (add_nat c.first amount) (sub_nat c.second amount))
    else (false, p)

unfoldable pub chunk_red_right : ℕ → ℕ → Parser → Bool × Parser
chunk_red_right cn amount p =
    let c = chunk_at p cn in (true, set_chunk p cn c.first (sub_nat c.second amount))

unfoldable pub chunk_inc_left : ℕ → ℕ → Parser → Bool × Parser
chunk_inc_left cn amount p =
    let c = chunk_at p cn in (true, set_chunk p cn c.first (add_nat c.second amount))
