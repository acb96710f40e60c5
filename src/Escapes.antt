-- ===== src/Escapes.antt =====
-- The escapes of src/cdcproto.cpp and the key of a lock. The loops of the versions on strings get
-- fuel; a buffer is the list of its bytes.

pub mod Texts
pub mod Key
use verlihub.Base.{
  ℕ, zero, suc, ◌+◌, ◌-◌, ◌*◌, ◌/◌, ◌%◌, ◌^◌, Bool, true, false, ◌&&◌, ◌||◌, Option, none, some,
  List, [], ◌∷◌, ◌++◌, ◌==◌, ltb, leb, if◌then◌else◌, length, take, drop, get_or, Bytes, bytes,
  find_text, find_text_from, replace, substr,
}
use mathlib.Core.Option
use verlihub.Run.{Run, ok, ◌>>=◌, at, or_out_of_range}
use verlihub.Address.{decimal, is_digit, skip_space, scan_digits}
use verlihub.Strings.{replace_each}

-- `UnEscapeChars` on strings: two loops, and no use of its last argument.
unfoldable pub then_pipes : ℕ → Option Bytes → Option Bytes
then_pipes fuel none = none
then_pipes fuel (some dst) = replace_each (bytes "&#124;") (bytes "|") fuel dst

unfoldable pub un_escape_chars : ℕ → Bytes → Option Bytes
un_escape_chars fuel src = then_pipes fuel (replace_each (bytes "&#36;") (bytes "$") fuel src)

-- The bytes that `find_first_of` looks for: the literal ends at its NUL.
unfoldable pub is_special : ℕ → Bool
is_special c = c == 5 || c == 36 || c == 96 || c == 124 || c == 126

unfoldable pub find_special : Bytes → Option ℕ
find_special [] = none
find_special (c ∷ s) =
    let rest = find_special s in if is_special c then some 0 else Option.map suc rest

unfoldable pub find_special_from : Bytes → ℕ → Option ℕ
find_special_from s at = Option.map (λ i. at + i) (find_special (drop at s))

unfoldable pub escape_text : Bool → ℕ → Bytes
escape_text dcn c =
    if dcn
    then (bytes "/%DCN" ++ decimal c) ++ bytes "%/"
    else (bytes "&#" ++ decimal c) ++ bytes ";"

unfoldable pub escape_loop : Bool → ℕ → Bytes → Option ℕ → Option Bytes
escape_loop dcn fuel dst none = some dst
escape_loop dcn zero dst (some at) = none
escape_loop dcn (suc fuel) dst (some at) =
    let longer = replace dst at 1 (escape_text dcn (get_or dst at 0)) in
    escape_loop dcn fuel longer (find_special_from longer at)

unfoldable pub escape_chars : ℕ → Bytes → Bool → Option Bytes
escape_chars fuel src dcn = escape_loop dcn fuel src (find_special src)

-- `EscapeChars` on a buffer, where a NUL is escaped too and numbers have three digits.
unfoldable pub is_reserved : ℕ → Bool
is_reserved c = c == 0 || is_special c

-- The zeros that fill up the width of "/%DCN".
unfoldable pub filling : ℕ → Bytes
filling c = if ltb c 10 then bytes "00" else if ltb c 100 then bytes "0" else []

unfoldable pub escape_byte : Bool → ℕ → Bytes
escape_byte dcn c =
    if dcn
    then ((bytes "/%DCN" ++ filling c) ++ decimal c) ++ bytes "%/"
    else (bytes "&#" ++ decimal c) ++ bytes ";"

unfoldable pub escape_buffer : Bytes → Bool → Bytes
escape_buffer [] dcn = []
escape_buffer (c ∷ s) dcn =
    (if is_reserved c then escape_byte dcn c else c ∷ []) ++ escape_buffer s dcn

-- `(unsigned char)atoi(s)`
unfoldable pub signed_digits : Bytes → ℕ
signed_digits [] = 0
signed_digits (c ∷ s) =
    if c == b'-'
    then (256 - (scan_digits 0 s).0 % 256) % 256
    else if c == b'+'
    then (scan_digits 0 s).0 % 256
    else (scan_digits 0 (c ∷ s)).0 % 256

unfoldable pub atoi_byte : Bytes → ℕ
atoi_byte s = signed_digits (skip_space s)

unfoldable pub start_mark : Bool → Bytes
start_mark dcn = if dcn then bytes "/%DCN" else bytes "&#"

unfoldable pub end_mark : Bool → Bytes
end_mark dcn = if dcn then bytes "%/" else bytes ";"

-- What is copied in front of a mark; `pos2` is nothing at `npos`.
unfoldable pub copied : Bytes → Option ℕ → ℕ → Bytes
copied src none pos = []
copied src (some pos2) pos = if ltb pos2 pos then substr src pos2 (pos - pos2) else []

-- The byte of a mark whose end stands at `pos2`, and `pos2` behind it.
unfoldable pub decoded : Bool → Bytes → ℕ → Option ℕ → Bytes × Option ℕ
decoded dcn src pos none = ([], none)
decoded dcn src pos (some pos2) =
    let start = length (start_mark dcn) in
    if leb (pos2 - pos) (start + 3)
    then (atoi_byte (substr src (pos + start) 3) ∷ [], some (pos2 + length (end_mark dcn)))
    else ([], some pos2)

unfoldable pub rest_of : Bytes → Option ℕ → Bytes
rest_of src none = []
rest_of src (some pos2) = drop pos2 src

-- The loop of `UnEscapeChars` on a buffer, with what it has written.
unfoldable pub un_escape_loop : Bool → Bytes → ℕ → Option ℕ → Bytes → Option ℕ → Option Bytes
un_escape_loop dcn src fuel none out pos2 = some (out ++ rest_of src pos2)
un_escape_loop dcn src zero (some pos) out pos2 = none
un_escape_loop dcn src (suc fuel) (some pos) out pos2 =
    let front = out ++ copied src pos2 pos in
    let r = decoded dcn src pos (find_text_from (end_mark dcn) src pos) in
    let more =
      un_escape_loop dcn src fuel (find_text_from (start_mark dcn) src (pos + 1)) (front ++ r.0)
        r.1 in
    if ltb (length out) (length src) then more else some (out ++ rest_of src pos2)

unfoldable pub un_escape_buffer : ℕ → Bytes → Bool → Option Bytes
un_escape_buffer fuel src dcn =
    un_escape_loop dcn src fuel (find_text (start_mark dcn) src) [] (some 0)

-- `a ^ b` on words of `w` bits
unfoldable pub bit_xor : ℕ → ℕ → ℕ → ℕ
bit_xor zero a b = 0
bit_xor (suc w) a b =
    let rest = bit_xor w (a / 2) (b / 2) in (if a % 2 == b % 2 then 0 else 1) + 2 * rest

-- `(key << 4) | (key >> 4)` on a `char`, whose sign the second shift spreads.
unfoldable pub swap_nibbles : ℕ → ℕ
swap_nibbles k = if ltb k 128 then k % 16 * 16 + k / 16 else 240 + k / 16

-- Every byte of the key behind the first one.
unfoldable pub chain : ℕ → Bytes → Bytes
chain last [] = []
chain last (c ∷ s) = swap_nibbles (bit_xor 8 c last) ∷ chain c s

-- `len - k` on an `unsigned int`
unfoldable pub back : ℕ → ℕ → ℕ
back len k = if ltb len k then 2 ^ 32 - (k - len) else len - k

unfoldable pub raw_key : Bytes → Run Bytes
raw_key lock = do
  first ← at lock 0
  last ← at lock (back (length lock) 1)
  before ← at lock (back (length lock) 2)
  ok (
      swap_nibbles (bit_xor 8 (bit_xor 8 (bit_xor 8 first last) before) 5)
      ∷ chain first (drop 1 lock))

-- The lock is unescaped with as much fuel as it is long.
unfoldable pub lock_to_key : Bytes → Run Bytes
lock_to_key lock =
    if ltb (length lock) 2
    then ok []
    else or_out_of_range (un_escape_buffer (length lock) lock true)
      >>= (λ plain. raw_key plain >>= (λ key. ok (escape_buffer key true)))
