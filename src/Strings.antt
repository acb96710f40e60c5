-- ===== src/Strings.antt =====
-- src/stringutils.cpp: the helpers on texts. `tolower` and `toupper` depend on the locale, and are
-- parameters on bytes. A loop that replaces parts of a text gets fuel, and gives nothing when it
-- runs out of it.
pub mod Replacing
pub mod Loops
pub mod Lines
pub mod Letters
use verlihub.Base.{
  ℕ, zero, suc, ◌+◌, ◌-◌, ◌/◌, ◌%◌, ◌^◌, Bool, true, false, not, ◌&&◌, ◌||◌, Option, none, some,
  List, [], ◌∷◌, ◌++◌, map, ◌==◌, ltb, leb, if◌then◌else◌, length, take, drop, Bytes, bytes,
  find_text, find_text_from, find_last_byte, replace, ℤ, pos, negsuc, lt_int, add_nat,
}
use verlihub.Run.{Run, ok, fault, signed_overflow}
use verlihub.Address.{decimal, is_digit}

-- The loops over the Cyrillic letters of code page 1251.
unfoldable pub lower_cyrillic : ℕ → ℕ
lower_cyrillic b = if b == 168 then b + 16 else if leb 192 b && leb b 223 then b + 32 else b

unfoldable pub upper_cyrillic : ℕ → ℕ
upper_cyrillic b = if b == 184 then b - 16 else if leb 224 b && leb b 255 then b - 32 else b

unfoldable pub to_lower : (ℕ → ℕ) → Bytes → Bool → Bytes
to_lower lower str cyr =
    let result = map lower str in if cyr then map lower_cyrillic result else result

unfoldable pub to_upper : (ℕ → ℕ) → Bytes → Bool → Bytes
to_upper upper str cyr =
    let result = map upper str in if cyr then map upper_cyrillic result else result

unfoldable pub str_cut_left : Bytes → ℕ → Bytes
str_cut_left str cut = drop (if ltb (length str) cut then length str else cut) str

-- `while (pos != npos) { dest.replace(pos, size, by); pos = dest.find(var, pos); }`
unfoldable pub replace_loop : (var : Bytes) (by : Bytes) → ℕ → Bytes → Option ℕ → Option Bytes
replace_loop var by fuel dest none = some dest
replace_loop var by zero dest (some at) = none
replace_loop var by (suc fuel) dest (some at) =
    let longer = replace dest at (length var) by in
    replace_loop var by fuel longer (find_text_from var longer at)

unfoldable pub replace_each : (var : Bytes) (by : Bytes) → ℕ → Bytes → Option Bytes
replace_each var by fuel dest = replace_loop var by fuel dest (find_text var dest)

unfoldable pub filter_path : ℕ → Bytes → Option Bytes
filter_path fuel path = replace_each (bytes "../") [] fuel path

unfoldable pub search_var : Bytes → Bytes
search_var name = (bytes "%[" ++ name) ++ bytes "]"

unfoldable pub replace_var_in_string : ℕ → Bytes → Bytes → Bytes → Option Bytes
replace_var_in_string fuel src name by = replace_each (search_var name) by fuel src

-- The path and the file of `GetPath`, by the last slash.
unfoldable pub split_path : Bytes → Option ℕ → Bytes × Bytes
split_path name none = (name, name)
split_path name (some i) = (take (i + 1) name, drop (i + 1) name)

unfoldable pub get_path : Bytes → Bytes × Bytes
get_path name = split_path name (find_last_byte b'/' name)

-- A C string ends at a NUL.
unfoldable pub all_digits : Bytes → Bool
all_digits [] = true
all_digits (c ∷ s) = let rest = all_digits s in if c == 0 then true else is_digit c && rest

unfoldable pub is_number : Bytes → Bool
is_number [] = false
is_number (c ∷ s) =
    let rest = all_digits s in if c == 0 then false else (c == b'-' || is_digit c) && rest

-- `lines` is an `unsigned int`.
unfoldable pub add_lines : ℕ → Bytes → ℕ
add_lines lines [] = lines
add_lines lines (c ∷ s) =
    let more = add_lines ((lines + 1) % 2 ^ 32) s in
    let same = add_lines lines s in if c == 10 then more else same

unfoldable pub count_lines : Bytes → ℕ
count_lines str = add_lines 1 str

-- `lines` is an `int` that is never negative; one more than the largest `int` is an overflow.
unfoldable pub limit_from : ℤ → ℕ → Bytes → Run Bool
limit_from max lines [] = ok true
limit_from max lines (c ∷ s) =
    let more = limit_from max (lines + 1) s in
    let same = limit_from max lines s in
    if c == 10
    then (if leb (2 ^ 31) (lines + 1)
        then fault signed_overflow
        else if lt_int max (pos (lines + 1))
        then ok false
        else more)
    else same

unfoldable pub limit_lines : Bytes → ℤ → Run Bool
limit_lines str max = limit_from max 1 str

-- `StringFrom` of the `int` that a `char` is.
unfoldable pub char_text : ℕ → Bytes
char_text c = if ltb c 128 then decimal c else bytes "-" ++ decimal (256 - c)

unfoldable pub more_bytes : Bytes → Bytes → Bytes
more_bytes sep [] = []
more_bytes sep (c ∷ s) = (sep ++ char_text c) ++ more_bytes sep s

unfoldable pub str_byte_list : Bytes → Bytes → Bytes
str_byte_list [] sep = []
str_byte_list (c ∷ s) sep = char_text c ++ more_bytes sep s

unfoldable pub hex_digit : ℕ → ℕ
hex_digit n = if ltb n 10 then b'0' + n else b'a' + (n - 10)

unfoldable pub str_to_hex : Bytes → Bytes
str_to_hex [] = []
str_to_hex (c ∷ s) = b'%' ∷ hex_digit (c / 16) ∷ hex_digit (c % 16) ∷ str_to_hex s
