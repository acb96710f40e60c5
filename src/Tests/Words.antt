-- ===== src/Tests/Words.antt =====
-- The helpers on texts.
use verlihub.Base.{
  ℕ, ◌≡◌, ◌+◌, ◌-◌, ◌<◌, ◌^◌, refl, arith, true, false, ◌&&◌, none, some, [], ◌∷◌, ◌++◌, Bytes,
  bytes, ◌==◌, leb, if◌then◌else◌, length, take, drop, find_text, find_text_from, find_byte,
  find_last_byte, starts_with, replace, pos, negsuc, lt_int,
}
use verlihub.Run.{ok, fault, signed_overflow}
use verlihub.Address.{decimal, decimal_digits, is_digit}
use verlihub.Strings.{
  lower_cyrillic, upper_cyrillic, to_lower, to_upper, str_cut_left, replace_loop, replace_each,
  filter_path, search_var, replace_var_in_string, split_path, get_path, all_digits, is_number,
  add_lines, count_lines, limit_from, limit_lines, char_text, more_bytes, str_byte_list, hex_digit,
  str_to_hex,
}
use verlihub.Strings.Replacing.{replaced}
use verlihub.Strings.Loops.{
  filter_path-replaced, replace_var_in_string-replaced, replace_var_in_string-endless,
}
use verlihub.Strings.Lines.{line_ends, limit_lines-count}
use verlihub.Strings.Letters.{get_path-parts}

words : Unit {0}
unfolding take drop find_text find_text_from find_byte find_last_byte starts_with replace decimal
    decimal_digits is_digit lower_cyrillic upper_cyrillic to_lower to_upper str_cut_left
    replace_loop replace_each filter_path search_var replace_var_in_string split_path get_path
    all_digits is_number add_lines count_lines limit_from limit_lines char_text more_bytes
    str_byte_list hex_digit str_to_hex replaced line_ends
words = tt

-- The parts around a "../" that was taken out make another one, which stays.
path_left : filter_path 9 (bytes "a/....//b") ≡ some (bytes "a/../b")
unfolding words
path_left = refl

filter_path-replaced_example :
    filter_path (length (bytes "a/....//b")) (bytes "a/....//b")
    ≡ some (replaced (bytes "../") [] 0 (bytes "a/....//b"))
filter_path-replaced_example = filter_path-replaced (bytes "a/....//b")

ann_percent : find_byte b'%' (bytes "Ann") ≡ none
unfolding words
ann_percent = refl

greeting :
    replace_var_in_string 20 (bytes "Hi %[nick]!") (bytes "nick") (bytes "Ann")
    ≡ some (bytes "Hi Ann!")
unfolding words
greeting = refl

replace_var_in_string-replaced_example :
    replace_var_in_string
      (length (bytes "Hi %[nick]!"))
      (bytes "Hi %[nick]!")
      (bytes "nick")
      (bytes "Ann")
    ≡ some (replaced (search_var (bytes "nick")) (bytes "Ann") 0 (bytes "Hi %[nick]!"))
replace_var_in_string-replaced_example =
    replace_var_in_string-replaced (bytes "Hi %[nick]!") (bytes "nick") (bytes "Ann") ann_percent

found_in_text : find_text (search_var (bytes "nick")) (bytes "Hi %[nick]!") ≡ some 3
unfolding words
found_in_text = refl

found_in_nick : find_text (search_var (bytes "nick")) (bytes "x%[nick]") ≡ some 1
unfolding words
found_in_nick = refl

replace_var_in_string-endless_example :
    replace_var_in_string 1000 (bytes "Hi %[nick]!") (bytes "nick") (bytes "x%[nick]") ≡ none
replace_var_in_string-endless_example =
    replace_var_in_string-endless (bytes "Hi %[nick]!") (bytes "nick") (bytes "x%[nick]") 3 1
      found_in_text found_in_nick 1000

abbrev two_lines : Bytes
two_lines = b'a' ∷ 10 ∷ b'b' ∷ []

two-short : 1 + length two_lines < 2 ^ 32
two-short = omega arith

limit_lines-count_example :
    (count_lines two_lines ≡ 1 + line_ends two_lines)
    × (limit_lines two_lines (pos 1) ≡ (
        if count_lines two_lines == 1
        then ok true
        else if lt_int (pos 1) (pos (count_lines two_lines))
        then (if lt_int (pos 1) (pos (2 ^ 31 - 1)) then ok false else fault signed_overflow)
        else ok true))
limit_lines-count_example = limit_lines-count two_lines (pos 1) two-short refl

limited :
    (limit_lines two_lines (pos 1) ≡ ok false) × (limit_lines (bytes "a") (negsuc 4) ≡ ok true)
unfolding words
limited = (refl, refl)

-- With the largest limit the counter overflows at the largest number of lines.
overflown : limit_from (pos (2 ^ 31 - 1)) (2 ^ 31 - 1) (10 ∷ []) ≡ fault signed_overflow
unfolding words
overflown = refl

-- A lone minus sign passes.
lone_minus : (is_number (bytes "-") ≡ true) × (is_number (bytes "-12a") ≡ false)
unfolding words
lone_minus = (refl, refl)

abbrev plain_lower : ℕ → ℕ
plain_lower c = if leb 65 c && leb c 90 then c + 32 else c

abbrev plain_upper : ℕ → ℕ
plain_upper c = if leb 97 c && leb c 122 then c - 32 else c

abbrev cyrillic : Bytes
cyrillic = 207 ∷ 240 ∷ 168 ∷ b'A' ∷ []

file-plain : find_byte b'/' (bytes "motd") ≡ none
unfolding words
file-plain = refl

get_path-parts_example :
    (get_path (bytes "/etc" ++ b'/' ∷ bytes "motd") ≡ (bytes "/etc" ++ b'/' ∷ [], bytes "motd"))
    × (get_path (bytes "motd") ≡ (bytes "motd", bytes "motd"))
get_path-parts_example = get_path-parts (bytes "/etc") (bytes "motd") file-plain

hex :
    (str_to_hex (b'A' ∷ 255 ∷ []) ≡ bytes "%41%ff")
    × (str_byte_list (b'A' ∷ 255 ∷ []) (bytes " ") ≡ bytes "65 -1")
    × (str_cut_left (bytes "abc") 5 ≡ [])
unfolding words
hex = (refl, refl, refl)
