-- ===== src/Tests/Locks.antt =====
-- Escapes, and the key of a lock.
use verlihub.Base.{
  ◌≡◌, refl, arith, true, false, none, some, [], ◌∷◌, bytes, length, take, drop, find_text,
  find_text_from, starts_with, replace, substr, get_or, get_elem?,
}
use verlihub.Run.{ok, at, or_out_of_range, Returns}
use verlihub.Address.{decimal, decimal_digits, is_digit, is_space, skip_space, scan_digits}
use verlihub.Strings.{replace_loop, replace_each}
use verlihub.Escapes.{
  then_pipes, un_escape_chars, is_special, find_special, find_special_from, escape_text,
  escape_loop, escape_chars, is_reserved, filling, escape_byte, escape_buffer, signed_digits,
  atoi_byte, start_mark, end_mark, copied, decoded, rest_of, un_escape_loop, un_escape_buffer,
  bit_xor, swap_nibbles, chain, back, raw_key, lock_to_key,
}
use verlihub.Escapes.Texts.{
  escaped, lacks_all, all_plain, is_plain, escape_chars-escaped, un_escape_chars-escape_chars,
}
use verlihub.Escapes.Key.{lock_to_key-safe}

locks : Unit {0}
unfolding take drop find_text find_text_from starts_with replace substr get_or get_elem? at
    or_out_of_range decimal decimal_digits is_digit is_space skip_space scan_digits replace_loop
    replace_each then_pipes un_escape_chars is_special find_special find_special_from escape_text
    escape_loop escape_chars is_reserved filling escape_byte escape_buffer signed_digits atoi_byte
    start_mark end_mark copied decoded rest_of un_escape_loop un_escape_buffer bit_xor swap_nibbles
    chain back raw_key lock_to_key escaped lacks_all all_plain is_plain
locks = tt

escaped_price : escape_chars 9 (bytes "5$ | `6`") false ≡ some (bytes "5&#36; &#124; &#96;6&#96;")
unfolding locks
escaped_price = refl

escape_chars-escaped_example :
    escape_chars (length (bytes "5$|6$")) (bytes "5$|6$") true ≡ some (escaped true (bytes "5$|6$"))
escape_chars-escaped_example = escape_chars-escaped (bytes "5$|6$") true

price-plain : all_plain (bytes "5$|6$") ≡ true
unfolding locks
price-plain = refl

un_escape_chars-escape_chars_example :
    let e = escaped false (bytes "5$|6$") in
    (escape_chars (length (bytes "5$|6$")) (bytes "5$|6$") false ≡ some e)
    × (un_escape_chars (length e) e ≡ some (bytes "5$|6$"))
un_escape_chars-escape_chars_example = un_escape_chars-escape_chars (bytes "5$|6$") price-plain

-- A NUL stays in a string, and is escaped in a buffer.
nul :
    (escape_chars 1 (0 ∷ []) true ≡ some (0 ∷ []))
    × (escape_buffer (0 ∷ 36 ∷ []) true ≡ bytes "/%DCN000%//%DCN036%/")
unfolding locks
nul = (refl, refl)

decoded_marks :
    un_escape_buffer 30 (bytes "a/%DCN036%/b/%DCN005%/") true ≡ some (b'a' ∷ 36 ∷ b'b' ∷ 5 ∷ [])
unfolding locks
decoded_marks = refl

pub key_of_lock :
    lock_to_key (bytes "EXTENDEDPROTOCOL")
    ≡ ok (
        52 ∷ 209 ∷ 192 ∷ 17 ∷ 176 ∷ 160 ∷ 16 ∷ 16 ∷ 65 ∷ 32 ∷ 209 ∷ 177 ∷ 177 ∷ 192 ∷ 192 ∷ 48 ∷ [])
unfolding locks
key_of_lock = refl

lock-plain : find_text (start_mark true) (bytes "EXTENDEDPROTOCOL") ≡ none
unfolding locks
lock-plain = refl

lock_to_key-safe_example :
    Returns (lock_to_key (bytes "EXTENDEDPROTOCOL")) (λ key. lacks_all is_reserved key ≡ true)
lock_to_key-safe_example = lock_to_key-safe (bytes "EXTENDEDPROTOCOL") (omega arith) lock-plain
