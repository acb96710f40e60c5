-- ===== src/Escapes/Key.antt =====
-- The key that answers a lock.
use verlihub.Base.{
  ℕ, ◌-◌, ◌≤◌, ◌≡◌, refl, sym, arith, Bool, true, false, none, some, [], ◌∷◌, inl, inr, ltb,
  Bool-cases, ℕ_discrete, length, drop, get_or, Bytes, find_text, subst,
}
use verlihub.Run.{or_out_of_range, Returns}
use verlihub.HashArray.Table.{at-lt}
use verlihub.Address.{decimal, decimal_digits}
use verlihub.Escapes.{
  is_special, is_reserved, filling, escape_byte, escape_buffer, start_mark, rest_of, un_escape_loop,
  un_escape_buffer, bit_xor, swap_nibbles, chain, back, raw_key, lock_to_key,
}
use verlihub.Escapes.Texts.{lacks_all, lacks_all-append, special-one}

reserved-one :
    (P : ℕ → Type 0)
    → P 0
    → P 5
    → P 36
    → P 96
    → P 124
    → P 126
    → (c : ℕ) → is_reserved c ≡ true
    → P c
unfolding is_reserved
reserved-one P z a b d e f c h = elim (ℕ_discrete c 0) [
  | yes q ↦ subst P (sym q) z
  | no n ↦ special-one P a b d e f c (ground (arith, h, n))
]

escape_byte-lacks_all :
    (dcn : Bool) (c : ℕ) → is_reserved c ≡ true → lacks_all is_reserved (escape_byte dcn c) ≡ true
unfolding lacks_all escape_byte filling is_reserved is_special decimal decimal_digits
escape_byte-lacks_all true =
    reserved-one (λ c. lacks_all is_reserved (escape_byte true c) ≡ true) refl refl refl refl refl
      refl
escape_byte-lacks_all false =
    reserved-one (λ c. lacks_all is_reserved (escape_byte false c) ≡ true) refl refl refl refl refl
      refl

-- EscapeChars on a buffer leaves none of the bytes 0, 5, 36, 96, 124 and 126.
escape_buffer-lacks_all :
    (s : Bytes) (dcn : Bool) → lacks_all is_reserved (escape_buffer s dcn) ≡ true
unfolding escape_buffer lacks_all
escape_buffer-lacks_all [] dcn = refl
escape_buffer-lacks_all (c ∷ s) dcn =
    lacks_all-append is_reserved _ (escape_buffer s dcn)
      (elim (Bool-cases (is_reserved c)) [
        | inl reserved ↦ rw reserved (escape_byte-lacks_all dcn c reserved)
        | inr free ↦ rw free (rw free refl)
      ])
      (escape_buffer-lacks_all s dcn)

-- A lock without a mark is copied.
un_escape_buffer-plain :
    (lock : Bytes)
    → find_text (start_mark true) lock ≡ none
    → un_escape_buffer (length lock) lock true ≡ some lock
unfolding un_escape_buffer un_escape_loop rest_of drop
un_escape_buffer-plain lock plain = rw plain refl

back-less : (len k : ℕ) → k ≤ len → back len k ≡ len - k
unfolding back
back-less len k h = let small : ltb len k ≡ false = ground arith in rw small refl

raw_key-returns :
    (lock : Bytes)
    → 2 ≤ length lock
    → Returns (raw_key lock) (λ key.
      key
      ≡ swap_nibbles (
          bit_xor 8
            (bit_xor 8
              (bit_xor 8 (get_or lock 0 0) (get_or lock (length lock - 1) 0))
              (get_or lock (length lock - 2) 0))
            5)
        ∷ chain (get_or lock 0 0) (drop 1 lock))
unfolding raw_key
raw_key-returns lock long =
    let one : back (length lock) 1 ≡ length lock - 1 = back-less (length lock) 1 (omega arith) in
    let two : back (length lock) 2 ≡ length lock - 2 = back-less (length lock) 2 (omega arith) in
    (
      _,
      rw
          (
            one,
            two,
            at-lt lock 0 0 (omega arith),
            at-lt lock (length lock - 1) 0 (omega arith),
            at-lt lock (length lock - 2) 0 (omega arith),
          )
          refl,
      refl,
    )

-- A lock of at least two bytes without a mark: Lock2Key never faults, and the key has none of the
-- bytes 0, 5, 36, 96, 124 and 126, so that it can stand in a message.
pub lock_to_key-safe :
    (lock : Bytes)
    → 2 ≤ length lock
    → find_text (start_mark true) lock ≡ none
    → Returns (lock_to_key lock) (λ key. lacks_all is_reserved key ≡ true)
unfolding lock_to_key or_out_of_range
lock_to_key-safe lock long plain =
    let wide : ltb (length lock) 2 ≡ false = ground (arith, long) in
    let (key, go, is) = raw_key-returns lock long in
    (
      escape_buffer key true,
      rw (wide, un_escape_buffer-plain lock plain, go) refl,
      escape_buffer-lacks_all key true,
    )
