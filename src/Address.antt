-- ===== src/Address.antt =====
-- src/cbanlist.cpp (`Ip2Num`, `Num2Ip`) and src/cdcproto.cpp (`isLanIP`): addresses as texts and as
-- numbers, on a machine that stores the low byte first.
pub mod Decimal
pub mod RoundTrip
pub mod Lan
use verlihub.Base.{
  ℕ, zero, suc, ◌+◌, ◌-◌, ◌*◌, ◌/◌, ◌%◌, ◌^◌, Bool, true, false, ◌&&◌, ◌||◌, not, Option, none,
  some, List, [], ◌∷◌, ◌++◌, ltb, leb, ◌==◌, if◌then◌else◌, length, substr, bytes, Bytes, ◌==ᵇ◌,
}

-- The conversions that `sscanf` makes, until one fails.
infixl 5 ◌>>=◌
abbrev pub ◌>>=◌ {ℓ κ} : {A : Type ℓ} {B : Type κ} → Option A → (A → Option B) → Option B
none >>= convert = none
some a >>= convert = convert a

-- A number written with `ostream <<`; twenty digits hold every `unsigned long`.
unfoldable pub decimal_digits : ℕ → ℕ → Bytes
decimal_digits zero n = []
decimal_digits (suc fuel) n =
    let higher = decimal_digits fuel (n / 10) in
    if ltb n 10 then (b'0' + n) ∷ [] else higher ++ (b'0' + n % 10) ∷ []

unfoldable pub decimal : ℕ → Bytes
decimal n = decimal_digits 20 n

-- `%lu` of `sscanf`, on a text of at most 15 bytes: blanks, a sign and digits.
unfoldable pub is_space : ℕ → Bool
is_space c = (c == 32) || (leb 9 c && leb c 13)

unfoldable pub is_digit : ℕ → Bool
is_digit c = leb b'0' c && leb c b'9'

unfoldable pub skip_space : Bytes → Bytes
skip_space [] = []
skip_space (c ∷ s) = let rest = skip_space s in if is_space c then rest else c ∷ s

unfoldable pub scan_digits : ℕ → Bytes → ℕ × Bytes
scan_digits n [] = (n, [])
scan_digits n (c ∷ s) =
    let rest = scan_digits (n * 10 + (c - b'0')) s in if is_digit c then rest else (n, c ∷ s)

unfoldable pub scan_number : Bytes → Option (ℕ × Bytes)
scan_number [] = none
scan_number (c ∷ s) = if is_digit c then some (scan_digits 0 (c ∷ s)) else none

-- A number with a minus is negated in an `unsigned long`.
unfoldable pub negated : Option (ℕ × Bytes) → Option (ℕ × Bytes)
negated none = none
negated (some r) = some ((2 ^ 64 - r.0) % 2 ^ 64, r.1)

unfoldable pub scan_signed : Bytes → Option (ℕ × Bytes)
scan_signed [] = none
scan_signed (c ∷ s) =
    if c == b'-'
    then negated (scan_number s)
    else if c == b'+'
    then scan_number s
    else scan_number (c ∷ s)

unfoldable pub scan_unsigned : Bytes → Option (ℕ × Bytes)
scan_unsigned s = scan_signed (skip_space s)

-- A dot of the format, and the number behind it.
unfoldable pub scan_dot : Bytes → Option (ℕ × Bytes)
scan_dot [] = none
scan_dot (c ∷ s) = if c == b'.' then scan_unsigned s else none

pub record Quad : Type 0 where
  pub p1 : ℕ
  pub p2 : ℕ
  pub p3 : ℕ
  pub p4 : ℕ

unfoldable pub scan_quad : Bytes → Option Quad
scan_quad s = do
  a ← scan_unsigned s
  b ← scan_dot a.1
  c ← scan_dot b.1
  d ← scan_dot c.1
  some (record { p1 = a.0; p2 = b.0; p3 = c.0; p4 = d.0 })

unfoldable pub write_quad : Quad → Bytes
write_quad q =
    decimal q.p1 ++ (b'.' ∷ (decimal q.p2 ++ (b'.' ∷ (decimal q.p3 ++ (b'.' ∷ decimal q.p4)))))

unfoldable pub quad_number : Quad → ℕ
quad_number q = q.p1 * 2 ^ 24 + q.p2 * 2 ^ 16 + q.p3 * 2 ^ 8 + q.p4

unfoldable pub is_octets : Quad → Bool
is_octets q = leb q.p1 255 && leb q.p2 255 && leb q.p3 255 && leb q.p4 255

-- What `Ip2Num` tests after its `sscanf`.
unfoldable pub number_of_quad : Bytes → Bool → Option Quad → Option ℕ
number_of_quad ip any none = none
number_of_quad ip any (some q) =
    if is_octets q
      && (ip ==ᵇ write_quad q)
      && ((any || ltb 0 (quad_number q)) && leb (quad_number q) 4294967295)
    then some (quad_number q)
    else none

unfoldable pub ip2num : Bytes → Bool → Option ℕ
ip2num ip any =
    if ltb (length ip) 7 || ltb 15 (length ip) then none else number_of_quad ip any (scan_quad ip)

-- The bytes of a number, the highest one first.
unfoldable pub quad_of : ℕ → Quad
quad_of n = record {
  p1 = n / 2 ^ 24 % 2 ^ 8;
  p2 = n / 2 ^ 16 % 2 ^ 8;
  p3 = n / 2 ^ 8 % 2 ^ 8;
  p4 = n % 2 ^ 8;
}

unfoldable pub num2ip : ℕ → Bytes
num2ip n = write_quad (quad_of n)

unfoldable pub between : ℕ → ℕ → ℕ → Bool
between lo hi n = leb lo n && leb n hi

unfoldable pub is_lan_number : Option ℕ → Bool
is_lan_number none = false
is_lan_number (some n) =
    between 167772160 184549375 n
    || between 2886729728 2887778303 n
    || between 3232235520 3232301055 n

unfoldable pub is_lan_ip : Bytes → Bool
is_lan_ip ip = (substr ip 0 4 ==ᵇ bytes "127.") || is_lan_number (ip2num ip false)
