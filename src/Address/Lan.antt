-- ===== src/Address/Lan.antt =====
-- The addresses that count as local.
use verlihub.Base.{
  ℕ, ◌/◌, ◌%◌, ◌^◌, ◌<◌, ◌≡◌, ap, ◌∙◌, arith, false, ◌||◌, ◌∷◌, ◌++◌, inl, inr, ltb, ◌==◌,
  Bool-cases, take, drop, substr, bytes, Bytes, ◌==ᵇ◌,
}
use verlihub.Address.{decimal, write_quad, quad_of, num2ip, between, is_lan_number, is_lan_ip}
use verlihub.Address.Decimal.{decimal-short}
use verlihub.Address.RoundTrip.{ip2num-num2ip}

-- The first four bytes of a written number with something behind its dot.
loopback-text :
    (n : ℕ) (rest : Bytes)
    → n < 256
    → (substr (decimal n ++ (b'.' ∷ rest)) 0 4 ==ᵇ bytes "127.") ≡ (n == 127)
unfolding substr ◌==ᵇ◌ drop take
loopback-text n rest h = rw (decimal-short n (omega arith)) (elim (Bool-cases (ltb n 10)) [
  | inl one ↦ rw one (ground arith)
  | inr more ↦ elim (Bool-cases (ltb n 100)) [
    | inl two ↦ rw (more, two) (ground arith)
    | inr three ↦ rw (more, three) (ground arith)
  ]
])

num2ip-loopback :
    (n : ℕ) → n < 2 ^ 32 → (substr (num2ip n) 0 4 ==ᵇ bytes "127.") ≡ (n / 2 ^ 24 == 127)
unfolding num2ip write_quad quad_of
num2ip-loopback n h =
    loopback-text (n / 2 ^ 24 % 2 ^ 8) _ (omega arith) ∙ ap (λ k. k == 127) (omega arith)

-- An address written by `Num2Ip`, other than 0.0.0.0, is local exactly if it is in 10.0.0.0/8,
-- 127.0.0.0/8, 172.16.0.0/12 or 192.168.0.0/16.
pub is_lan_ip-num2ip :
    (n : ℕ)
    → 0 < n
    → n < 2 ^ 32
    → is_lan_ip (num2ip n) ≡ (
        (n / 2 ^ 24 == 127)
        || ((n / 2 ^ 24 == 10) || ((n / 2 ^ 20 == 2753) || (n / 2 ^ 16 == 49320))))
unfolding is_lan_ip is_lan_number between
is_lan_ip-num2ip n pos h =
    rw (ip2num-num2ip n false h (inr pos), num2ip-loopback n h) (ground arith)
