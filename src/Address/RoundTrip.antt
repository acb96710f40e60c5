-- ===== src/Address/RoundTrip.antt =====
-- `Ip2Num` and `Num2Ip` are inverse to each other.
use mathlib.Core.List.{append-nil}
use verlihub.Base.{
  ℕ, ◌+◌, ◌*◌, ◌/◌, ◌%◌, ◌^◌, ◌≤◌, ◌<◌, ◌≡◌, ◌≢◌, refl, ap, ◌∙◌, sym, arith, Bool, true, false,
  ◌||◌, none, some, [], ◌∷◌, ◌++◌, ◌⊎◌, ◌↔◌, inl, inr, ltb, Bool-cases, Option-cases, length,
  length-append, Bytes, ◌==ᵇ◌, ==ᵇ_refl, ==ᵇ→≡,
}
use verlihub.Address.{
  decimal, is_digit, scan_unsigned, scan_dot, scan_quad, Quad, write_quad, quad_number, quad_of,
  is_octets, number_of_quad, ip2num, num2ip,
}
use verlihub.Address.Decimal.{length-decimal, scan_unsigned-decimal}

stops_dot : is_digit b'.' ≡ false
unfolding is_digit
stops_dot = refl

scan_end : (n : ℕ) → n < 1000 → scan_unsigned (decimal n) ≡ some (n, [])
scan_end n h = ap scan_unsigned (sym (append-nil (decimal n))) ∙ scan_unsigned-decimal n [] h tt

module _ (q : Quad) (o : is_octets q ≡ true) where
  octets : (q.p1 ≤ 255) × (q.p2 ≤ 255) × (q.p3 ≤ 255) × (q.p4 ≤ 255)
  unfolding is_octets
  octets = ground arith

  scan_quad-write : scan_quad (write_quad q) ≡ some q
  unfolding scan_quad write_quad scan_dot
  scan_quad-write =
      rw
        (
          scan_unsigned-decimal q.p1
              (b'.' ∷ (decimal q.p2 ++ (b'.' ∷ (decimal q.p3 ++ (b'.' ∷ decimal q.p4)))))
              (omega (arith, octets.0)) stops_dot,
          scan_unsigned-decimal q.p2 (b'.' ∷ (decimal q.p3 ++ (b'.' ∷ decimal q.p4)))
              (omega (arith, octets.1)) stops_dot,
          scan_unsigned-decimal q.p3 (b'.' ∷ decimal q.p4) (omega (arith, octets.2)) stops_dot,
          scan_end q.p4 (omega (arith, octets.3)),
        )
        refl

  length-write_quad : (7 ≤ length (write_quad q)) × (length (write_quad q) ≤ 15)
  unfolding write_quad
  length-write_quad = omega (
    arith,
    length-decimal q.p1 (omega (arith, octets.0)),
    length-decimal q.p2 (omega (arith, octets.1)),
    length-decimal q.p3 (omega (arith, octets.2)),
    length-decimal q.p4 (omega (arith, octets.3)),
    length-append (decimal q.p1)
        (b'.' ∷ (decimal q.p2 ++ (b'.' ∷ (decimal q.p3 ++ (b'.' ∷ decimal q.p4))))),
    length-append (decimal q.p2) (b'.' ∷ (decimal q.p3 ++ (b'.' ∷ decimal q.p4))),
    length-append (decimal q.p3) (b'.' ∷ decimal q.p4),
  )

quad_of-number : (q : Quad) → is_octets q ≡ true → quad_of (quad_number q) ≡ q
unfolding quad_of quad_number is_octets
quad_of-number q o =
    let n = q.p1 * 2 ^ 24 + q.p2 * 2 ^ 16 + q.p3 * 2 ^ 8 + q.p4 in
    let (h1, h2, h3, h4) = octets q o in
    let e1 : n / 2 ^ 24 % 2 ^ 8 ≡ q.p1 = omega arith in
    let e2 : n / 2 ^ 16 % 2 ^ 8 ≡ q.p2 = omega arith in
    let e3 : n / 2 ^ 8 % 2 ^ 8 ≡ q.p3 = omega arith in
    let e4 : n % 2 ^ 8 ≡ q.p4 = omega arith in rw (e1, e2, e3, e4) refl

quad_of-octets : (n : ℕ) → is_octets (quad_of n) ≡ true
unfolding quad_of is_octets
quad_of-octets n = ground arith

number-quad_of : (n : ℕ) → n < 2 ^ 32 → quad_number (quad_of n) ≡ n
unfolding quad_of quad_number
number-quad_of n h = omega arith

quad_number-lt : (q : Quad) → is_octets q ≡ true → quad_number q < 2 ^ 32
unfolding quad_number
quad_number-lt q o = omega (arith, octets q o)

number_of_quad-write :
    (q : Quad) (any : Bool)
    → is_octets q ≡ true
    → (any ≡ true) ⊎ (0 < quad_number q)
    → number_of_quad (write_quad q) any (some q) ≡ some (quad_number q)
unfolding number_of_quad
number_of_quad-write q any o nonzero =
    rw (o, ==ᵇ_refl (write_quad q)) (ground (arith, quad_number-lt q o, nonzero))

number_of_quad-exact :
    (ip : Bytes) (any : Bool) (q : Quad) (n : ℕ)
    → number_of_quad ip any (some q) ≡ some n
    → (is_octets q ≡ true)
      × ((ip ==ᵇ write_quad q) ≡ true)
      × (quad_number q ≡ n)
      × ((any ≡ true) ⊎ (0 < n))
unfolding number_of_quad
number_of_quad-exact ip true q n h = (ground arith, ground arith, ground arith, inl refl)
number_of_quad-exact ip false q n h = (ground arith, ground arith, ground arith, inr (ground arith))

number_of_quad-none : (ip : Bytes) (any : Bool) (n : ℕ) → number_of_quad ip any none ≢ some n
unfolding number_of_quad
number_of_quad-none ip any n h = cc

ip2num-exact :
    (ip : Bytes) (any : Bool) (n : ℕ)
    → ip2num ip any ≡ some n
    → (ip ≡ num2ip n) × (n < 2 ^ 32) × ((any ≡ true) ⊎ (0 < n))
unfolding ip2num num2ip
ip2num-exact ip any n h = elim (Bool-cases (ltb (length ip) 7 || ltb 15 (length ip))) [
  | inl bad ↦ cc (rw bad at h)
  | inr fits ↦ elim (Option-cases (scan_quad ip)) [
    | inl fails ↦ absurd (number_of_quad-none ip any n (rw (fits, fails) at h))
    | inr (q, scanned) ↦
        let (o, same, num, range) = number_of_quad-exact ip any q n (rw (fits, scanned) at h) in
        (
          ==ᵇ→≡ ip (write_quad q) same ∙ ap write_quad (sym (quad_of-number q o) ∙ ap quad_of num),
          ground (arith, quad_number-lt q o, num),
          range,
        )
  ]
]

pub ip2num-num2ip :
    (n : ℕ) (any : Bool) → n < 2 ^ 32 → (any ≡ true) ⊎ (0 < n) → ip2num (num2ip n) any ≡ some n
unfolding ip2num num2ip
ip2num-num2ip n any h nonzero =
    let q = quad_of n in
    let o = quad_of-octets n in
    let same = number-quad_of n h in
    let fits : (ltb (length (write_quad q)) 7 || ltb 15 (length (write_quad q))) ≡ false =
      ground (arith, length-write_quad q o) in
    rw (fits, scan_quad-write q o)
      (number_of_quad-write q any o
          (elim nonzero [ inl allowed ↦ inl allowed | inr pos ↦ inr (rw same pos) ])
        ∙ ap some same)

-- `Ip2Num` gives a number exactly to the text that `Num2Ip` writes for it: to a dotted quad with no
-- blanks, signs or leading zeros. The number is below 2 ^ 32, and not 0 unless the caller allows 0.
pub ip2num_iff :
    (ip : Bytes) (any : Bool) (n : ℕ)
    → (ip2num ip any ≡ some n) ↔ ((ip ≡ num2ip n) × (n < 2 ^ 32) × ((any ≡ true) ⊎ (0 < n)))
ip2num_iff ip any n =
    (ip2num-exact ip any n, λ h. ap (λ t. ip2num t any) h.0 ∙ ip2num-num2ip n any h.1 h.2)
