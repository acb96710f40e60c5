-- ===== src/Tests/Addresses.antt =====
-- Addresses of hub users.
use verlihub.Base.{
  ◌≡◌, ◌↔◌, ◌⊎◌, ◌<◌, ◌^◌, ◌/◌, refl, arith, true, false, none, some, bytes, drop, take, substr,
  ◌==ᵇ◌, ◌||◌, ◌==◌,
}
use verlihub.Address.{
  decimal, decimal_digits, is_space, is_digit, skip_space, scan_digits, scan_number, negated,
  scan_signed, scan_unsigned, scan_dot, scan_quad, write_quad, quad_number, is_octets,
  number_of_quad, ip2num, quad_of, num2ip, between, is_lan_number, is_lan_ip,
}
use verlihub.Address.RoundTrip.{ip2num_iff}
use verlihub.Address.Lan.{is_lan_ip-num2ip}

addresses : Unit {0}
unfolding decimal decimal_digits is_space is_digit skip_space scan_digits scan_number negated
    scan_signed scan_unsigned scan_dot scan_quad write_quad quad_number is_octets number_of_quad
    ip2num quad_of num2ip between is_lan_number is_lan_ip ◌==ᵇ◌ substr drop take
addresses = tt

a_number : ip2num (bytes "192.168.0.1") true ≡ some 3232235521
unfolding addresses
a_number = refl

leading_zero : ip2num (bytes "192.168.00.1") true ≡ none
unfolding addresses
leading_zero = refl

negative_part : ip2num (bytes "1.2.3.-4") true ≡ none
unfolding addresses
negative_part = refl

too_large : ip2num (bytes "1.2.3.256") true ≡ none
unfolding addresses
too_large = refl

a_text : num2ip 3232235521 ≡ bytes "192.168.0.1"
unfolding addresses
a_text = refl

ip2num_iff_example : (ip2num (bytes "10.0.0.7") false ≡ some 167772167) ↔ (
    (bytes "10.0.0.7" ≡ num2ip 167772167)
    × (167772167 < 2 ^ 32)
    × ((false ≡ true) ⊎ (0 < 167772167)))
ip2num_iff_example = ip2num_iff (bytes "10.0.0.7") false 167772167

is_lan_ip-num2ip_example : is_lan_ip (num2ip 3232235521) ≡ (
    (3232235521 / 2 ^ 24 == 127)
    || ((3232235521 / 2 ^ 24 == 10)
        || ((3232235521 / 2 ^ 20 == 2753) || (3232235521 / 2 ^ 16 == 49320))))
is_lan_ip-num2ip_example = is_lan_ip-num2ip 3232235521 (omega arith) (omega arith)
