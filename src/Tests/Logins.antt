-- ===== src/Tests/Logins.antt =====
-- A hub that is full with two users, and three connections that log in.
use verlihub.Base.{
  arith, ℕ, ◌==◌, if◌then◌else◌, ◌≡◌, refl, true, false, Option, none, some, List, [], ◌∷◌, bytes,
  Bytes, length, get_or, get_elem?, set, pos, replicate, ◌==ᵇ◌, find_text, starts_with, take,
}
use verlihub.Run.{Run, ok, fault, out_of_range, ◌>>=◌, at, or_out_of_range, Returns}
use verlihub.Login.{
  keyok, Conn, bit, Config, Decision, Arrival, set_ls_flag, get_ls_flag, close_now, close_nice,
  conn_close_msg, no_users, uncount, digit, make_lock, new_conn,
}
use verlihub.Login.Arrivals.{
  is_no_text, is_proxied, stored_ver, secured, set_sec_conn, dcu_unknown, with_lock, asked_in,
  on_new_conn, kept_if, enter_sec, dcc_my_ip,
}
use verlihub.Address.{
  ip2num, num2ip, quad_of, number_of_quad, scan_quad, scan_dot, scan_unsigned, scan_signed, negated,
  scan_number, scan_digits, skip_space, is_space, is_digit, is_octets, quad_number, write_quad,
  decimal, decimal_digits,
}
use verlihub.Login.Zones.{
  zone_or, is_in_country_zone, bound, is_in_ip_zone, ip_zone_of, zone_of, set_geo_zone, reset_zone,
  reset_geo, move_to,
}
use verlihub.Login.Messages.{
  extra_limit, is_below_operator, is_full, introduce, welcome, count_in, admit, dc_validate_nick,
  is_key_of, dc_key, check_user_login, dc_version, dc_my_hub_url,
}
use verlihub.Login.Counting.{one_if, is_counted, is_counted_in, is_in_zone, is_read}
use verlihub.Login.World.{
  World, Event, connects, sends, moves, ends, validate_nick, version, new_world, remove_at,
  put_back, add_connection, enter_if, my_ip, is_zone, has_zone, may_send, waits, on_ok, all_wait,
  treat, input, set_user_ip, delete_conn, happens, all_happen,
}
use verlihub.Login.Focus.{tally}
use verlihub.Login.After.{is_guest}
use verlihub.Login.Keys.{dc_key-starts_with}
use verlihub.Tests.Locks.{key_of_lock}
use verlihub.Login.History.{all_guests, all_happen-proxied}
use verlihub.Login.Proxies.{with_version, all_happen-my_ip}

abbrev small_hub : Config
small_hub = record {
  tls_enabled = true;
  tls_addr = bytes "127.0.0.1";
  tls_only_mode = false;
  drop_invalid_key = false;
  max_users_total = 2;
  max_users = replicate 7 5;
  max_extra_pings = 0;
  max_extra_regs = 1;
  max_extra_vips = 0;
  max_extra_ops = 0;
  max_extra_cheefs = 0;
  max_extra_admins = 0;
  cc_zone1 = bytes "DE";
  cc_zone2 = [];
  cc_zone3 = [];
  ip_zone4_min = [];
  ip_zone4_max = [];
  ip_zone5_min = [];
  ip_zone5_max = [];
  ip_zone6_min = [];
  ip_zone6_max = [];
}

-- Addresses that begin with 5 are German.
abbrev country : Bytes → Bytes
country [] = bytes "--"
country (c ∷ s) = if c == 53 then bytes "DE" else bytes "--"

abbrev guest : Decision
guest = record {
  pending = true;
  len_fails = false;
  syntax_fails = false;
  plugins_agree = true;
  user_is_valid = true;
  theoretical_class = pos 0;
  ip_is_full = false;
  auth_ip_fails = false;
  fake_ip = none;
  needs_password = false;
  sees_hub_url = false;
  floods = false;
}

abbrev arrival : Arrival
arrival = record {
  pending = true;
  plugins_agree = true;
  let_in = true;
  r1 = 1;
  r2 = 2;
  r3 = 3;
  r4 = 14;
}

-- The second guest comes through the proxy.
abbrev evening : List Event
evening =
    connects (bytes "5.1.1.1") 83951873 arrival
    ∷ connects (bytes "127.0.0.1") 2130706433 arrival
    ∷ sends 0 (my_ip (bytes "8.8.8.8") (bytes "1.2") arrival) guest
    ∷ sends 0 validate_nick guest
    ∷ sends 1 validate_nick guest
    ∷ sends 1 version guest
    ∷ connects (bytes "5.1.1.2") 83951874 arrival
    ∷ sends 0 validate_nick guest
    ∷ sends 0 validate_nick guest
    ∷ moves 2 (bytes "9.9.9.9") 151587081
    ∷ ends 1
    ∷ []

logins : Unit {0}
unfolding length get_or get_elem? set replicate at or_out_of_range ◌==ᵇ◌ find_text starts_with take
    bit set_ls_flag get_ls_flag close_now close_nice conn_close_msg no_users is_in_country_zone
    bound is_in_ip_zone ip_zone_of zone_of set_geo_zone reset_zone reset_geo move_to extra_limit
    is_below_operator is_full introduce welcome count_in admit dc_validate_nick is_key_of dc_key
    check_user_login dc_version dc_my_hub_url uncount digit make_lock new_conn one_if is_counted
    is_counted_in is_in_zone is_read new_world remove_at put_back add_connection enter_if
    on_new_conn treat input is_zone has_zone may_send waits on_ok all_wait is_no_text is_proxied
    stored_ver secured set_sec_conn dcu_unknown with_lock asked_in kept_if enter_sec dcc_my_ip
    zone_or ip2num number_of_quad scan_quad scan_dot scan_unsigned scan_signed negated scan_number
    scan_digits skip_space is_space is_digit is_octets quad_number write_quad decimal decimal_digits
    set_user_ip delete_conn happens all_happen tally is_guest all_guests
logins = tt

abbrev counters_after : Run World → Option (ℕ × List ℕ)
counters_after (ok w) = some (w.hub.users_total, w.hub.users)
counters_after (fault why) = none

-- The third guest is refused, the German user moves, and the other one leaves.
after_evening :
    counters_after (all_happen country small_hub new_world evening)
    ≡ some (1, 1 ∷ 0 ∷ 0 ∷ 0 ∷ 0 ∷ 0 ∷ 0 ∷ [])
unfolding logins
after_evening = refl

all_happen-proxied_example :
    all_happen country small_hub new_world
      (connects (bytes "127.0.0.1") 2130706433 arrival ∷ sends 0 validate_nick guest ∷ [])
    ≡ fault out_of_range
unfolding logins
all_happen-proxied_example =
    all_happen-proxied country small_hub new_world (bytes "127.0.0.1") 2130706433 arrival guest refl
      refl refl

all_happen-my_ip_example :
    all_happen country small_hub new_world (
      connects (bytes "127.0.0.1") 2130706433 arrival
      ∷ sends 0 (my_ip (num2ip 134744072) (bytes "S") arrival) guest
      ∷ [])
    ≡ (all_happen country small_hub new_world (connects (num2ip 134744072) 134744072 arrival ∷ [])
        >>= (λ v. ok (record v { conns = with_version (stored_ver (bytes "S")) v.conns })))
unfolding logins num2ip quad_of
all_happen-my_ip_example =
    all_happen-my_ip country small_hub new_world (bytes "127.0.0.1") 2130706433 134744072
      (bytes "S") arrival arrival guest refl refl (omega arith) (omega arith) refl refl refl refl
      refl refl

-- An open connection with a short lock.
abbrev locked : Conn
locked = record (new_conn (bytes "8.8.8.8") 134744072) { lock = bytes "EXTENDEDPROTOCOL" }

abbrev strict_hub : Config
strict_hub = record small_hub { drop_invalid_key = true }

-- The first byte of the key is enough.
one_byte-starts_with : starts_with (52 ∷ []) (52 ∷ 209 ∷ []) ≡ true
unfolding logins
one_byte-starts_with = refl

dc_key-starts_with_example : Returns (dc_key country strict_hub guest (52 ∷ []) locked) (λ e.
    get_ls_flag keyok e
    ≡ starts_with (52 ∷ []) (
        52 ∷ 209 ∷ 192 ∷ 17 ∷ 176 ∷ 160 ∷ 16 ∷ 16 ∷ 65 ∷ 32 ∷ 209 ∷ 177 ∷ 177 ∷ 192 ∷ 192 ∷ 48
        ∷ []))
unfolding logins
dc_key-starts_with_example =
    dc_key-starts_with country strict_hub guest (52 ∷ [])
      (52 ∷ 209 ∷ 192 ∷ 17 ∷ 176 ∷ 160 ∷ 16 ∷ 16 ∷ 65 ∷ 32 ∷ 209 ∷ 177 ∷ 177 ∷ 192 ∷ 192 ∷ 48 ∷ [])
      locked refl refl refl key_of_lock
