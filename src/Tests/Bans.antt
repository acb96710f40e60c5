-- ===== src/Tests/Bans.antt =====
-- Temporary bans with small tables.
use mathlib.Core.List.{flatten}
use verlihub.Base.{
  ℕ, ◌≡◌, ◌+◌, refl, arith, Bool, true, false, List, [], ◌∷◌, ℤ, pos, leb, ◌&&◌, if◌then◌else◌,
  bytes, Bytes, replicate, get_or, get_elem?, set, ◌==ᵇ◌,
}
use verlihub.Run.{Run, ok, ◌>>=◌, modulo, at, or_out_of_range, Returns}
use verlihub.HashArray.Chain.{find, set_item, add_data, delete_hash}
use verlihub.HashArray.{
  unique_new, unique_slot, unique_get, unique_insert, unique_update, new, counted, added_unless,
  write_chain, add_to_chain, add_with_hash, get_by_hash, contains_hash, is_some, removed,
  remove_from_chain, remove_by_hash,
}
use verlihub.Address.{
  decimal, decimal_digits, is_space, is_digit, skip_space, scan_digits, scan_number, scan_signed,
  scan_unsigned, scan_dot, scan_quad, write_quad, quad_number, is_octets, number_of_quad, ip2num,
}
use verlihub.Bans.{
  TempBan, BanList, hash_lower_string, write_ban, put_ban, drop_ban, add_nick_temp_ban,
  add_ip_temp_ban, add_ip_number_ban, del_nick_temp_ban, del_ip_temp_ban, del_ip_number_ban,
  is_nick_temp_banned, is_ip_temp_banned, is_ip_number_banned, is_old, is_old_item, expire_items,
  remove_old_short_temp_bans,
}
use verlihub.Bans.Calls.{
  BanCall, bans_nick, bans_ip, frees_ip, expires, handle_ban, handle_bans, spec_bans, no_bans,
  ip_banned, handle_bans-new,
}

hub : Unit {0}
unfolding flatten replicate get_or get_elem? set modulo at or_out_of_range find set_item add_data
    delete_hash unique_new unique_slot unique_get unique_insert unique_update new counted
    added_unless write_chain add_to_chain add_with_hash get_by_hash contains_hash is_some removed
    remove_from_chain remove_by_hash decimal decimal_digits is_space is_digit skip_space scan_digits
    scan_number scan_signed scan_unsigned scan_dot scan_quad write_quad quad_number is_octets
    number_of_quad ip2num ◌==ᵇ◌ hash_lower_string write_ban put_ban drop_ban add_nick_temp_ban
    add_ip_temp_ban add_ip_number_ban del_nick_temp_ban del_ip_temp_ban del_ip_number_ban
    is_nick_temp_banned is_ip_temp_banned is_ip_number_banned is_old is_old_item expire_items
    remove_old_short_temp_bans handle_ban handle_bans
hub = tt

-- The lower case of an ASCII letter.
abbrev lower_ascii : ℕ → ℤ
lower_ascii c = pos (if leb 65 c && leb c 90 then c + 32 else c)

abbrev for_flood : ℕ → TempBan
for_flood until = record { until = until; reason = bytes "flood"; type = 3 }

abbrev ban_calls : List BanCall
ban_calls =
    bans_nick (bytes "Bob") (for_flood 50)
    ∷ bans_ip (bytes "10.0.0.7") (for_flood 90)
    ∷ bans_nick (bytes "ann") (for_flood 20)
    ∷ bans_nick (bytes "bob") (for_flood 70)
    ∷ bans_ip (bytes "10.0.0.007") (for_flood 90)
    ∷ expires 60
    ∷ frees_ip (bytes "10.0.0.8")
    ∷ []

abbrev two_tables : BanList
two_tables = record { nicks = new 2; ips = new 2 }

abbrev after : (BanList → Run Bool) → Run Bool
after ask = handle_bans lower_ascii two_tables ban_calls >>= ask

renewed : after (λ l. is_nick_temp_banned lower_ascii l (bytes "BOB")) ≡ ok true
unfolding hub
renewed = refl

expired : after (λ l. is_nick_temp_banned lower_ascii l (bytes "ann")) ≡ ok false
unfolding hub
expired = refl

still_banned : after (λ l. is_ip_temp_banned l (bytes "10.0.0.7")) ≡ ok true
unfolding hub
still_banned = refl

no_address : after (λ l. is_ip_temp_banned l (bytes "10.0.0.007")) ≡ ok false
unfolding hub
no_address = refl

handle_bans-new_example : Returns (handle_bans lower_ascii two_tables ban_calls) λ l.
    let s = spec_bans lower_ascii no_bans ban_calls in
    ((nick : Bytes)
      → is_nick_temp_banned lower_ascii l nick
        ≡ ok (is_some (s.by_nick (hash_lower_string lower_ascii 0 nick))))
    × ((ip : Bytes) → is_ip_temp_banned l ip ≡ ok (ip_banned s.by_ip (ip2num ip false)))
handle_bans-new_example = handle_bans-new lower_ascii 2 2 ban_calls (omega arith) (omega arith)
