-- ===== src/Login/Messages.antt =====
-- The handlers of the login in src/cdcproto.cpp.
use verlihub.Base.{
  ℕ, ◌+◌, ◌%◌, ◌^◌, Bool, true, not, ◌&&◌, ◌||◌, [], ◌==◌, ltb, leb, if◌then◌else◌, length, set,
  take, ℤ, pos, negsuc, Bytes, ◌==ᵇ◌,
}
use verlihub.Run.{Run, ok, ◌>>=◌, at, or_out_of_range}
use verlihub.HashArray.{inc}
use verlihub.Escapes.{lock_to_key}
use verlihub.Login.{
  Conn, set_ls_flag, get_ls_flag, close_now, close_nice, conn_close_msg, UserCounts, Config,
  Decision, keyok, valnick, passwd, version, allowed, nicklst, myhuburl,
}
use verlihub.Login.Zones.{move_to}

unfoldable pub is_below_operator : ℤ → Bool
is_below_operator (negsuc n) = true
is_below_operator (pos n) = ltb n 3

-- `DC_ValidateNick` from `SetUser` on
unfoldable pub introduce : Decision → Conn → Conn
introduce d c =
    if c.has_user
    then close_now c
    else if d.plugins_agree
    then set_ls_flag nicklst (set_ls_flag valnick (record c { has_user = true }))
    else close_now (record c { has_user = true })

-- `mUserCountTot++; mUserCount[mGeoZone]++`
unfoldable pub count_in : UserCounts → ℕ → ℕ → UserCounts
count_in h z n = record { users_total = inc h.users_total; users = set h.users z (inc n) }

-- `StrCompare(key, 0, par.size(), par) == 0`
unfoldable pub is_key_of : Bytes → Bytes → Run Bool
is_key_of lock par = lock_to_key lock >>= (λ key. ok (take (length par) key ==ᵇ par))

module _ (geo_cc : Bytes → Bytes) (conf : Config) where
  unfoldable pub extra_limit : ℤ → ℕ
  extra_limit (negsuc n) = if n == 0 then conf.max_extra_pings else 0
  extra_limit (pos n) =
      if n == 1
      then conf.max_extra_regs
      else if n == 2
      then conf.max_extra_vips
      else if n == 3
      then conf.max_extra_ops
      else if n == 4
      then conf.max_extra_cheefs
      else if n == 5
      then conf.max_extra_admins
      else 0

  -- The test of the limits, with the limit and the count of the zone.
  unfoldable pub is_full : ℤ → UserCounts → ℕ → ℕ → Bool
  is_full k h zone_limit zone_count =
      is_below_operator k
      && (leb ((conf.max_users_total + extra_limit k) % 2 ^ 32) h.users_total
          || leb ((zone_limit + extra_limit k) % 2 ^ 32) zone_count)

  -- `DC_ValidateNick` behind the limits
  unfoldable pub welcome : Decision → UserCounts → Conn → Run (UserCounts × Conn)
  welcome d h c =
      if d.ip_is_full || d.auth_ip_fails
      then ok (h, conn_close_msg d.pending c)
      else move_to geo_cc conf d.fake_ip h c >>= (λ moved.
        ok
          (moved.0, introduce d (if d.needs_password then moved.1 else set_ls_flag passwd moved.1)))

  -- `DC_ValidateNick` from the limits on
  unfoldable pub admit : Decision → UserCounts → Conn → ℕ → Run (UserCounts × Conn)
  admit d h c z = at conf.max_users z >>= (λ limit. at h.users z >>= (λ n.
      if is_full d.theoretical_class h limit n
      then ok (h, conn_close_msg d.pending c)
      else welcome d (count_in h z n) (set_ls_flag allowed c)))

  unfoldable pub dc_validate_nick : Decision → UserCounts → Conn → Run (UserCounts × Conn)
  dc_validate_nick d h c =
      if get_ls_flag valnick c || d.syntax_fails
      then ok (h, conn_close_msg d.pending c)
      else if d.user_is_valid
      then or_out_of_range c.zone >>= admit d h c
      else ok (h, close_nice d.pending 2000 c)

  unfoldable pub dc_key : Decision → Bytes → Conn → Run Conn
  dc_key d par c =
      if get_ls_flag keyok c || d.syntax_fails
      then ok (conn_close_msg d.pending c)
      else (if conf.drop_invalid_key then is_key_of c.lock par else ok true) >>= (λ right. ok (
          if right then record (set_ls_flag keyok c) { lock = [] } else conn_close_msg d.pending c))

-- `CheckUserLogin` without `inlist`, and its end of the connection.
unfoldable pub check_user_login : Conn → Bool
check_user_login c = not c.has_user

unfoldable pub dc_version : Decision → Conn → Conn
dc_version d c =
    if check_user_login c || get_ls_flag version c || d.len_fails || d.syntax_fails
    then conn_close_msg d.pending c
    else if d.plugins_agree
    then set_ls_flag version c
    else close_now c

unfoldable pub dc_my_hub_url : Decision → Conn → Conn
dc_my_hub_url d c =
    if check_user_login c
      || not d.sees_hub_url
      || get_ls_flag myhuburl c
      || d.len_fails
      || d.syntax_fails
    then conn_close_msg d.pending c
    else if d.plugins_agree
    then set_ls_flag myhuburl c
    else close_now c
