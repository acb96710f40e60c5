-- ===== src/Login/Sending.antt =====
-- What a line that is sent does to the counters.
use verlihub.Base.{ℕ, ◌≡◌, refl, arith, true, Option, none, some, length, Bytes, inl}
use verlihub.Run.{Returns}
use verlihub.Login.{Conn, UserCounts, Config, Decision}
use verlihub.Login.Arrivals.{dcc_my_ip}
use verlihub.Login.Messages.{dc_version, dc_my_hub_url}
use verlihub.Login.Counting.{is_read, IsCounted}
use verlihub.Login.Handlers.{IsAdmitted, dc_validate_nick-IsCounted, dc_key-IsCounted}
use verlihub.Login.Others.{
  dc_version-status, dc_my_hub_url-status, dc_version-IsCounted, dc_my_hub_url-IsCounted,
}
use verlihub.Login.Entering.{dcc_my_ip-Keeps}
use verlihub.Login.World.{
  Line, key, validate_nick, version, my_hub_url, is_zone, has_zone, may_send, my_ip, treat,
}

zone-is : (o : Option ℕ) → is_zone o ≡ true → (z : ℕ) × (o ≡ some z)
unfolding is_zone
zone-is none e = absurd (cc)
zone-is (some z) e = (z, refl)

module _ (geo_cc : Bytes → Bytes) (conf : Config) (seven : length conf.max_users ≡ 7) where
  pub treat-IsCounted :
      (line : Line) (d : Decision) (h : UserCounts) (n : ℕ) (f : ℕ → ℕ) (c : Conn)
      → is_read c ≡ true
      → may_send line (some c) ≡ true
      → IsCounted h n f c
      → Returns
          (treat geo_cc conf line d h c)
          (λ r. IsCounted r.0 n f r.1 × IsAdmitted geo_cc conf d.theoretical_class h c r.1)
  unfolding treat may_send has_zone
  treat-IsCounted (key par) d h n f c reads may s =
      let (e, go, is) = dc_key-IsCounted geo_cc conf seven d par h n f c s in
      ((h, e), rw go refl, (is.0, inl is.1))
  treat-IsCounted validate_nick d h n f c reads may s =
      dc_validate_nick-IsCounted geo_cc conf seven d h n f c reads (zone-is c.zone (ground arith)) s
  treat-IsCounted version d h n f c reads may s =
      ((h, dc_version d c), refl, (dc_version-IsCounted d h n f c s, inl (dc_version-status d c)))
  treat-IsCounted my_hub_url d h n f c reads may s = (
    (h, dc_my_hub_url d c),
    refl,
    (dc_my_hub_url-IsCounted d h n f c s, inl (dc_my_hub_url-status d c)),
  )
  treat-IsCounted (my_ip addr vers a) d h n f c reads may s =
      let k = dcc_my_ip-Keeps geo_cc conf d addr vers a h n f c s in
      ((h, dcc_my_ip geo_cc conf d addr vers a c), refl, (k.0, inl k.1))
