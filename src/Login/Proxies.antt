-- ===== src/Login/Proxies.antt =====
-- A connection of the TLS proxy against a direct one: $MyIP and `OnNewConn`.
use verlihub.Base.{
  ℕ, ◌^◌, ◌<◌, ◌≡◌, refl, inr, true, false, ◌&&◌, ◌||◌, List, [], ◌∷◌, ltb, length, get_elem?, set,
  Bytes, bytes, ◌==ᵇ◌,
}
use verlihub.Run.{ok, ◌>>=◌}
use verlihub.Address.{num2ip}
use verlihub.Address.RoundTrip.{ip2num-num2ip}
use verlihub.Login.{Conn, Config, Arrival, Decision, new_conn}
use verlihub.Login.Arrivals.{
  is_no_text, is_proxied, stored_ver, secured, set_sec_conn, with_lock, asked_in, on_new_conn,
  kept_if, enter_sec, dcc_my_ip,
}
use verlihub.Login.Zones.{zone_or, set_geo_zone}
use verlihub.Login.Counting.{is_read}
use verlihub.Login.World.{
  World, connects, sends, my_ip, add_connection, enter_if, put_back, treat, input, happens,
  all_happen,
}

-- The newest connection with the version of its TLS.
unfoldable pub with_version : Bytes → List Conn → List Conn
with_version vers [] = []
with_version vers (c ∷ cs) = record c { tls_ver = vers } ∷ cs

module _ (geo_cc : Bytes → Bytes) (conf : Config) (w : World) (proxy : Bytes) (number n : ℕ)
    (vers : Bytes) (a b : Arrival) (d : Decision) where
  -- A connection comes from the address of the TLS proxy, and its first line is a $MyIP that no guard
  -- refuses, with the text of an address, not 0.0.0.0, that is not the proxy's, and with a version of
  -- one to three bytes, which is not that of an unsecure client in a hub for TLS only. If plugins, load
  -- and bans let it in, then the hub is as if the connection had come directly from that address, but
  -- for the version it is told: the same address, number, zone and lock, and the same counters.
  pub all_happen-my_ip :
      is_proxied conf proxy ≡ true
      → is_proxied conf (num2ip n) ≡ false
      → 0 < n
      → n < 2 ^ 32
      → is_no_text vers ≡ false
      → ltb 3 (length vers) ≡ false
      → (conf.tls_only_mode && stored_ver vers ==ᵇ bytes "0.0") ≡ false
      → (d.len_fails || d.syntax_fails) ≡ false
      → a.plugins_agree ≡ true
      → a.let_in ≡ true
      → all_happen geo_cc conf w
          (connects proxy number b ∷ sends 0 (my_ip (num2ip n) vers a) d ∷ [])
        ≡ (all_happen geo_cc conf w (connects (num2ip n) n a ∷ [])
            >>= (λ v. ok (record v { conns = with_version (stored_ver vers) v.conns })))
  unfolding all_happen happens add_connection get_elem? input treat new_conn is_read put_back set
      enter_if dcc_my_ip set_sec_conn secured is_no_text enter_sec on_new_conn asked_in with_lock
      kept_if set_geo_zone zone_or with_version
  all_happen-my_ip proxied direct positive small some_ver short secure fine agree let_in =
      let known = ip2num-num2ip n false small (inr positive) in
      rw (proxied, proxied, direct, fine, some_ver, short, known, secure, agree, let_in) refl
