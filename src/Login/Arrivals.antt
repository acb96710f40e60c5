-- ===== src/Login/Arrivals.antt =====
-- How a connection comes in: `OnNewConn` of src/cserverdc.cpp, and $MyIP, with which the TLS proxy
-- tells the address of its client.
use verlihub.Base.{
  ℕ, Bool, true, false, not, ◌&&◌, ◌||◌, Option, none, some, [], ◌∷◌, ◌++◌, ◌==◌, ltb,
  if◌then◌else◌, length, Bytes, bytes, ◌==ᵇ◌,
}
use verlihub.Address.{ip2num}
use verlihub.Login.{
  Conn, Config, Decision, Arrival, close_now, close_nice, conn_close_msg, make_lock,
}
use verlihub.Login.Zones.{set_geo_zone}

unfoldable pub is_no_text : Bytes → Bool
is_no_text [] = true
is_no_text (c ∷ s) = false

-- A connection of the TLS proxy, which waits for $MyIP.
unfoldable pub is_proxied : Config → Bytes → Bool
is_proxied conf address = conf.tls_enabled && address ==ᵇ conf.tls_addr

-- A version of one letter: a secure one or not.
unfoldable pub stored_ver : Bytes → Bytes
stored_ver [] = []
stored_ver (v ∷ []) = if v == b'S' then bytes "1.0" else bytes "0.0"
stored_ver (v ∷ w ∷ vers) = v ∷ w ∷ vers

unfoldable pub secured : Bytes → Bytes → Option ℕ → Conn → Option Conn
secured addr vers none c = none
secured addr vers (some n) c =
    some (record c { address = addr; number = n; tls_ver = stored_ver vers })

-- `SetSecConn`, without the name of the host.
unfoldable pub set_sec_conn : Bytes → Bytes → Conn → Option Conn
set_sec_conn addr vers c =
    if not (is_no_text c.tls_ver) || is_no_text vers || ltb 3 (length vers)
    then none
    else secured addr vers (ip2num addr false) c

-- The plugins are told of the unknown message.
unfoldable pub dcu_unknown : Decision → Conn → Conn
dcu_unknown d c = if d.floods then conn_close_msg d.pending c else c

-- The plugins are asked before the zone and the lock are set, load and bans behind that.
unfoldable pub asked_in : Bool → Bool → Bool → Conn → Conn → Bool × Conn
asked_in false let_in pending c locked = (false, c)
asked_in true true pending c locked = (true, locked)
asked_in true false pending c locked = (false, conn_close_msg pending locked)

-- `delConnection` on the connection whose message is treated.
unfoldable pub kept_if : Bool × Conn → Conn
kept_if r = if r.0 then r.1 else record r.1 { is_ok = false }

module _ (geo_cc : Bytes → Bytes) (conf : Config) where
  unfoldable pub with_lock : Arrival → Conn → Conn
  with_lock a c =
      let tls = if conf.tls_enabled then some conf.tls_only_mode else none in
      record (set_geo_zone geo_cc conf c) { lock = c.lock ++ make_lock tls a.r1 a.r2 a.r3 a.r4 }

  -- `OnNewConn`, up to the time-out, with whether the connection is let in.
  unfoldable pub on_new_conn : Arrival → Conn → Bool × Conn
  on_new_conn a c = asked_in a.plugins_agree a.let_in a.pending c (with_lock a c)

  unfoldable pub enter_sec : Arrival → Bool → Conn → Option Conn → Conn
  enter_sec a pending c none = close_now c
  enter_sec a pending c (some s) =
      if conf.tls_only_mode && s.tls_ver ==ᵇ bytes "0.0"
      then close_nice pending 500 s
      else kept_if (on_new_conn a s)

  unfoldable pub dcc_my_ip : Decision → Bytes → Bytes → Arrival → Conn → Conn
  dcc_my_ip d addr vers a c =
      if is_proxied conf c.address
      then (if d.len_fails || d.syntax_fails
          then close_now c
          else enter_sec a d.pending c (set_sec_conn addr vers c))
      else dcu_unknown d c
