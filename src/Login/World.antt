-- ===== src/Login/World.antt =====
-- The hub with all its connections, and what may happen to them.
use verlihub.Base.{
  ℕ, zero, suc, Bool, true, false, not, ◌&&◌, ◌||◌, Option, none, some, List, [], ◌∷◌,
  if◌then◌else◌, set, get_elem?, Bytes,
}
use verlihub.Run.{Run, ok, fault, ◌>>=◌}
use verlihub.Login.{Conn, UserCounts, Config, Decision, Arrival, no_users, new_conn, uncount}
use verlihub.Login.Arrivals.{is_proxied, on_new_conn, dcc_my_ip}
use verlihub.Login.Zones.{move_to}
use verlihub.Login.Messages.{dc_validate_nick, dc_key, dc_version, dc_my_hub_url}
use verlihub.Login.Counting.{is_read}

pub record World : Type 0 where
  pub hub : UserCounts
  pub conns : List Conn

pub data Line : Type 0 where
  key : Bytes → Line
  validate_nick : Line
  version : Line
  my_hub_url : Line
  my_ip : Bytes → Bytes → Arrival → Line

-- A connection comes with its address, and is let in or not or waits for $MyIP; one of the
-- connections sends a line, gets another address from a script, or ends.
pub data Event : Type 0 where
  connects : Bytes → ℕ → Arrival → Event
  sends : ℕ → Line → Decision → Event
  moves : ℕ → Bytes → ℕ → Event
  ends : ℕ → Event

unfoldable pub new_world : World
new_world = record { hub = no_users; conns = [] }

unfoldable pub remove_at : List Conn → ℕ → List Conn
remove_at [] i = []
remove_at (c ∷ cs) zero = cs
remove_at (c ∷ cs) (suc i) = c ∷ remove_at cs i

-- A connection that is not let in is deleted.
unfoldable pub enter_if : Bool × Conn → World → World
enter_if r w = if r.0 then record w { conns = r.1 ∷ w.conns } else w

unfoldable pub is_zone : Option ℕ → Bool
is_zone none = false
is_zone (some z) = true

-- Back into its place.
unfoldable pub put_back : List Conn → ℕ → UserCounts × Conn → World
put_back cs i r = record { hub = r.0; conns = set cs i r.1 }

-- What may come next: the sender of $ValidateNick has got its zone, if its line is read.
unfoldable pub has_zone : Option Conn → Bool
has_zone none = true
has_zone (some c) = not (is_read c) || is_zone c.zone

unfoldable pub may_send : Line → Option Conn → Bool
may_send validate_nick o = has_zone o
may_send line o = true

unfoldable pub waits : World → Event → Bool
waits w (sends i line d) = may_send line (get_elem? w.conns i)
waits w e = true

unfoldable pub on_ok : (World → Bool) → Run World → Bool
on_ok test (fault why) = true
on_ok test (ok w) = test w

unfoldable pub delete_conn : ℕ → World → Option Conn → Run World
delete_conn i w none = ok w
delete_conn i w (some c) =
    uncount w.hub c >>= (λ h. ok (record { hub = h; conns = remove_at w.conns i }))

module _ (geo_cc : Bytes → Bytes) (conf : Config) where
  unfoldable pub add_connection : Bytes → ℕ → Arrival → World → World
  add_connection address number a w =
      if is_proxied conf address
      then record w { conns = new_conn address number ∷ w.conns }
      else enter_if (on_new_conn geo_cc conf a (new_conn address number)) w

  unfoldable pub treat : Line → Decision → UserCounts → Conn → Run (UserCounts × Conn)
  treat (key par) d h c = dc_key geo_cc conf d par c >>= (λ e. ok (h, e))
  treat validate_nick d h c = dc_validate_nick geo_cc conf d h c
  treat version d h c = ok (h, dc_version d c)
  treat my_hub_url d h c = ok (h, dc_my_hub_url d c)
  treat (my_ip addr vers a) d h c = ok (h, dcc_my_ip geo_cc conf d addr vers a c)

  -- Lines are only read while the connection is open and written to.
  unfoldable pub input : ℕ → Line → Decision → World → Option Conn → Run World
  input i line d w none = ok w
  input i line d w (some c) =
      if is_read c then treat line d w.hub c >>= (λ r. ok (put_back w.conns i r)) else ok w

  -- `SetUserIP` of the scripts finds the connection by its user.
  unfoldable pub set_user_ip : ℕ → Bytes → ℕ → World → Option Conn → Run World
  set_user_ip i address number w none = ok w
  set_user_ip i address number w (some c) =
      if c.has_user
      then move_to geo_cc conf (some (address, number)) w.hub c >>= (λ r. ok (put_back w.conns i r))
      else ok w

  unfoldable pub happens : World → Event → Run World
  happens w (connects address number a) = ok (add_connection address number a w)
  happens w (sends i line d) = input i line d w (get_elem? w.conns i)
  happens w (moves i address number) = set_user_ip i address number w (get_elem? w.conns i)
  happens w (ends i) = delete_conn i w (get_elem? w.conns i)

  unfoldable pub all_happen : World → List Event → Run World
  all_happen w [] = ok w
  all_happen w (e ∷ es) = happens w e >>= (λ v. all_happen v es)

  -- No connection sends $ValidateNick before it has got its zone.
  unfoldable pub all_wait : World → List Event → Bool
  all_wait w [] = true
  all_wait w (e ∷ es) = waits w e && on_ok (λ v. all_wait v es) (happens w e)
