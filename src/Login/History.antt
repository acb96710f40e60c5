-- ===== src/Login/History.antt =====
-- Any history of logins.
use verlihub.Base.{ℕ, ◌≡◌, refl, Bool, true, false, ◌&&◌, List, [], ◌∷◌, get_elem?, Bytes}
use verlihub.Run.{fault, out_of_range, or_out_of_range}
use verlihub.Login.{Config, Arrival, Decision, new_conn, get_ls_flag}
use verlihub.Login.Arrivals.{is_proxied}
use verlihub.Login.Messages.{dc_validate_nick}
use verlihub.Login.Counting.{is_read}
use verlihub.Login.World.{
  World, Event, connects, sends, validate_nick, add_connection, treat, input, happens, all_happen,
}
use verlihub.Login.After.{is_guest, After}

module _ (geo_cc : Bytes → Bytes) (conf : Config) (most : ℕ) where
  unfoldable pub all_guests : List Event → Bool
  all_guests [] = true
  all_guests (e ∷ es) = is_guest geo_cc conf most e && all_guests es

-- Whatever happened before: a connection comes from the address of the TLS proxy, and sends
-- $ValidateNick first, without a syntax error and with a nick that is valid. Then the arrays of the
-- zones are read at -1.
pub all_happen-proxied :
    (geo_cc : Bytes → Bytes) (conf : Config) (w : World) (address : Bytes) (number : ℕ)
    (a : Arrival) (d : Decision)
    → is_proxied conf address ≡ true
    → d.syntax_fails ≡ false
    → d.user_is_valid ≡ true
    → all_happen geo_cc conf w (connects address number a ∷ sends 0 validate_nick d ∷ [])
      ≡ fault out_of_range
unfolding all_happen happens add_connection get_elem? input treat dc_validate_nick new_conn is_read
    get_ls_flag or_out_of_range
all_happen-proxied geo_cc conf w address number a d proxy fine valid = rw (proxy, fine, valid) refl
