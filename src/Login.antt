-- ===== src/Login.antt =====
-- The login of a connection: src/cconndc.{h,cpp} (flags, user, zone and end of a connection),
-- `CloseNice`, `CloseNow` and `SetSecConn` of src/casyncconn.cpp, `OnNewConn` of src/cserverdc.cpp and
-- the handlers of $Key, $ValidateNick, $Version, $MyHubURL and $MyIP in src/cdcproto.cpp.
pub mod Zones
pub mod Arrivals
pub mod Messages
pub mod Counting
pub mod Steps
pub mod Locks
pub mod Handlers
pub mod Others
pub mod Entering
pub mod World
pub mod Focus
pub mod Sending
pub mod After
pub mod Keys
pub mod History
pub mod Proxies
use verlihub.Base.{
  ℕ, zero, suc, ◌+◌, ◌-◌, ◌%◌, ◌^◌, Bool, true, false, not, ◌&&◌, ◌||◌, Option, none, some, List,
  [], ◌∷◌, ◌++◌, ◌==◌, ltb, leb, if◌then◌else◌, length, set, get_or, replicate, take, ℤ, pos,
  negsuc, Bytes, bytes, ◌==ᵇ◌, find_text,
}
use verlihub.Run.{Run, ok, fault, ◌>>=◌, at, or_out_of_range}
use verlihub.HashArray.{inc, dec}
use verlihub.Address.{ip2num}
use verlihub.Escapes.{lock_to_key}

-- `tLogStatus`
pub data Flag : Type 0 where
  keyok valnick passwd version myinfo allowed nicklst supports botinfo myhuburl : Flag

-- The flag is `1 << bit`.
unfoldable pub bit : Flag → ℕ
bit keyok = 0
bit valnick = 1
bit passwd = 2
bit version = 3
bit myinfo = 4
bit allowed = 5
bit nicklst = 6
bit supports = 7
bit botinfo = 8
bit myhuburl = 9

-- `cConnDC`. `mLogStatus` is the set of its flags, and a `mGeoZone` of -1 is `none`.
pub record Conn : Type 0 where
  pub status : Flag → Bool
  pub zone : Option ℕ
  pub address : Bytes
  pub number : ℕ
  pub tls_ver : Bytes
  pub lock : Bytes
  pub has_user : Bool
  pub is_ok : Bool
  pub writable : Bool

unfoldable pub set_ls_flag : Flag → Conn → Conn
set_ls_flag f c = record c { status = λ g. bit g == bit f || c.status g }

unfoldable pub get_ls_flag : Flag → Conn → Bool
get_ls_flag f c = c.status f

unfoldable pub close_now : Conn → Conn
close_now c = record c { writable = false; is_ok = false }

-- `pending`: there is something to flush or in the buffer. `mCloseAfter` is left out.
unfoldable pub close_nice : Bool → ℕ → Conn → Conn
close_nice pending msec c =
    if leb msec 0 || not pending
    then close_now (record c { writable = false })
    else record c { writable = false }

-- The message to the user is left out.
unfoldable pub conn_close_msg : Bool → Conn → Conn
conn_close_msg pending c = close_nice pending 1000 c

-- What `cServerDC` counts: `mUserCountTot` and `mUserCount`.
pub record UserCounts : Type 0 where
  pub users_total : ℕ
  pub users : List ℕ

unfoldable pub no_users : UserCounts
no_users = record { users_total = 0; users = replicate 7 0 }

-- The options, and of the server whether it has a TLS proxy, with its address:
-- `mTLSAddr.size() && (mTLSForce || mTLSPort || (mTLSAddr == mAddr))`.
pub record Config : Type 0 where
  pub tls_enabled : Bool
  pub tls_addr : Bytes
  pub tls_only_mode : Bool
  pub drop_invalid_key : Bool
  pub max_users_total : ℕ
  pub max_users : List ℕ
  pub max_extra_pings : ℕ
  pub max_extra_regs : ℕ
  pub max_extra_vips : ℕ
  pub max_extra_ops : ℕ
  pub max_extra_cheefs : ℕ
  pub max_extra_admins : ℕ
  pub cc_zone1 : Bytes
  pub cc_zone2 : Bytes
  pub cc_zone3 : Bytes
  pub ip_zone4_min : Bytes
  pub ip_zone4_max : Bytes
  pub ip_zone5_min : Bytes
  pub ip_zone5_max : Bytes
  pub ip_zone6_min : Bytes
  pub ip_zone6_max : Bytes

-- What is decided outside of the handlers of a message: by its guards, the accounts, the plugins
-- and the state of the socket.
pub record Decision : Type 0 where
  pub pending : Bool
  pub len_fails : Bool
  pub syntax_fails : Bool
  pub plugins_agree : Bool
  pub user_is_valid : Bool
  pub theoretical_class : ℤ
  pub ip_is_full : Bool
  pub auth_ip_fails : Bool
  pub fake_ip : Option (Bytes × ℕ)
  pub needs_password : Bool
  pub sees_hub_url : Bool
  pub floods : Bool

-- What `OnNewConn` asks plugins, and whether load and bans let the connection in; with the random
-- numbers of the lock.
pub record Arrival : Type 0 where
  pub pending : Bool
  pub plugins_agree : Bool
  pub let_in : Bool
  pub r1 : ℕ
  pub r2 : ℕ
  pub r3 : ℕ
  pub r4 : ℕ

-- `DeleteConn`, for the counters.
unfoldable pub uncount : UserCounts → Conn → Run UserCounts
uncount h c =
    if get_ls_flag allowed c
    then or_out_of_range c.zone >>= (λ z.
      at h.users z
      >>= (λ n. ok (record { users_total = dec h.users_total; users = set h.users z (dec n) })))
    else ok h

-- A digit that `rand() % 10` gives.
unfoldable pub digit : ℕ → ℕ
digit r = 48 + r % 10

-- The lock of `OnNewConn`, from four random numbers; `none` for a hub without TLS.
unfoldable pub make_lock : Option Bool → ℕ → ℕ → ℕ → ℕ → Bytes
make_lock tls r1 r2 r3 r4 =
    bytes "EXTENDEDPROTOCOL_NMDC_"
    ++ (elim tls [ none ↦ [] | some only ↦ if only then bytes "TLSONLY_" else bytes "TLS_" ])
    ++ (digit r1 ∷ digit r2 ∷ digit r3 ∷ digit r4 ∷ [])

-- `cConnDC::cConnDC`
unfoldable pub new_conn : Bytes → ℕ → Conn
new_conn address number = record {
  status = λ g. false;
  zone = none;
  address = address;
  number = number;
  tls_ver = [];
  lock = [];
  has_user = false;
  is_ok = true;
  writable = true;
}
