-- ===== src/Login/Zones.antt =====
-- The zone of a connection: `SetGeoZone` and `ResetGeo` of src/cconndc.cpp.
use verlihub.Base.{
  ℕ, Bool, true, false, ◌&&◌, ◌||◌, Option, none, some, [], ◌∷◌, leb, if◌then◌else◌, set, Bytes,
  ◌==ᵇ◌, find_text,
}
use verlihub.Run.{Run, ok, ◌>>=◌, at}
use verlihub.HashArray.{inc, dec}
use verlihub.Address.{ip2num}
use verlihub.Login.{Conn, UserCounts, Config}

-- `(cc == cc_zone[pos]) || (cc_zone[pos].find(cc) != npos)`, if the zone is enabled.
unfoldable pub is_in_country_zone : Bytes → Bytes → Bool
is_in_country_zone [] cc = false
is_in_country_zone (a ∷ zone) cc =
    cc ==ᵇ (a ∷ zone) || (elim (find_text cc (a ∷ zone)) [ none ↦ false | some i ↦ true ])

-- A bound keeps its value if the text is no address; that of 0.0.0.0 is 0.
unfoldable pub bound : Bytes → ℕ → ℕ
bound ip before = elim (ip2num ip true) [ none ↦ before | some n ↦ n ]

-- Whether the number is in the zone, and the new bounds.
unfoldable pub is_in_ip_zone : Bytes → Bytes → ℕ → ℕ → ℕ → Bool × ℕ × ℕ
is_in_ip_zone [] high n imin imax = (false, imin, imax)
is_in_ip_zone (a ∷ low) [] n imin imax = (false, imin, imax)
is_in_ip_zone (a ∷ low) (d ∷ high) n before_min before_max =
    let imin = bound (a ∷ low) before_min in
    let imax = bound (d ∷ high) before_max in (leb imin n && leb n imax, imin, imax)

-- A zone that is set stays.
unfoldable pub zone_or : ℕ → Option ℕ → Option ℕ
zone_or z none = some z
zone_or z (some y) = some y

-- `geo_cc` finds the country code of an address.
module _ (geo_cc : Bytes → Bytes) (conf : Config) where
  unfoldable pub ip_zone_of : ℕ → ℕ
  ip_zone_of n =
      let four = is_in_ip_zone conf.ip_zone4_min conf.ip_zone4_max n 0 0 in
      let five = is_in_ip_zone conf.ip_zone5_min conf.ip_zone5_max n four.1 four.2 in
      let six = is_in_ip_zone conf.ip_zone6_min conf.ip_zone6_max n five.1 five.2 in
      if four.0 then 4 else if five.0 then 5 else if six.0 then 6 else 0

  unfoldable pub zone_of : Bytes → ℕ → ℕ
  zone_of address n =
      let cc = geo_cc address in
      if is_in_country_zone conf.cc_zone1 cc
      then 1
      else if is_in_country_zone conf.cc_zone2 cc
      then 2
      else if is_in_country_zone conf.cc_zone3 cc
      then 3
      else ip_zone_of n

  unfoldable pub set_geo_zone : Conn → Conn
  set_geo_zone c = record c { zone = zone_or (zone_of c.address c.number) c.zone }

  unfoldable pub reset_zone : Option ℕ → UserCounts → Conn → Run (UserCounts × Conn)
  reset_zone none h c = ok (h, c)
  reset_zone (some z) h c =
      let z' = zone_of c.address c.number in
      at h.users z >>= (λ n.
        let left = set h.users z (dec n) in
        at left z'
        >>= (λ m. ok (record h { users = set left z' (inc m) }, record c { zone = some z' })))

  -- `ResetGeo`
  unfoldable pub reset_geo : UserCounts → Conn → Run (UserCounts × Conn)
  reset_geo h c = reset_zone c.zone h c

  -- `SetUserIP` with an address that is accepted, and `ResetGeo`.
  unfoldable pub move_to : Option (Bytes × ℕ) → UserCounts → Conn → Run (UserCounts × Conn)
  move_to none h c = ok (h, c)
  move_to (some a) h c = reset_geo h (record c { address = a.0; number = a.1 })
