-- ===== src/Bans/Calls.antt =====
-- Any history of calls of the temporary bans against two maps: from the hash of a nick in lower
-- case, and from an address.
use verlihub.Base.{
  ℕ, ◌≡◌, refl, ap, ◌∙◌, ◌<◌, Bool, false, Option, none, some, List, [], ◌∷◌, ℤ, Bytes,
}
use verlihub.Run.{Run, ok, ◌>>=◌, Returns}
use verlihub.HashArray.{is_some, new}
use verlihub.HashArray.Table.{contains_hash-stored}
use verlihub.HashArray.Buckets.{update}
use verlihub.HashArray.History.{Refines, new-Refines}
use verlihub.Address.{ip2num}
use verlihub.Bans.{
  TempBan, BanList, hash_lower_string, add_nick_temp_ban, add_ip_temp_ban, add_ip_number_ban,
  del_nick_temp_ban, del_ip_temp_ban, del_ip_number_ban, is_nick_temp_banned, is_ip_temp_banned,
  is_ip_number_banned, remove_old_short_temp_bans,
}
use verlihub.Bans.Lookup.{put_ban-Refines, drop_ban-Refines}
use verlihub.Bans.Expiry.{unexpired, expire-Refines}

pub data BanCall : Type 0 where
  bans_nick bans_ip : Bytes → TempBan → BanCall
  frees_nick frees_ip : Bytes → BanCall
  expires : ℕ → BanCall

-- The bans by the hash of a nick and by the number of an address.
pub record Banned : Type 0 where
  pub by_nick : ℕ → Option TempBan
  pub by_ip : ℕ → Option TempBan

abbrev pub update_some : (ℕ → Option TempBan) → Option ℕ → Option TempBan → ℕ → Option TempBan
update_some f none b = f
update_some f (some n) b = update f n b

module _ (lower : ℕ → ℤ) where
  unfoldable pub handle_ban : BanList → BanCall → Run BanList
  handle_ban l (bans_nick nick b) = add_nick_temp_ban lower l nick b
  handle_ban l (bans_ip ip b) = add_ip_temp_ban l ip b
  handle_ban l (frees_nick nick) = del_nick_temp_ban lower l nick
  handle_ban l (frees_ip ip) = del_ip_temp_ban l ip
  handle_ban l (expires limit) = remove_old_short_temp_bans limit l >>= (λ r. ok r.1)

  unfoldable pub handle_bans : BanList → List BanCall → Run BanList
  handle_bans l [] = ok l
  handle_bans l (c ∷ cs) = handle_ban l c >>= (λ k. handle_bans k cs)

  -- The specification: the last ban of a nick or an address holds until it is freed or expires.
  unfoldable pub spec_ban : Banned → BanCall → Banned
  spec_ban s (bans_nick nick b) = record s {
    by_nick = update s.by_nick (hash_lower_string lower 0 nick) (some b);
  }
  spec_ban s (bans_ip ip b) = record s { by_ip = update_some s.by_ip (ip2num ip false) (some b) }
  spec_ban s (frees_nick nick) = record s {
    by_nick = update s.by_nick (hash_lower_string lower 0 nick) none;
  }
  spec_ban s (frees_ip ip) = record s { by_ip = update_some s.by_ip (ip2num ip false) none }
  spec_ban s (expires limit) = record {
    by_nick = λ q. unexpired limit (s.by_nick q);
    by_ip = λ q. unexpired limit (s.by_ip q);
  }

  unfoldable pub spec_bans : Banned → List BanCall → Banned
  spec_bans s [] = s
  spec_bans s (c ∷ cs) = spec_bans (spec_ban s c) cs

-- Both tables store their map.
pub record Keeps (s : Banned) (l : BanList) : Type 0 where
  pub nicks : Refines s.by_nick l.nicks
  pub ips : Refines s.by_ip l.ips

add_ip_number_ban-Keeps :
    (n : Option ℕ) (s : Banned) (l : BanList) (b : TempBan)
    → Keeps s l
    → Returns
        (add_ip_number_ban l n b)
        (Keeps (record s { by_ip = update_some s.by_ip n (some b) }))
unfolding add_ip_number_ban
add_ip_number_ban-Keeps none s l b k = (l, refl, record { nicks = k.nicks; ips = k.ips })
add_ip_number_ban-Keeps (some n) s l b k =
    let (m, go, v) = put_ban-Refines s.by_ip l.ips k.ips n b in
    (record l { ips = m }, rw go refl, record { nicks = k.nicks; ips = v })

del_ip_number_ban-Keeps :
    (n : Option ℕ) (s : Banned) (l : BanList)
    → Keeps s l
    → Returns (del_ip_number_ban l n) (Keeps (record s { by_ip = update_some s.by_ip n none }))
unfolding del_ip_number_ban
del_ip_number_ban-Keeps none s l k = (l, refl, record { nicks = k.nicks; ips = k.ips })
del_ip_number_ban-Keeps (some n) s l k =
    let (m, go, v) = drop_ban-Refines s.by_ip l.ips k.ips n in
    (record l { ips = m }, rw go refl, record { nicks = k.nicks; ips = v })

module _ (lower : ℕ → ℤ) where
  handle_ban-Keeps :
      (c : BanCall) (s : Banned) (l : BanList)
      → Keeps s l
      → Returns (handle_ban lower l c) (Keeps (spec_ban lower s c))
  unfolding handle_ban spec_ban add_nick_temp_ban del_nick_temp_ban add_ip_temp_ban del_ip_temp_ban
      remove_old_short_temp_bans
  handle_ban-Keeps (bans_nick nick b) s l k =
      let h = hash_lower_string lower 0 nick in
      let (m, go, v) = put_ban-Refines s.by_nick l.nicks k.nicks h b in
      (record l { nicks = m }, rw go refl, record { nicks = v; ips = k.ips })
  handle_ban-Keeps (frees_nick nick) s l k =
      let h = hash_lower_string lower 0 nick in
      let (m, go, v) = drop_ban-Refines s.by_nick l.nicks k.nicks h in
      (record l { nicks = m }, rw go refl, record { nicks = v; ips = k.ips })
  handle_ban-Keeps (bans_ip ip b) s l k = add_ip_number_ban-Keeps (ip2num ip false) s l b k
  handle_ban-Keeps (frees_ip ip) s l k = del_ip_number_ban-Keeps (ip2num ip false) s l k
  handle_ban-Keeps (expires limit) s l k =
      let (a, go, v) = expire-Refines s.by_nick l.nicks k.nicks limit 0 in
      let (b, go', v') = expire-Refines s.by_ip l.ips k.ips limit a.0 in
      (record { nicks = a.1; ips = b.1 }, rw (go, ◌>>=◌, go') refl, record { nicks = v; ips = v' })

  handle_bans-Keeps :
      (cs : List BanCall) (s : Banned) (l : BanList)
      → Keeps s l
      → Returns (handle_bans lower l cs) (Keeps (spec_bans lower s cs))
  unfolding handle_bans spec_bans
  handle_bans-Keeps [] s l k = (l, refl, k)
  handle_bans-Keeps (c ∷ cs) s l k =
      let (m, go, v) = handle_ban-Keeps c s l k in
      let (z, rest, w) = handle_bans-Keeps cs (spec_ban lower s c) m v in
      (z, rw (go, ◌>>=◌) rest, w)

-- What the map says of an address text.
abbrev pub ip_banned : (ℕ → Option TempBan) → Option ℕ → Bool
ip_banned f none = false
ip_banned f (some n) = is_some (f n)

ip_banned-stored :
    (f : ℕ → Option TempBan) (l : BanList) (n : Option ℕ)
    → Refines f l.ips
    → is_ip_number_banned l n ≡ ok (ip_banned f n)
unfolding is_ip_number_banned
ip_banned-stored f l none v = refl
ip_banned-stored f l (some n) v =
    contains_hash-stored l.ips v.valid.table n ∙ ap (λ g. ok (is_some (g n))) v.reads

abbrev pub no_bans : Banned
no_bans = record { by_nick = λ q. none; by_ip = λ q. none }

-- A ban list with empty tables of a positive number of buckets, after any sequence of bans,
-- releases and expiries, never faults. A nick or an address is then banned exactly if the map of
-- the specification has a ban for it: the last one made that was neither freed nor old at an
-- expiry. Nicks with the same hash in lower case share a ban; what is no address is never banned.
pub handle_bans-new :
    (lower : ℕ → ℤ) (nick_buckets ip_buckets : ℕ) (cs : List BanCall)
    → 0 < nick_buckets
    → 0 < ip_buckets
    → Returns
        (handle_bans lower (record { nicks = new nick_buckets; ips = new ip_buckets }) cs)
        λ l.
          let s = spec_bans lower no_bans cs in
          ((nick : Bytes)
            → is_nick_temp_banned lower l nick
              ≡ ok (is_some (s.by_nick (hash_lower_string lower 0 nick))))
          × ((ip : Bytes) → is_ip_temp_banned l ip ≡ ok (ip_banned s.by_ip (ip2num ip false)))
unfolding is_nick_temp_banned is_ip_temp_banned
handle_bans-new lower nick_buckets ip_buckets cs a b =
    let (l, go, k) =
      handle_bans-Keeps lower cs no_bans (record { nicks = new nick_buckets; ips = new ip_buckets })
        (record { nicks = new-Refines nick_buckets a; ips = new-Refines ip_buckets b }) in
    let s = spec_bans lower no_bans cs in
    (
      l,
      go,
      (
        λ nick.
            contains_hash-stored l.nicks k.nicks.valid.table (hash_lower_string lower 0 nick)
            ∙ ap (λ g. ok (is_some (g (hash_lower_string lower 0 nick)))) k.nicks.reads,
        λ ip. ip_banned-stored s.by_ip l (ip2num ip false) k.ips,
      ),
    )
