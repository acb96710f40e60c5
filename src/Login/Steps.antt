-- ===== src/Login/Steps.antt =====
-- What the handlers do to the counters.
use verlihub.Base.{
  ℕ, ◌<◌, ◌≡◌, refl, sym, ap, ◌∙◌, arith, Bool, true, false, ◌||◌, not, Option, none, some, ◌==◌,
  if◌then◌else◌, Bool-cases, set, get_or, subst, Bytes, inl, inr, leb,
}
use verlihub.Run.{Returns}
use verlihub.HashArray.{inc, dec}
use verlihub.Login.{
  Flag, bit, allowed, valnick, passwd, Conn, UserCounts, Config, Decision, set_ls_flag, close_now,
  close_nice, conn_close_msg,
}
use verlihub.Login.Zones.{zone_of, ip_zone_of, reset_zone, reset_geo, move_to}
use verlihub.Login.Messages.{introduce, welcome}
use verlihub.Login.Counting.{
  IsZones, at-counter, inc_at-IsZones, dec_at-IsZones, is_read, IsTallied, IsCounted,
  same-IsTallied, zone_in, tally-in, in-tally,
}

pub close_now-IsCounted :
    (h : UserCounts) (n : ℕ) (f : ℕ → ℕ) (c : Conn)
    → IsTallied h n f c
    → (c.has_user ≡ true → c.status allowed ≡ true)
    → IsCounted h n f (close_now c)
unfolding close_now is_read
close_now-IsCounted h n f c t known = record {
  tally = same-IsTallied h n f c (close_now c) refl refl refl t;
  known = known;
  entered = λ r. absurd (cc);
}

pub close_nice-IsCounted :
    (h : UserCounts) (n : ℕ) (f : ℕ → ℕ) (c : Conn) (pending : Bool) (msec : ℕ)
    → IsTallied h n f c
    → (c.has_user ≡ true → c.status allowed ≡ true)
    → IsCounted h n f (close_nice pending msec c)
unfolding close_nice close_now is_read
close_nice-IsCounted h n f c pending msec t known = elim (Bool-cases (leb msec 0 || not pending)) [
  | inl now ↦ rw now (
      close_now-IsCounted h n f (record c { writable = false })
        (same-IsTallied h n f c _ refl refl refl t) known)
  | inr later ↦ rw later (record {
    tally = same-IsTallied h n f c (record c { writable = false }) refl refl refl t;
    known = known;
    entered = λ r. ground arith;
  })
]

pub set_ls_flag-IsCounted :
    (h : UserCounts) (n : ℕ) (f : ℕ → ℕ) (c : Conn) (g : Flag)
    → (5 == bit g) ≡ false
    → IsCounted h n f c
    → IsCounted h n f (set_ls_flag g c)
unfolding set_ls_flag bit is_read
set_ls_flag-IsCounted h n f c g other s =
    let same : (set_ls_flag g c).status allowed ≡ c.status allowed =
      ap (λ b. b || c.status allowed) other in
    record {
      tally = same-IsTallied h n f c (set_ls_flag g c) refl same refl s.tally;
      known = λ u. same ∙ s.known u;
      entered = λ r a. let v = s.entered r (sym same ∙ a) in ground (arith, v);
    }

module _ (geo_cc : Bytes → Bytes) (conf : Config) where
  pub zone_of-lt : (address : Bytes) (number : ℕ) → zone_of geo_cc conf address number < 7
  unfolding zone_of ip_zone_of
  zone_of-lt address number = ground arith

  -- The zone may change, and nothing else does.
  abbrev Moved : ℕ → (ℕ → ℕ) → Conn → UserCounts × Conn → Type 0
  Moved n f c r = (z : Option ℕ) × (r.1 ≡ record c { zone = z }) × IsTallied r.0 n f r.1

  reset_geo-IsTallied :
      (h : UserCounts) (n : ℕ) (f : ℕ → ℕ) (c : Conn)
      → c.status allowed ≡ true
      → IsTallied h n f c
      → Returns (reset_geo geo_cc conf h c) (Moved n f c)
  unfolding reset_geo reset_zone
  reset_geo-IsTallied h n f c here s =
      let (z, place, l) = zone_in h n f c here s in
      let z' = zone_of geo_cc conf c.address c.number in
      let l' = zone_of-lt c.address c.number in
      let all = tally-in h n f c z here place s in
      let left = set h.users z (dec (get_or h.users z 0)) in
      let out : IsZones left f = dec_at-IsZones h.users f z all.zones l in
      let after = record h { users = set left z' (inc (get_or left z' 0)) } in
      let d = record c { zone = some z' } in
      let tallied : IsTallied after n f d =
        in-tally after n f d z' here refl l' s.plain
          (record { total = all.total; zones = inc_at-IsZones left f z' out l' }) in
      (
        (after, d),
        rw (place, at-counter h.users _ z all.zones l, at-counter left f z' out l') refl,
        (some z', refl, tallied),
      )

  -- The connection is counted, and has no user yet.
  abbrev pub IsNew : ℕ → (ℕ → ℕ) → UserCounts × Conn → Type 0
  IsNew n f r = IsTallied r.0 n f r.1 × (r.1.status allowed ≡ true) × (r.1.has_user ≡ false)

  move_to-IsNew :
      (h : UserCounts) (n : ℕ) (f : ℕ → ℕ) (c : Conn) (ip : Option (Bytes × ℕ))
      → IsNew n f (h, c)
      → Returns (move_to geo_cc conf ip h c) (IsNew n f)
  unfolding move_to
  move_to-IsNew h n f c none s = ((h, c), refl, s)
  move_to-IsNew h n f c (some a) (s, here, new) =
      let c' = record c { address = a.0; number = a.1 } in
      let (r, go, moved) =
        reset_geo-IsTallied h n f c' here (same-IsTallied h n f c c' refl refl refl s) in
      let (z, same, t) = moved in
      (
        r,
        go,
        (
          t,
          ap (λ (x : Conn). x.status allowed) same ∙ here,
          ap (λ (x : Conn). x.has_user) same ∙ new,
        ),
      )

  introduce-IsCounted :
      (d : Decision) (h : UserCounts) (n : ℕ) (f : ℕ → ℕ) (c : Conn)
      → IsNew n f (h, c)
      → IsCounted h n f (introduce d c)
  unfolding introduce set_ls_flag bit
  introduce-IsCounted d h n f c (s, here, new) = elim (Bool-cases d.plugins_agree) [
    | inl agree ↦
        rw (new, agree)
          (record {
            tally = same-IsTallied h n f c _ refl refl refl s;
            known = λ u. here;
            entered = λ r a. refl;
          })
    | inr refuse ↦
        rw (new, refuse)
          (close_now-IsCounted h n f (record c { has_user = true })
            (same-IsTallied h n f c _ refl refl refl s) (λ u. here))
  ]

  asked :
      (d : Decision) (n : ℕ) (f : ℕ → ℕ) (r : UserCounts × Conn)
      → IsNew n f r
      → IsNew n f (r.0, (if d.needs_password then r.1 else set_ls_flag passwd r.1))
  unfolding set_ls_flag bit
  asked d n f r (s, here, new) = elim (Bool-cases d.needs_password) [
    | inl needed ↦ rw needed (s, here, new)
    | inr free ↦
        rw free (same-IsTallied r.0 n f r.1 (set_ls_flag passwd r.1) refl refl refl s, here, new)
  ]

  pub welcome-IsCounted :
      (d : Decision) (h : UserCounts) (n : ℕ) (f : ℕ → ℕ) (c : Conn)
      → IsNew n f (h, c)
      → Returns (welcome geo_cc conf d h c) (λ r. IsCounted r.0 n f r.1)
  unfolding welcome conn_close_msg
  welcome-IsCounted d h n f c (s, here, new) = elim (Bool-cases (d.ip_is_full || d.auth_ip_fails)) [
    | inl bad ↦ (
      (h, conn_close_msg d.pending c),
      rw bad refl,
      close_nice-IsCounted h n f c d.pending 1000 s (λ u. here),
    )
    | inr fine ↦
        let (r, go, is) = move_to-IsNew h n f c d.fake_ip (s, here, new) in
        (
          (r.0, introduce d (if d.needs_password then r.1 else set_ls_flag passwd r.1)),
          rw (fine, go) refl,
          introduce-IsCounted d r.0 n f _ (asked d n f r is),
        )
  ]

  -- A user's connection that gets a new address.
  pub move_to-IsCounted :
      (h : UserCounts) (n : ℕ) (f : ℕ → ℕ) (c : Conn) (ip : Option (Bytes × ℕ))
      → c.has_user ≡ true
      → IsCounted h n f c
      → Returns (move_to geo_cc conf ip h c) (λ r. IsCounted r.0 n f r.1)
  unfolding move_to is_read
  move_to-IsCounted h n f c none u s = ((h, c), refl, s)
  move_to-IsCounted h n f c (some a) u s =
      let c' = record c { address = a.0; number = a.1 } in
      let here = s.known u in
      let (r, go, moved) =
        reset_geo-IsTallied h n f c' here (same-IsTallied h n f c c' refl refl refl s.tally) in
      let (z, same, t) = moved in
      (
        r,
        go,
        record {
          tally = t;
          known = λ v. ap (λ (x : Conn). x.status allowed) same ∙ here;
          entered =
              subst (λ x. is_read x ≡ true → x.status allowed ≡ true → x.status valnick ≡ true)
                (sym same) s.entered;
        },
      )
