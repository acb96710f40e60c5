-- ===== src/Login/Handlers.antt =====
-- Every handler keeps the counters right.
use verlihub.Base.{
  find_byte, leb, ℤ, ◌⊎◌, ◌%◌, ◌^◌, ℕ, ◌+◌, ◌<◌, ◌≡◌, refl, ap, ◌∙◌, arith, Bool, true, false, ◌||◌,
  not, some, [], take, ◌==ᵇ◌, if◌then◌else◌, Bool-cases, length, get_or, Bytes, inl, inr,
  get_elem?-lt,
}
use verlihub.Run.{Run, ok, ◌>>=◌, at, or_out_of_range, Returns}
use verlihub.Login.Locks.{lock_to_key-plain}
use verlihub.Login.{
  bit, keyok, allowed, valnick, Conn, UserCounts, Config, Decision, set_ls_flag, get_ls_flag,
  close_now, close_nice, conn_close_msg,
}
use verlihub.Login.Messages.{
  count_in, is_full, is_below_operator, extra_limit, admit, dc_validate_nick, dc_key, is_key_of,
}
use verlihub.Login.Counting.{
  is_counted, is_counted_in, at-counter, count_in-IsCount, is_read, IsTallied, IsCounted, tally-out,
  in-tally,
}
use verlihub.Login.Steps.{close_nice-IsCounted, set_ls_flag-IsCounted, welcome-IsCounted}

abbrev key_right : Conn → Conn
key_right c = record (set_ls_flag keyok c) { lock = [] }

key_right-IsCounted :
    (h : UserCounts) (n : ℕ) (f : ℕ → ℕ) (c : Conn)
    → IsCounted h n f c
    → IsCounted h n f (key_right c)
unfolding find_byte set_ls_flag bit is_read is_counted is_counted_in
key_right-IsCounted h n f c s =
    let t = set_ls_flag-IsCounted h n f c keyok refl s in
    record {
      tally = record {
        counts = t.tally.counts;
        zoned = t.tally.zoned;
        inside = t.tally.inside;
        plain = refl;
      };
      known = t.known;
      entered = t.entered;
    }

key_right-status : (c : Conn) → (key_right c).status allowed ≡ c.status allowed
unfolding set_ls_flag bit
key_right-status c = refl

pub close_nice-status :
    (pending : Bool) (msec : ℕ) (c : Conn)
    → (close_nice pending msec c).status allowed ≡ c.status allowed
unfolding close_nice close_now
close_nice-status pending msec c = elim (Bool-cases (leb msec 0 || not pending)) [
  | inl now ↦ rw now refl
  | inr later ↦ rw later refl
]

-- A connection is allowed only if it was, or if the user limit of its class was not reached.
abbrev pub IsAdmitted : (Bytes → Bytes) → Config → ℤ → UserCounts → Conn → Conn → Type 0
IsAdmitted geo_cc conf k h c e =
    (e.status allowed ≡ c.status allowed)
    ⊎ (is_below_operator k ≡ true
        → h.users_total < (conf.max_users_total + extra_limit geo_cc conf k) % 2 ^ 32)

module _ (geo_cc : Bytes → Bytes) (conf : Config) (seven : length conf.max_users ≡ 7) where
  room-lt :
      (k : ℤ) (h : UserCounts) (limit users : ℕ)
      → is_full geo_cc conf k h limit users ≡ false
      → is_below_operator k ≡ true
      → h.users_total < (conf.max_users_total + extra_limit geo_cc conf k) % 2 ^ 32
  unfolding is_full
  room-lt k h limit users room below = ground arith

  admit-IsCounted :
      (d : Decision) (h : UserCounts) (n : ℕ) (f : ℕ → ℕ) (c : Conn) (z : ℕ)
      → c.zone ≡ some z
      → z < 7
      → c.status allowed ≡ false
      → c.has_user ≡ false
      → IsTallied h n f c
      → Returns
          (admit geo_cc conf d h c z)
          (λ r. IsCounted r.0 n f r.1 × IsAdmitted geo_cc conf d.theoretical_class h c r.1)
  unfolding admit conn_close_msg set_ls_flag bit at or_out_of_range
  admit-IsCounted d h n f c z place l out new s =
      let count = tally-out h n f c out s in
      let limit = get_or conf.max_users z 0 in
      let users = get_or h.users z 0 in
      let limited : at conf.max_users z ≡ ok limit =
        rw (get_elem?-lt conf.max_users z 0 (ground arith)) refl in
      let counted = at-counter h.users f z count.zones l in
      elim (Bool-cases (is_full geo_cc conf d.theoretical_class h limit users)) [
        | inl full ↦ (
          (h, conn_close_msg d.pending c),
          rw (limited, counted, full) refl,
          (
            close_nice-IsCounted h n f c d.pending 1000 s (λ u. absurd (cc)),
            inl (close_nice-status d.pending 1000 c),
          ),
        )
        | inr room ↦
            let h' = count_in h z users in
            let c' = set_ls_flag allowed c in
            let (r, go, is) = welcome-IsCounted geo_cc conf d h' n f c' (
              in-tally h' n f c' z refl place l s.plain (count_in-IsCount h n f z count l),
              refl,
              new,
            ) in
            (
              r,
              rw (limited, counted, room) go,
              (is, inr (room-lt d.theoretical_class h limit users room)),
            )
      ]

  pub dc_validate_nick-IsCounted :
      (d : Decision) (h : UserCounts) (n : ℕ) (f : ℕ → ℕ) (c : Conn)
      → is_read c ≡ true
      → (z : ℕ) × (c.zone ≡ some z)
      → IsCounted h n f c
      → Returns
          (dc_validate_nick geo_cc conf d h c)
          (λ r. IsCounted r.0 n f r.1 × IsAdmitted geo_cc conf d.theoretical_class h c r.1)
  unfolding dc_validate_nick conn_close_msg get_ls_flag or_out_of_range
  dc_validate_nick-IsCounted d h n f c reads (z, place) s =
      elim (Bool-cases (get_ls_flag valnick c || d.syntax_fails)) [
        | inl bad ↦ (
          (h, conn_close_msg d.pending c),
          rw bad refl,
          (
            close_nice-IsCounted h n f c d.pending 1000 s.tally s.known,
            inl (close_nice-status d.pending 1000 c),
          ),
        )
        | inr fine ↦ elim (Bool-cases d.user_is_valid) [
          | inr wrong ↦ (
            (h, close_nice d.pending 2000 c),
            rw (fine, wrong) refl,
            (
              close_nice-IsCounted h n f c d.pending 2000 s.tally s.known,
              inl (close_nice-status d.pending 2000 c),
            ),
          )
          | inl valid ↦
              let l = s.tally.inside z place in
              let valid_or : Bool → Run (UserCounts × Conn) = λ b.
                if b
                then or_out_of_range c.zone >>= admit geo_cc conf d h c
                else ok (h, close_nice d.pending 2000 c) in
              let out : c.status allowed ≡ false = elim (Bool-cases (c.status allowed)) [
                | inl a ↦ let v = s.entered reads a in ground arith
                | inr a ↦ a
              ] in
              let new : c.has_user ≡ false = elim (Bool-cases c.has_user) [
                | inl u ↦ let a = s.known u in absurd (cc)
                | inr u ↦ u
              ] in
              let (r, go, is) = admit-IsCounted d h n f c z place l out new s.tally in
              (
                r,
                ap (λ b. if b then ok (h, conn_close_msg d.pending c) else valid_or d.user_is_valid)
                      fine
                    ∙ ap valid_or valid
                    ∙ ap (λ p. or_out_of_range p >>= admit geo_cc conf d h c) place
                    ∙ go,
                is,
              )
        ]
      ]

  pub dc_key-IsCounted :
      (d : Decision) (par : Bytes) (h : UserCounts) (n : ℕ) (f : ℕ → ℕ) (c : Conn)
      → IsCounted h n f c
      → Returns
          (dc_key geo_cc conf d par c)
          (λ e. IsCounted h n f e × (e.status allowed ≡ c.status allowed))
  unfolding dc_key is_key_of conn_close_msg
  dc_key-IsCounted d par h n f c s =
      let closed : IsCounted h n f (conn_close_msg d.pending c)
          × ((conn_close_msg d.pending c).status allowed ≡ c.status allowed) =
        (
          close_nice-IsCounted h n f c d.pending 1000 s.tally s.known,
          close_nice-status d.pending 1000 c,
        ) in
      let passed : IsCounted h n f (key_right c)
          × ((key_right c).status allowed ≡ c.status allowed) =
        (key_right-IsCounted h n f c s, key_right-status c) in
      elim (Bool-cases (get_ls_flag keyok c || d.syntax_fails)) [
        | inl bad ↦ (conn_close_msg d.pending c, rw bad refl, closed)
        | inr fine ↦ elim (Bool-cases conf.drop_invalid_key) [
          | inr any ↦ (key_right c, rw (fine, any) refl, passed)
          | inl strict ↦
              let (key, found, ended) = lock_to_key-plain c.lock s.tally.plain in
              elim (Bool-cases (take (length par) key ==ᵇ par)) [
                | inl right ↦ (key_right c, rw (fine, strict, found, right) refl, passed)
                | inr wrong ↦
                    (conn_close_msg d.pending c, rw (fine, strict, found, wrong) refl, closed)
              ]
        ]
      ]
