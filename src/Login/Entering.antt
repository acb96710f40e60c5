-- ===== src/Login/Entering.antt =====
-- A connection that comes in, or tells the address of its client, keeps the counters right.
use verlihub.Base.{
  ℕ, ◌<◌, ◌≡◌, refl, sym, ap, ◌∙◌, Bool, true, false, ◌&&◌, ◌||◌, not, Option, none, some, ◌==ᵇ◌,
  ltb, length, if◌then◌else◌, Bool-cases, Option-cases, Bytes, bytes, inl, inr,
}
use verlihub.Message.Search.{Lacks}
use verlihub.Address.{ip2num}
use verlihub.Login.{
  allowed, Conn, UserCounts, Config, Decision, Arrival, close_now, close_nice, conn_close_msg,
}
use verlihub.Login.Zones.{zone_of, zone_or, set_geo_zone}
use verlihub.Login.Arrivals.{
  is_no_text, is_proxied, secured, set_sec_conn, dcu_unknown, with_lock, asked_in, on_new_conn,
  kept_if, enter_sec, dcc_my_ip, stored_ver,
}
use verlihub.Login.Counting.{
  is_counted, is_counted_in, is_read, IsTallied, IsCounted, same-IsTallied, tally-out, out-tally,
}
use verlihub.Login.Locks.{Lacks-append, make_lock-Lacks}
use verlihub.Login.Steps.{close_now-IsCounted, close_nice-IsCounted, zone_of-lt}
use verlihub.Login.Handlers.{close_nice-status}

-- The counters stay right, and the flag of an allowed login as it was.
abbrev pub Keeps : UserCounts → ℕ → (ℕ → ℕ) → Conn → Conn → Type 0
Keeps h n f c d = IsCounted h n f d × (d.status allowed ≡ c.status allowed)

closed_nice :
    (h : UserCounts) (n : ℕ) (f : ℕ → ℕ) (c : Conn) (pending : Bool) (msec : ℕ)
    → IsCounted h n f c
    → Keeps h n f c (close_nice pending msec c)
closed_nice h n f c pending msec s =
    (close_nice-IsCounted h n f c pending msec s.tally s.known, close_nice-status pending msec c)

closed_now :
    (h : UserCounts) (n : ℕ) (f : ℕ → ℕ) (c : Conn)
    → IsCounted h n f c
    → Keeps h n f c (close_now c)
unfolding close_now
closed_now h n f c s = (close_now-IsCounted h n f c s.tally s.known, refl)

-- What is counted depends on the zone only if the login is allowed, and then the zone stays.
zone_or-IsTallied :
    (h : UserCounts) (n : ℕ) (f : ℕ → ℕ) (c : Conn) (z : ℕ) (lock : Bytes)
    → z < 7
    → Lacks b'/' lock
    → IsTallied h n f c
    → IsTallied h n f (record c { zone = zone_or z c.zone; lock = lock })
unfolding zone_or is_counted is_counted_in
zone_or-IsTallied h n f c z lock l lacks s = elim (Option-cases c.zone) [
  | inl away ↦
      let out : c.status allowed ≡ false = elim (Bool-cases (c.status allowed)) [
        | inl a ↦ let (y, e) = s.zoned a in let clash : none ≡ some y = sym away ∙ e in absurd (cc)
        | inr a ↦ a
      ] in
      out-tally h n f (record c { zone = zone_or z c.zone; lock = lock }) z out
        (ap (zone_or z) away) l lacks (tally-out h n f c out s)
  | inr (y, e) ↦
      let t =
        same-IsTallied h n f c (record c { zone = zone_or z c.zone }) (ap (zone_or z) e ∙ sym e)
          refl refl s in
      record { counts = t.counts; zoned = t.zoned; inside = t.inside; plain = lacks }
]

module _ (geo_cc : Bytes → Bytes) (conf : Config) where
  with_lock-Keeps :
      (a : Arrival) (h : UserCounts) (n : ℕ) (f : ℕ → ℕ) (c : Conn)
      → IsCounted h n f c
      → Keeps h n f c (with_lock geo_cc conf a c)
  unfolding with_lock set_geo_zone is_read
  with_lock-Keeps a h n f c s =
      let tls = if conf.tls_enabled then some conf.tls_only_mode else none in
      (
        record {
          tally =
              zone_or-IsTallied h n f c (zone_of geo_cc conf c.address c.number) _
                (zone_of-lt geo_cc conf c.address c.number)
                (Lacks-append b'/' c.lock _ s.tally.plain (make_lock-Lacks tls a.r1 a.r2 a.r3 a.r4))
                s.tally;
          known = s.known;
          entered = s.entered;
        },
        refl,
      )

  asked_in-Keeps :
      (agree let_in pending : Bool) (h : UserCounts) (n : ℕ) (f : ℕ → ℕ) (c d : Conn)
      → IsCounted h n f c
      → Keeps h n f c d
      → Keeps h n f c (asked_in agree let_in pending c d).1
  unfolding asked_in conn_close_msg
  asked_in-Keeps false let_in pending h n f c d s k = (s, refl)
  asked_in-Keeps true true pending h n f c d s k = k
  asked_in-Keeps true false pending h n f c d s k =
      let shut = closed_nice h n f d pending 1000 k.0 in (shut.0, shut.1 ∙ k.1)

  pub on_new_conn-Keeps :
      (a : Arrival) (h : UserCounts) (n : ℕ) (f : ℕ → ℕ) (c : Conn)
      → IsCounted h n f c
      → Keeps h n f c (on_new_conn geo_cc conf a c).1
  unfolding on_new_conn
  on_new_conn-Keeps a h n f c s =
      asked_in-Keeps a.plugins_agree a.let_in a.pending h n f c (with_lock geo_cc conf a c) s
        (with_lock-Keeps a h n f c s)

  kept_if-Keeps :
      (h : UserCounts) (n : ℕ) (f : ℕ → ℕ) (c : Conn) (r : Bool × Conn)
      → Keeps h n f c r.1
      → Keeps h n f c (kept_if r)
  unfolding kept_if is_read
  kept_if-Keeps h n f c (true, d) k = k
  kept_if-Keeps h n f c (false, d) k = (
    record {
      tally = same-IsTallied h n f d (record d { is_ok = false }) refl refl refl k.0.tally;
      known = k.0.known;
      entered = λ r. absurd (cc);
    },
    k.1,
  )

  enter_sec-Keeps :
      (a : Arrival) (pending : Bool) (h : UserCounts) (n : ℕ) (f : ℕ → ℕ) (c : Conn)
      (addr vers : Bytes) (num : Option ℕ)
      → IsCounted h n f c
      → Keeps h n f c (enter_sec geo_cc conf a pending c (secured addr vers num c))
  unfolding enter_sec secured is_read
  enter_sec-Keeps a pending h n f c addr vers none s = closed_now h n f c s
  enter_sec-Keeps a pending h n f c addr vers (some m) s =
      let d = record c { address = addr; number = m; tls_ver = stored_ver vers } in
      let t : IsCounted h n f d = record {
        tally = same-IsTallied h n f c d refl refl refl s.tally;
        known = s.known;
        entered = s.entered;
      } in
      elim (Bool-cases (conf.tls_only_mode && stored_ver vers ==ᵇ bytes "0.0")) [
        | inl unsafe ↦ rw unsafe (closed_nice h n f d pending 500 t)
        | inr safe ↦
            rw safe
              (kept_if-Keeps h n f c (on_new_conn geo_cc conf a d) (on_new_conn-Keeps a h n f d t))
      ]

  pub dcc_my_ip-Keeps :
      (d : Decision) (addr vers : Bytes) (a : Arrival) (h : UserCounts) (n : ℕ) (f : ℕ → ℕ)
      (c : Conn)
      → IsCounted h n f c
      → Keeps h n f c (dcc_my_ip geo_cc conf d addr vers a c)
  unfolding dcc_my_ip set_sec_conn dcu_unknown conn_close_msg enter_sec
  dcc_my_ip-Keeps d addr vers a h n f c s = elim (Bool-cases (is_proxied conf c.address)) [
    | inr direct ↦ elim (Bool-cases d.floods) [
      | inl flood ↦ rw (direct, flood) (closed_nice h n f c d.pending 1000 s)
      | inr calm ↦ rw (direct, calm) (s, refl)
    ]
    | inl proxy ↦ elim (Bool-cases (d.len_fails || d.syntax_fails)) [
      | inl bad ↦ rw (proxy, bad) (closed_now h n f c s)
      | inr fine ↦
          elim (Bool-cases (not (is_no_text c.tls_ver) || is_no_text vers || ltb 3 (length vers))) [
            | inl twice ↦ rw (proxy, fine, twice) (closed_now h n f c s)
            | inr once ↦
                rw (proxy, fine, once)
                  (enter_sec-Keeps a d.pending h n f c addr vers (ip2num addr false) s)
          ]
    ]
  ]
