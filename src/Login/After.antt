-- ===== src/Login/After.antt =====
-- What one event does to the counters and to the number of users.
use verlihub.Base.{
  leb, leb→le, ℕ, ◌+◌, ◌%◌, ◌^◌, ◌<◌, ◌≤◌, ◌≡◌, refl, ap, ◌∙◌, arith, Bool, true, false, ◌&&◌,
  Option, none, some, [], ◌∷◌, if◌then◌else◌, Bool-cases, length, get_elem?, Bytes, inl, inr,
  find_byte, get_or-replicate, length-replicate,
}
use verlihub.Run.{Run, ok, ◌>>=◌, Returns}
use verlihub.Login.{allowed, Conn, UserCounts, Config, Decision, Arrival, no_users, new_conn}
use verlihub.Login.Zones.{move_to}
use verlihub.Login.Arrivals.{is_proxied, on_new_conn}
use verlihub.Login.Messages.{is_below_operator, extra_limit}
use verlihub.Login.Counting.{one_if, same-IsCount, is_counted, is_counted_in, is_read, IsCounted}
use verlihub.Login.Steps.{move_to-IsCounted}
use verlihub.Login.Handlers.{IsAdmitted}
use verlihub.Login.Others.{uncount-IsCount}
use verlihub.Login.Entering.{Keeps, on_new_conn-Keeps}
use verlihub.Login.World.{
  World, Line, Event, connects, sends, moves, ends, new_world, remove_at, put_back, add_connection,
  enter_if, may_send, waits, input, set_user_ip, delete_conn, happens,
}
use verlihub.Login.Focus.{
  tally, AllFit, IsWorld, IsCounted-IsFit, tally-remove_at, tally-set, focus, put_back-IsWorld,
  AllFit-remove_at,
}
use verlihub.Login.Sending.{treat-IsCounted}

pub new_world-IsWorld : IsWorld new_world
unfolding new_world no_users tally AllFit
new_world-IsWorld = record {
  counts = record {
    total = refl;
    zones = record { seven = length-replicate 7 0; each = λ z l. get_or-replicate 7 z 0 };
  };
  fits = tt;
}

-- The sender's class is below an operator's, and its user limit is at most `most`.
unfoldable pub is_guest : (Bytes → Bytes) → Config → ℕ → Event → Bool
is_guest geo_cc conf most (sends i line d) =
    is_below_operator d.theoretical_class
    && leb ((conf.max_users_total + extra_limit geo_cc conf d.theoretical_class) % 2 ^ 32) most
is_guest geo_cc conf most e = true

-- After a step the counters are right, and there are no more than `most` users if it may not pass it.
abbrev pub After : ℕ → Bool → World → World → Type 0
After most guest w v =
    IsWorld v
    × (guest ≡ true
        → most < 2 ^ 32
        → tally is_counted w.conns ≤ most
        → tally is_counted v.conns ≤ most)

one_if-le : (b : Bool) → one_if b ≤ 1
unfolding one_if
one_if-le true = omega arith
one_if-le false = omega arith

module _ (geo_cc : Bytes → Bytes) (conf : Config) (most : ℕ) where
  moved_most :
      (w : World) (i : ℕ) (c : Conn) (r : UserCounts × Conn)
      → get_elem? w.conns i ≡ some c
      → c.status allowed ≡ true
      → tally is_counted w.conns ≤ most
      → tally is_counted (put_back w.conns i r).conns ≤ most
  unfolding put_back is_counted one_if
  moved_most w i c r e here m =
      let was = tally-remove_at is_counted w.conns i c e in
      let now = tally-set is_counted w.conns i c r.1 e in
      let one = ap one_if here in omega (arith, one_if-le (r.1.status allowed))

  admitted_most :
      (w : World) (i : ℕ) (line : Line) (d : Decision) (c : Conn) (r : UserCounts × Conn)
      → get_elem? w.conns i ≡ some c
      → IsWorld w
      → IsAdmitted geo_cc conf d.theoretical_class w.hub c r.1
      → is_guest geo_cc conf most (sends i line d) ≡ true
      → most < 2 ^ 32
      → tally is_counted w.conns ≤ most
      → tally is_counted (put_back w.conns i r).conns ≤ most
  unfolding put_back is_counted is_guest
  admitted_most w i line d c r e s (inl same) g l m =
      let was = tally-remove_at is_counted w.conns i c e in
      let now = tally-set is_counted w.conns i c r.1 e in let one = ap one_if same in omega arith
  admitted_most w i line d c r e s (inr room) g l m =
      let was = tally-remove_at is_counted w.conns i c e in
      let now = tally-set is_counted w.conns i c r.1 e in
      let total = s.counts.total in
      let limit = (conf.max_users_total + extra_limit geo_cc conf d.theoretical_class) % 2 ^ 32 in
      let below : is_below_operator d.theoretical_class ≡ true = ground arith in
      let few : leb limit most ≡ true = ground arith in
      let low = leb→le limit most few in
      let free = room below in omega (arith, one_if-le (r.1.status allowed))

  -- One connection more, which is not counted yet.
  more-After :
      (w : World) (c : Conn)
      → IsCounted w.hub (tally is_counted w.conns) (λ z. tally (is_counted_in z) w.conns) c
      → c.status allowed ≡ false
      → IsWorld w
      → After most true w (record w { conns = c ∷ w.conns })
  unfolding tally AllFit is_counted one_if
  more-After w c one out s = (
    record { counts = one.tally.counts; fits = (IsCounted-IsFit one, s.fits) },
    λ g l m. rw out (omega arith),
  )

  new_conn-IsCounted :
      (w : World) (address : Bytes) (number : ℕ)
      → IsWorld w
      → IsCounted w.hub
          (tally is_counted w.conns)
          (λ z. tally (is_counted_in z) w.conns)
          (new_conn address number)
  unfolding new_conn is_counted is_counted_in one_if find_byte
  new_conn-IsCounted w address number s = record {
    tally = record {
      counts = same-IsCount w.hub _ _ _ _ (omega arith) (λ z. omega arith) s.counts;
      zoned = λ a. absurd (cc);
      inside = λ z e. absurd (cc);
      plain = refl;
    };
    known = λ u. absurd (cc);
    entered = λ r a. absurd (cc);
  }

  enter_if-After :
      (w : World) (r : Bool × Conn)
      → Keeps w.hub
          (tally is_counted w.conns)
          (λ z. tally (is_counted_in z) w.conns)
          (new_conn [] 0)
          r.1
      → IsWorld w
      → After most true w (enter_if r w)
  unfolding enter_if new_conn
  enter_if-After w (false, c) k s = (s, λ g l m. m)
  enter_if-After w (true, c) k s = more-After w c k.0 k.1 s

  add_connection-After :
      (w : World) (address : Bytes) (number : ℕ) (a : Arrival)
      → IsWorld w
      → After most true w (add_connection geo_cc conf address number a w)
  unfolding add_connection new_conn
  add_connection-After w address number a s =
      let new = new_conn-IsCounted w address number s in
      elim (Bool-cases (is_proxied conf address)) [
        | inl proxy ↦ rw proxy (more-After w (new_conn address number) new refl s)
        | inr direct ↦ rw direct (
            enter_if-After w (on_new_conn geo_cc conf a (new_conn address number))
              (on_new_conn-Keeps geo_cc conf a w.hub _ _ (new_conn address number) new) s)
      ]

  delete_conn-After :
      (w : World) (i : ℕ) (o : Option Conn)
      → get_elem? w.conns i ≡ o
      → IsWorld w
      → Returns (delete_conn i w o) (After most true w)
  unfolding delete_conn
  delete_conn-After w i none e s = (w, refl, (s, λ g l m. m))
  delete_conn-After w i (some c) e s =
      let (h, go, counts) = uncount-IsCount w.hub _ _ c (focus w i c e s).tally in
      (
        record { hub = h; conns = remove_at w.conns i },
        rw go refl,
        (
          record { counts = counts; fits = AllFit-remove_at w.conns i s.fits },
          λ g l m. omega (arith, tally-remove_at is_counted w.conns i c e),
        ),
      )

  set_user_ip-After :
      (w : World) (i : ℕ) (address : Bytes) (number : ℕ) (o : Option Conn)
      → get_elem? w.conns i ≡ o
      → IsWorld w
      → Returns (set_user_ip geo_cc conf i address number w o) (After most true w)
  unfolding set_user_ip
  set_user_ip-After w i address number none e s = (w, refl, (s, λ g l m. m))
  set_user_ip-After w i address number (some c) e s = elim (Bool-cases c.has_user) [
    | inr nobody ↦ (w, rw nobody refl, (s, λ g l m. m))
    | inl user ↦
        let one = focus w i c e s in
        let (r, go, is) =
          move_to-IsCounted geo_cc conf w.hub _ _ c (some (address, number)) user one in
        let step : Run (UserCounts × Conn) → Run World =
          λ t. t >>= (λ x. ok (put_back w.conns i x)) in
        (
          put_back w.conns i r,
          ap (λ b. if b then step (move_to geo_cc conf (some (address, number)) w.hub c) else ok w)
                user
              ∙ ap step go,
          (put_back-IsWorld w i c r e s.fits is, λ g l m. moved_most w i c r e (one.known user) m),
        )
  ]

  input-After :
      (seven : length conf.max_users ≡ 7) (w : World) (i : ℕ) (line : Line) (d : Decision)
      (o : Option Conn)
      → get_elem? w.conns i ≡ o
      → may_send line o ≡ true
      → IsWorld w
      → Returns
          (input geo_cc conf i line d w o)
          (After most (is_guest geo_cc conf most (sends i line d)) w)
  unfolding input
  input-After seven w i line d none e may s = (w, refl, (s, λ g l m. m))
  input-After seven w i line d (some c) e may s = elim (Bool-cases (is_read c)) [
    | inr shut ↦ (w, rw shut refl, (s, λ g l m. m))
    | inl reads ↦
        let (r, go, both) =
          treat-IsCounted geo_cc conf seven line d w.hub _ _ c reads may (focus w i c e s) in
        (
          put_back w.conns i r,
          rw (reads, go) refl,
          (
            put_back-IsWorld w i c r e s.fits both.0,
            λ g l m. admitted_most w i line d c r e s both.1 g l m,
          ),
        )
  ]

  pub happens-After :
      (seven : length conf.max_users ≡ 7) (w : World) (e : Event)
      → waits w e ≡ true
      → IsWorld w
      → Returns (happens geo_cc conf w e) (After most (is_guest geo_cc conf most e) w)
  unfolding happens is_guest waits
  happens-After seven w (connects address number a) may s = (
    add_connection geo_cc conf address number a w,
    refl,
    add_connection-After w address number a s,
  )
  happens-After seven w (sends i line d) may s = input-After seven w i line d _ refl may s
  happens-After seven w (moves i address number) may s =
      set_user_ip-After w i address number _ refl s
  happens-After seven w (ends i) may s = delete_conn-After w i _ refl s
