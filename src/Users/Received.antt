-- ===== src/Users/Received.antt =====
-- The messages to all users after any history of a collection.
use mathlib.Core.Path.{fun_ext}
use verlihub.Base.{
  ℕ, ◌^◌, ◌<◌, ◌≡◌, refl, ap, ◌∙◌, sym, arith, Bool, true, not, ◌&&◌, Option, none, some, List, [],
  ◌∷◌, ◌++◌, inl, inr, ◌==◌, if◌then◌else◌, Bool-cases, Bytes, bytes, lt_int, length, subst,
  Option-cases,
}
use verlihub.Run.{Returns}
use verlihub.HashArray.Buckets.{update}
use verlihub.HashArray.{is_some}
use verlihub.Users.{Users, User, nick_to_hash, can_send, has_feature, get_my_flag}
use verlihub.Users.Maker.{Collection, items}
use verlihub.Users.Broadcast.{
  Broadcast, Audience, everyone, in_class, with_feature, with_my_flag, without_my_flag,
  in_class_with_feature, to_any, to_class, to_feature, to_my_flag, to_no_my_flag, to_class_feature,
  append_pipe, send_cached, send_to, send_to_all, send_to_all_with_class, send_to_all_with_feature,
  send_to_all_with_my_flag, send_to_all_without_my_flag, send_to_all_with_class_feature,
}
use verlihub.Users.Listing.{Lists}
use verlihub.Users.History.{
  Event, joins, leaves, resizes, asks_nicks, asks_infos, asks_addresses, changes_info, all_happen,
  spec_event, spec_events,
}
use verlihub.Users.Answers.{listed}
use verlihub.Users.Listed.{new_hub, nicks_of, all_happen-Good, new_hub-Good}
use verlihub.Users.Delivery.{
  received, is_user, Carry, Keyed, received-send_each, Carry-send_each, erase_last-append,
}

-- The users that an audience means: those that can be sent to and have what it asks for.
unfoldable pub meets : Audience → User → Bool
meets everyone u = true
meets (in_class least most) u = not (lt_int most u.user_class) && not (lt_int u.user_class least)
meets (with_feature feature) u = has_feature feature u
meets (with_my_flag flag) u = get_my_flag flag u
meets (without_my_flag flag) u = not (get_my_flag flag u)
meets (in_class_with_feature least most feature) u =
    not (lt_int most u.user_class) && not (lt_int u.user_class least) && has_feature feature u

-- A map of users by the hash of their nicks.
abbrev KeyedMap : (ℕ → ℕ) → (ℕ → Option ℕ) → Type 0
KeyedMap hash f = (q p : ℕ) → f q ≡ some p → q ≡ hash p

module _ (lower : ℕ → ℕ) (nicks : ℕ → Bytes) where
  abbrev hash : ℕ → ℕ
  hash p = nick_to_hash lower (nicks p)

  update-KeyedMap :
      (f : ℕ → Option ℕ) (p : ℕ) → KeyedMap hash f → KeyedMap hash (update f (hash p) (some p))
  update-KeyedMap f p k q r e = elim (Bool-cases (q == hash p)) [
    | inl same ↦
        let e' : some p ≡ some r = subst (λ b. (if b then some p else f q) ≡ some r) same e in
        let same_user : p ≡ r = cc in
        let same_hash : q ≡ hash p = ground arith in same_hash ∙ ap hash same_user
    | inr other ↦ k q r (subst (λ b. (if b then some p else f q) ≡ some r) other e)
  ]

  remove-KeyedMap : (f : ℕ → Option ℕ) (h : ℕ) → KeyedMap hash f → KeyedMap hash (update f h none)
  remove-KeyedMap f h k q r e = elim (Bool-cases (q == h)) [
    | inl same ↦
        let e' : none ≡ some r = subst (λ b. (if b then none else f q) ≡ some r) same e in
        absurd (cc)
    | inr other ↦ k q r (subst (λ b. (if b then none else f q) ≡ some r) other e)
  ]

  spec_event-KeyedMap :
      (e : Event) (f : ℕ → Option ℕ)
      → KeyedMap hash f
      → KeyedMap hash (spec_event lower nicks f e).1
  unfolding spec_event is_some
  spec_event-KeyedMap (joins none) f k = k
  spec_event-KeyedMap (joins (some p)) f k = elim (Option-cases (f (hash p))) [
    | inl free ↦ rw free (update-KeyedMap f p k)
    | inr (d, taken) ↦ rw taken k
  ]
  spec_event-KeyedMap (leaves none) f k = k
  spec_event-KeyedMap (leaves (some p)) f k = remove-KeyedMap f (hash p) k
  spec_event-KeyedMap resizes f k = k
  spec_event-KeyedMap asks_nicks f k = k
  spec_event-KeyedMap asks_infos f k = k
  spec_event-KeyedMap asks_addresses f k = k
  spec_event-KeyedMap (changes_info p info) f k = k

  spec_events-KeyedMap :
      (es : List Event) (f : ℕ → Option ℕ)
      → KeyedMap hash f
      → KeyedMap hash (spec_events lower nicks f es).1
  unfolding spec_events
  spec_events-KeyedMap [] f k = k
  spec_events-KeyedMap (e ∷ es) f k =
      spec_events-KeyedMap es (spec_event lower nicks f e).1 (spec_event-KeyedMap e f k)

  Lists-Keyed :
      (f : ℕ → Option ℕ) (c : Collection)
      → KeyedMap hash f
      → Lists f (items c)
      → Keyed hash (items c)
  Lists-Keyed f c k l = record { once = l.once; own = λ q p e. k q p (sym (l.agree q) ∙ e) }

  -- What one call does to the users of a collection whose cache is empty.
  pub record Delivers (users : Users) (f : ℕ → Option ℕ) (c : Collection) (wanted : User → Bool)
      (text : Bytes) (cache pipe : Bool) (b : Broadcast) : Type 0 where
    pub gets :
        (p : ℕ) → received p b.sent ≡ (if is_user p (f (hash p)) && wanted (users p) then 1 else 0)
    pub carries : Carry (if pipe then text ++ bytes "|" else text) (not cache) b.sent
    pub data_kept : b.data_left ≡ text
    pub unchanged : b.after ≡ c

  send_cached-Delivers :
      (users : Users) (f : ℕ → Option ℕ) (c : Collection) (wanted : User → Bool) (text : Bytes)
      (cache pipe : Bool)
      → c.send_all ≡ []
      → KeyedMap hash f
      → Lists f (items c)
      → Delivers users f c wanted text cache pipe (send_cached wanted users c text cache pipe)
  unfolding send_cached append_pipe
  send_cached-Delivers users f c wanted text cache pipe empty k l = record {
    gets = λ p.
        received-send_each hash users wanted _ (λ q. refl) p (items c) (Lists-Keyed f c k l)
        ∙ rw (l.agree (hash p)) refl;
    carries = rw empty (Carry-send_each users wanted _ (not cache) (items c));
    data_kept = elim (Bool-cases pipe) [
      | inl piped ↦ rw piped (erase_last-append text _)
      | inr plain ↦ rw plain refl
    ];
    unchanged = ap (λ s. record c { send_all = s }) (sym empty);
  }

  -- The test may be written in another way.
  same_test-Delivers :
      (users : Users) (f : ℕ → Option ℕ) (c : Collection) (wanted meant : User → Bool)
      (text : Bytes) (cache pipe : Bool)
      → c.send_all ≡ []
      → KeyedMap hash f
      → Lists f (items c)
      → ((u : User) → wanted u ≡ meant u)
      → Delivers users f c meant text cache pipe (send_cached wanted users c text cache pipe)
  same_test-Delivers users f c wanted meant text cache pipe empty k l same =
      subst (λ w. Delivers users f c w text cache pipe (send_cached wanted users c text cache pipe))
        (fun_ext same) (send_cached-Delivers users f c wanted text cache pipe empty k l)

  send_to-Delivers :
      (users : Users) (f : ℕ → Option ℕ) (c : Collection) (a : Audience) (text : Bytes)
      (cache pipe : Bool)
      → c.send_all ≡ []
      → KeyedMap hash f
      → Lists f (items c)
      → Delivers users f c
          (λ u. can_send u && meets a u)
          text
          cache
          pipe
          (send_to a users c text cache pipe)
  unfolding send_to meets send_to_all send_to_all_with_class send_to_all_with_feature
      send_to_all_with_my_flag send_to_all_without_my_flag send_to_all_with_class_feature to_any
      to_class to_feature to_my_flag to_no_my_flag to_class_feature
  send_to-Delivers users f c everyone text cache pipe empty k l =
      same_test-Delivers users f c to_any _ text cache pipe empty k l (λ u. ground arith)
  send_to-Delivers users f c (in_class least most) text cache pipe empty k l =
      same_test-Delivers users f c (to_class least most) _ text cache pipe empty k l
        (λ u. ground arith)
  send_to-Delivers users f c (with_feature feature) text cache pipe empty k l =
      same_test-Delivers users f c (to_feature feature) _ text cache pipe empty k l
        (λ u. ground arith)
  send_to-Delivers users f c (with_my_flag flag) text cache pipe empty k l =
      same_test-Delivers users f c (to_my_flag flag) _ text cache pipe empty k l (λ u. ground arith)
  send_to-Delivers users f c (without_my_flag flag) text cache pipe empty k l =
      same_test-Delivers users f c (to_no_my_flag flag) _ text cache pipe empty k l
        (λ u. ground arith)
  send_to-Delivers users f c (in_class_with_feature least most feature) text cache pipe empty k l =
      same_test-Delivers users f c (to_class_feature least most feature) _ text cache pipe empty k l
        (λ u. ground arith)

-- After fewer than 2 ^ 29 events on a new collection, each call of the SendToAll family is sent
-- once to every user of the map who can be sent to and whom the audience means, and to nobody
-- else. Every call carries the data, with a pipe behind it if asked, and flushes unless it is to be
-- cached. The data and the collection are afterwards as they were.
pub send_to-receivers :
    (lower : ℕ → ℕ) (start sep : Bytes) (users : Users) (es : List Event) (a : Audience)
    (text : Bytes) (cache pipe : Bool)
    → length es < 2 ^ 29
    → Returns (all_happen lower (new_hub users start sep) es) λ r.
      Delivers lower
        (nicks_of users)
        r.1.users
        (spec_events lower (nicks_of users) (λ q. none) es).1
        r.1.collection
        (λ u. can_send u && meets a u)
        text
        cache
        pipe
        (send_to a r.1.users r.1.collection text cache pipe)
send_to-receivers lower start sep users es a text cache pipe bound =
    let (r, go, (same, g)) =
      all_happen-Good lower start sep (nicks_of users) es true (λ q. none) 0
        (new_hub users start sep) (omega arith) (new_hub-Good lower start sep users) in
    (
      r,
      go,
      send_to-Delivers lower (nicks_of users) r.1.users _ r.1.collection a text cache pipe
          g.good.1.unsent
          (spec_events-KeyedMap lower (nicks_of users) es (λ q. none) (λ q p e. absurd (cc)))
          (listed start sep (nicks_of users) _ _ _ _ _ g.good),
    )
