-- ===== src/Users/Answers.antt =====
-- The lists that a user collection answers with after any history.
use verlihub.Base.{
  ℕ, suc, ◌^◌, ◌<◌, ◌≡◌, refl, ap, ◌∙◌, arith, Bool, true, false, not, ◌&&◌, Option, none, some,
  List, [], ◌∷◌, inl, inr, ◌==◌, Bool-cases, Bytes, bytes, subst,
}
use verlihub.Run.{Returns}
use verlihub.HashArray.{is_some}
use verlihub.Users.{Users, User, nick_to_hash}
use verlihub.Users.Maker.{
  Collection, nick_entry, info_entry, address_entry, items, add_user, remove_user, get_nick_list,
  get_info_list, get_ip_list, current,
}
use verlihub.Users.Listing.{Lists, table-Lists, Cached, Shown, current-Cached, Cached-same}
use verlihub.Users.Invariant.{
  AllCached, Good, add_user-Good, remove_user-Good, auto_resize_users-Good,
}
use verlihub.Users.History.{
  Event, joins, leaves, resizes, asks_nicks, asks_infos, asks_addresses, changes_info, Hub,
  set_fake_my_info, answered, happens, spec_event,
}

-- No message changes the MyINFO of a user.
unfoldable pub keeps_info : Event → Bool
keeps_info (changes_info p info) = false
keeps_info e = true

unfoldable pub all_keep_info : List Event → Bool
all_keep_info [] = true
all_keep_info (e ∷ es) = keeps_info e && all_keep_info es

module _ (start sep : Bytes) (nicks : ℕ → Bytes) where
  pub record GoodHub (quiet : Bool) (f : ℕ → Option ℕ) (k : ℕ) (s : Hub) : Type 0 where
    pub names : (p : ℕ) → (s.users p).nick ≡ nicks p
    pub good : Good start sep quiet s.users f k s.collection

  -- The three getters
  module _ (quiet : Bool) (users : Users) (f : ℕ → Option ℕ) (k : ℕ) (c : Collection)
      (g : Good start sep quiet users f k c) where
    abbrev pub listed : Lists f (items c)
    listed =
        subst (λ h. Lists h (items c)) g.0.refines.reads
          (table-Lists c.table g.0.refines.valid.table)

    pub get_nick_list-Good :
        Shown nick_entry start sep users f (get_nick_list users c).0
        × Good start sep quiet users f k (get_nick_list users c).1
    unfolding get_nick_list
    get_nick_list-Good =
        let r = current-Cached nick_entry start sep users f (items c) c.nicks listed g.1.nicks in
        (
          r.1,
          (
            g.0,
            record {
              nicks = r.0;
              infos = g.1.infos;
              addresses = g.1.addresses;
              unsent = g.1.unsent;
            },
          ),
        )

    pub get_ip_list-Good :
        Shown address_entry (bytes "$UserIP ") (bytes "$$") users f (get_ip_list users c).0
        × Good start sep quiet users f k (get_ip_list users c).1
    unfolding get_ip_list
    get_ip_list-Good =
        let r =
          current-Cached address_entry (bytes "$UserIP ") (bytes "$$") users f (items c) c.addresses
            listed g.1.addresses in
        (
          r.1,
          (
            g.0,
            record { nicks = g.1.nicks; infos = g.1.infos; addresses = r.0; unsent = g.1.unsent },
          ),
        )

    info_list :
        quiet ≡ true
        → Cached info_entry [] (bytes "|") users f (current info_entry users (items c) c.infos)
          × Shown info_entry []
              (bytes "|")
              users
              f
              (current info_entry users (items c) c.infos).text
    info_list q =
        current-Cached info_entry [] (bytes "|") users f (items c) c.infos listed (g.1.infos q)

    pub get_info_list-Good : Good start sep quiet users f k (get_info_list users c).1
    unfolding get_info_list
    get_info_list-Good = (
      g.0,
      record {
        nicks = g.1.nicks;
        infos = λ q. (info_list q).0;
        addresses = g.1.addresses;
        unsent = g.1.unsent;
      },
    )

    pub get_info_list-Shown :
        quiet ≡ true → Shown info_entry [] (bytes "|") users f (get_info_list users c).0
    unfolding get_info_list
    get_info_list-Shown q = (info_list q).1

  weaker-AllCached :
      (quiet b : Bool) (users : Users) (f : ℕ → Option ℕ) (c : Collection)
      → AllCached start sep quiet users f c
      → AllCached start sep (quiet && b) users f c
  weaker-AllCached quiet b users f c a = record {
    nicks = a.nicks;
    infos = λ q. a.infos (ground arith);
    addresses = a.addresses;
    unsent = a.unsent;
  }

  -- What was kept is kept with a wider bound and a weaker promise.
  later-Good :
      (quiet b : Bool) (users : Users) (f : ℕ → Option ℕ) (k : ℕ) (c : Collection)
      → Good start sep quiet users f k c
      → Good start sep (quiet && b) users f (suc k) c
  later-Good quiet b users f k c g = (
    record {
      refines = g.0.refines;
      answered_all = g.0.answered_all;
      few = omega (arith, g.0.few);
      narrow = omega (arith, g.0.narrow);
    },
    weaker-AllCached quiet b users f c g.1,
  )

  set_fake_my_info-same :
      (read : User → Bytes) (users : Users) (p q : ℕ) (info : Bytes)
      → read (record (users q) { fake_my_info = info }) ≡ read (users q)
      → read (set_fake_my_info users p info q) ≡ read (users q)
  unfolding set_fake_my_info
  set_fake_my_info-same read users p q info e = elim (Bool-cases (q == p)) [
    | inl same ↦ rw same e
    | inr other ↦ rw other refl
  ]

  nick_entry-same :
      (users : Users) (p q : ℕ) (info : Bytes)
      → nick_entry (set_fake_my_info users p info q) ≡ nick_entry (users q)
  unfolding nick_entry
  nick_entry-same users p q info = set_fake_my_info-same nick_entry users p q info refl

  address_entry-same :
      (users : Users) (p q : ℕ) (info : Bytes)
      → address_entry (set_fake_my_info users p info q) ≡ address_entry (users q)
  unfolding address_entry
  address_entry-same users p q info = set_fake_my_info-same address_entry users p q info refl

  stay :
      (quiet : Bool) (f : ℕ → Option ℕ) (k : ℕ) (s : Hub) (c : Collection)
      → ((p : ℕ) → (s.users p).nick ≡ nicks p)
      → Good start sep (quiet && true) s.users f (suc k) c
      → GoodHub (quiet && true) f (suc k) (record s { collection = c })
  stay quiet f k s c names good = record { names = names; good = good }

  module _ (lower : ℕ → ℕ) where
    abbrev pub GoodAnswer : Bool → Bool × (ℕ → Option ℕ) → ℕ → Bool × Hub → Type 0
    GoodAnswer quiet expected k r = (r.0 ≡ expected.0) × GoodHub quiet expected.1 k r.1

    pub happens-Good :
        (e : Event) (quiet : Bool) (f : ℕ → Option ℕ) (k : ℕ) (s : Hub)
        → k < 2 ^ 29
        → GoodHub quiet f k s
        → Returns
            (happens lower s e)
            (GoodAnswer (quiet && keeps_info e) (spec_event lower nicks f e) (suc k))
    unfolding happens spec_event keeps_info answered add_user remove_user
    happens-Good (joins none) quiet f k s bound g = (
      _,
      refl,
      (refl, stay quiet f k s s.collection g.names (later-Good quiet true _ f k _ g.good)),
    )
    happens-Good (joins (some p)) quiet f k s bound g =
        let (r, go, (same, good)) =
          add_user-Good start sep quiet s.users lower f k s.collection g.good p in
        let h = ap (nick_to_hash lower) (g.names p) in
        (
          answered s r,
          rw go refl,
          (
            same ∙ ap (λ q. not (is_some (f q))) h,
            rw (← h)
                (stay quiet _ k s r.1 g.names (good.0, weaker-AllCached quiet true _ _ _ good.1)),
          ),
        )
    happens-Good (leaves none) quiet f k s bound g = (
      _,
      refl,
      (refl, stay quiet f k s s.collection g.names (later-Good quiet true _ f k _ g.good)),
    )
    happens-Good (leaves (some p)) quiet f k s bound g =
        let (r, go, (same, good)) =
          remove_user-Good start sep quiet s.users lower f k s.collection g.good p in
        let h = ap (nick_to_hash lower) (g.names p) in
        (
          answered s r,
          rw go refl,
          (
            same ∙ ap (λ q. is_some (f q)) h,
            rw (← h)
                (stay quiet _ k s r.1 g.names (good.0, weaker-AllCached quiet true _ _ _ good.1)),
          ),
        )
    happens-Good resizes quiet f k s bound g =
        let (c, go, good) =
          auto_resize_users-Good start sep quiet s.users lower f k s.collection g.good bound in
        (
          (true, record s { collection = c }),
          rw go refl,
          (refl, stay quiet f k s c g.names (good.0, weaker-AllCached quiet true _ _ _ good.1)),
        )
    happens-Good asks_nicks quiet f k s bound g =
        let good = (get_nick_list-Good quiet s.users f k s.collection g.good).1 in
        (_, refl, (refl, stay quiet f k s _ g.names (later-Good quiet true _ f k _ good)))
    happens-Good asks_infos quiet f k s bound g =
        let good = get_info_list-Good quiet s.users f k s.collection g.good in
        (_, refl, (refl, stay quiet f k s _ g.names (later-Good quiet true _ f k _ good)))
    happens-Good asks_addresses quiet f k s bound g =
        let good = (get_ip_list-Good quiet s.users f k s.collection g.good).1 in
        (_, refl, (refl, stay quiet f k s _ g.names (later-Good quiet true _ f k _ good)))
    happens-Good (changes_info p info) quiet f k s bound g =
        let users' = set_fake_my_info s.users p info in
        let same_nick : (q : ℕ) → (users' q).nick ≡ (s.users q).nick =
          λ q. set_fake_my_info-same (λ u. u.nick) s.users p q info refl in
        let later = later-Good quiet false s.users f k s.collection g.good in
        (
          _,
          refl,
          (
            refl,
            record {
              names = λ q. same_nick q ∙ g.names q;
              good = (
                later.0,
                record {
                  nicks =
                      Cached-same nick_entry start sep s.users users' f s.collection.nicks
                        (λ q. nick_entry-same s.users p q info) later.1.nicks;
                  infos = λ e. absurd (ground arith);
                  addresses =
                      Cached-same address_entry (bytes "$UserIP ") (bytes "$$") s.users users' f
                        s.collection.addresses (λ q. address_entry-same s.users p q info)
                        later.1.addresses;
                  unsent = later.1.unsent;
                },
              );
            },
          ),
        )
