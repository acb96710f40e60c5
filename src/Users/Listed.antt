-- ===== src/Users/Listed.antt =====
-- What users see of a collection after any history, from its construction on.
use verlihub.Base.{
  ℕ, suc, ◌+◌, ◌^◌, ◌<◌, ◌≡◌, refl, arith, Bool, true, ◌&&◌, Option, none, List, [], ◌∷◌, Bytes,
  bytes, length,
}
use verlihub.Run.{◌>>=◌, Returns}
use verlihub.HashArray
use verlihub.HashArray.{HashArray}
use verlihub.HashArray.History.{new-Refines}
use verlihub.HashArray.Resize.{total-unique_new}
use verlihub.Users.{Users}
use verlihub.Users.Maker.{
  nick_entry, info_entry, address_entry, get_nick_list, get_info_list, get_ip_list, new_collection,
  set_nick_list_start, set_nick_list_separator,
}
use verlihub.Users.Listing.{Shown}
use verlihub.Users.History.{Event, Hub, all_happen, spec_event, spec_events}
use verlihub.Users.Answers.{
  keeps_info, all_keep_info, GoodHub, get_nick_list-Good, get_ip_list-Good, get_info_list-Shown,
  happens-Good,
}

-- A hub with a new collection that keeps all three lists.
unfoldable pub new_hub : Users → (start : Bytes) (sep : Bytes) → Hub
new_hub users start sep = record {
  users = users;
  collection =
      set_nick_list_separator sep (set_nick_list_start start (new_collection true true true));
}

abbrev pub nicks_of : Users → ℕ → Bytes
nicks_of users p = (users p).nick

module _ (lower : ℕ → ℕ) (start sep : Bytes) where
  same-Good :
      (nicks : ℕ → Bytes) (quiet b : Bool) (f : ℕ → Option ℕ) (k n : ℕ) (s : Hub)
      → b ≡ quiet
      → n ≡ k
      → GoodHub start sep nicks quiet f k s
      → GoodHub start sep nicks b f n s
  same-Good nicks quiet b f k n s same_quiet same_bound g = rw (same_quiet, same_bound) g

  pub all_happen-Good :
      (nicks : ℕ → Bytes) (es : List Event) (quiet : Bool) (f : ℕ → Option ℕ) (k : ℕ) (s : Hub)
      → k + length es < 2 ^ 29
      → GoodHub start sep nicks quiet f k s
      → Returns (all_happen lower s es) λ r.
        let spec = spec_events lower nicks f es in
        (r.0 ≡ spec.0)
        × GoodHub start sep nicks (quiet && all_keep_info es) spec.1 (k + length es) r.1
  unfolding all_happen spec_events all_keep_info
  all_happen-Good nicks [] quiet f k s bound g = (
    _,
    refl,
    (refl, same-Good nicks quiet (quiet && true) f k (k + 0) s (ground arith) (omega arith) g),
  )
  all_happen-Good nicks (e ∷ es) quiet f k s bound g =
      let (r, go, (same, g')) = happens-Good start sep nicks lower e quiet f k s (omega arith) g in
      let (z, rest, (same', g'')) =
        all_happen-Good nicks es (quiet && keeps_info e) (spec_event lower nicks f e).1 (suc k) r.1
          (omega arith) g' in
      (
        (r.0 ∷ z.0, z.1),
        rw (go, ◌>>=◌, rest) refl,
        (
          cc,
          same-Good nicks _ (quiet && all_keep_info (e ∷ es)) _ _ (k + suc (length es)) z.1
              (ground arith) (omega arith) g'',
        ),
      )

  pub new_hub-Good :
      (users : Users)
      → GoodHub start sep (nicks_of users) true (λ q. none) 0 (new_hub users start sep)
  unfolding new_hub set_nick_list_start set_nick_list_separator new_collection HashArray.new
      HashArray.unique_new
  new_hub-Good users = record {
    names = λ p. refl;
    good = (
      record {
        refines = new-Refines 512 (omega arith);
        answered_all = refl;
        few = omega (arith, total-unique_new (HashArray.new {D = ℕ} 512) 512);
        narrow = omega arith;
      },
      record {
        nicks = record { kept = refl; start_is = refl; sep_is = refl; fresh = λ e. cc };
        infos = λ q. record { kept = refl; start_is = refl; sep_is = refl; fresh = λ e. cc };
        addresses = record { kept = refl; start_is = refl; sep_is = refl; fresh = λ e. cc };
        unsent = refl;
      },
    );
  }

  -- Fewer than 2 ^ 29 events on a new collection never fault and answer as the map of the
  -- specification does, in which the first user of a nick's hash stays until a user of that hash
  -- leaves. GetNickList then gives the start and, for every user of the map once, in some order,
  -- the nick and the separator; GetIPList does so with nick and address. This holds whatever lists
  -- were asked for, resizes made and MyINFO texts changed between.
  pub all_happen-nick_list :
      (users : Users) (es : List Event)
      → length es < 2 ^ 29
      → Returns (all_happen lower (new_hub users start sep) es) λ r.
        let spec = spec_events lower (nicks_of users) (λ q. none) es in
        let s = r.1.users in
        let c = r.1.collection in
        (r.0 ≡ spec.0)
        × Shown nick_entry start sep s spec.1 (get_nick_list s c).0
        × Shown address_entry (bytes "$UserIP ") (bytes "$$") s spec.1 (get_ip_list s c).0
  all_happen-nick_list users es bound =
      let (r, go, (same, g)) =
        all_happen-Good (nicks_of users) es true (λ q. none) 0 (new_hub users start sep)
          (omega arith) (new_hub-Good users) in
      (
        r,
        go,
        (
          same,
          (get_nick_list-Good start sep (nicks_of users) _ _ _ _ _ g.good).0,
          (get_ip_list-Good start sep (nicks_of users) _ _ _ _ _ g.good).0,
        ),
      )

  -- If none of fewer than 2 ^ 29 events on a new collection changes a MyINFO text, GetInfoList
  -- then gives the text of every user of the map once, in some order, each with a pipe behind it.
  pub all_happen-info_list :
      (users : Users) (es : List Event)
      → length es < 2 ^ 29
      → all_keep_info es ≡ true
      → Returns (all_happen lower (new_hub users start sep) es) λ r.
        Shown info_entry []
          (bytes "|")
          r.1.users
          (spec_events lower (nicks_of users) (λ q. none) es).1
          (get_info_list r.1.users r.1.collection).0
  all_happen-info_list users es bound quiet =
      let (r, go, (same, g)) =
        all_happen-Good (nicks_of users) es true (λ q. none) 0 (new_hub users start sep)
          (omega arith) (new_hub-Good users) in
      (r, go, get_info_list-Shown start sep (nicks_of users) _ _ _ _ _ g.good quiet)
