-- ===== src/Users/History.antt =====
-- Any history of a user collection, with the messages that change a user's MyINFO.
use verlihub.Base.{
  ℕ, Bool, true, false, not, Option, none, some, List, [], ◌∷◌, ◌==◌, if◌then◌else◌, Bytes,
}
use verlihub.Run.{Run, ok, ◌>>=◌}
use verlihub.HashArray.Buckets.{update}
use verlihub.HashArray.{is_some}
use verlihub.Users.{Users, nick_to_hash}
use verlihub.Users.Maker.{
  Collection, add_user, remove_user, auto_resize_users, get_nick_list, get_info_list, get_ip_list,
}

pub data Event : Type 0 where
  joins : Option ℕ → Event
  leaves : Option ℕ → Event
  resizes : Event
  asks_nicks : Event
  asks_infos : Event
  asks_addresses : Event
  -- `mFakeMyINFO` of a user is set.
  changes_info : ℕ → Bytes → Event

pub record Hub : Type 0 where
  pub users : Users
  pub collection : Collection

unfoldable pub set_fake_my_info : Users → ℕ → Bytes → Users
set_fake_my_info users p info q =
    if q == p then record (users q) { fake_my_info = info } else users q

unfoldable pub answered : Hub → Bool × Collection → Bool × Hub
answered s (b, c) = (b, record s { collection = c })

module _ (lower : ℕ → ℕ) where
  -- The answer of a call that has none is true.
  unfoldable pub happens : Hub → Event → Run (Bool × Hub)
  happens s (joins p) = add_user lower s.users s.collection p >>= (λ r. ok (answered s r))
  happens s (leaves p) = remove_user lower s.users s.collection p >>= (λ r. ok (answered s r))
  happens s resizes =
      auto_resize_users s.users s.collection >>= (λ c. ok (true, record s { collection = c }))
  happens s asks_nicks = ok (true, record s { collection = (get_nick_list s.users s.collection).1 })
  happens s asks_infos = ok (true, record s { collection = (get_info_list s.users s.collection).1 })
  happens s asks_addresses =
      ok (true, record s { collection = (get_ip_list s.users s.collection).1 })
  happens s (changes_info p info) = ok (true, record s { users = set_fake_my_info s.users p info })

  unfoldable pub all_happen : Hub → List Event → Run (List Bool × Hub)
  all_happen s [] = ok ([], s)
  all_happen s (e ∷ es) = do (b, s') ← happens s e; (bs, z) ← all_happen s' es; ok (b ∷ bs, z)

  -- The specification: a map from the hash of a nick to the user who came first with it.
  unfoldable pub spec_event : (ℕ → Bytes) → (ℕ → Option ℕ) → Event → Bool × (ℕ → Option ℕ)
  spec_event nicks f (joins none) = (false, f)
  spec_event nicks f (joins (some p)) =
      let h = nick_to_hash lower (nicks p) in
      (not (is_some (f h)), if is_some (f h) then f else update f h (some p))
  spec_event nicks f (leaves none) = (false, f)
  spec_event nicks f (leaves (some p)) =
      let h = nick_to_hash lower (nicks p) in (is_some (f h), update f h none)
  spec_event nicks f e = (true, f)

  unfoldable pub spec_events :
      (ℕ → Bytes) → (ℕ → Option ℕ) → List Event → List Bool × (ℕ → Option ℕ)
  spec_events nicks f [] = ([], f)
  spec_events nicks f (e ∷ es) =
      let r = spec_event nicks f e in let rest = spec_events nicks r.1 es in (r.0 ∷ rest.0, rest.1)
