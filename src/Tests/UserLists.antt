-- ===== src/Tests/UserLists.antt =====
-- A collection of three users.
use mathlib.Core.List.{flatten}
use verlihub.Base.{
  ℕ, ◌+◌, ◌≡◌, refl, arith, true, ◌&&◌, none, some, List, [], ◌∷◌, pos, map, Bytes, bytes, leb,
  if◌then◌else◌, replicate, get_or, get_elem?, set, take,
}
use verlihub.Run.{Run, ok, ◌>>=◌, modulo, at, or_out_of_range, Returns}
use verlihub.HashArray.Chain.{find, add_data, delete_hash}
use verlihub.HashArray.{
  unique_new, unique_slot, unique_get, unique_insert, unique_update, new, counted, added_unless,
  write_chain, add_to_chain, add_with_hash, is_some, removed, remove_from_chain, remove_by_hash,
  move_items, move_buckets, resize, auto_resize, get_by_hash,
}
use verlihub.Users.{
  User, Users, bit_and, is_connected, can_send, connection_has, has_feature, get_my_flag,
  signed_char, hash_string, nick_to_key, nick_to_hash,
}
use verlihub.Users.Maker.{
  nick_entry, info_entry, address_text, address_entry, append_list, append_all, current, grow,
  outdated, new_collection, set_nick_list_start, set_nick_list_separator, on_add_user,
  on_remove_user, answer_hooks, with_table, add_user, remove_user, auto_resize_users, get_nick_list,
  get_info_list, get_ip_list, get_user_by_nick,
}
use verlihub.Users.Broadcast.{
  with_feature, to_any, to_feature, send_one, send_each, append_pipe, erase_last, send_cached,
  send_to_all, send_to_all_with_feature, send_to,
}
use verlihub.Users.Listing.{Shown}
use verlihub.Users.History.{
  Event, joins, resizes, asks_nicks, asks_infos, changes_info, Hub, set_fake_my_info, answered,
  happens, all_happen, spec_events,
}
use verlihub.Users.Answers.{keeps_info, all_keep_info}
use verlihub.Users.Listed.{new_hub, nicks_of, all_happen-nick_list, all_happen-info_list}
use verlihub.Users.Received.{meets, Delivers, send_to-receivers}

lists : Unit {0}
unfolding flatten replicate get_or get_elem? set take modulo at or_out_of_range find add_data
    delete_hash unique_new unique_slot unique_get unique_insert unique_update new counted
    added_unless write_chain add_to_chain add_with_hash is_some removed remove_from_chain
    remove_by_hash move_items move_buckets resize auto_resize get_by_hash bit_and is_connected
    can_send connection_has has_feature get_my_flag signed_char hash_string nick_to_key nick_to_hash
    nick_entry info_entry address_text address_entry append_list append_all current grow outdated
    new_collection set_nick_list_start set_nick_list_separator on_add_user on_remove_user
    answer_hooks with_table add_user remove_user auto_resize_users get_nick_list get_info_list
    get_ip_list get_user_by_nick to_any to_feature send_one send_each append_pipe erase_last
    send_cached send_to_all send_to_all_with_feature send_to set_fake_my_info answered happens
    all_happen keeps_info all_keep_info new_hub
lists = tt

abbrev ascii_lower : ℕ → ℕ
ascii_lower c = if leb 65 c && leb c 90 then c + 32 else c

abbrev person : Bytes → ℕ → User
person nick features = record {
  nick = nick;
  fake_my_info = nick;
  user_class = pos 1;
  in_list = true;
  my_flag = 1;
  connection = some (record { features = features; address = bytes "10.0.0.1"; is_open = true });
}

abbrev robot : User
robot = record {
  nick = bytes "Security";
  fake_my_info = bytes "$ALL Security";
  user_class = pos 10;
  in_list = true;
  my_flag = 1;
  connection = none;
}

abbrev people : Users
people p =
    if leb p 1 then person (bytes "Ann") 3 else if leb p 2 then person (bytes "bob") 4 else robot

-- A second user with the nick of the first one is refused.
abbrev evening : List Event
evening =
    joins (some 2)
    ∷ asks_nicks
    ∷ joins (some 3)
    ∷ joins (some 1)
    ∷ joins (some 0)
    ∷ joins none
    ∷ resizes
    ∷ []

abbrev start : Bytes
start = bytes "$NickList "

abbrev after_evening : {B : Type 0} → (Hub → B) → Run B
after_evening ask =
    all_happen ascii_lower (new_hub people start (bytes "$$")) evening >>= (λ r. ok (ask r.1))

evening_nicks :
    after_evening (λ s. (get_nick_list s.users s.collection).0)
    ≡ ok (bytes "$NickList bob$$Security$$Ann$$")
unfolding lists
evening_nicks = refl

evening_addresses :
    after_evening (λ s. (get_ip_list s.users s.collection).0)
    ≡ ok (bytes "$UserIP Security 127.0.0.1$$Ann 10.0.0.1$$bob 10.0.0.1$$")
unfolding lists
evening_addresses = refl

-- A MyINFO that a user sends again is not in the list that was made before.
outdated_infos :
    all_happen ascii_lower
        (new_hub people start (bytes "$$"))
        (joins (some 1) ∷ asks_infos ∷ changes_info 1 (bytes "new") ∷ [])
      >>= (λ r. ok ((get_info_list r.1.users r.1.collection).0))
    ≡ ok (bytes "Ann|")
unfolding lists
outdated_infos = refl

to_feature_four :
    after_evening (λ s.
      map
        (λ m. m.to ∷ m.text)
        (send_to (with_feature 4) s.users s.collection (bytes "hi") true true).sent)
    ≡ ok ((2 ∷ bytes "hi|") ∷ [])
unfolding lists
to_feature_four = refl

all_happen-nick_list_example :
    Returns (all_happen ascii_lower (new_hub people start (bytes "$$")) evening) λ r.
      let spec = spec_events ascii_lower (nicks_of people) (λ q. none) evening in
      let s = r.1.users in
      let c = r.1.collection in
      (r.0 ≡ spec.0)
      × Shown nick_entry start (bytes "$$") s spec.1 (get_nick_list s c).0
      × Shown address_entry (bytes "$UserIP ") (bytes "$$") s spec.1 (get_ip_list s c).0
all_happen-nick_list_example =
    all_happen-nick_list ascii_lower start (bytes "$$") people evening (omega arith)

evening_quiet : all_keep_info evening ≡ true
unfolding lists
evening_quiet = refl

all_happen-info_list_example :
    Returns (all_happen ascii_lower (new_hub people start (bytes "$$")) evening) λ r.
      Shown info_entry []
        (bytes "|")
        r.1.users
        (spec_events ascii_lower (nicks_of people) (λ q. none) evening).1
        (get_info_list r.1.users r.1.collection).0
all_happen-info_list_example =
    all_happen-info_list ascii_lower start (bytes "$$") people evening (omega arith) evening_quiet

send_to-receivers_example :
    Returns (all_happen ascii_lower (new_hub people start (bytes "$$")) evening) λ r.
      Delivers ascii_lower
        (nicks_of people)
        r.1.users
        (spec_events ascii_lower (nicks_of people) (λ q. none) evening).1
        r.1.collection
        (λ u. can_send u && meets (with_feature 4) u)
        (bytes "hi")
        true
        true
        (send_to (with_feature 4) r.1.users r.1.collection (bytes "hi") true true)
send_to-receivers_example =
    send_to-receivers ascii_lower start (bytes "$$") people evening (with_feature 4) (bytes "hi")
      true true (omega arith)
