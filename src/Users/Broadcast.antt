-- ===== src/Users/Broadcast.antt =====
-- The calls of src/cusercollection.cpp that send to all users of a collection.
use verlihub.Base.{
  ℕ, Bool, true, false, not, ◌&&◌, Option, none, some, List, [], ◌∷◌, ◌++◌, ◌-◌, ℤ, lt_int, Bytes,
  bytes, if◌then◌else◌, length, take,
}
use verlihub.HashArray.Chain.{Item}
use verlihub.Users.{Users, User, can_send, has_feature, get_my_flag}
use verlihub.Users.Maker.{Collection, items}

-- One call of `cUser::Send`.
pub record Sent : Type 0 where
  pub to : ℕ
  pub text : Bytes
  pub pipe : Bool
  pub flush : Bool

-- The tests of the function objects, behind that of the pointer.
unfoldable pub to_any : User → Bool
to_any u = can_send u

unfoldable pub to_class : ℤ → ℤ → User → Bool
to_class least most u =
    can_send u && not (lt_int most u.user_class) && not (lt_int u.user_class least)

unfoldable pub to_feature : ℕ → User → Bool
to_feature feature u = can_send u && has_feature feature u

unfoldable pub to_my_flag : ℕ → User → Bool
to_my_flag flag u = can_send u && get_my_flag flag u

unfoldable pub to_no_my_flag : ℕ → User → Bool
to_no_my_flag flag u = can_send u && not (get_my_flag flag u)

unfoldable pub to_class_feature : ℤ → ℤ → ℕ → User → Bool
to_class_feature least most feature u =
    can_send u
    && not (lt_int most u.user_class)
    && not (lt_int u.user_class least)
    && has_feature feature u

module _ (users : Users) (wanted : User → Bool) (make : ℕ → Sent) where
  -- One function object on one pointer.
  unfoldable pub send_one : Option ℕ → List Sent
  send_one none = []
  send_one (some p) = if wanted (users p) then make p ∷ [] else []

  -- `for_each(begin(), end(), …)`
  unfoldable pub send_each : List (Item ℕ) → List Sent
  send_each [] = []
  send_each (i ∷ is) = send_one i.value ++ send_each is

-- `data` as the call leaves it, what was sent, and the collection.
pub record Broadcast : Type 0 where
  pub data_left : Bytes
  pub sent : List Sent
  pub after : Collection

-- `AppendPipe`: the destination and the data.
unfoldable pub append_pipe : Bytes → Bytes → Bool → Bytes × Bytes
append_pipe dest msg pipe =
    let longer = (if pipe then msg ++ bytes "|" else msg) in (dest ++ longer, longer)

-- `data.erase(data.size() - 1, 1)`
unfoldable pub erase_last : Bytes → Bytes
erase_last s = take (length s - 1) s

-- What the `SendToAll` calls share; they differ in the test.
unfoldable pub send_cached :
    (User → Bool) → Users → Collection → Bytes → (cache : Bool) (pipe : Bool) → Broadcast
send_cached wanted users c msg cache pipe =
    let r = append_pipe c.send_all msg pipe in
    record {
      data_left = (if pipe then erase_last r.1 else r.1);
      sent =
          send_each users wanted
            (λ p. record { to = p; text = r.0; pipe = false; flush = not cache }) (items c);
      after = record c { send_all = [] };
    }

unfoldable pub send_to_all : Users → Collection → Bytes → Bool → Bool → Broadcast
send_to_all users = send_cached to_any users

unfoldable pub send_to_all_with_class : Users → Collection → Bytes → ℤ → ℤ → Bool → Bool → Broadcast
send_to_all_with_class users c msg least most = send_cached (to_class least most) users c msg

unfoldable pub send_to_all_with_feature : Users → Collection → Bytes → ℕ → Bool → Bool → Broadcast
send_to_all_with_feature users c msg feature = send_cached (to_feature feature) users c msg

unfoldable pub send_to_all_with_my_flag : Users → Collection → Bytes → ℕ → Bool → Bool → Broadcast
send_to_all_with_my_flag users c msg flag = send_cached (to_my_flag flag) users c msg

unfoldable pub send_to_all_without_my_flag :
    Users → Collection → Bytes → ℕ → Bool → Bool → Broadcast
send_to_all_without_my_flag users c msg flag = send_cached (to_no_my_flag flag) users c msg

unfoldable pub send_to_all_with_class_feature :
    Users → Collection → Bytes → ℤ → ℤ → ℕ → Bool → Bool → Broadcast
send_to_all_with_class_feature users c msg least most feature =
    send_cached (to_class_feature least most feature) users c msg

-- Every receiver's own nick stands between the two texts.
unfoldable pub send_to_all_with_nick : Users → Collection → Bytes → Bytes → List Sent
send_to_all_with_nick users c start end =
    send_each users can_send
      (λ p. record { to = p; text = (start ++ (users p).nick) ++ end; pipe = true; flush = true })
      (items c)

-- `SendToAll(mSendAllCache, false, false)`: the data is the cache itself.
unfoldable pub flush_cache : Users → Collection → Broadcast
flush_cache users c = record (send_cached to_any users c c.send_all false false) { data_left = [] }

-- The audience of a message to all.
pub data Audience : Type 0 where
  everyone : Audience
  in_class : ℤ → ℤ → Audience
  with_feature : ℕ → Audience
  with_my_flag : ℕ → Audience
  without_my_flag : ℕ → Audience
  in_class_with_feature : ℤ → ℤ → ℕ → Audience

unfoldable pub send_to : Audience → Users → Collection → Bytes → Bool → Bool → Broadcast
send_to everyone users c msg = send_to_all users c msg
send_to (in_class least most) users c msg = send_to_all_with_class users c msg least most
send_to (with_feature feature) users c msg = send_to_all_with_feature users c msg feature
send_to (with_my_flag flag) users c msg = send_to_all_with_my_flag users c msg flag
send_to (without_my_flag flag) users c msg = send_to_all_without_my_flag users c msg flag
send_to (in_class_with_feature least most feature) users c msg =
    send_to_all_with_class_feature users c msg least most feature
