-- ===== src/Users/Maker.antt =====
-- The cached lists of src/cusercollection.{h,cpp} and their makers, and the collection with its
-- operations on users.
use verlihub.Base.{
  ℕ, Bool, true, false, not, ◌&&◌, Option, none, some, List, [], ◌∷◌, ◌++◌, Bytes, bytes,
  if◌then◌else◌,
}
use verlihub.Run.{Run, ok, ◌>>=◌}
use mathlib.Core.List.{flatten}
use verlihub.HashArray.{
  Hook, on_add, on_remove, HashArray, add_with_hash, remove_by_hash, get_by_hash, contains_hash,
  auto_resize,
}
use verlihub.HashArray
use verlihub.HashArray.Chain.{Item}
use verlihub.Users.{Users, User, Connection, hash_string, nick_to_hash}

-- A cached text with its maker's start and separator, and the two flags `mKeep…` and
-- `mRemakeNext…` of it.
pub record ListCache : Type 0 where
  pub text : Bytes
  pub start : Bytes
  pub sep : Bytes
  pub keep : Bool
  pub remake : Bool

-- What `AppendList` puts before the separator.
unfoldable pub nick_entry : User → Bytes
nick_entry u = u.nick

unfoldable pub info_entry : User → Bytes
info_entry u = u.fake_my_info

-- Bots have no connection, and a local address.
unfoldable pub address_text : Option Connection → Bytes
address_text none = bytes " 127.0.0.1"
address_text (some c) = bytes " " ++ c.address

unfoldable pub address_entry : User → Bytes
address_entry u = u.nick ++ address_text u.connection

module _ (entry : User → Bytes) (users : Users) where
  unfoldable pub append_list : Bytes → Bytes → Option ℕ → Bytes
  append_list sep list none = list
  append_list sep list (some p) = (list ++ entry (users p)) ++ sep

  -- `for_each(begin(), end(), maker)` from a list on
  unfoldable pub append_all : Bytes → Bytes → List (Item ℕ) → Bytes
  append_all sep list [] = list
  append_all sep list (i ∷ is) = append_all sep (append_list sep list i.value) is

  -- `if (mRemakeNext… && mKeep…) { Clear(); for_each(…); mRemakeNext… = false; }`
  unfoldable pub current : List (Item ℕ) → ListCache → ListCache
  current items c =
      if c.remake && c.keep
      then record c { text = append_all c.sep c.start items; remake = false }
      else c

  -- `if (!mRemakeNext… && mKeep…) maker(user);`
  unfoldable pub grow : ℕ → ListCache → ListCache
  grow p c =
      if not c.remake && c.keep then record c { text = append_list c.sep c.text (some p) } else c

-- `mRemakeNext… = mKeep…`
unfoldable pub outdated : ListCache → ListCache
outdated c = record c { remake = c.keep }

pub record Collection : Type 0 where
  pub table : HashArray ℕ
  pub send_all : Bytes
  pub nicks : ListCache
  pub infos : ListCache
  pub addresses : ListCache

unfoldable pub new_collection : Bool → Bool → Bool → Collection
new_collection keep_nick keep_info keep_ip = record {
  table = HashArray.new 512;
  send_all = [];
  nicks = record { text = []; start = []; sep = []; keep = keep_nick; remake = true };
  infos = record { text = []; start = []; sep = bytes "|"; keep = keep_info; remake = true };
  addresses = record {
    text = [];
    start = bytes "$UserIP ";
    sep = bytes "$$";
    keep = keep_ip;
    remake = true;
  };
}

unfoldable pub set_nick_list_start : Bytes → Collection → Collection
set_nick_list_start start c = record c { nicks = record c.nicks { start = start } }

unfoldable pub set_nick_list_separator : Bytes → Collection → Collection
set_nick_list_separator sep c = record c { nicks = record c.nicks { sep = sep } }

-- The items in the order of the iterator.
abbrev pub items : Collection → List (Item ℕ)
items c = flatten c.table.buckets.cells

unfoldable pub on_add_user : Users → ℕ → Collection → Collection
on_add_user users p c = record c {
  nicks = grow nick_entry users p c.nicks;
  infos = grow info_entry users p c.infos;
  addresses = grow address_entry users p c.addresses;
}

unfoldable pub on_remove_user : Collection → Collection
on_remove_user c = record c {
  nicks = outdated c.nicks;
  infos = outdated c.infos;
  addresses = outdated c.addresses;
}

-- The virtual calls that the table has made, the first one last; each has its effect here.
unfoldable pub answer_hooks : Users → List (Hook ℕ) → Collection → Collection
answer_hooks users [] c = c
answer_hooks users (on_add p ∷ hs) c = on_add_user users p (answer_hooks users hs c)
answer_hooks users (on_remove p ∷ hs) c = on_remove_user (answer_hooks users hs c)

-- The collection behind a change of its table.
unfoldable pub with_table : Users → Collection → HashArray ℕ → Collection
with_table users c m = answer_hooks users m.hooks (record c { table = record m { hooks = [] } })

module _ (lower : ℕ → ℕ) (users : Users) where
  unfoldable pub add_user : Collection → Option ℕ → Run (Bool × Collection)
  add_user c none = ok (false, c)
  add_user c (some p) = do
    (b, m) ← add_with_hash c.table (some p) (nick_to_hash lower (users p).nick)
    ok (b, with_table users c m)

  unfoldable pub remove_user : Collection → Option ℕ → Run (Bool × Collection)
  remove_user c none = ok (false, c)
  remove_user c (some p) = do
    (b, m) ← remove_by_hash c.table (nick_to_hash lower (users p).nick)
    ok (b, with_table users c m)

  unfoldable pub get_user_by_nick : Collection → Bytes → Run (Option ℕ)
  get_user_by_nick c [] = ok none
  get_user_by_nick c (b ∷ nick) = get_by_hash c.table (nick_to_hash lower (b ∷ nick))

  unfoldable pub contains_nick : Collection → Bytes → Run Bool
  contains_nick c nick = contains_hash c.table (nick_to_hash lower nick)

unfoldable pub get_user_by_key : Collection → Bytes → Run (Option ℕ)
get_user_by_key c [] = ok none
get_user_by_key c (b ∷ key) = get_by_hash c.table (hash_string 0 (b ∷ key))

-- `AutoResize` of the inherited table
unfoldable pub auto_resize_users : Users → Collection → Run Collection
auto_resize_users users c = do m ← auto_resize c.table; ok (with_table users c m)

unfoldable pub get_nick_list : Users → Collection → Bytes × Collection
get_nick_list users c =
    let fresh = current nick_entry users (items c) c.nicks in
    (fresh.text, record c { nicks = fresh })

unfoldable pub get_info_list : Users → Collection → Bytes × Collection
get_info_list users c =
    let fresh = current info_entry users (items c) c.infos in
    (fresh.text, record c { infos = fresh })

unfoldable pub get_ip_list : Users → Collection → Bytes × Collection
get_ip_list users c =
    let fresh = current address_entry users (items c) c.addresses in
    (fresh.text, record c { addresses = fresh })
