-- ===== src/Plugins.antt =====
-- src/tchashlistmap.h, src/ccallbacklist.{h,cpp} and src/cpluginmanager.{h,cpp}: the plugins that
-- are loaded and the lists of those that a callback calls. A pointer to a plugin is a number. What
-- the shared library of a file and the code of a plugin do is a parameter; log lines are left out.
pub mod Registry
pub mod Sound
pub mod Steps
pub mod History
pub mod Calls
use verlihub.Base.{
  ℕ, Bool, true, false, not, ◌&&◌, Option, none, some, List, [], ◌∷◌, ◌++◌, Bytes, bytes, ◌==◌,
  if◌then◌else◌,
}
use verlihub.Run.{Run, fault, use_after_free, ok}
use verlihub.Users.{hash_string}

-- A node of the list with the key that the map finds it by.
pub record Node {ℓ} (D : Type ℓ) : Type ℓ where
  pub key : ℕ
  pub value : D

module _ {ℓ} {D : Type ℓ} where
  -- `tcHashListMap`: the list in the order of its iterator.
  unfoldable pub get_from_map : List (Node D) → ℕ → Option D
  get_from_map [] h = none
  get_from_map (n ∷ ns) h = if n.key == h then some n.value else get_from_map ns h

  unfoldable pub in_map : List (Node D) → ℕ → Bool
  in_map [] h = false
  in_map (n ∷ ns) h = if n.key == h then true else in_map ns h

  -- A new element stands at the front.
  unfoldable pub add_to_map : List (Node D) → D → ℕ → Bool × List (Node D)
  add_to_map ns d h =
      if in_map ns h then (false, ns) else (true, record { key = h; value = d } ∷ ns)

  unfoldable pub erase_key : List (Node D) → ℕ → List (Node D)
  erase_key [] h = []
  erase_key (n ∷ ns) h = let rest = erase_key ns h in if n.key == h then ns else n ∷ rest

  unfoldable pub remove_from_map : List (Node D) → ℕ → Bool × List (Node D)
  remove_from_map ns h = (in_map ns h, erase_key ns h)

-- `find(mPlugList.begin(), mPlugList.end(), plug) != mPlugList.end()`
unfoldable pub is_registered : ℕ → List ℕ → Bool
is_registered p [] = false
is_registered p (q ∷ qs) = let rest = is_registered p qs in if q == p then true else rest

unfoldable pub register : List ℕ → Option ℕ → Bool × List ℕ
register qs none = (false, qs)
register qs (some p) = if is_registered p qs then (false, qs) else (true, qs ++ p ∷ [])

unfoldable pub erase_plugin : ℕ → List ℕ → List ℕ
erase_plugin p [] = []
erase_plugin p (q ∷ qs) = let rest = erase_plugin p qs in if q == p then qs else q ∷ rest

unfoldable pub unregister : List ℕ → Option ℕ → Bool × List ℕ
unregister qs none = (false, qs)
unregister qs (some p) = if is_registered p qs then (true, erase_plugin p qs) else (false, qs)

-- `cPluginLoader`
pub record Loader : Type 0 where
  pub file : Bytes
  pub plugin : Option ℕ

pub record Manager : Type 0 where
  pub plugins : List (Node Loader)
  pub callbacks : List (Node (List ℕ))
  pub last_error : Bytes
  -- The plugins that were deleted, as far as no new one has their address.
  pub freed : List ℕ

-- What a shared library does when it is loaded: whether it opens, the plugin that its functions
-- make, the callbacks that `RegisterAll` asks for, whether that or `OnPluginLoad` throws, and the
-- error text of the loader.
pub record Library : Type 0 where
  pub opens : Bool
  pub makes : Option ℕ
  pub registers : List Bytes
  pub throws : Bool
  pub error : Bytes

unfoldable pub is_empty_text : Bytes → Bool
is_empty_text [] = true
is_empty_text (c ∷ s) = false

abbrev pub key_of : Bytes → ℕ
key_of id = hash_string 0 id

-- A callback list that was just made holds no plugin.
unfoldable pub set_callback : Manager → Bytes → Bool × Manager
set_callback m id =
    let r = add_to_map m.callbacks [] (key_of id) in
    if is_empty_text id then (false, m) else (r.0, record m { callbacks = r.1 })

-- The list of one callback is changed through its pointer.
unfoldable pub change_list : List (Node (List ℕ)) → ℕ → List ℕ → List (Node (List ℕ))
change_list [] h qs = []
change_list (n ∷ ns) h qs =
    let rest = change_list ns h qs in if n.key == h then record n { value = qs } ∷ ns else n ∷ rest

unfoldable pub register_in : Manager → ℕ → Option ℕ → Option (List ℕ) → Bool × Manager
register_in m h p none = (false, m)
register_in m h p (some qs) =
    let r = register qs p in (r.0, record m { callbacks = change_list m.callbacks h r.1 })

unfoldable pub register_callback : Manager → Bytes → Option ℕ → Bool × Manager
register_callback m id p = register_in m (key_of id) p (get_from_map m.callbacks (key_of id))

unfoldable pub unregister_in : Manager → ℕ → Option ℕ → Option (List ℕ) → Bool × Manager
unregister_in m h p none = (false, m)
unregister_in m h p (some qs) =
    let r = unregister qs p in (r.0, record m { callbacks = change_list m.callbacks h r.1 })

unfoldable pub unregister_callback : Manager → Bytes → Option ℕ → Bool × Manager
unregister_callback m id p = unregister_in m (key_of id) p (get_from_map m.callbacks (key_of id))

-- The loop of `UnloadPlugin` over the callbacks.
unfoldable pub unregister_all : ℕ → List (Node (List ℕ)) → List (Node (List ℕ))
unregister_all p [] = []
unregister_all p (n ∷ ns) =
    record n { value = (unregister n.value (some p)).1 } ∷ unregister_all p ns

-- `cPluginBase::RegisterCallBack` for each name that the plugin asks for.
unfoldable pub register_each : Manager → ℕ → List Bytes → Manager
register_each m p [] = m
register_each m p (id ∷ ids) = register_each (register_callback m id (some p)).1 p ids

-- `delete plugin`, and a new plugin at an address.
unfoldable pub delete_plugin : ℕ → Manager → Manager
delete_plugin p m = record m { freed = p ∷ m.freed }

unfoldable pub all_but : ℕ → List ℕ → List ℕ
all_but p [] = []
all_but p (q ∷ qs) = let rest = all_but p qs in if q == p then rest else q ∷ rest

unfoldable pub make_plugin : ℕ → Manager → Manager
make_plugin p m = record m { freed = all_but p m.freed }
