-- ===== src/Plugins/Registry.antt =====
-- Loading and unloading in src/cpluginmanager.cpp, and the calls of src/ccallbacklist.cpp.
use verlihub.Base.{
  ℕ, Bool, true, false, not, ◌&&◌, Option, none, some, List, [], ◌∷◌, ◌++◌, Bytes, bytes, ◌==◌,
  ◌==ᵇ◌, if◌then◌else◌, ltb, length, drop, ◌-◌,
}
use verlihub.Run.{Run, fault, use_after_free, ok}
use verlihub.Plugins.{
  Node, get_from_map, add_to_map, remove_from_map, is_registered, Loader, Manager, Library,
  is_empty_text, key_of, unregister_all, register_each, delete_plugin, make_plugin,
}

module _ (name_of : ℕ → Bytes) where
  -- `LoadPlugin` behind the loader, with the plugin that it made.
  unfoldable pub add_plugin : Manager → Bytes → Library → Option ℕ → Bool × Manager
  add_plugin m file lib none = (false, record m { last_error = lib.error })
  add_plugin m file lib (some p) =
      let new = make_plugin p m in
      let r = add_to_map m.plugins (record { file = file; plugin = some p }) (key_of (name_of p)) in
      let done = register_each (record new { plugins = r.1; last_error = [] }) p lib.registers in
      if is_empty_text (name_of p)
      then (false, delete_plugin p (record new { last_error = bytes "Plugin name is empty." }))
      else if r.0
      then (if lib.throws then (false, delete_plugin p done) else (true, done))
      else (
        false,
        delete_plugin p (record new { last_error = bytes "Failed to add plugin to list." }),
      )

  unfoldable pub load_plugin : (Bytes → Library) → Manager → Bytes → Bool × Manager
  load_plugin libs m file =
      if (libs file).opens
      then add_plugin m file (libs file) (libs file).makes
      else (false, record m { last_error = (libs file).error })

-- `UnloadPlugin` with the plugin of the loader that the name finds.
unfoldable pub unload_found : Manager → ℕ → Bool → Option ℕ → Bool × Manager
unload_found m h remove none = (false, record m { plugins = (remove_from_map m.plugins h).1 })
unload_found m h remove (some p) =
    let freed = delete_plugin p (record m { callbacks = unregister_all p m.callbacks }) in
    let r = remove_from_map m.plugins h in
    if remove then (r.0, record freed { plugins = r.1 }) else (true, freed)

unfoldable pub unload_loader : Manager → ℕ → Bool → Option Loader → Bool × Manager
unload_loader m h remove none = (false, m)
unload_loader m h remove (some l) = unload_found m h remove l.plugin

unfoldable pub unload_plugin : Manager → Bytes → Bool → Bool × Manager
unload_plugin m name remove =
    unload_loader m (key_of name) remove (get_from_map m.plugins (key_of name))

unfoldable pub plugin_of : Option Loader → Option ℕ
plugin_of none = none
plugin_of (some l) = l.plugin

unfoldable pub get_plugin : Manager → Bytes → Option ℕ
get_plugin m name = plugin_of (get_from_map m.plugins (key_of name))

module _ (name_of : ℕ → Bytes) where
  unfoldable pub unload_one : Manager → Option ℕ → Manager
  unload_one m none = m
  unload_one m (some p) = (unload_plugin m (name_of p) true).1

  -- `UnLoadAll`: the list is read while its elements are removed from it.
  unfoldable pub unload_each : Manager → List (Node Loader) → Manager
  unload_each m [] = m
  unload_each m (n ∷ ns) = unload_each (unload_one m n.value.plugin) ns

  unfoldable pub unload_all : Manager → Manager
  unload_all m = unload_each m m.plugins

module _ (name_of : ℕ → Bytes) (libs : Bytes → Library) where
  unfoldable pub reload_loader : Manager → Bytes → Option Loader → Bool × Manager
  reload_loader m name none = (false, m)
  reload_loader m name (some l) =
      let r = unload_plugin m name true in
      if r.0 then load_plugin name_of libs r.1 l.file else (false, r.1)

  unfoldable pub reload_plugin : Manager → Bytes → Bool × Manager
  reload_plugin m name = reload_loader m name (get_from_map m.plugins (key_of name))

-- The constructor: a directory ends in a slash.
unfoldable pub plugin_dir : Bytes → Bytes
plugin_dir path =
    if ltb 0 (length path) && not (drop (length path - 1) path ==ᵇ bytes "/")
    then path ++ bytes "/"
    else path

unfoldable pub is_library : Bytes → Bool
is_library name = ltb 3 (length name) && (drop (length name - 3) name ==ᵇ bytes ".so")

module _ (name_of : ℕ → Bytes) (libs : Bytes → Library) (dir : Bytes) where
  unfoldable pub load_each : Manager → List Bytes → Manager
  load_each m [] = m
  load_each m (name ∷ names) =
      let loaded = load_each (load_plugin name_of libs m (dir ++ name)).1 names in
      let passed = load_each m names in if is_library name then loaded else passed

  -- With what `readdir` lists, or nothing if the directory does not open.
  unfoldable pub load_all : Manager → Option (List Bytes) → Bool × Manager
  load_all m none = (false, m)
  load_all m (some names) = (true, load_each m names)

unfoldable pub get_plugin_by_lib : List (Node Loader) → Bytes → Option ℕ
get_plugin_by_lib [] path = none
get_plugin_by_lib (n ∷ ns) path =
    let rest = get_plugin_by_lib ns path in if n.value.file ==ᵇ path then n.value.plugin else rest

-- `ListRegs`
unfoldable pub list_regs : (ℕ → Bytes) → Bytes → List ℕ → Bytes
list_regs name_of sep [] = []
list_regs name_of sep (p ∷ ps) = (name_of p ++ sep) ++ list_regs name_of sep ps

-- The outcome of `CallAll`: the answer, the plugins that were called, and the manager.
pub record Called : Type 0 where
  pub answer : Bool
  pub calls : List ℕ
  pub manager : Manager

unfoldable pub is_plugin : ℕ → Option ℕ → Bool
is_plugin p none = false
is_plugin p (some q) = q == p

unfoldable pub called : ℕ → Run Called → Run Called
called p (fault why) = fault why
called p (ok r) = ok (record r { calls = p ∷ r.calls })

-- The node of a plugin is in the list of the callback.
unfoldable pub has_node : ℕ → Option (List ℕ) → Bool
has_node p none = false
has_node p (some ps) = is_registered p ps

-- What the code of each plugin answers, and whether it is alive behind its call. The key `h` finds
-- the list of the callback, in which no plugin stands twice.
module _ (name_of : ℕ → Bytes) (answers stays_alive : ℕ → Bool) (h : ℕ) where
  -- `for_each` over the list, with the plugins that it has still to come to. A node that was erased
  -- before the loop comes to it is not visited. A plugin that is not alive is unloaded; if the node
  -- that the loop stands on is then not in the list any more, it was freed, and the loop reads the
  -- next node out of it.
  unfoldable pub call_from : Manager → Bool → List ℕ → Run Called
  call_from m acc [] = ok (record { answer = acc; calls = []; manager = m })
  call_from m acc (p ∷ ps) =
      let m' = (unload_plugin m (name_of p) true).1 in
      let skipped = call_from m acc ps in
      let alive = call_from m (acc && answers p) ps in
      let unloaded = call_from m' (acc && answers p) ps in
      if not (has_node p (get_from_map m.callbacks h))
      then skipped
      else if stays_alive p
      then called p alive
      else if has_node p (get_from_map m'.callbacks h)
      then called p unloaded
      else fault use_after_free

  unfoldable pub call_found : Manager → Option (List ℕ) → Run Called
  call_found m none = ok (record { answer = true; calls = []; manager = m })
  call_found m (some ps) = call_from m true ps

  unfoldable pub call_all : Manager → Run Called
  call_all m = call_found m (get_from_map m.callbacks h)
