-- ===== src/Tests/PluginLists.antt =====
-- Two plugins, one of which throws when it is loaded.
use verlihub.Base.{
  ◌≤◌, ℕ, ◌≡◌, refl, arith, sym, subst, inl, inr, ◌⊎◌, ℕ_discrete, Bool, true, false, Option, some,
  List, [], ◌∷◌, Bytes, map, bytes, ◌==◌, ◌==ᵇ◌, take, drop, if◌then◌else◌,
}
use verlihub.Run.{ok, fault, use_after_free}
use verlihub.Users.{hash_string, signed_char}
use verlihub.Plugins.{
  Node, Loader, get_from_map, in_map, add_to_map, erase_key, remove_from_map, is_registered,
  register, erase_plugin, unregister, Manager, Library, is_empty_text, key_of, set_callback,
  change_list, register_in, register_callback, unregister_in, unregister_callback, unregister_all,
  register_each, delete_plugin, all_but, make_plugin,
}
use verlihub.Plugins.Registry.{
  add_plugin, load_plugin, unload_found, unload_loader, unload_plugin, plugin_of, get_plugin,
  unload_one, unload_each, unload_all, reload_loader, reload_plugin, is_plugin, called, call_from,
  call_found, call_all, has_node, plugin_dir, is_library, load_each, load_all, get_plugin_by_lib,
  list_regs,
}
use verlihub.Plugins.Sound.{times, is_loaded, is_live}
use verlihub.Plugins.Steps.{IsSound}
use verlihub.Plugins.History.{
  Event, makes_list, registers, unregisters, loads, unloads, reloads, unloads_all, new_manager,
  is_new, may_reload, happens, may_happen, all_happen, all_may_happen, all_happen-new,
}
use verlihub.Plugins.Calls.{all_of, call_all-outcome, load_plugin-throws, register-unregister}

plugins : Unit {0}
unfolding hash_string signed_char ◌==ᵇ◌ get_from_map in_map add_to_map erase_key remove_from_map
    is_registered register erase_plugin unregister is_empty_text set_callback change_list
    register_in register_callback unregister_in unregister_callback unregister_all register_each
    delete_plugin all_but make_plugin add_plugin load_plugin unload_found unload_loader
    unload_plugin plugin_of get_plugin unload_one unload_each unload_all reload_loader reload_plugin
    is_plugin has_node called call_from call_found call_all is_loaded is_live new_manager is_new
    may_reload happens may_happen all_happen all_may_happen all_of plugin_dir is_library load_each
    load_all get_plugin_by_lib list_regs take drop
plugins = tt

abbrev name_of : ℕ → Bytes
name_of p = if p == 1 then bytes "lua" else if p == 2 then bytes "iplog" else bytes "bad"

abbrev chat : Bytes
chat = bytes "OnChat"

abbrev library : Option ℕ → Bool → Library
library made throws = record {
  opens = true;
  makes = made;
  registers = chat ∷ [];
  throws = throws;
  error = [];
}

abbrev libs : Bytes → Library
libs file =
    if file ==ᵇ bytes "lua.so"
    then library (some 1) false
    else if file ==ᵇ bytes "iplog.so"
    then library (some 2) false
    else library (some 3) true

abbrev early : List Event
early =
    makes_list chat
    ∷ loads (bytes "lua.so")
    ∷ loads (bytes "iplog.so")
    ∷ registers chat 1
    ∷ unregisters chat 2
    ∷ registers chat 2
    ∷ reloads (bytes "lua")
    ∷ []

abbrev morning : Manager
morning = all_happen name_of libs new_manager early

early-may : all_may_happen name_of libs new_manager early ≡ true
unfolding plugins
early-may = refl

morning_list : get_from_map morning.callbacks (key_of chat) ≡ some (2 ∷ 1 ∷ [])
unfolding plugins
morning_list = refl

all_happen-new_example : IsSound (all_happen name_of libs new_manager early)
all_happen-new_example = all_happen-new name_of libs early early-may

unloaded :
    get_from_map
      (all_happen name_of libs morning (unloads (bytes "iplog") ∷ [])).callbacks
      (key_of chat)
    ≡ some (1 ∷ [])
unfolding plugins
unloaded = refl

none_left : (all_happen name_of libs morning (unloads_all ∷ [])).plugins ≡ []
unfolding plugins
none_left = refl

two_or_one : (p : ℕ) → is_registered p (2 ∷ 1 ∷ []) ≡ true → (p ≡ 1) ⊎ (p ≡ 2)
unfolding is_registered
two_or_one p e = elim (ℕ_discrete p 1) [
  | yes one ↦ inl one
  | no other ↦ inr (ground (arith, e, other))
]

found : (p : ℕ) → (p ≡ 1) ⊎ (p ≡ 2) → get_plugin morning (name_of p) ≡ some p
unfolding plugins
found p (inl e) = subst (λ q. get_plugin morning (name_of q) ≡ some q) (sym e) refl
found p (inr e) = subst (λ q. get_plugin morning (name_of q) ≡ some q) (sym e) refl

each_once : (p : ℕ) → times p (2 ∷ 1 ∷ []) ≤ 1
unfolding times
each_once p = ground arith

-- Both are called, although the second one answers false.
call_all-outcome_example : call_all name_of (λ p. p == 2) (λ p. true) (key_of chat) morning ≡ (
    if all_of (λ p. true) (2 ∷ 1 ∷ [])
    then ok (record {
      answer = all_of (λ p. p == 2) (2 ∷ 1 ∷ []);
      calls = 2 ∷ 1 ∷ [];
      manager = morning;
    })
    else fault use_after_free)
call_all-outcome_example =
    call_all-outcome name_of (λ p. p == 2) (λ p. true) (key_of chat) morning (2 ∷ 1 ∷ [])
      morning_list each_once (λ p e. found p (two_or_one p e))

dead_plugin :
    call_all name_of (λ p. true) (λ p. p == 1) (key_of chat) morning ≡ fault use_after_free
unfolding plugins
dead_plugin = refl

abbrev failed : Bool × Manager
failed = load_plugin name_of libs morning (bytes "bad.so")

bad-unnamed : is_empty_text (name_of 3) ≡ false
unfolding plugins
bad-unnamed = refl

bad-free : in_map morning.plugins (key_of (name_of 3)) ≡ false
unfolding plugins
bad-free = refl

bad-throws :
    ((libs (bytes "bad.so")).opens ≡ true)
    × ((libs (bytes "bad.so")).makes ≡ some 3)
    × ((libs (bytes "bad.so")).throws ≡ true)
unfolding plugins
bad-throws = (refl, refl, refl)

load_plugin-throws_example :
    (failed.0 ≡ false) × (get_plugin failed.1 (name_of 3) ≡ some 3) × (is_live failed.1 3 ≡ false)
load_plugin-throws_example =
    load_plugin-throws name_of libs morning (bytes "bad.so") 3 bad-throws.0 bad-throws.1
      bad-throws.2 bad-unnamed bad-free

not_there : is_registered 3 (1 ∷ 2 ∷ []) ≡ false
unfolding is_registered
not_there = refl

register-unregister_example :
    let r = register (1 ∷ 2 ∷ []) (some 3) in
    (r.0 ≡ true)
    × (register r.1 (some 3) ≡ (false, r.1))
    × (unregister r.1 (some 3) ≡ (true, 1 ∷ 2 ∷ []))
register-unregister_example = register-unregister 3 (1 ∷ 2 ∷ []) not_there

all_loaded :
    map
      (λ (n : Node Loader). n.value.file)
      (load_all name_of libs [] new_manager
        (some (bytes "." ∷ bytes "lua.so" ∷ bytes "lua.txt" ∷ bytes "iplog.so" ∷ []))).1.plugins
    ≡ bytes "iplog.so" ∷ bytes "lua.so" ∷ []
unfolding plugins
all_loaded = refl

found_by_lib : get_plugin_by_lib morning.plugins (bytes "iplog.so") ≡ some 2
unfolding plugins
found_by_lib = refl

listed_names : list_regs name_of (bytes " ") (2 ∷ 1 ∷ []) ≡ bytes "iplog lua "
unfolding plugins
listed_names = refl

slash_added : plugin_dir (bytes "plugins") ≡ bytes "plugins/"
unfolding plugins
slash_added = refl
