-- ===== src/Plugins/History.antt =====
-- Any history of the plugin manager.
use verlihub.Base.{
  ℕ, ◌≡◌, refl, sym, arith, Bool, true, false, not, ◌&&◌, Option, none, some, List, [], ◌∷◌, inl,
  inr, if◌then◌else◌, Bool-cases, subst, Bytes,
}
use verlihub.Plugins.{
  get_from_map, Loader, Manager, Library, key_of, set_callback, register_callback,
  unregister_callback,
}
use verlihub.Plugins.Steps.{
  IsSound, set_callback-IsSound, register_in-IsSound, unregister_in-IsSound, add_plugin-IsSound,
  unload_plugin-IsSound, unload_each-IsSound,
}
use verlihub.Plugins.Registry.{
  add_plugin, load_plugin, unload_plugin, unload_all, reload_loader, reload_plugin,
}
use verlihub.Plugins.Sound.{is_loaded, is_live, AllFine}

pub data Event : Type 0 where
  makes_list : Bytes → Event
  registers : Bytes → ℕ → Event
  unregisters : Bytes → ℕ → Event
  loads : Bytes → Event
  unloads : Bytes → Event
  reloads : Bytes → Event
  unloads_all : Event

unfoldable pub new_manager : Manager
new_manager = record { plugins = []; callbacks = []; last_error = []; freed = [] }

-- A plugin that a library makes is at no address that a loader holds.
unfoldable pub is_new : Manager → Option ℕ → Bool
is_new m none = true
is_new m (some p) = not (is_loaded p m.plugins)

module _ (name_of : ℕ → Bytes) (libs : Bytes → Library) where
  -- The library of the file throws nothing, and makes a new plugin.
  abbrev pub may_load : Manager → Bytes → Bool
  may_load m file = not (libs file).throws && is_new m (libs file).makes

  load_made-IsSound :
      (m : Manager) (file : Bytes) (made : Option ℕ)
      → is_new m made ≡ true
      → (libs file).throws ≡ false
      → IsSound m
      → IsSound (add_plugin name_of m file (libs file) made).1
  unfolding is_new add_plugin is_live
  load_made-IsSound m file none new calm s = record { fine = s.fine }
  load_made-IsSound m file (some p) new calm s =
      add_plugin-IsSound name_of m file (libs file) p (ground arith) calm s

  abbrev loaded_if : Manager → Bytes → Bool → Bool × Manager
  loaded_if m file b =
      if b
      then add_plugin name_of m file (libs file) (libs file).makes
      else (false, record m { last_error = (libs file).error })

  load_plugin-IsSound :
      (m : Manager) (file : Bytes)
      → may_load m file ≡ true
      → IsSound m
      → IsSound (load_plugin name_of libs m file).1
  unfolding load_plugin is_live
  load_plugin-IsSound m file may s = elim (Bool-cases (libs file).opens) [
    | inl opens ↦
        subst (λ b. IsSound (loaded_if m file b).1) (sym opens)
          (load_made-IsSound m file (libs file).makes (ground arith) (ground arith) s)
    | inr shut ↦ subst (λ b. IsSound (loaded_if m file b).1) (sym shut) (record { fine = s.fine })
  ]

  unfoldable pub may_reload : Manager → Bytes → Option Loader → Bool
  may_reload m name none = true
  may_reload m name (some l) = may_load (unload_plugin m name true).1 l.file

  reload_loader-IsSound :
      (m : Manager) (name : Bytes) (o : Option Loader)
      → may_reload m name o ≡ true
      → IsSound m
      → IsSound (reload_loader name_of libs m name o).1
  unfolding reload_loader may_reload
  reload_loader-IsSound m name none may s = s
  reload_loader-IsSound m name (some l) may s =
      let gone = unload_plugin-IsSound m name s in
      elim (Bool-cases (unload_plugin m name true).0) [
        | inl yes_gone ↦ rw yes_gone (load_plugin-IsSound _ l.file may gone)
        | inr kept ↦ rw kept gone
      ]

  unfoldable pub happens : Manager → Event → Bool × Manager
  happens m (makes_list id) = set_callback m id
  happens m (registers id p) = register_callback m id (some p)
  happens m (unregisters id p) = unregister_callback m id (some p)
  happens m (loads file) = load_plugin name_of libs m file
  happens m (unloads name) = unload_plugin m name true
  happens m (reloads name) = reload_plugin name_of libs m name
  happens m unloads_all = (true, unload_all name_of m)

  -- A plugin registers itself while it is live; what is loaded throws nothing and is new.
  unfoldable pub may_happen : Manager → Event → Bool
  may_happen m (makes_list id) = true
  may_happen m (registers id p) = is_live m p
  may_happen m (unregisters id p) = true
  may_happen m (loads file) = may_load m file
  may_happen m (unloads name) = true
  may_happen m (reloads name) = may_reload m name (get_from_map m.plugins (key_of name))
  may_happen m unloads_all = true

  unfoldable pub all_happen : Manager → List Event → Manager
  all_happen m [] = m
  all_happen m (e ∷ es) = all_happen (happens m e).1 es

  unfoldable pub all_may_happen : Manager → List Event → Bool
  all_may_happen m [] = true
  all_may_happen m (e ∷ es) = may_happen m e && all_may_happen (happens m e).1 es

  happens-IsSound :
      (m : Manager) (e : Event) → may_happen m e ≡ true → IsSound m → IsSound (happens m e).1
  unfolding happens may_happen register_callback unregister_callback reload_plugin unload_all
  happens-IsSound m (makes_list id) may s = set_callback-IsSound m id s
  happens-IsSound m (registers id p) may s = register_in-IsSound m (key_of id) p _ refl may s
  happens-IsSound m (unregisters id p) may s = unregister_in-IsSound m (key_of id) p _ refl s
  happens-IsSound m (loads file) may s = load_plugin-IsSound m file may s
  happens-IsSound m (unloads name) may s = unload_plugin-IsSound m name s
  happens-IsSound m (reloads name) may s = reload_loader-IsSound m name _ may s
  happens-IsSound m unloads_all may s = unload_each-IsSound name_of m.plugins m s

  all_happen-IsSound :
      (es : List Event) (m : Manager)
      → all_may_happen m es ≡ true
      → IsSound m
      → IsSound (all_happen m es)
  unfolding all_happen all_may_happen
  all_happen-IsSound [] m may s = s
  all_happen-IsSound (e ∷ es) m may s =
      all_happen-IsSound es (happens m e).1 (ground arith) (happens-IsSound m e (ground arith) s)

  -- From a new manager on, callbacks are made and plugins loaded, unloaded, reloaded, registered and
  -- unregistered in any order, where only live plugins register themselves, and what is loaded throws
  -- nothing and stands at a new address. Then no list of a callback ever holds a plugin twice, or one
  -- that was deleted or that no loader holds.
  pub all_happen-new :
      (es : List Event) → all_may_happen new_manager es ≡ true → IsSound (all_happen new_manager es)
  unfolding new_manager AllFine
  all_happen-new es may = all_happen-IsSound es new_manager may (record { fine = tt })
