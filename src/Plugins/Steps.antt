-- ===== src/Plugins/Steps.antt =====
-- What every operation of the plugin manager keeps.
use verlihub.Base.{
  ℕ, ◌≡◌, refl, ap, ◌∙◌, arith, true, false, Option, none, some, List, [], ◌∷◌, inl, inr,
  Bool-cases, ◌==◌, ==_refl, ℕ_discrete, Bytes,
}
use verlihub.Plugins.{
  Node, get_from_map, in_map, add_to_map, remove_from_map, register, unregister, Loader, Manager,
  Library, is_empty_text, key_of, set_callback, register_in, register_callback, unregister_in,
  register_each, is_registered, delete_plugin, make_plugin,
}
use verlihub.Plugins.Registry.{
  add_plugin, is_plugin, unload_found, unload_loader, unload_plugin, unload_one, unload_each,
}
use verlihub.Plugins.Sound.{
  times, is_loaded, is_live, registered-all_but, registered-all_but_self, is_plugin-none, AllFine,
  register-Fine, unregister-Fine, get-Fine, change_list-Fine, more-AllFine, unregister_all-AllFine,
  is_plugin-other, is_loaded-erase_key, is_loaded-add,
}

-- No list of a callback holds a plugin twice, or one that no loader holds or that was deleted.
pub record IsSound (m : Manager) : Type 0 where
  pub fine : AllFine (is_live m) m.callbacks

live-loaded : (m : Manager) (q : ℕ) → is_live m q ≡ true → is_loaded q m.plugins ≡ true
unfolding is_live
live-loaded m q e = ground arith

live-kept : (m : Manager) (q : ℕ) → is_live m q ≡ true → is_registered q m.freed ≡ false
unfolding is_live
live-kept m q e = ground arith

other_plugin :
    (m : Manager) (p q : ℕ) → is_loaded p m.plugins ≡ false → is_live m q ≡ true → (p == q) ≡ false
other_plugin m p q fresh e = elim (ℕ_discrete p q) [
  | yes same ↦
      let loaded : is_loaded p m.plugins ≡ true = rw same (live-loaded m q e) in absurd (cc)
  | no n ↦ ground (arith, n)
]

pub set_callback-IsSound : (m : Manager) (id : Bytes) → IsSound m → IsSound (set_callback m id).1
unfolding set_callback add_to_map AllFine times is_live
set_callback-IsSound m id s = elim (Bool-cases (is_empty_text id)) [
  | inl empty ↦ rw empty s
  | inr named ↦ elim (Bool-cases (in_map m.callbacks (key_of id))) [
    | inl there ↦ rw (named, there) (record { fine = s.fine })
    | inr free ↦
        rw (named, free)
          (record {
            fine = (record { once = λ p. omega arith; held = λ p n. absurd (n refl) }, s.fine);
          })
  ]
]

pub register_in-IsSound :
    (m : Manager) (h p : ℕ) (o : Option (List ℕ))
    → get_from_map m.callbacks h ≡ o
    → is_live m p ≡ true
    → IsSound m
    → IsSound (register_in m h (some p) o).1
unfolding register_in is_live
register_in-IsSound m h p none e here s = s
register_in-IsSound m h p (some qs) e here s = record {
  fine =
      change_list-Fine (is_live m) m.callbacks h (register qs (some p)).1
        (register-Fine (is_live m) p qs here (get-Fine (is_live m) m.callbacks h qs e s.fine))
        s.fine;
}

pub unregister_in-IsSound :
    (m : Manager) (h p : ℕ) (o : Option (List ℕ))
    → get_from_map m.callbacks h ≡ o
    → IsSound m
    → IsSound (unregister_in m h (some p) o).1
unfolding unregister_in is_live
unregister_in-IsSound m h p none e s = s
unregister_in-IsSound m h p (some qs) e s = record {
  fine =
      change_list-Fine (is_live m) m.callbacks h (unregister qs (some p)).1
        (unregister-Fine (is_live m) p qs (get-Fine (is_live m) m.callbacks h qs e s.fine)) s.fine;
}

-- A registration makes no plugin live or dead.
register_in-live :
    (m : Manager) (h p : ℕ) (o : Option (List ℕ))
    → is_live (register_in m h (some p) o).1 p ≡ is_live m p
unfolding register_in is_live
register_in-live m h p none = refl
register_in-live m h p (some qs) = refl

register_each-IsSound :
    (ids : List Bytes) (m : Manager) (p : ℕ)
    → is_live m p ≡ true
    → IsSound m
    → IsSound (register_each m p ids)
unfolding register_each register_callback
register_each-IsSound [] m p here s = s
register_each-IsSound (id ∷ ids) m p here s =
    let o = get_from_map m.callbacks (key_of id) in
    register_each-IsSound ids (register_in m (key_of id) (some p) o).1 p
      (register_in-live m (key_of id) p o ∙ here)
      (register_in-IsSound m (key_of id) p o refl here s)

-- A plugin that was made and deleted again, when no loader held one at its address.
failed-IsSound :
    (m : Manager) (p : ℕ) (text : Bytes)
    → is_loaded p m.plugins ≡ false
    → IsSound m
    → IsSound (delete_plugin p (record (make_plugin p m) { last_error = text }))
unfolding delete_plugin make_plugin is_live is_registered
failed-IsSound m p text fresh s = record {
  fine =
      more-AllFine (is_live m) _ m.callbacks
        (λ q e.
          let other : (p == q) ≡ false = other_plugin m p q fresh e in
          rw (other, live-loaded m q e, registered-all_but p q m.freed (live-kept m q e)) refl)
        s.fine;
}

new_plugin-live :
    (m : Manager) (p : ℕ) (n : Node Loader)
    → n.value.plugin ≡ some p
    → is_live (record (make_plugin p m) { plugins = n ∷ m.plugins; last_error = [] }) p ≡ true
unfolding is_live make_plugin is_loaded is_plugin
new_plugin-live m p n e = rw (e, ==_refl p, registered-all_but_self p m.freed) refl

-- A plugin was made, and a loader for it added.
added-IsSound :
    (m : Manager) (p : ℕ) (n : Node Loader)
    → IsSound m
    → IsSound (record (make_plugin p m) { plugins = n ∷ m.plugins; last_error = [] })
unfolding make_plugin is_live
added-IsSound m p n s = record {
  fine =
      more-AllFine (is_live m) _ m.callbacks
        (λ q e.
          rw
            (
              is_loaded-add q n m.plugins (live-loaded m q e),
              registered-all_but p q m.freed (live-kept m q e),
            )
            refl)
        s.fine;
}

module _ (name_of : ℕ → Bytes) where
  pub add_plugin-IsSound :
      (m : Manager) (file : Bytes) (lib : Library) (p : ℕ)
      → is_loaded p m.plugins ≡ false
      → lib.throws ≡ false
      → IsSound m
      → IsSound (add_plugin name_of m file lib (some p)).1
  unfolding add_plugin add_to_map
  add_plugin-IsSound m file lib p fresh calm s = elim (Bool-cases (is_empty_text (name_of p))) [
    | inl empty ↦ rw empty (failed-IsSound m p _ fresh s)
    | inr named ↦ elim (Bool-cases (in_map m.plugins (key_of (name_of p)))) [
      | inl there ↦ rw (named, there) (failed-IsSound m p _ fresh s)
      | inr free ↦
          rw (named, free, calm)
            (register_each-IsSound lib.registers _ p (new_plugin-live m p _ refl)
              (added-IsSound m p _ s))
    ]
  ]

unload_found-IsSound :
    (m : Manager) (h : ℕ) (l : Loader) (o : Option ℕ)
    → get_from_map m.plugins h ≡ some l
    → l.plugin ≡ o
    → IsSound m
    → IsSound (unload_found m h true o).1
unfolding unload_found remove_from_map is_live delete_plugin is_registered
unload_found-IsSound m h l none e no_plugin s = record {
  fine =
      more-AllFine (is_live m) _ m.callbacks
        (λ q live.
          rw
            (
              is_loaded-erase_key q h m.plugins l e (ap (is_plugin q) no_plugin ∙ is_plugin-none q),
              live-loaded m q live,
              live-kept m q live,
            )
            refl)
        s.fine;
}
unload_found-IsSound m h l (some p) e plugin s = record {
  fine =
      unregister_all-AllFine (is_live m) _ p m.callbacks
        (λ q n live.
          let other : (p == q) ≡ false = ground (arith, n) in
          rw
            (
              is_loaded-erase_key q h m.plugins l e
                  (ap (is_plugin q) plugin ∙ is_plugin-other p q n),
              live-loaded m q live,
              other,
              live-kept m q live,
            )
            refl)
        s.fine;
}

unload_loader-IsSound :
    (m : Manager) (h : ℕ) (o : Option Loader)
    → get_from_map m.plugins h ≡ o
    → IsSound m
    → IsSound (unload_loader m h true o).1
unfolding unload_loader
unload_loader-IsSound m h none e s = s
unload_loader-IsSound m h (some l) e s = unload_found-IsSound m h l l.plugin e refl s

pub unload_plugin-IsSound :
    (m : Manager) (name : Bytes) → IsSound m → IsSound (unload_plugin m name true).1
unfolding unload_plugin
unload_plugin-IsSound m name s = unload_loader-IsSound m (key_of name) _ refl s

module _ (name_of : ℕ → Bytes) where
  unload_one-IsSound : (o : Option ℕ) (m : Manager) → IsSound m → IsSound (unload_one name_of m o)
  unfolding unload_one
  unload_one-IsSound none m s = s
  unload_one-IsSound (some p) m s = unload_plugin-IsSound m (name_of p) s

  pub unload_each-IsSound :
      (ns : List (Node Loader)) (m : Manager) → IsSound m → IsSound (unload_each name_of m ns)
  unfolding unload_each
  unload_each-IsSound [] m s = s
  unload_each-IsSound (n ∷ ns) m s =
      unload_each-IsSound ns (unload_one name_of m n.value.plugin)
        (unload_one-IsSound n.value.plugin m s)
