-- ===== src/Plugins/Calls.antt =====
-- What `CallAll` does, and a `LoadPlugin` that an exception leaves.
use verlihub.Base.{
  ◌≤◌, sym, subst, ℕ, ◌≡◌, refl, ap, ◌∙◌, arith, Bool, true, false, ◌&&◌, Option, none, some, List,
  [], ◌∷◌, ◌++◌, inl, inr, ◌==◌, ==_refl, if◌then◌else◌, Bool-cases, Bytes,
}
use verlihub.Run.{Run, ok, fault, use_after_free}
use verlihub.Plugins.{
  Node, get_from_map, in_map, add_to_map, is_registered, register, erase_plugin, unregister, Loader,
  Manager, Library, is_empty_text, key_of, register_in, register_callback, register_each,
  delete_plugin, make_plugin, unregister_all,
}
use verlihub.Plugins.Registry.{
  add_plugin, load_plugin, plugin_of, get_plugin, Called, called, has_node, call_from, call_found,
  call_all, unload_found, unload_loader, unload_plugin,
}
use verlihub.Plugins.Sound.{is_live, times, registered-times}

-- Every plugin of a list passes.
unfoldable pub all_of : (ℕ → Bool) → List ℕ → Bool
all_of test [] = true
all_of test (p ∷ ps) = test p && all_of test ps

-- A list from which the one node of a plugin is taken has none of it.
erase_plugin-none :
    (p : ℕ) (qs : List ℕ) → times p qs ≤ 1 → is_registered p (erase_plugin p qs) ≡ false
unfolding erase_plugin is_registered times
erase_plugin-none p [] once = refl
erase_plugin-none p (q ∷ qs) once =
    ground (arith, registered-times p qs, erase_plugin-none p qs (ground (arith, once)))

unregister-none :
    (p : ℕ) (qs : List ℕ) → times p qs ≤ 1 → is_registered p (unregister qs (some p)).1 ≡ false
unfolding unregister
unregister-none p qs once = ground (arith, erase_plugin-none p qs once)

-- UnloadPlugin takes the plugin out of the list of a callback.
unregister_all-none :
    (p h : ℕ) (ns : List (Node (List ℕ))) (qs : List ℕ)
    → get_from_map ns h ≡ some qs
    → times p qs ≤ 1
    → has_node p (get_from_map (unregister_all p ns) h) ≡ false
unfolding get_from_map unregister_all has_node
unregister_all-none p h [] qs e once = absurd (cc)
unregister_all-none p h (n ∷ ns) qs e once = elim (Bool-cases (n.key == h)) [
  | inl here ↦
      let same : n.value ≡ qs = cc (rw here at e) in
      rw here (
        subst (λ l. is_registered p (unregister l (some p)).1 ≡ false) (sym same)
          (unregister-none p qs once))
  | inr there ↦ rw there (unregister_all-none p h ns qs (rw there at e) once)
]

unload_found-callbacks :
    (m : Manager) (h p : ℕ)
    → (unload_found m h true (some p)).1.callbacks ≡ unregister_all p m.callbacks
unfolding unload_found delete_plugin
unload_found-callbacks m h p = refl

unload_loader-callbacks :
    (m : Manager) (h p : ℕ) (o : Option Loader)
    → plugin_of o ≡ some p
    → (unload_loader m h true o).1.callbacks ≡ unregister_all p m.callbacks
unfolding unload_loader plugin_of
unload_loader-callbacks m h p none e = absurd (cc)
unload_loader-callbacks m h p (some l) e =
    ap (λ q. (unload_found m h true q).1.callbacks) e ∙ unload_found-callbacks m h p

unload_plugin-callbacks :
    (m : Manager) (name : Bytes) (p : ℕ)
    → get_plugin m name ≡ some p
    → (unload_plugin m name true).1.callbacks ≡ unregister_all p m.callbacks
unfolding unload_plugin get_plugin
unload_plugin-callbacks m name p e =
    unload_loader-callbacks m (key_of name) p (get_from_map m.plugins (key_of name)) e

module _ (name_of : ℕ → Bytes) (answers stays_alive : ℕ → Bool) (h : ℕ) (m : Manager) (all : List ℕ)
    (listed : get_from_map m.callbacks h ≡ some all) (once : (p : ℕ) → times p all ≤ 1) where
  outcome : Bool → List ℕ → Run Called
  outcome acc ps =
      if all_of stays_alive ps
      then ok (record { answer = acc && all_of answers ps; calls = ps; manager = m })
      else fault use_after_free

  still_outcome :
      (p : ℕ) (ps : List ℕ) (acc : Bool)
      → called p (outcome (acc && answers p) ps) ≡ (
          if all_of stays_alive ps
          then ok (record {
            answer = acc && (answers p && all_of answers ps);
            calls = p ∷ ps;
            manager = m;
          })
          else fault use_after_free)
  unfolding called outcome
  still_outcome p ps acc = elim (Bool-cases (all_of stays_alive ps)) [
    | inl alive ↦
        let same : (acc && answers p) && all_of answers ps
            ≡ acc && (answers p && all_of answers ps) =
          ground arith in
        rw alive (ap (λ a. ok (record { answer = a; calls = p ∷ ps; manager = m })) same)
    | inr some_dead ↦ rw some_dead refl
  ]

  -- The node of a dead plugin is freed by its unloading.
  dead_node :
      (p : ℕ)
      → get_plugin m (name_of p) ≡ some p
      → has_node p (get_from_map (unload_plugin m (name_of p) true).1.callbacks h) ≡ false
  dead_node p known =
      ap (λ ns. has_node p (get_from_map ns h)) (unload_plugin-callbacks m (name_of p) p known)
      ∙ unregister_all-none p h m.callbacks all listed (once p)

  here : (p : ℕ) → is_registered p all ≡ true → has_node p (get_from_map m.callbacks h) ≡ true
  unfolding has_node
  here p e = ap (has_node p) listed ∙ e

  call_from-outcome :
      (ps : List ℕ) (acc : Bool)
      → ((p : ℕ) → is_registered p ps ≡ true → is_registered p all ≡ true)
      → ((p : ℕ) → is_registered p ps ≡ true → get_plugin m (name_of p) ≡ some p)
      → call_from name_of answers stays_alive h m acc ps ≡ outcome acc ps
  unfolding call_from outcome all_of is_registered called
  call_from-outcome [] acc inside known =
      let same : acc ≡ acc && true = ground arith in
      ap (λ a. ok (record { answer = a; calls = []; manager = m })) same
  call_from-outcome (p ∷ ps) acc inside known =
      let node = here p (inside p (ground arith)) in
      elim (Bool-cases (stays_alive p)) [
        | inl alive ↦
            rw
              (
                node,
                alive,
                call_from-outcome ps (acc && answers p) (λ q e. inside q (ground (arith, e)))
                    (λ q e. known q (ground (arith, e))),
              )
              (still_outcome p ps acc)
        | inr dead ↦ rw (node, dead, dead_node p (known p (ground arith))) refl
      ]

  -- CallAll on a list in which no plugin stands twice, and whose plugins the manager finds by their
  -- names. If all stay alive, each is called once, in the order of the list, the answer is true
  -- exactly if every plugin answers true, and nothing changes; a plugin that answers false does not
  -- stop the loop. If one does not stay alive, unloading it takes the node that the loop stands on
  -- out of the list, and the loop goes on from a node that was freed.
  pub call_all-outcome :
      ((p : ℕ) → is_registered p all ≡ true → get_plugin m (name_of p) ≡ some p)
      → call_all name_of answers stays_alive h m ≡ (
          if all_of stays_alive all
          then ok (record { answer = all_of answers all; calls = all; manager = m })
          else fault use_after_free)
  unfolding call_all call_found outcome
  call_all-outcome known =
      ap (call_found name_of answers stays_alive h m) listed
      ∙ call_from-outcome all true (λ p e. e) known

register_in-same :
    (m : Manager) (h : ℕ) (p : Option ℕ) (o : Option (List ℕ))
    → ((register_in m h p o).1.plugins ≡ m.plugins) × ((register_in m h p o).1.freed ≡ m.freed)
unfolding register_in
register_in-same m h p none = (refl, refl)
register_in-same m h p (some qs) = (refl, refl)

register_each-plugins :
    (ids : List Bytes) (m : Manager) (p : ℕ) → (register_each m p ids).plugins ≡ m.plugins
unfolding register_each register_callback
register_each-plugins [] m p = refl
register_each-plugins (id ∷ ids) m p =
    let o = get_from_map m.callbacks (key_of id) in
    register_each-plugins ids (register_in m (key_of id) (some p) o).1 p
    ∙ (register_in-same m (key_of id) (some p) o).0

module _ (name_of : ℕ → Bytes) (m : Manager) (file : Bytes) (lib : Library) (p : ℕ) where
  abbrev loader : Node Loader
  loader = record { key = key_of (name_of p); value = record { file = file; plugin = some p } }

  -- What the manager is when the exception has been caught.
  abbrev left_over : Manager
  left_over = delete_plugin p (
      register_each (record (make_plugin p m) { plugins = loader ∷ m.plugins; last_error = [] }) p
        lib.registers)

  add_plugin-throws :
      is_empty_text (name_of p) ≡ false
      → in_map m.plugins (key_of (name_of p)) ≡ false
      → lib.throws ≡ true
      → add_plugin name_of m file lib (some p) ≡ (false, left_over)
  unfolding add_plugin add_to_map
  add_plugin-throws named free throws = rw (named, free, throws) refl

  left_over-found : get_plugin left_over (name_of p) ≡ some p
  unfolding get_plugin get_from_map plugin_of delete_plugin
  left_over-found =
      ap (λ ns. plugin_of (get_from_map ns (key_of (name_of p))))
        (register_each-plugins lib.registers
          (record (make_plugin p m) { plugins = loader ∷ m.plugins; last_error = [] }) p)
      ∙ rw (==_refl (key_of (name_of p))) refl

  left_over-dead : is_live left_over p ≡ false
  unfolding is_live delete_plugin is_registered
  left_over-dead = rw (==_refl p) (ground arith)

-- A file opens and makes a plugin with a name that no loader has, and then RegisterAll or
-- OnPluginLoad throws: LoadPlugin answers false, the plugin is deleted, and the manager still finds
-- it by its name.
pub load_plugin-throws :
    (name_of : ℕ → Bytes) (libs : Bytes → Library) (m : Manager) (file : Bytes) (p : ℕ)
    → (libs file).opens ≡ true
    → (libs file).makes ≡ some p
    → (libs file).throws ≡ true
    → is_empty_text (name_of p) ≡ false
    → in_map m.plugins (key_of (name_of p)) ≡ false
    → let r = load_plugin name_of libs m file in
      (r.0 ≡ false) × (get_plugin r.1 (name_of p) ≡ some p) × (is_live r.1 p ≡ false)
unfolding load_plugin
load_plugin-throws name_of libs m file p opens makes throws named free =
    let lib = libs file in
    let e : load_plugin name_of libs m file ≡ (false, left_over name_of m file lib p) =
      ap
        (λ b.
          if b
          then add_plugin name_of m file lib lib.makes
          else (false, record m { last_error = lib.error }))
        opens
      ∙ ap (λ o. add_plugin name_of m file lib o) makes
      ∙ add_plugin-throws name_of m file lib p named free throws in
    (
      ap (λ r. r.0) e,
      ap (λ r. get_plugin r.1 (name_of p)) e ∙ left_over-found name_of m file lib p,
      ap (λ r. is_live r.1 p) e ∙ left_over-dead name_of m file lib p,
    )

erase_plugin-append :
    (p : ℕ) (qs : List ℕ) → is_registered p qs ≡ false → erase_plugin p (qs ++ p ∷ []) ≡ qs
unfolding erase_plugin is_registered
erase_plugin-append p [] away = rw (==_refl p) refl
erase_plugin-append p (q ∷ qs) away = elim (Bool-cases (q == p)) [
  | inl here ↦ absurd (ground (arith, away))
  | inr there ↦ rw there (ap (◌∷◌ q) (erase_plugin-append p qs (ground (arith, away))))
]

registered-append : (p : ℕ) (qs : List ℕ) → is_registered p (qs ++ p ∷ []) ≡ true
unfolding is_registered
registered-append p [] = rw (==_refl p) refl
registered-append p (q ∷ qs) = ground (arith, registered-append p qs)

-- Register of a plugin that is not in the list answers true. Another Register then answers false
-- and changes nothing, and Unregister answers true and leaves the list as it was at first.
pub register-unregister :
    (p : ℕ) (qs : List ℕ)
    → is_registered p qs ≡ false
    → let r = register qs (some p) in
      (r.0 ≡ true) × (register r.1 (some p) ≡ (false, r.1)) × (unregister r.1 (some p) ≡ (true, qs))
unfolding register unregister
register-unregister p qs away = rw away (
  refl,
  rw (registered-append p qs) refl,
  rw (registered-append p qs, erase_plugin-append p qs away) refl,
)
