-- ===== src/Plugins/Sound.antt =====
-- The lists of callbacks against the plugins that are loaded.
use verlihub.Base.{
  ℕ, ◌+◌, ◌-◌, ◌≤◌, ◌≡◌, ◌≢◌, refl, ap, ◌∙◌, arith, Bool, true, false, not, ◌&&◌, none, some, List,
  [], ◌∷◌, ◌++◌, inl, inr, ◌==◌, if◌then◌else◌, Bool-cases, ℕ_discrete, subst,
}
use verlihub.Plugins.{
  all_but, Node, get_from_map, erase_key, is_registered, register, erase_plugin, unregister, Loader,
  Manager, change_list, unregister_all,
}
use verlihub.Plugins.Registry.{is_plugin}

-- How often a plugin stands in a list.
unfoldable pub times : ℕ → List ℕ → ℕ
times p [] = 0
times p (q ∷ qs) = (if q == p then 1 else 0) + times p qs

-- A loader holds the plugin.
unfoldable pub is_loaded : ℕ → List (Node Loader) → Bool
is_loaded p [] = false
is_loaded p (n ∷ ns) =
    let rest = is_loaded p ns in if is_plugin p n.value.plugin then true else rest

-- Every plugin of a list is live and stands there once.
pub record Fine (live : ℕ → Bool) (qs : List ℕ) : Type 0 where
  pub once : (p : ℕ) → times p qs ≤ 1
  pub held : (p : ℕ) → times p qs ≢ 0 → live p ≡ true

unfoldable pub AllFine : (ℕ → Bool) → List (Node (List ℕ)) → Type 0
AllFine live [] = Unit
AllFine live (n ∷ ns) = Fine live n.value × AllFine live ns

pub registered-times : (p : ℕ) (qs : List ℕ) → is_registered p qs ≡ not (times p qs == 0)
unfolding is_registered times
registered-times p [] = refl
registered-times p (q ∷ qs) = ground (arith, registered-times p qs)

times-append : (p : ℕ) (qs rs : List ℕ) → times p (qs ++ rs) ≡ times p qs + times p rs
unfolding times
times-append p [] rs = omega arith
times-append p (q ∷ qs) rs = omega (arith, times-append p qs rs)

times-erase_plugin :
    (p q : ℕ) (qs : List ℕ)
    → times q (erase_plugin p qs) ≡ (if q == p then times q qs - 1 else times q qs)
unfolding times erase_plugin
times-erase_plugin p q [] = ground arith
times-erase_plugin p q (r ∷ qs) = ground (arith, times-erase_plugin p q qs)

pub times-unregister :
    (p q : ℕ) (qs : List ℕ)
    → times q (unregister qs (some p)).1 ≡ (if q == p then times q qs - 1 else times q qs)
unfolding unregister
times-unregister p q qs = ground (arith, registered-times p qs, times-erase_plugin p q qs)

pub times-register :
    (p q : ℕ) (qs : List ℕ)
    → times q (register qs (some p)).1 ≡ (if q == p && times q qs == 0 then 1 else times q qs)
unfolding register times
times-register p q qs = ground (arith, registered-times p qs, times-append q qs (p ∷ []))

module _ (live : ℕ → Bool) where
  pub register-Fine :
      (p : ℕ) (qs : List ℕ) → live p ≡ true → Fine live qs → Fine live (register qs (some p)).1
  register-Fine p qs here f = record {
    once = λ q. ground (arith, times-register p q qs, f.once q);
    held = λ q n. elim (ℕ_discrete q p) [
      | yes same ↦ rw same here
      | no other ↦ f.held q (ground (arith, times-register p q qs, n, other))
    ];
  }

  pub unregister-Fine : (p : ℕ) (qs : List ℕ) → Fine live qs → Fine live (unregister qs (some p)).1
  unregister-Fine p qs f = record {
    once = λ q. ground (arith, times-unregister p q qs, f.once q);
    held = λ q n. f.held q (ground (arith, times-unregister p q qs, n));
  }

  pub get-Fine :
      (ns : List (Node (List ℕ))) (h : ℕ) (qs : List ℕ)
      → get_from_map ns h ≡ some qs
      → AllFine live ns
      → Fine live qs
  unfolding get_from_map AllFine
  get-Fine [] h qs e a = absurd (cc)
  get-Fine (n ∷ ns) h qs e a = elim (Bool-cases (n.key == h)) [
    | inl here ↦
        let e' : some n.value ≡ some qs =
          subst (λ b. (if b then some n.value else get_from_map ns h) ≡ some qs) here e in
        let same : n.value ≡ qs = cc in subst (Fine live) same a.0
    | inr there ↦
        get-Fine ns h qs
          (subst (λ b. (if b then some n.value else get_from_map ns h) ≡ some qs) there e) a.1
  ]

  pub change_list-Fine :
      (ns : List (Node (List ℕ))) (h : ℕ) (qs : List ℕ)
      → Fine live qs
      → AllFine live ns
      → AllFine live (change_list ns h qs)
  unfolding change_list AllFine
  change_list-Fine [] h qs f a = tt
  change_list-Fine (n ∷ ns) h qs f a = elim (Bool-cases (n.key == h)) [
    | inl here ↦ rw here (f, a.1)
    | inr there ↦ rw there (a.0, change_list-Fine ns h qs f a.1)
  ]

module _ (l l' : ℕ → Bool) where
  -- More live plugins leave every list as good as it was.
  pub more-AllFine :
      (ns : List (Node (List ℕ)))
      → ((q : ℕ) → l q ≡ true → l' q ≡ true)
      → AllFine l ns
      → AllFine l' ns
  unfolding AllFine
  more-AllFine [] more a = tt
  more-AllFine (n ∷ ns) more a =
      (record { once = a.0.once; held = λ q m. more q (a.0.held q m) }, more-AllFine ns more a.1)

  -- A plugin that stands in no list any more need not be live.
  unregistered-Fine :
      (p : ℕ) (qs : List ℕ)
      → ((q : ℕ) → q ≢ p → l q ≡ true → l' q ≡ true)
      → Fine l qs
      → Fine l' (unregister qs (some p)).1
  unregistered-Fine p qs others f = record {
    once = λ q. ground (arith, times-unregister p q qs, f.once q);
    held = λ q n.
        let other : q ≢ p = λ e. n (ground (arith, times-unregister p q qs, f.once q, e)) in
        others q other (f.held q (ground (arith, times-unregister p q qs, n)));
  }

  pub unregister_all-AllFine :
      (p : ℕ) (ns : List (Node (List ℕ)))
      → ((q : ℕ) → q ≢ p → l q ≡ true → l' q ≡ true)
      → AllFine l ns
      → AllFine l' (unregister_all p ns)
  unfolding AllFine unregister_all
  unregister_all-AllFine p [] others a = tt
  unregister_all-AllFine p (n ∷ ns) others a =
      (unregistered-Fine p n.value others a.0, unregister_all-AllFine p ns others a.1)

pub is_plugin-none : (q : ℕ) → is_plugin q none ≡ false
unfolding is_plugin
is_plugin-none q = refl

pub is_plugin-other : (p q : ℕ) → q ≢ p → is_plugin q (some p) ≡ false
unfolding is_plugin
is_plugin-other p q n = ground arith

-- The loader that a key finds, taken away, holds no other plugin.
pub is_loaded-erase_key :
    (q h : ℕ) (ns : List (Node Loader)) (l : Loader)
    → get_from_map ns h ≡ some l
    → is_plugin q l.plugin ≡ false
    → is_loaded q (erase_key ns h) ≡ is_loaded q ns
unfolding get_from_map erase_key is_loaded
is_loaded-erase_key q h [] l e other = refl
is_loaded-erase_key q h (n ∷ ns) l e other = elim (Bool-cases (n.key == h)) [
  | inl here ↦
      let e' : some n.value ≡ some l =
        subst (λ b. (if b then some n.value else get_from_map ns h) ≡ some l) here e in
      let same : n.value ≡ l = cc in rw (here, ap (λ k. is_plugin q k.plugin) same ∙ other) refl
  | inr there ↦ rw (
    there,
    is_loaded-erase_key q h ns l
        (subst (λ b. (if b then some n.value else get_from_map ns h) ≡ some l) there e) other,
  )
]

pub is_loaded-add :
    (q : ℕ) (n : Node Loader) (ns : List (Node Loader))
    → is_loaded q ns ≡ true
    → is_loaded q (n ∷ ns) ≡ true
unfolding is_loaded
is_loaded-add q n ns e = ground (arith, e)

-- A plugin of the manager that was not deleted.
unfoldable pub is_live : Manager → ℕ → Bool
is_live m p = is_loaded p m.plugins && not (is_registered p m.freed)

pub registered-all_but :
    (p q : ℕ) (qs : List ℕ) → is_registered q qs ≡ false → is_registered q (all_but p qs) ≡ false
unfolding is_registered all_but
registered-all_but p q [] e = refl
registered-all_but p q (r ∷ qs) e = ground (arith, registered-all_but p q qs)

pub registered-all_but_self : (p : ℕ) (qs : List ℕ) → is_registered p (all_but p qs) ≡ false
unfolding is_registered all_but
registered-all_but_self p [] = refl
registered-all_but_self p (r ∷ qs) = ground (arith, registered-all_but_self p qs)
