-- ===== src/Users/Invariant.antt =====
-- What every call of a user collection keeps.
use mathlib.Core.Path.{fun_ext}
use verlihub.Base.{
  ℕ, suc, ◌+◌, ◌*◌, ◌^◌, ◌≤◌, ◌<◌, ◌≡◌, refl, ap, ◌∙◌, arith, Bool, true, not, Option, none, some,
  List, [], ◌∷◌, inl, inr, if◌then◌else◌, Option-cases, Bytes, bytes, subst,
}
use verlihub.Run.{Returns}
use verlihub.HashArray.Buckets.{update}
use verlihub.HashArray.{Hook, on_add, on_remove, HashArray, is_some}
use verlihub.HashArray.Table.{IsTable, stored, total}
use verlihub.HashArray.Add.{add_with_hash-Added, Added-IsValid}
use verlihub.HashArray.Remove.{remove_by_hash-Removed, Removed-IsValid}
use verlihub.HashArray.AutoResize.{auto_resize-Kept}
use verlihub.HashArray.History.{Refines}
use verlihub.Users.{Users, nick_to_hash}
use verlihub.Users.Maker.{
  Collection, nick_entry, info_entry, address_entry, add_user, remove_user, on_add_user,
  on_remove_user, answer_hooks, auto_resize_users, with_table,
}
use verlihub.Users.Listing.{Cached, outdated-Cached, grow-Cached}

-- The table stores the map, and no call of it waits for its effect; it has at most `k` users.
pub record Stores (f : ℕ → Option ℕ) (k : ℕ) (m : HashArray ℕ) : Type 0 where
  pub refines : Refines f m
  pub answered_all : m.hooks ≡ []
  pub few : total m ≤ k
  pub narrow : m.buckets.capacity ≤ 2 * k + 512

-- The three cached lists; the one of the MyINFO texts while `quiet` says that none has changed.
pub record AllCached (start sep : Bytes) (quiet : Bool) (users : Users) (f : ℕ → Option ℕ)
    (c : Collection) : Type 0 where
  pub nicks : Cached nick_entry start sep users f c.nicks
  pub infos : quiet ≡ true → Cached info_entry [] (bytes "|") users f c.infos
  pub addresses : Cached address_entry (bytes "$UserIP ") (bytes "$$") users f c.addresses
  pub unsent : c.send_all ≡ []

with_table-hooks :
    (users : Users) (c : Collection) (m : HashArray ℕ) (hs : List (Hook ℕ))
    → m.hooks ≡ hs
    → with_table users c m ≡ answer_hooks users hs (record c { table = record m { hooks = [] } })
unfolding with_table
with_table-hooks users c m hs e =
    ap (λ k. answer_hooks users k (record c { table = record m { hooks = [] } })) e

emptied-Stores :
    (f : ℕ → Option ℕ) (k : ℕ) (m : HashArray ℕ)
    → Refines f m
    → total m ≤ k
    → m.buckets.capacity ≤ 2 * k + 512
    → Stores f k (record m { hooks = [] })
emptied-Stores f k m v few narrow = record {
  refines = record {
    valid = record { table = v.valid.table; counts = v.valid.counts };
    idle = v.idle;
    reads = v.reads;
  };
  answered_all = refl;
  few = few;
  narrow = narrow;
}

module _ (start sep : Bytes) (quiet : Bool) (users : Users) where
  -- A collection that stores a map of at most `k` users and caches its lists.
  abbrev pub Good : (ℕ → Option ℕ) → ℕ → Collection → Type 0
  Good f k c = Stores f k c.table × AllCached start sep quiet users f c

  added-Good :
      (f : ℕ → Option ℕ) (k h p : ℕ) (c : Collection) (m : HashArray ℕ)
      → f h ≡ none
      → m.hooks ≡ on_add p ∷ []
      → Stores (update f h (some p)) k (record m { hooks = [] })
      → AllCached start sep quiet users f c
      → Good (update f h (some p)) k (with_table users c m)
  unfolding answer_hooks on_add_user
  added-Good f k h p c m free e s a = rw (with_table-hooks users c m (on_add p ∷ []) e) (
    s,
    record {
      nicks = grow-Cached nick_entry start sep users f h p c.nicks free a.nicks;
      infos = λ q. grow-Cached info_entry [] (bytes "|") users f h p c.infos free (a.infos q);
      addresses =
          grow-Cached address_entry (bytes "$UserIP ") (bytes "$$") users f h p c.addresses free
            a.addresses;
      unsent = a.unsent;
    },
  )

  removed-Good :
      (f g : ℕ → Option ℕ) (k p : ℕ) (c : Collection) (m : HashArray ℕ)
      → m.hooks ≡ on_remove p ∷ []
      → Stores g k (record m { hooks = [] })
      → AllCached start sep quiet users f c
      → Good g k (with_table users c m)
  unfolding answer_hooks on_remove_user
  removed-Good f g k p c m e s a = rw (with_table-hooks users c m (on_remove p ∷ []) e) (
    s,
    record {
      nicks = outdated-Cached nick_entry start sep users f g c.nicks a.nicks;
      infos = λ q. outdated-Cached info_entry [] (bytes "|") users f g c.infos (a.infos q);
      addresses =
          outdated-Cached address_entry (bytes "$UserIP ") (bytes "$$") users f g c.addresses
            a.addresses;
      unsent = a.unsent;
    },
  )

  unchanged-Good :
      (f : ℕ → Option ℕ) (k : ℕ) (c : Collection) (m : HashArray ℕ)
      → m.hooks ≡ []
      → Stores f k (record m { hooks = [] })
      → AllCached start sep quiet users f c
      → Good f k (with_table users c m)
  unfolding answer_hooks
  unchanged-Good f k c m e s a =
      rw (with_table-hooks users c m [] e)
        (s, record { nicks = a.nicks; infos = a.infos; addresses = a.addresses; unsent = a.unsent })

  module _ (lower : ℕ → ℕ) (f : ℕ → Option ℕ) (k : ℕ) (c : Collection) (g : Good f k c) where
    abbrev t : IsTable c.table.buckets
    t = g.0.refines.valid.table

    reads-at : (h : ℕ) → stored c.table h ≡ f h
    reads-at h = ap (λ r. r h) g.0.refines.reads

    -- A new user is the last one of the lists; one whose hash is taken is refused.
    pub add_user-Good :
        (p : ℕ)
        → let h = nick_to_hash lower (users p).nick in
          Returns (add_user lower users c (some p)) λ r.
            (r.0 ≡ not (is_some (f h)))
            × Good (if is_some (f h) then f else update f h (some p)) (suc k) r.1
    unfolding add_user is_some
    add_user-Good p =
        let h = nick_to_hash lower (users p).nick in
        let (r, go, a) = add_with_hash-Added c.table t p h in
        let v = Added-IsValid c.table p h r g.0.refines.valid g.0.refines.idle a in
        let few : total r.1 ≤ suc k = ground (arith, a.total_is, g.0.few) in
        let narrow : r.1.buckets.capacity ≤ 2 * suc k + 512 =
          omega (arith, a.capacity, g.0.narrow) in
        (
          (r.0, with_table users c r.1),
          rw go refl,
          (
            a.answers ∙ ap (λ o. not (is_some o)) (reads-at h),
            elim (Option-cases (f h)) [
              | inl free ↦ rw free (
                  added-Good f (suc k) h p c r.1 free
                    (rw (a.hooks, a.answers, g.0.refines.idle, g.0.answered_all, reads-at h, free)
                      refl)
                    (emptied-Stores (update f h (some p)) (suc k) r.1
                      (record {
                        valid = v;
                        idle = a.resizing ∙ g.0.refines.idle;
                        reads =
                            fun_ext
                              (λ q. a.reads q ∙ rw (reads-at h, free, reads-at q) (ground arith));
                      })
                      few narrow)
                    g.1)
              | inr (d, taken) ↦ rw taken (
                  unchanged-Good f (suc k) c r.1
                    (rw (a.hooks, a.answers, g.0.answered_all, reads-at h, taken) refl)
                    (emptied-Stores f (suc k) r.1
                      (record {
                        valid = v;
                        idle = a.resizing ∙ g.0.refines.idle;
                        reads =
                            fun_ext
                              (λ q. a.reads q ∙ rw (reads-at h, taken, reads-at q) (ground arith));
                      })
                      few narrow)
                    g.1)
            ],
          ),
        )

    -- A user who leaves makes every list outdated.
    pub remove_user-Good :
        (p : ℕ)
        → let h = nick_to_hash lower (users p).nick in
          Returns
            (remove_user lower users c (some p))
            λ r. (r.0 ≡ is_some (f h)) × Good (update f h none) (suc k) r.1
    unfolding remove_user is_some
    remove_user-Good p =
        let h = nick_to_hash lower (users p).nick in
        let (r, go, a) = remove_by_hash-Removed c.table t h in
        let v = Removed-IsValid c.table h r g.0.refines.valid a in
        let s =
          emptied-Stores (update f h none) (suc k) r.1
            (record {
              valid = v;
              idle = a.resizing ∙ g.0.refines.idle;
              reads = fun_ext (λ q. a.reads q ∙ rw (reads-at q) refl);
            })
            (ground (arith, a.total_is, g.0.few)) (omega (arith, a.capacity, g.0.narrow)) in
        (
          (r.0, with_table users c r.1),
          rw go refl,
          (
            a.answers ∙ ap is_some (reads-at h),
            elim (Option-cases (f h)) [
              | inl free ↦
                  unchanged-Good (update f h none) (suc k) c r.1
                    (rw (a.hooks, g.0.answered_all, reads-at h, free) refl) s
                    (subst (λ u. AllCached start sep quiet users u c) (fun_ext (λ q. ground arith))
                      g.1)
              | inr (d, taken) ↦
                  removed-Good f (update f h none) (suc k) d c r.1
                    (rw (a.hooks, g.0.answered_all, reads-at h, taken) refl) s g.1
            ],
          ),
        )

    -- `AutoResize` changes no list.
    pub auto_resize_users-Good : k < 2 ^ 29 → Returns (auto_resize_users users c) (Good f (suc k))
    unfolding auto_resize_users
    auto_resize_users-Good bound =
        let counts : c.table.size ≡ total c.table =
          g.0.refines.valid.counts ∙ omega (arith, g.0.few) in
        let (r, go, a) =
          auto_resize-Kept c.table g.0.refines.valid g.0.refines.idle
            (omega (arith, counts, g.0.few)) (omega (arith, g.0.narrow)) in
        (
          with_table users c r,
          rw go refl,
          unchanged-Good f (suc k) c r (a.hooks ∙ g.0.answered_all)
              (emptied-Stores f (suc k) r
                (record {
                  valid = a.valid;
                  idle = a.idle;
                  reads = fun_ext a.reads ∙ g.0.refines.reads;
                })
                (omega (arith, a.total_is, g.0.few))
                (omega (arith, a.tight, a.size, counts, g.0.few)))
              g.1,
        )
