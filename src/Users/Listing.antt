-- ===== src/Users/Listing.antt =====
-- A cached list of a collection against the map that its table stores.
use mathlib.Core.List.{flatten, append_assoc, append-nil}
use verlihub.Base.{
  ℕ, ◌≤◌, ◌≡◌, refl, ap, ◌∙◌, sym, arith, true, false, Option, none, some, List, [], ◌∷◌, ◌++◌, inl,
  inr, ◌==◌, Bool-cases, Bytes,
}
use verlihub.HashArray.Chain.{
  Item, find, count, count-append, find-append_absent, find-append_first,
}
use verlihub.HashArray.Buckets.{flatten-view, update}
use verlihub.HashArray.{HashArray}
use verlihub.HashArray.Table.{IsTable, stored}
use verlihub.Users.{Users, User}
use verlihub.Users.Maker.{ListCache, append_list, append_all, current, grow, outdated}

-- The items are those of the map, each once.
pub record Lists (f : ℕ → Option ℕ) (is : List (Item ℕ)) : Type 0 where
  pub agree : (q : ℕ) → find q is ≡ f q
  pub once : (q : ℕ) → count q is ≤ 1
  pub filled : (q : ℕ) → f q ≡ none → count q is ≡ 0

pub table-Lists : (m : HashArray ℕ) → IsTable m.buckets → Lists (stored m) (flatten m.buckets.cells)
table-Lists m t = record {
  agree = λ q. (flatten-view m.buckets.cells q t.placed).0;
  once = λ q. omega (arith, (flatten-view m.buckets.cells q t.placed).1, (t.placed q (_)).once);
  filled =
      λ q e. omega (arith, (flatten-view m.buckets.cells q t.placed).1, (t.placed q (_)).filled e);
}

pub Lists-add :
    (f : ℕ → Option ℕ) (is : List (Item ℕ)) (h p : ℕ)
    → Lists f is
    → f h ≡ none
    → Lists (update f h (some p)) (is ++ record { value = some p; hash = h } ∷ [])
unfolding find count
Lists-add f is h p l free =
    let new : Item ℕ = record { value = some p; hash = h } in
    record {
      agree = λ q. elim (Bool-cases (q == h)) [
        | inl same ↦ rw same (
            find-append_absent q is (new ∷ [])
              (ap (λ k. count k is) (ground arith) ∙ l.filled h free)
            ∙ ground arith)
        | inr other ↦ rw other (find-append_first q is (new ∷ []) (ground arith) ∙ l.agree q)
      ];
      once = λ q. ground (arith, count-append q is (new ∷ []), l.once q, l.filled h free);
      filled = λ q. ground (arith, count-append q is (new ∷ []), l.filled q);
    }

module _ (entry : User → Bytes) where
  -- The entries of a list of items, each with the separator behind it.
  unfoldable pub entries : Users → Bytes → List (Item ℕ) → Bytes
  entries users sep [] = []
  entries users sep (i ∷ is) = append_list entry users sep [] i.value ++ entries users sep is

  append_list-append :
      (users : Users) (sep list : Bytes) (v : Option ℕ)
      → append_list entry users sep list v ≡ list ++ append_list entry users sep [] v
  unfolding append_list
  append_list-append users sep list none = sym (append-nil list)
  append_list-append users sep list (some p) = append_assoc list (entry (users p)) sep

  pub append_all-entries :
      (users : Users) (sep list : Bytes) (is : List (Item ℕ))
      → append_all entry users sep list is ≡ list ++ entries users sep is
  unfolding append_all entries
  append_all-entries users sep list [] = sym (append-nil list)
  append_all-entries users sep list (i ∷ is) =
      append_all-entries users sep (append_list entry users sep list i.value) is
      ∙ ap (λ k. k ++ entries users sep is) (append_list-append users sep list i.value)
      ∙ append_assoc list (append_list entry users sep [] i.value) (entries users sep is)

  entries-append :
      (users : Users) (sep : Bytes) (is js : List (Item ℕ))
      → entries users sep (is ++ js) ≡ entries users sep is ++ entries users sep js
  unfolding entries
  entries-append users sep [] js = refl
  entries-append users sep (i ∷ is) js =
      ap (◌++◌ (append_list entry users sep [] i.value)) (entries-append users sep is js)
      ∙ sym (
          append_assoc (append_list entry users sep [] i.value) (entries users sep is)
            (entries users sep js))

  end_of :
      (users : Users) (sep start : Bytes) (is : List (Item ℕ)) (i : Item ℕ)
      → (start ++ entries users sep is) ++ append_list entry users sep [] i.value
        ≡ start ++ entries users sep (is ++ i ∷ [])
  unfolding entries
  end_of users sep start is i =
      append_assoc start (entries users sep is) (append_list entry users sep [] i.value)
      ∙ ap (◌++◌ start) (
          ap (◌++◌ (entries users sep is))
            (sym (append-nil (append_list entry users sep [] i.value)))
          ∙ sym (entries-append users sep is (i ∷ [])))

  module _ (start sep : Bytes) where
    -- A cache that is kept with this start and separator, and lists the users of the map in some
    -- order if it is not to be made again.
    pub record Cached (users : Users) (f : ℕ → Option ℕ) (c : ListCache) : Type 0 where
      pub kept : c.keep ≡ true
      pub start_is : c.start ≡ start
      pub sep_is : c.sep ≡ sep
      pub fresh :
          c.remake ≡ false
          → (is : List (Item ℕ)) × Lists f is × (c.text ≡ start ++ entries users sep is)

    -- A text with an entry for every user of the map, each once.
    pub record Shown (users : Users) (f : ℕ → Option ℕ) (text : Bytes) : Type 0 where
      pub shown : List (Item ℕ)
      pub lists : Lists f shown
      pub text_is : text ≡ start ++ entries users sep shown

    pub outdated-Cached :
        (users : Users) (f g : ℕ → Option ℕ) (c : ListCache)
        → Cached users f c
        → Cached users g (outdated c)
    unfolding outdated
    outdated-Cached users f g c k = record {
      kept = k.kept;
      start_is = k.start_is;
      sep_is = k.sep_is;
      fresh = λ e. cc k.kept;
    }

    grown_text :
        (users : Users) (p h : ℕ) (is : List (Item ℕ)) (c : ListCache)
        → c.sep ≡ sep
        → c.text ≡ start ++ entries users sep is
        → append_list entry users c.sep c.text (some p)
          ≡ start ++ entries users sep (is ++ record { value = some p; hash = h } ∷ [])
    grown_text users p h is c same e =
        append_list-append users c.sep c.text (some p)
        ∙ ap (λ k. c.text ++ append_list entry users k [] (some p)) same
        ∙ rw e (end_of users sep start is (record { value = some p; hash = h }))

    pub grow-Cached :
        (users : Users) (f : ℕ → Option ℕ) (h p : ℕ) (c : ListCache)
        → f h ≡ none
        → Cached users f c
        → Cached users (update f h (some p)) (grow entry users p c)
    unfolding grow
    grow-Cached users f h p c free k = elim (Bool-cases c.remake) [
      | inl again ↦
          rw again
            (record { kept = k.kept; start_is = k.start_is; sep_is = k.sep_is; fresh = λ e. cc })
      | inr now ↦
          let (is, l, e) = k.fresh now in
          rw (now, k.kept)
            (record {
              kept = refl;
              start_is = k.start_is;
              sep_is = k.sep_is;
              fresh = λ e'. (
                is ++ record { value = some p; hash = h } ∷ [],
                Lists-add f is h p l free,
                grown_text users p h is c k.sep_is e,
              );
            })
    ]

    pub current-Cached :
        (users : Users) (f : ℕ → Option ℕ) (is : List (Item ℕ)) (c : ListCache)
        → Lists f is
        → Cached users f c
        → Cached users f (current entry users is c) × Shown users f (current entry users is c).text
    unfolding current
    current-Cached users f is c l k = elim (Bool-cases c.remake) [
      | inl again ↦
          let made : append_all entry users c.sep c.start is ≡ start ++ entries users sep is =
            append_all-entries users c.sep c.start is
            ∙ ap (λ t. t ++ entries users c.sep is) k.start_is
            ∙ ap (λ t. start ++ entries users t is) k.sep_is in
          rw (again, k.kept)
            (
              record {
                kept = refl;
                start_is = k.start_is;
                sep_is = k.sep_is;
                fresh = λ e. (is, l, made);
              },
              record { shown = is; lists = l; text_is = made },
            )
      | inr now ↦
          let (is', l', e) = k.fresh now in
          rw now (
            record {
              kept = k.kept;
              start_is = k.start_is;
              sep_is = k.sep_is;
              fresh = λ e'. (is', l', e);
            },
            record { shown = is'; lists = l'; text_is = e },
          )
    ]

  -- Users of whom the entries read the same make the same list.
  append_list-same :
      (users users' : Users) (sep : Bytes) (v : Option ℕ)
      → ((p : ℕ) → entry (users' p) ≡ entry (users p))
      → append_list entry users' sep [] v ≡ append_list entry users sep [] v
  unfolding append_list
  append_list-same users users' sep none same = refl
  append_list-same users users' sep (some p) same = ap (λ k. ([] ++ k) ++ sep) (same p)

  entries-same :
      (users users' : Users) (sep : Bytes) (is : List (Item ℕ))
      → ((p : ℕ) → entry (users' p) ≡ entry (users p))
      → entries users' sep is ≡ entries users sep is
  unfolding entries
  entries-same users users' sep [] same = refl
  entries-same users users' sep (i ∷ is) same =
      rw (entries-same users users' sep is same)
        (ap (λ k. k ++ entries users sep is) (append_list-same users users' sep i.value same))

  pub Cached-same :
      (start sep : Bytes) (users users' : Users) (f : ℕ → Option ℕ) (c : ListCache)
      → ((p : ℕ) → entry (users' p) ≡ entry (users p))
      → Cached start sep users f c
      → Cached start sep users' f c
  Cached-same start sep users users' f c same k = record {
    kept = k.kept;
    start_is = k.start_is;
    sep_is = k.sep_is;
    fresh = λ e.
        let (is, l, text_is) = k.fresh e in
        (is, l, text_is ∙ ap (◌++◌ start) (sym (entries-same users users' sep is same)));
  }
