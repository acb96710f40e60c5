-- ===== src/Users/Delivery.antt =====
-- Who gets a message that is sent to all users of a collection.
use verlihub.Base.{
  ℕ, ◌+◌, ◌≤◌, ◌≡◌, refl, ap, ◌∙◌, arith, Bool, true, false, ◌&&◌, Option, none, some, List, [],
  ◌∷◌, ◌++◌, inl, inr, ◌==◌, if◌then◌else◌, Bool-cases, ==_refl, Bytes, length, take, length-append,
  ℕ_discrete,
}
use verlihub.HashArray.Chain.{Item, find, count, find-eq-none}
use verlihub.Users.{Users, User}
use verlihub.Users.Broadcast.{Sent, send_one, send_each, erase_last}

-- How many calls go to a user.
unfoldable pub received : ℕ → List Sent → ℕ
received p [] = 0
received p (s ∷ ss) = (if s.to == p then 1 else 0) + received p ss

unfoldable pub is_user : ℕ → Option ℕ → Bool
is_user p none = false
is_user p (some q) = q == p

-- Every call has this text and flushes as said, with no pipe of its own.
unfoldable pub Carry : Bytes → Bool → List Sent → Type 0
Carry text flush [] = Unit
Carry text flush (s ∷ ss) =
    (s.text ≡ text) × (s.flush ≡ flush) × (s.pipe ≡ false) × Carry text flush ss

received-append : (p : ℕ) (a b : List Sent) → received p (a ++ b) ≡ received p a + received p b
unfolding received
received-append p [] b = omega arith
received-append p (s ∷ a) b = omega (arith, received-append p a b)

is_user→≡ : (p : ℕ) (v : Option ℕ) → is_user p v ≡ true → v ≡ some p
unfolding is_user
is_user→≡ p none e = cc
is_user→≡ p (some q) e = ap some (ground arith)

own_count :
    (i : Item ℕ) (is : List (Item ℕ)) (q : ℕ)
    → count q (i ∷ is) ≤ 1
    → (i.hash == q) ≡ true
    → count q is ≡ 0
unfolding count
own_count i is q once same = ground arith

-- The hash of what is found behind an item is not that of the item.
found_behind :
    (i : Item ℕ) (is : List (Item ℕ)) (q p : ℕ)
    → count q (i ∷ is) ≤ 1
    → find q is ≡ some p
    → (i.hash == q) ≡ false
unfolding count
found_behind i is q p once e = elim (Bool-cases (i.hash == q)) [
  | inl same ↦ cc (find-eq-none q is (ground arith), e)
  | inr other ↦ other
]

module _ (hash : ℕ → ℕ) where
  -- Items with one hash at most once, which is that of their user.
  pub record Keyed (is : List (Item ℕ)) : Type 0 where
    pub once : (q : ℕ) → count q is ≤ 1
    pub own : (q p : ℕ) → find q is ≡ some p → q ≡ hash p

  Keyed-tail : (i : Item ℕ) (is : List (Item ℕ)) → Keyed (i ∷ is) → Keyed is
  unfolding find count
  Keyed-tail i is k = record {
    once = λ q. ground (arith, k.once q);
    own = λ q p e. k.own q p (rw (found_behind i is q p (k.once q) e) e);
  }

  -- The user of the first item stands there under the user's own hash, and nowhere behind it.
  first_user :
      (i : Item ℕ) (is : List (Item ℕ)) (p : ℕ)
      → Keyed (i ∷ is)
      → i.value ≡ some p
      → (i.hash ≡ hash p) × (find (hash p) is ≡ none)
  unfolding find count
  first_user i is p k e =
      let own : i.hash ≡ hash p = k.own i.hash p (ground arith) in
      (own, find-eq-none (hash p) is (ground (arith, k.once (hash p))))

  module _ (users : Users) (wanted : User → Bool) (make : ℕ → Sent)
      (to_is : (p : ℕ) → (make p).to ≡ p) where
    received-send_one :
        (p : ℕ) (v : Option ℕ)
        → received p (send_one users wanted make v)
          ≡ (if is_user p v && wanted (users p) then 1 else 0)
    unfolding received send_one is_user
    received-send_one p none = refl
    received-send_one p (some q) = elim (ℕ_discrete q p) [
      | yes same ↦ rw same (elim (Bool-cases (wanted (users p))) [
        | inl yes_p ↦ rw (yes_p, to_is) (ground arith)
        | inr no_p ↦ rw no_p (ground arith)
      ])
      | no other ↦ elim (Bool-cases (wanted (users q))) [
        | inl yes_q ↦ rw (yes_q, to_is) (ground arith)
        | inr no_q ↦ rw no_q (ground arith)
      ]
    ]

    pub received-send_each :
        (p : ℕ) (is : List (Item ℕ))
        → Keyed is
        → received p (send_each users wanted make is)
          ≡ (if is_user p (find (hash p) is) && wanted (users p) then 1 else 0)
    unfolding received send_each is_user find
    received-send_each p [] k = refl
    received-send_each p (i ∷ is) k =
        received-append p (send_one users wanted make i.value) (send_each users wanted make is)
        ∙ rw (received-send_one p i.value, received-send_each p is (Keyed-tail i is k))
            (elim (Bool-cases (is_user p i.value)) [
              | inl here ↦
                  let (own, gone) = first_user i is p k (is_user→≡ p i.value here) in
                  rw (gone, own, here, ==_refl) (ground arith)
              | inr absent ↦ rw absent (elim (Bool-cases (i.hash == hash p)) [
                | inl same ↦
                    rw
                      (
                        same,
                        absent,
                        find-eq-none (hash p) is (own_count i is (hash p) (k.once (hash p)) same),
                      )
                      (ground arith)
                | inr other ↦ rw other (omega arith)
              ])
            ])

Carry-append :
    (text : Bytes) (flush : Bool) (a b : List Sent)
    → Carry text flush a
    → Carry text flush b
    → Carry text flush (a ++ b)
unfolding Carry
Carry-append text flush [] b ca cb = cb
Carry-append text flush (s ∷ a) b (t, f, q, ca) cb = (t, f, q, Carry-append text flush a b ca cb)

Carry-send_one :
    (users : Users) (wanted : User → Bool) (text : Bytes) (flush : Bool) (v : Option ℕ)
    → Carry text flush
        (send_one users wanted (λ p. record { to = p; text = text; pipe = false; flush = flush }) v)
unfolding Carry send_one
Carry-send_one users wanted text flush none = tt
Carry-send_one users wanted text flush (some p) = elim (Bool-cases (wanted (users p))) [
  | inl here ↦ rw here (refl, refl, refl, tt)
  | inr away ↦ rw away tt
]

pub Carry-send_each :
    (users : Users) (wanted : User → Bool) (text : Bytes) (flush : Bool) (is : List (Item ℕ))
    → Carry text flush (
        send_each users wanted
          (λ p. record { to = p; text = text; pipe = false; flush = flush })
          is)
unfolding Carry send_each
Carry-send_each users wanted text flush [] = tt
Carry-send_each users wanted text flush (i ∷ is) =
    Carry-append text flush _ _ (Carry-send_one users wanted text flush i.value)
      (Carry-send_each users wanted text flush is)

take-append_length : (s t : Bytes) → take (length s) (s ++ t) ≡ s
unfolding take
take-append_length [] t = refl
take-append_length (c ∷ s) t = ap (◌∷◌ c) (take-append_length s t)

pub erase_last-append : (s : Bytes) (c : ℕ) → erase_last (s ++ c ∷ []) ≡ s
unfolding erase_last
erase_last-append s c =
    ap (λ n. take n (s ++ c ∷ [])) (omega (arith, length-append s (c ∷ [])))
    ∙ take-append_length s (c ∷ [])
