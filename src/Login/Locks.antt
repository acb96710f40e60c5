-- ===== src/Login/Locks.antt =====
-- The locks of the hub have no mark, so that their keys can be made.
use verlihub.Base.{
  ◌≡◌, refl, arith, Bool, true, false, Option, none, some, [], ◌∷◌, ◌++◌, ℕ, ◌==◌, ltb, inl, inr,
  Bool-cases, Option-cases, length, Bytes, find_byte, find_text, starts_with, bytes,
}
use verlihub.Run.{Returns}
use verlihub.Message.Search.{Lacks}
use verlihub.Escapes.{lock_to_key, start_mark}
use verlihub.Escapes.Key.{lock_to_key-safe}
use verlihub.Login.{make_lock, digit}

Lacks-head : (b c : ℕ) (s : Bytes) → Lacks b (c ∷ s) → ((c == b) ≡ false) × Lacks b s
unfolding find_byte
Lacks-head b c s l = elim (Bool-cases (c == b)) [
  | inl e ↦ absurd (cc (rw e at l))
  | inr e ↦ elim (Option-cases (find_byte b s)) [
    | inl n ↦ (e, n)
    | inr (i, f) ↦ absurd (cc (rw (e, f) at l))
  ]
]

pub Lacks-append : (b : ℕ) (s t : Bytes) → Lacks b s → Lacks b t → Lacks b (s ++ t)
unfolding find_byte
Lacks-append b [] t l m = m
Lacks-append b (c ∷ s) t l m =
    let (other, rest) = Lacks-head b c s l in rw (other, Lacks-append b s t rest m) refl

-- A text that lacks the first byte of another one does not contain it.
find_text-Lacks : (b : ℕ) (lim s : Bytes) → Lacks b s → find_text (b ∷ lim) s ≡ none
unfolding find_text starts_with
find_text-Lacks b lim [] l = refl
find_text-Lacks b lim (c ∷ s) l =
    let (other, rest) = Lacks-head b c s l in rw (other, find_text-Lacks b lim s rest) refl

pub lock_to_key-plain :
    (lock : Bytes) → Lacks b'/' lock → Returns (lock_to_key lock) (λ key. Unit {0})
unfolding lock_to_key start_mark
lock_to_key-plain lock l = elim (Bool-cases (ltb (length lock) 2)) [
  | inl short ↦ ([], rw short refl, tt)
  | inr long ↦
      let (key, go, safe) =
        lock_to_key-safe lock (ground (arith, long)) (find_text-Lacks b'/' (bytes "%DCN") lock l) in
      (key, go, tt)
]

digit-other : (r : ℕ) → (digit r == 47) ≡ false
unfolding digit
digit-other r = ground arith

pub make_lock-Lacks : (tls : Option Bool) (r1 r2 r3 r4 : ℕ) → Lacks b'/' (make_lock tls r1 r2 r3 r4)
unfolding make_lock find_byte
make_lock-Lacks none r1 r2 r3 r4 =
    rw (digit-other r1, digit-other r2, digit-other r3, digit-other r4) refl
make_lock-Lacks (some true) r1 r2 r3 r4 =
    rw (digit-other r1, digit-other r2, digit-other r3, digit-other r4) refl
make_lock-Lacks (some false) r1 r2 r3 r4 =
    rw (digit-other r1, digit-other r2, digit-other r3, digit-other r4) refl
