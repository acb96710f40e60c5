-- ===== src/Run.antt =====
-- Results of C++ code that may run into undefined behaviour: a fault instead of a value. A loop that
-- does not end within its turns is a fault too, `out_of_fuel`.
use verlihub.Base.{◌≡◌, refl, ℕ, zero, suc, ◌%◌, List, Option, none, some, get_elem?}

pub data Fault : Type 0 where
  out_of_range division_by_zero null_pointer use_after_free signed_overflow out_of_fuel : Fault

pub data Run {ℓ} (A : Type ℓ) : Type ℓ where
  fault : Fault → Run A
  ok : A → Run A

-- What follows a fault is not run.
infixl 5 ◌>>=◌
abbrev pub ◌>>=◌ {ℓ κ} : {A : Type ℓ} {B : Type κ} → Run A → (A → Run B) → Run B
fault why >>= next = fault why
ok x >>= next = next x

pub regroup_steps {ℓ} :
    {A B C : Type ℓ} (first : Run A) (second : A → Run B) (third : B → Run C)
    → (first >>= second) >>= third ≡ first >>= (λ x. second x >>= third)
regroup_steps (fault why) second third = refl
regroup_steps (ok x) second third = refl

-- `a % n` on unsigned numbers
unfoldable pub modulo : ℕ → ℕ → Run ℕ
modulo a zero = fault division_by_zero
modulo a (suc n) = ok (a % suc n)

unfoldable pub or_out_of_range {ℓ} : {A : Type ℓ} → Option A → Run A
or_out_of_range none = fault out_of_range
or_out_of_range (some a) = ok a

-- `v[i]`
unfoldable pub at {ℓ} : {A : Type ℓ} → List A → ℕ → Run A
at xs i = or_out_of_range (get_elem? xs i)

-- The code ends without a fault, in a value that satisfies `Q`.
abbrev pub Returns {ℓ κ} : {A : Type ℓ} (program : Run A) (Q : A → Type κ) → Type (ℓ ⊔ κ)
Returns {A} program Q = (x : A) × (program ≡ ok x) × Q x
