-- ===== src/Base/Equality.antt =====
-- Go's `==` on numbers, strings and Booleans: every type whose equality can be decided.
use Prim.Native.Nat.{ℕ}
use mathlib.Core.Path.{◌≡◌, refl}
use mathlib.Core.Logic.{ite, ◌⊎◌}
use native.Mathlib.Omega.{arith}
use mathlib.Core.Bool.{Bool, true, false, ◌||◌, Bool-discrete}
use mathlib.Core.List.{List, [], ◌∷◌, ◌++◌}
use native.Mathlib.Decide.{ℕ_discrete}

pub record Eq {ℓ} (A : Type ℓ) : Type ℓ where
  pub dec : Discrete A

module _ {ℓ} {A : Type ℓ} ⦃e : Eq A⦄ where
  infix 50 ◌==◌
  abbrev pub ◌==◌ : A → A → Bool
  a == b = ite (e.dec a b) true false

  abbrev pub contains : List A → A → Bool
  contains [] a = false
  contains (x ∷ xs) a = a == x || contains xs a

  pub ==-cases : (a b : A) → ((a ≡ b) × ((a == b) ≡ true)) ⊎ ((a == b) ≡ false)
  ==-cases a b = ground arith

  pub ==-self : (a : A) → (a == a) ≡ true
  ==-self a = ground arith

  pub ==-comm : (a b : A) → (a == b) ≡ (b == a)
  ==-comm a b = ground arith

  pub contains-append :
      (xs ys : List A) (a : A) → contains (xs ++ ys) a ≡ (contains xs a || contains ys a)
  contains-append [] ys a = refl
  contains-append (x ∷ xs) ys a = ground (arith, contains-append xs ys a)

instance unfoldable pub nat_eq : Eq ℕ
unfolding ℕ_discrete
nat_eq = record { dec = ℕ_discrete }

bytes_dec : Discrete (List ℕ)
unfolding ℕ_discrete
bytes_dec = hlevel ℕ_discrete

-- Shut in proofs, where a split on `s == t` yields the equation or its negation.
instance unfoldable pub bytes_eq : Eq (List ℕ)
unfolding bytes_dec
bytes_eq = record { dec = bytes_dec }

instance unfoldable pub bool_eq : Eq Bool
bool_eq = record { dec = Bool-discrete }
