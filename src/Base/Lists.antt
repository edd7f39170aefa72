-- ===== src/Base/Lists.antt =====
-- Lists measured and indexed by native numbers, and predicates over all their elements.
use Prim.Native.Nat.{ℕ, zero, suc, ◌+◌, ◌<◌}
use mathlib.Core.Path.{◌≡◌, refl}
use mathlib.Core.List.{List, [], ◌∷◌, ◌++◌, Memᴰ, reverse, reverse-cons}
use mathlib.Core.Option.{Option, none, some}
use native.Mathlib.Omega.{arith}

module _ {ℓ} {A : Type ℓ} where
  abbrev pub length : List A → ℕ
  length [] = 0
  length (x ∷ xs) = suc (length xs)

  abbrev pub get_elem? : List A → ℕ → Option A
  get_elem? [] i = none
  get_elem? (x ∷ xs) zero = some x
  get_elem? (x ∷ xs) (suc i) = get_elem? xs i

  pub length-append : (xs ys : List A) → length (xs ++ ys) ≡ length xs + length ys
  length-append [] ys = omega arith
  length-append (x ∷ xs) ys = omega (arith, length-append xs ys)

  pub get_elem?-in : (xs : List A) (i : ℕ) → i < length xs → (x : A) × (get_elem? xs i ≡ some x)
  get_elem?-in [] i h = absurd (omega (arith, h))
  get_elem?-in (x ∷ xs) zero h = (x, refl)
  get_elem?-in (x ∷ xs) (suc i) h = get_elem?-in xs i (omega (arith, h))

module _ {ℓ κ} {A : Type ℓ} (P : A → Type κ) where
  abbrev pub All : List A → Type κ
  All [] = Unit
  All (x ∷ xs) = P x × All xs

  pub All-append : (xs ys : List A) → All xs → All ys → All (xs ++ ys)
  All-append [] ys _ k = k
  All-append (x ∷ xs) ys (p, h) k = (p, All-append xs ys h k)

  pub All-reverse : (xs : List A) → All xs → All (reverse xs)
  All-reverse [] _ = tt
  All-reverse (x ∷ xs) (p, h) =
      rw (reverse-cons x xs) (All-append (reverse xs) (x ∷ []) (All-reverse xs h) (p, tt))

  pub All-intro : ((x : A) → P x) → (xs : List A) → All xs
  All-intro p [] = tt
  All-intro p (x ∷ xs) = (p x, All-intro p xs)

module _ {ℓ κ μ} {A : Type ℓ} {P : A → Type κ} {Q : A → Type μ} (f : (x : A) → P x → Q x) where
  pub All-map : (xs : List A) → All P xs → All Q xs
  All-map [] _ = tt
  All-map (x ∷ xs) (p, h) = (f x p, All-map xs h)

module _ {ℓ κ} {A : Type ℓ} {P : A → Type κ} where
  pub All_of_mem : (xs : List A) → ((x : A) → Memᴰ x xs → P x) → All P xs
  All_of_mem [] f = tt
  All_of_mem (x ∷ xs) f = (f x (Memᴰ.head refl), All_of_mem xs (λ y m. f y (Memᴰ.tail m)))
