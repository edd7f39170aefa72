-- ===== src/Effect/Emits.antt =====
-- `Emits P m`: whatever the server answers, each call that `m` makes satisfies `P`.
use xr_telepresence_k8s.Base.{
  Bool, true, false, ◌≡◌, refl, if◌then◌else◌, List, All, Option, none, some,
}
use xr_telepresence_k8s.Effect.{
  Exec, Result, ok, err, panic, Error, ◌>>=◌, ◌>>◌, and_then, pure, raise, ignoring, attempt,
  or_panic, result,
}

pub record Emits {ℓ κ} {S C : Type 0} {A : Type ℓ} (P : C → Type κ) (m : Exec S C A) : Type κ where
  pub at : (s : S) (h : List C) → All P h → All P (m s h).1

module _ {κ} {S C : Type 0} {P : C → Type κ} where
  pub bind-Emits {ℓ μ} :
      {A : Type ℓ} {B : Type μ} {m : Exec S C A} {f : A → Exec S C B}
      → Emits P m
      → ((a : A) → Emits P (f a))
      → Emits P (m >>= f)
  bind-Emits {A} {B} {m} {f} k e = record { at = λ s h p. go s (m s h).0 (m s h).1 (k.at s h p) }
    where
      go : (s : S) (r : Result A) (h : List C) → All P h → All P (and_then f s r h).1
      go s (ok a) h p = (e a).at s h p
      go s (err _) h p = p
      go s panic h p = p

  pub seq-Emits {μ} :
      {B : Type μ} {m : Exec S C (Unit {0})} {k : Exec S C B}
      → Emits P m
      → Emits P k
      → Emits P (m >> k)
  seq-Emits e k = bind-Emits e (λ _. k)

  pub pure-Emits {ℓ} : {A : Type ℓ} {a : A} → Emits {S = S} P (pure a)
  pure-Emits = record { at = λ s h p. p }

  pub raise-Emits {ℓ} : {A : Type ℓ} {e : Error} → Emits {S = S} P (raise {A = A} e)
  raise-Emits = record { at = λ s h p. p }

  pub ignoring-Emits :
      {m : Exec S C (Unit {0})} (p : Error → Bool) → Emits P m → Emits P (ignoring p m)
  ignoring-Emits p e = record { at = λ s h a. e.at s h a }

  pub attempt-Emits {ℓ} : {A : Type ℓ} {m : Exec S C A} → Emits P m → Emits P (attempt m)
  attempt-Emits e = record { at = λ s h a. e.at s h a }

  pub or_panic-Emits {ℓ} : {A : Type ℓ} (o : Option A) → Emits {S = S} P (or_panic o)
  or_panic-Emits none = record { at = λ s h a. a }
  or_panic-Emits (some x) = record { at = λ s h a. a }

  pub result-Emits {ℓ} : {A : Type ℓ} (r : Result A) → Emits {S = S} P (result r)
  result-Emits r = record { at = λ s h a. a }

  pub if-Emits {ℓ} :
      {A : Type ℓ} {m k : Exec S C A} (b : Bool)
      → (b ≡ true → Emits P m)
      → (b ≡ false → Emits P k)
      → Emits P (if b then m else k)
  if-Emits true e f = e refl
  if-Emits false e f = f refl
