-- ===== src/Effect/Ensures.antt =====
-- `Ensures s Q m`: with the answers of `s`, `m` does not panic, and what it returns satisfies `Q`.
use xr_telepresence_k8s.Base.{Bool, true, false, ◌≡◌, refl, if◌then◌else◌, List, Option, some}
use xr_telepresence_k8s.Effect.{
  Exec, Result, ok, err, panic, Error, ◌>>=◌, ◌>>◌, and_then, caught, unless, pure, raise, ignoring,
  attempt, or_panic,
}

abbrev pub Returns {ℓ} : {A : Type ℓ} → (A → Type 0) → Result A → Type 0
Returns Q (ok a) = Q a
Returns Q (err _) = Unit
Returns Q panic = ⊥

pub record Ensures {ℓ} {S C : Type 0} {A : Type ℓ} (s : S) (Q : A → Type 0) (m : Exec S C A)
    : Type 0 where
  pub at : (h : List C) → Returns Q (m s h).0

-- It does not panic.
abbrev pub Calm {ℓ} : {S C : Type 0} {A : Type ℓ} → S → Exec S C A → Type 0
Calm s m = Ensures s (λ _. Unit) m

module _ {S C : Type 0} {s : S} where
  pub bind-Ensures {ℓ μ} :
      {A : Type ℓ} {B : Type μ} {P : A → Type 0} {Q : B → Type 0} {m : Exec S C A}
      {f : A → Exec S C B}
      → Ensures s P m
      → ((a : A) → P a → Ensures s Q (f a))
      → Ensures s Q (m >>= f)
  bind-Ensures {A} {B} {P} {Q} {m} {f} k e = record { at = λ h. go (m s h).0 (m s h).1 (k.at h) }
    where
      go : (r : Result A) (h : List C) → Returns P r → Returns Q (and_then f s r h).0
      go (ok a) h p = (e a p).at h
      go (err _) h p = tt
      go panic h p = p

  pub seq-Ensures {μ} :
      {B : Type μ} {Q : B → Type 0} {m : Exec S C (Unit {0})} {k : Exec S C B}
      → Calm s m
      → Ensures s Q k
      → Ensures s Q (m >> k)
  seq-Ensures e k = bind-Ensures e (λ _ _. k)

  pub pure-Ensures {ℓ} : {A : Type ℓ} {Q : A → Type 0} {a : A} → Q a → Ensures {C = C} s Q (pure a)
  pure-Ensures q = record { at = λ h. q }

  pub raise-Ensures {ℓ} : {A : Type ℓ} {Q : A → Type 0} {e : Error} → Ensures {C = C} s Q (raise e)
  raise-Ensures = record { at = λ h. tt }

  pub ignoring-Calm :
      {m : Exec S C (Unit {0})} (p : Error → Bool) → Calm s m → Calm s (ignoring p m)
  ignoring-Calm {m} p e = record { at = λ h. go (m s h).0 (e.at h) }
    where
      go : (r : Result (Unit {0})) → Returns (λ _. Unit) r → Returns (λ _. Unit) (unless p r)
      go (ok _) q = tt
      go (err e) q = tolerated (p e)
        where
          tolerated : (b : Bool) → Returns {0} (λ _. Unit) (if b then ok tt else err e)
          tolerated true = tt
          tolerated false = tt
      go panic q = q

  -- What is caught is a value that satisfies `Q`, or an error.
  pub attempt-Ensures {ℓ} :
      {A : Type ℓ} {Q : A → Type 0} {m : Exec S C A}
      → Ensures s Q m
      → Ensures s (Returns Q) (attempt m)
  attempt-Ensures {A} {Q} {m} e = record { at = λ h. go (m s h).0 (e.at h) }
    where
      go : (r : Result A) → Returns Q r → Returns (Returns Q) (caught r)
      go (ok a) q = q
      go (err _) q = tt
      go panic q = q

  pub if-Ensures {ℓ} :
      {A : Type ℓ} {Q : A → Type 0} {m k : Exec S C A} (b : Bool)
      → Ensures s Q m
      → Ensures s Q k
      → Ensures s Q (if b then m else k)
  if-Ensures true e f = e
  if-Ensures false e f = f

  pub or_panic_then {ℓ μ} :
      {A : Type ℓ} {B : Type μ} {Q : B → Type 0} {o : Option A} {f : A → Exec S C B} {a : A}
      → o ≡ some a
      → ((x : A) → x ≡ a → Ensures s Q (f x))
      → Ensures s Q (or_panic o >>= f)
  or_panic_then {a} e k = rw e (record { at = λ h. (k a refl).at h })

  pub Ensures-weaken {ℓ} :
      {A : Type ℓ} {P Q : A → Type 0} {m : Exec S C A}
      → ((a : A) → P a → Q a)
      → Ensures s P m
      → Ensures s Q m
  Ensures-weaken {A} {P} {Q} {m} f e = record { at = λ h. go (m s h).0 (e.at h) }
    where
      go : (r : Result A) → Returns P r → Returns Q r
      go (ok a) p = f a p
      go (err _) p = tt
      go panic p = p
