-- ===== src/Effect.antt =====
-- What a Go function that calls a server does: it returns a value, returns an error or panics, and
-- leaves a list of the calls that it made, the newest first. The answers of the server are not code
-- of the repository: they are a parameter, and may depend on every earlier call, so that the
-- server's own state and its other clients are covered.
pub mod Ensures
pub mod Emits
use xr_telepresence_k8s.Base.{◌≡◌, ◌⊎◌, Bool, true, false, Option, none, some, List, if◌then◌else◌}
use xr_telepresence_k8s.Base.Text.{Bytes}

-- What the code asks of an error: `errors.IsNotFound`, `errors.IsAlreadyExists`.
pub data Reason : Type 0 where
  not_found already_exists other : Reason

-- The constructor's text is `err.Error()`.
pub data Error : Type 0 where
  api_error : Reason → Bytes → Error

abbrev pub reason : Error → Reason
reason (api_error r _) = r

abbrev pub message : Error → Bytes
message (api_error _ m) = m

-- A Go function returns a value, returns an error, or panics.
pub data Result {ℓ} (A : Type ℓ) : Type ℓ where
  ok : A → Result A
  err : Error → Result A
  panic : Result A

-- The value or the error, for code that inspects `err`; a panic goes through.
abbrev pub caught {ℓ} : {A : Type ℓ} → Result A → Result (Result A)
caught (ok a) = ok (ok a)
caught (err e) = ok (err e)
caught panic = panic

-- `err != nil && !errors.IsNotFound(err)`, and the same for `IsAlreadyExists`
abbrev pub is_not_found : Error → Bool
is_not_found (api_error not_found _) = true
is_not_found _ = false

abbrev pub is_already_exists : Error → Bool
is_already_exists (api_error already_exists _) = true
is_already_exists _ = false

abbrev pub unless : (Error → Bool) → Result (Unit {0}) → Result (Unit {0})
unless p (ok a) = ok a
unless p (err e) = if p e then ok tt else err e
unless p panic = panic

-- `S` answers the calls, which are of type `C`.
abbrev pub Exec {ℓ} : Type 0 → Type 0 → Type ℓ → Type ℓ
Exec S C A = S → List C → Result A × List C

module _ {S C : Type 0} where
  abbrev pub pure {ℓ} : {A : Type ℓ} → A → Exec S C A
  pure a s h = (ok a, h)

  abbrev pub raise {ℓ} : {A : Type ℓ} → Error → Exec S C A
  raise e s h = (err e, h)

  abbrev pub and_then {ℓ κ} :
      {A : Type ℓ} {B : Type κ} → (A → Exec S C B) → S → Result A → List C → Result B × List C
  and_then f s (ok a) h = f a s h
  and_then f s (err e) h = (err e, h)
  and_then f s panic h = (panic, h)

  infixl 5 ◌>>=◌ ◌>>◌
  abbrev pub ◌>>=◌ {ℓ κ} : {A : Type ℓ} {B : Type κ} → Exec S C A → (A → Exec S C B) → Exec S C B
  ◌>>=◌ m f s h = and_then f s (m s h).0 (m s h).1

  abbrev pub ◌>>◌ {ℓ} : {B : Type ℓ} → Exec S C (Unit {0}) → Exec S C B → Exec S C B
  m >> k = m >>= λ _. k

  abbrev pub attempt {ℓ} : {A : Type ℓ} → Exec S C A → Exec S C (Result A)
  attempt m s h = (caught (m s h).0, (m s h).1)

  abbrev pub or_panic {ℓ} : {A : Type ℓ} → Option A → Exec S C A
  or_panic none s h = (panic, h)
  or_panic (some a) s h = (ok a, h)

  abbrev pub result {ℓ} : {A : Type ℓ} → Result A → Exec S C A
  result r s h = (r, h)

  -- Goes on after an error of the kind named, and returns any other.
  abbrev pub ignoring : (Error → Bool) → Exec S C (Unit {0}) → Exec S C (Unit {0})
  ignoring p m s h = (unless p (m s h).0, (m s h).1)

-- The answer to a write: it is accepted, or refused for a reason that the code tolerates.
abbrev pub Settles : (Error → Bool) → Option Error → Type 0
Settles tolerated answer =
    (answer ≡ none) ⊎ ((e : Error) × (answer ≡ some e) × (tolerated e ≡ true))

pub ok_injective {ℓ} : {A : Type ℓ} {a b : A} → ◌≡◌ {A = Result A} (ok a) (ok b) → a ≡ b
ok_injective h = cc
