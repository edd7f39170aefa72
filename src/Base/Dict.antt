-- ===== src/Base/Dict.antt =====
-- Go's maps as association lists. The order of the list is the order in which a `range` loop
-- visits the entries; Go leaves it open, so the theorems are about every list.
use mathlib.Core.List
use mathlib.Core.Path.{◌≡◌, refl, sym, subst}
use mathlib.Core.Logic.{inl, inr}
use mathlib.Core.Option.{Option, none, some}
use mathlib.Core.List.{List, [], ◌∷◌}
use native.Mathlib.Omega.{arith}
use xr_telepresence_k8s.Base.Equality.{Eq, ◌==◌, ==-cases}
use xr_telepresence_k8s.Base.Tests.{if◌then◌else◌, Bool-cases}
use xr_telepresence_k8s.Base.Lists.{All}

abbrev pub Dict {ℓ κ} : Type ℓ → Type κ → Type (ℓ ⊔ κ)
Dict K V = List (K × V)

abbrev pub keys {ℓ κ} : {K : Type ℓ} {V : Type κ} → Dict K V → List K
keys = List.map (λ (k, _). k)

module _ {ℓ κ} {K : Type ℓ} {V : Type κ} ⦃e : Eq K⦄ where
  -- `v, ok := d[k]`
  unfoldable pub lookup : K → Dict K V → Option V
  lookup k [] = none
  lookup k ((j, v) ∷ d) = if k == j then some v else lookup k d

  -- `d[k]`, with the zero value for a missing key
  unfoldable pub lookup_or : V → K → Dict K V → V
  unfolding lookup
  lookup_or zero k d = elim (lookup k d) [ none ↦ zero | some v ↦ v ]

  -- `d[k] = v`
  unfoldable pub insert : K → V → Dict K V → Dict K V
  insert k v [] = (k, v) ∷ []
  insert k v ((j, w) ∷ d) = if k == j then (k, v) ∷ d else (j, w) ∷ insert k v d

  -- `delete(d, k)`
  unfoldable pub erase : K → Dict K V → Dict K V
  erase k [] = []
  erase k ((j, w) ∷ d) = let rest = erase k d in if k == j then rest else (j, w) ∷ rest

  -- No key has two entries.
  abbrev pub NodupKeys : Dict K V → Type κ
  NodupKeys [] = Unit
  NodupKeys ((k, _) ∷ d) = (lookup k d ≡ none) × NodupKeys d

  pub lookup-nil : (k : K) → lookup k [] ≡ none
  unfolding lookup
  lookup-nil k = refl

  pub lookup-cons :
      (j k : K) (v : V) (d : Dict K V)
      → lookup j ((k, v) ∷ d) ≡ (if j == k then some v else lookup j d)
  unfolding lookup
  lookup-cons j k v d = refl

  pub lookup-insert :
      (j k : K) (v : V) (d : Dict K V)
      → lookup j (insert k v d) ≡ (if j == k then some v else lookup j d)
  unfolding insert lookup
  lookup-insert j k v [] = lookup-cons j k v []
  lookup-insert j k v (_ ∷ d) = ground (arith, lookup-insert j k v d)

  pub lookup-insert_self : (k : K) (v : V) (d : Dict K V) → lookup k (insert k v d) ≡ some v
  lookup-insert_self k v d = ground (arith, lookup-insert k k v d)

  pub lookup-erase :
      (j k : K) (d : Dict K V) → lookup j (erase k d) ≡ (if j == k then none else lookup j d)
  unfolding erase lookup
  lookup-erase j k [] = ground arith
  lookup-erase j k (_ ∷ d) = ground (arith, lookup-erase j k d)

  pub insert-NodupKeys : (k : K) (v : V) (d : Dict K V) → NodupKeys d → NodupKeys (insert k v d)
  unfolding insert
  insert-NodupKeys k v [] _ = (lookup-nil k, tt)
  insert-NodupKeys k v ((j, _) ∷ d) (fresh, u) =
      ground (arith, insert-NodupKeys k v d u, lookup-insert j k v d)

  pub erase-NodupKeys : (k : K) (d : Dict K V) → NodupKeys d → NodupKeys (erase k d)
  unfolding erase
  erase-NodupKeys k [] _ = tt
  erase-NodupKeys k ((j, _) ∷ d) (fresh, u) =
      ground (arith, erase-NodupKeys k d u, lookup-erase j k d)

-- Every entry satisfies the predicate.
module _ {ℓ κ μ} {K : Type ℓ} {V : Type κ} (P : K → V → Type μ) where
  abbrev pub Every : Dict K V → Type μ
  Every [] = Unit
  Every ((k, v) ∷ d) = P k v × Every d

module _ {ℓ κ μ} {K : Type ℓ} {V : Type κ} ⦃e : Eq K⦄ (P : K → V → Type μ) where
  pub Every-insert : (k : K) (v : V) (d : Dict K V) → P k v → Every P d → Every P (insert k v d)
  unfolding insert
  Every-insert k v [] p _ = (p, tt)
  Every-insert k v ((j, w) ∷ d) p (q, qs) = elim (Bool-cases (k == j)) [
    | inl b ↦ rw b (p, qs)
    | inr b ↦ rw b (q, Every-insert k v d p qs)
  ]

  pub Every-erase : (k : K) (d : Dict K V) → Every P d → Every P (erase k d)
  unfolding erase
  Every-erase k [] _ = tt
  Every-erase k ((j, w) ∷ d) (q, qs) = elim (Bool-cases (k == j)) [
    | inl b ↦ rw b (Every-erase k d qs)
    | inr b ↦ rw b (q, Every-erase k d qs)
  ]

  -- It holds of the entry that is found.
  pub Every-lookup : (k : K) (d : Dict K V) {v : V} → lookup k d ≡ some v → Every P d → P k v
  unfolding lookup
  Every-lookup k [] h _ = cc
  Every-lookup k ((j, w) ∷ d) {v} h (q, qs) = elim (==-cases k j) [
    | inl (same, b) ↦ subst (λ x. P x v) (sym same) (subst (P j) (here (rw b at h)) q)
    | inr b ↦ Every-lookup k d (rw b at h) qs
  ]
    where
      here : ◌≡◌ {A = Option V} (some w) (some v) → w ≡ v
      here h = cc

pub Every-keys {ℓ κ μ} :
    {K : Type ℓ} {V : Type κ} {P : K → V → Type μ} {Q : K → Type μ} (d : Dict K V)
    → ((k : K) (v : V) → P k v → Q k)
    → Every P d
    → All Q (keys d)
Every-keys [] f _ = tt
Every-keys ((k, v) ∷ d) f (p, ps) = (f k v p, Every-keys d f ps)
