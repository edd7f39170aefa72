-- ===== src/Session/Placement/Room.antt =====
-- client_pods.go: the search for a pod with room, and what one allocation does to a template's pods.
use xr_telepresence_k8s.Base.{
  ℕ, zero, suc, ◌≤◌, ◌≡◌, refl, inl, inr, true, false, Option, none, some, List, [], ◌∷◌, ◌++◌,
  arith, All, length, length-append, Bool-cases, bytes_eq,
}
use xr_telepresence_k8s.Base.Text.{Bytes}
use xr_telepresence_k8s.Session.Allocation.{PodClient, ServingPod}
use xr_telepresence_k8s.Session.Placement.{has_room, find_first_pod_available, add_at}

-- The pod at the index has room, and none before it has.
abbrev pub IsFirst : ℕ → List ServingPod → ℕ → Type 0
IsFirst max_clients [] i = ⊥
IsFirst max_clients (p ∷ ps) zero = has_room max_clients p ≡ true
IsFirst max_clients (p ∷ ps) (suc i) = (has_room max_clients p ≡ false) × IsFirst max_clients ps i

abbrev pub AllFull : ℕ → List ServingPod → Type 0
AllFull max_clients = All (λ p. has_room max_clients p ≡ false)

abbrev pub Finds : ℕ → List ServingPod → Option ℕ → Type 0
Finds max_clients ps none = AllFull max_clients ps
Finds max_clients ps (some i) = IsFirst max_clients ps i

Finds-cons :
    (max_clients : ℕ) (p : ServingPod) (ps : List ServingPod) (i : Option ℕ)
    → has_room max_clients p ≡ false
    → Finds max_clients ps i
    → Finds max_clients (p ∷ ps) (elim i [ none ↦ none | some j ↦ some (suc j) ])
Finds-cons max_clients p ps none e h = (e, h)
Finds-cons max_clients p ps (some i) e h = (e, h)

-- The search finds the first pod with room, or no pod has room.
pub find_first_pod_available-Finds :
    (max_clients : ℕ) (ps : List ServingPod)
    → Finds max_clients ps (find_first_pod_available max_clients ps)
unfolding find_first_pod_available
find_first_pod_available-Finds max_clients [] = tt
find_first_pod_available-Finds max_clients (p ∷ ps) = elim (Bool-cases (has_room max_clients p)) [
  | inl e ↦ rw e e
  | inr e ↦ rw e (Finds-cons max_clients p ps _ e (find_first_pod_available-Finds max_clients ps))
]

-- One pod of that name has one more client, and all else is the same; or such a pod is new.
pub data Added (client : PodClient) (name : Bytes)
    : List ServingPod → List ServingPod → Type 0 where
  here :
      (p : ServingPod) (ps : List ServingPod)
      → p.name ≡ name
      → Added client name (p ∷ ps) (record p { clients = p.clients ++ client ∷ [] } ∷ ps)
  there :
      (p : ServingPod) {ps qs : List ServingPod}
      → Added client name ps qs
      → Added client name (p ∷ ps) (p ∷ qs)
  opened : Added client name [] (record { name = name; clients = client ∷ [] } ∷ [])

pub opened_at_end :
    (client : PodClient) (name : Bytes) (ps : List ServingPod)
    → Added client name ps (ps ++ record { name = name; clients = client ∷ [] } ∷ [])
opened_at_end client name [] = opened
opened_at_end client name (p ∷ ps) = there p (opened_at_end client name ps)

-- No pod serves more clients than its template allows.
abbrev pub Within : ℕ → List ServingPod → Type 0
Within max_clients = All (λ p. length p.clients ≤ max_clients)

pub Within-opened :
    (max_clients : ℕ) (client : PodClient) (name : Bytes) (ps : List ServingPod)
    → 1 ≤ max_clients
    → Within max_clients ps
    → Within max_clients (ps ++ record { name = name; clients = client ∷ [] } ∷ [])
Within-opened max_clients client name [] one w = (one, tt)
Within-opened max_clients client name (p ∷ ps) one (h, w) =
    (h, Within-opened max_clients client name ps one w)

-- The first pod with room takes the client, within its limit.
pub add_at-IsFirst :
    (max_clients : ℕ) (client : PodClient) (i : ℕ) (ps : List ServingPod)
    → IsFirst max_clients ps i
    → Within max_clients ps
    → (name : Bytes) × (qs : List ServingPod) × (add_at client i ps ≡ some (name, qs))
      × Added client name ps qs
      × Within max_clients qs
unfolding add_at
add_at-IsFirst max_clients client i [] f w = absurd f
add_at-IsFirst max_clients client zero (p ∷ ps) f (h, w) = (
  p.name,
  record p { clients = p.clients ++ client ∷ [] } ∷ ps,
  refl,
  here p ps refl,
  (ground (arith, length-append p.clients (client ∷ [])), w),
)
add_at-IsFirst max_clients client (suc i) (p ∷ ps) (_, f) (h, w) =
    let (name, qs, e, a, w') = add_at-IsFirst max_clients client i ps f w in
    (name, p ∷ qs, rw e, there p a, (h, w'))
