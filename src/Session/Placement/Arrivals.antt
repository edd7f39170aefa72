-- ===== src/Session/Placement/Arrivals.antt =====
-- client_pods.go: what the placement writes into the status.
use xr_telepresence_k8s.Base.{
  ◌≡◌, refl, ◌∙◌, inl, inr, true, false, some, List, [], ◌∷◌, arith, bytes_eq, contains,
  Option-cases, Bool-cases, ℕ,
}
use xr_telepresence_k8s.Base.Panic.{none_absurd, some_injective}
use xr_telepresence_k8s.Base.Dict.{Dict, lookup, insert, lookup-insert}
use xr_telepresence_k8s.Base.Text.{Bytes}
use xr_telepresence_k8s.Resources.Session.{PodStatus, ClientStatus, default_time}
use xr_telepresence_k8s.Session.Placement.{allocate_clients, Pool, allocate_templates}
use xr_telepresence_k8s.Session.Allocation.{AllocationMap}

-- The entry of a client that has just been placed.
abbrev pub arrived : Dict Bytes PodStatus → ClientStatus
arrived pods = record { last_seen_at = default_time; ready = false; pod_status = pods }

abbrev pub IsArrival : Bytes → Dict Bytes ClientStatus → Type 0
IsArrival k clients = (pods : Dict Bytes PodStatus) × (lookup k clients ≡ some (arrived pods))

-- The clients placed have new entries, and the others' entries are as they were.
pub record Arrive (ids : List Bytes) (clients clients' : Dict Bytes ClientStatus) : Type 0 where
  pub others : (k : Bytes) → contains ids k ≡ false → lookup k clients' ≡ lookup k clients
  pub placed : (k : Bytes) → contains ids k ≡ true → IsArrival k clients'

after_first :
    (id : Bytes) (ids : List Bytes) (pods : Dict Bytes PodStatus)
    (clients clients' : Dict Bytes ClientStatus)
    → Arrive ids (insert id (arrived pods) clients) clients'
    → Arrive (id ∷ ids) clients clients'
after_first id ids pods clients clients' a = record {
  others = λ k absent.
      a.others k (ground (arith, absent))
      ∙ lookup-insert k id (arrived pods) clients
      ∙ ground (arith, absent);
  placed = λ k present. elim (Bool-cases (contains ids k)) [
    | inl b ↦ a.placed k b
    | inr b ↦ (
      pods,
      a.others k b ∙ lookup-insert k id (arrived pods) clients ∙ ground (arith, present, b),
    )
  ];
}

module _ (uuid : ℕ → Bytes) (session_name : Bytes) where
  -- If the allocation of the new clients succeeds, each of them has a new entry in the status,
  -- connected and not yet ready, and the entries of all others are as they were.
  pub allocate_clients-Arrive :
      (ids : List Bytes) (m : AllocationMap) (pool : Pool) (clients : Dict Bytes ClientStatus)
      {r : AllocationMap × Pool × Dict Bytes ClientStatus}
      → allocate_clients uuid session_name ids m pool clients ≡ some r
      → Arrive ids clients r.2
  unfolding allocate_clients
  allocate_clients-Arrive [] m pool clients h =
      rw (← some_injective h) (record { others = λ k e. refl; placed = λ k e. cc })
  allocate_clients-Arrive (id ∷ ids) m pool clients h =
      elim (Option-cases
        (allocate_templates uuid session_name (record { id = id; connected = true }) m pool [])) [
          | inl e ↦ absurd (none_absurd (rw (e, allocate_clients) at h))
          | inr ((n, pool', pods), e) ↦ after_first id ids pods clients _ (
              allocate_clients-Arrive ids n pool' (insert id (arrived pods) clients)
                (rw (e, allocate_clients) at h))
        ]
