-- ===== src/Session/Placement.antt =====
-- client_pods.go: where a new client goes. A template's pods are sorted, the first with room takes
-- the client, an idle pod is taken back otherwise, and a pod is named anew where there is none.
pub mod Names
pub mod Sorted
pub mod Totality
pub mod Arrivals
pub mod Room
pub mod Capacity
pub mod Order
pub mod Reuse
use mathlib.Core.List.{reverse}
use xr_telepresence_k8s.Base.{
  ℕ, zero, suc, ◌+◌, ◌^◌, Bool, true, false, not, ◌&&◌, Option, none, some, List, [], ◌∷◌, ◌++◌,
  ◌==◌, nat_eq, bytes_eq, if◌then◌else◌, length, ltb,
}
use xr_telepresence_k8s.Base.Panic.{◌>>=◌}
use xr_telepresence_k8s.Base.Dict.{Dict, lookup, insert}
use xr_telepresence_k8s.Base.Text.{Bytes, text, from_last, bytes_lt}
use xr_telepresence_k8s.Resources.Core.{ContainerPort, Container, PodSpec, Pod}
use xr_telepresence_k8s.Resources.Session.{PodStatus, ClientStatus, default_time}
use xr_telepresence_k8s.Session.Allocation.{
  PodClient, ServingPod, AllocationValue, AllocationMap, TemplatePodMap, inner, take_pod,
}

-- `comparePods`: the ids are cut out, and may panic, only after the first test.
unfoldable pub compare_pods : ServingPod → ServingPod → Option Bool
compare_pods a b = if ltb (length a.clients) (length b.clients) then some true else do
  id_a ← from_last b'-' a.name
  id_b ← from_last b'-' b.name
  some (length a.clients == length b.clients && bytes_lt id_a id_b)

-- The order that `sortAllocationMap` hands to `sort.Slice`.
unfoldable pub sorts_before : ServingPod → ServingPod → Option Bool
unfolding compare_pods
sorts_before a b = do less ← compare_pods a b; some (not less)

-- `sort.Slice`: the insertion sort that it runs on up to twelve elements. The sorted part is kept
-- backwards, so that its last element, which is compared first, is at the head.
unfoldable pub sink : ServingPod → List ServingPod → Option (List ServingPod)
unfolding sorts_before
sink x [] = some (x ∷ [])
sink x (p ∷ ps) = elim (sorts_before x p) [
  | none ↦ none
  | some true ↦ do rest ← sink x ps; some (p ∷ rest)
  | some false ↦ some (x ∷ p ∷ ps)
]

unfoldable pub sort_from : List ServingPod → List ServingPod → Option (List ServingPod)
unfolding sink
sort_from sorted [] = some (reverse sorted)
sort_from sorted (x ∷ xs) = elim (sink x sorted) [
  | none ↦ none
  | some sorted' ↦ sort_from sorted' xs
]

unfoldable pub sort_pods : List ServingPod → Option (List ServingPod)
unfolding sort_from
sort_pods = sort_from []

unfoldable pub sort_allocation_map : AllocationMap → Option AllocationMap
unfolding sort_pods
sort_allocation_map [] = some []
sort_allocation_map ((t, v) ∷ m) = do
  pods ← sort_pods v.pods
  rest ← sort_allocation_map m
  some ((t, record v { pods = pods }) ∷ rest)

-- `len(pod.Clients) < maxClients`, for `maxClients` negative too
abbrev pub has_room : ℕ → ServingPod → Bool
has_room max_clients p = ltb max_clients (2 ^ 63) && ltb (length p.clients) max_clients

-- `none` is the index -1.
unfoldable pub find_first_pod_available : ℕ → List ServingPod → Option ℕ
find_first_pod_available max_clients [] = none
find_first_pod_available max_clients (p ∷ ps) =
    let rest = find_first_pod_available max_clients ps in
    if has_room max_clients p then some 0 else elim rest [ none ↦ none | some i ↦ some (suc i) ]

-- The first key that the loop meets, or the empty name.
unfoldable pub reutilize_pod : Dict Bytes Pod → Bytes
reutilize_pod [] = []
reutilize_pod ((k, _) ∷ _) = k

unfoldable pub port_paths : Bytes → List ContainerPort → List Bytes
port_paths pod_name [] = []
port_paths pod_name (port ∷ ports) =
    (text "/" ++ pod_name ++ text "/" ++ port.name) ∷ port_paths pod_name ports

unfoldable pub container_paths : Bytes → List Container → List Bytes
unfolding port_paths
container_paths pod_name [] = []
container_paths pod_name (c ∷ cs) = port_paths pod_name c.ports ++ container_paths pod_name cs

unfoldable pub build_pod_status : Bytes → PodSpec → PodStatus
unfolding container_paths
build_pod_status pod_name spec = record {
  paths = container_paths pod_name spec.containers;
  ready = false;
}

-- `allocValue.Pods[i].Clients = append(…)`; an index out of range would panic.
unfoldable pub add_at : PodClient → ℕ → List ServingPod → Option (Bytes × List ServingPod)
add_at client i [] = none
add_at client zero (p ∷ ps) = some (p.name, record p { clients = p.clients ++ client ∷ [] } ∷ ps)
add_at client (suc i) (p ∷ ps) = do (name, ps') ← add_at client i ps; some (name, p ∷ ps')

-- What the loops of `allocateClients` change besides the pods in hand. `fresh` counts the UUIDs
-- drawn.
pub record Pool : Type 0 where
  pub reutilize : TemplatePodMap
  pub fresh : ℕ

-- `uuid.New().String()[:4]`, the n-th drawn, is a parameter, as is the session's name.
module _ (uuid : ℕ → Bytes) (session_name : Bytes) where
  -- The branch where no pod has room.
  unfoldable pub choose_pod : Bytes → Pool → Bytes × Pool
  unfolding reutilize_pod take_pod
  choose_pod t pool =
      let name = reutilize_pod (inner (lookup t pool.reutilize)) in
      if name == []
      then (
        session_name ++ text "-" ++ t ++ text "-" ++ uuid pool.fresh,
        record pool { fresh = pool.fresh + 1 },
      )
      else (name, record pool { reutilize = take_pod t name pool.reutilize })

  -- One round of the inner loop: the client gets a pod of template `t`.
  unfoldable pub allocate_in :
      PodClient → Bytes → AllocationValue → Pool → Option (Bytes × AllocationValue × Pool)
  unfolding choose_pod find_first_pod_available add_at
  allocate_in client t v pool = elim (find_first_pod_available v.pod_template.max_clients v.pods) [
    | none ↦
        let (name, pool') = choose_pod t pool in
        some (
          name,
          record v { pods = v.pods ++ record { name = name; clients = client ∷ [] } ∷ [] },
          pool',
        )
    | some i ↦ do (name, pods) ← add_at client i v.pods; some (name, record v { pods = pods }, pool)
  ]

  -- The inner loop. Each round rewrites the entry in hand, so the map keeps its keys.
  unfoldable pub allocate_templates :
      PodClient
      → AllocationMap
      → Pool
      → Dict Bytes PodStatus
      → Option (AllocationMap × Pool × Dict Bytes PodStatus)
  unfolding allocate_in build_pod_status
  allocate_templates client [] pool status = some ([], pool, status)
  allocate_templates client ((t, v) ∷ m) pool status = elim (allocate_in client t v pool) [
    | none ↦ none
    | some (name, v', pool') ↦ do
      (m', pool'', status') ←
          allocate_templates client m pool'
            (insert name (build_pod_status name v.pod_template.spec) status)
      some ((t, v') ∷ m', pool'', status')
  ]

  unfoldable pub allocate_clients :
      List Bytes
      → AllocationMap
      → Pool
      → Dict Bytes ClientStatus
      → Option (AllocationMap × Pool × Dict Bytes ClientStatus)
  unfolding allocate_templates
  allocate_clients [] m pool clients = some (m, pool, clients)
  allocate_clients (id ∷ ids) m pool clients =
      elim (allocate_templates (record { id = id; connected = true }) m pool []) [
        | none ↦ none
        | some (m', pool', status) ↦ allocate_clients ids m' pool' (
            insert id (record { last_seen_at = default_time; ready = false; pod_status = status })
              clients)
      ]
