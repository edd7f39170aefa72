-- ===== src/Session/Readiness.antt =====
-- utils/pods.go and client_pods.go: which pods are ready, what the clients are told of them, and
-- which pods are missing.
pub mod Missing
pub mod Totality
pub mod Paths
pub mod Reports
use xr_telepresence_k8s.Base.{
  ℕ, zero, suc, Bool, true, false, not, ◌&&◌, ◌||◌, Option, none, some, List, [], ◌∷◌, ◌++◌, ◌==◌,
  nat_eq, bytes_eq, if◌then◌else◌,
}
use xr_telepresence_k8s.Base.Panic.{◌>>=◌}
use xr_telepresence_k8s.Base.Dict.{Dict, lookup, insert}
use xr_telepresence_k8s.Base.Text.{Bytes, text, from_first}
use xr_telepresence_k8s.Resources.Core.{PodCondition, PodSpec, Pod}
use xr_telepresence_k8s.Resources.Session.{PodStatus, ClientStatus}
use xr_telepresence_k8s.Session.Allocation.{
  PodClient, ServingPod, AllocationValue, AllocationMap, TemplatePodMap, inner,
}

abbrev pub pod_ready : Bytes
pod_ready = text "Ready"

abbrev pub condition_true : Bytes
condition_true = text "True"

abbrev pub condition_false : Bytes
condition_false = text "False"

abbrev pub condition_unknown : Bytes
condition_unknown = text "Unknown"

unfoldable pub ready_of : List PodCondition → Bytes
ready_of [] = []
ready_of (c ∷ cs) = if c.kind == pod_ready then c.status else ready_of cs

unfoldable pub extract_ready_condition_status_from_pod : Pod → Bytes
unfolding ready_of
extract_ready_condition_status_from_pod p = ready_of p.conditions

unfoldable pub pods_are_ready : List Pod → Bool
unfolding extract_ready_condition_status_from_pod
pods_are_ready [] = true
pods_are_ready (p ∷ ps) =
    let status = extract_ready_condition_status_from_pod p in
    if not (status == []) && (status == condition_false || status == condition_unknown)
    then false
    else pods_are_ready ps

abbrev pub scheme : Bytes
scheme = text "https://"

-- `s[n:]`, which panics beyond the end
unfoldable pub slice_from : ℕ → Bytes → Option Bytes
slice_from zero s = some s
slice_from (suc n) [] = none
slice_from (suc n) (_ ∷ s) = slice_from n s

-- One round of `concatIngressExternalIpToPodPaths`. An empty path, a path shorter than the scheme
-- and a path with no slash behind the scheme panic.
unfoldable pub concat_path : Bytes → Bytes → Option Bytes
unfolding slice_from from_first
concat_path ip [] = none
concat_path ip (c ∷ s) =
    if c == b'/'
    then some (scheme ++ ip ++ c ∷ s)
    else do host ← slice_from 8 (c ∷ s); rest ← from_first b'/' host; some (scheme ++ ip ++ rest)

unfoldable pub concat_paths : Bytes → List Bytes → Option (List Bytes)
unfolding concat_path
concat_paths ip [] = some []
concat_paths ip (p ∷ ps) = do q ← concat_path ip p; qs ← concat_paths ip ps; some (q ∷ qs)

unfoldable pub concat_ingress_external_ip_to_pod_paths : Bytes → PodStatus → Option PodStatus
unfolding concat_paths
concat_ingress_external_ip_to_pod_paths ip status = do
  paths ← concat_paths ip status.paths
  some (record status { paths = paths })

unfoldable pub all_ready : Dict Bytes PodStatus → Bool
all_ready [] = true
all_ready ((_, v) ∷ m) = v.ready && all_ready m

abbrev pub with_ip : Bytes → PodStatus → Option PodStatus
with_ip ip status =
    if ip == [] then some status else concat_ingress_external_ip_to_pod_paths ip status

-- The body of the loop of `setClientStatusReadiness`, for a client that is in the status.
unfoldable pub set_readiness : Bool → Bytes → Bytes → ClientStatus → Option ClientStatus
unfolding concat_ingress_external_ip_to_pod_paths all_ready
set_readiness ready pod_name ip value = elim (lookup pod_name value.pod_status) [
  | none ↦ some (record value { ready = true })
  | some status ↦ do
    status' ← with_ip ip (record status { ready = ready })
    let statuses = insert pod_name status' value.pod_status
    some (record value { ready = ready && all_ready statuses; pod_status = statuses })
]

unfoldable pub set_client_status_readiness :
    Bool
    → Bytes
    → List PodClient
    → Dict Bytes ClientStatus
    → Bytes
    → Option (Dict Bytes ClientStatus)
unfolding set_readiness
set_client_status_readiness ready pod_name [] clients ip = some clients
set_client_status_readiness ready pod_name (c ∷ cs) clients ip = elim (lookup c.id clients) [
  | none ↦ set_client_status_readiness ready pod_name cs clients ip
  | some value ↦ elim (set_readiness ready pod_name ip value) [
    | none ↦ none
    | some value' ↦ set_client_status_readiness ready pod_name cs (insert c.id value' clients) ip
  ]
]

-- The pod that `reconcilePods` asks for; `SpawnPod` fills in the rest.
abbrev pub client_pod : Bytes → PodSpec → Pod
client_pod name spec = record {
  name = name;
  namespace = [];
  labels = (text "type", text "client") ∷ [];
  controller = none;
  spec = spec;
  conditions = [];
}

-- The address that the clients of a found pod are given: none, and not ready, unless the pod is
-- ready and the ingress has an address.
abbrev pub served_at : Pod → Option Bytes → Option Bytes
served_at p none = none
served_at p (some ip) =
    if extract_ready_condition_status_from_pod p == condition_true then some ip else none

abbrev pub report_found :
    Option Bytes → ServingPod → Dict Bytes ClientStatus → Option (Dict Bytes ClientStatus)
report_found none s clients = set_client_status_readiness false s.name s.clients clients []
report_found (some ip) s clients = set_client_status_readiness true s.name s.clients clients ip

-- One round of the inner loop: the new status, and the pod to spawn.
unfoldable pub reconcile_pod :
    AllocationValue
    → Dict Bytes Pod
    → Option Bytes
    → ServingPod
    → Dict Bytes ClientStatus
    → Option (List Pod × Dict Bytes ClientStatus)
unfolding set_client_status_readiness extract_ready_condition_status_from_pod
reconcile_pod v found ip s clients = elim (lookup s.name found) [
  | none ↦ do
    clients' ← set_client_status_readiness false s.name s.clients clients []
    some (client_pod s.name v.pod_template.spec ∷ [], clients')
  | some p ↦ do clients' ← report_found (served_at p ip) s clients; some ([], clients')
]

unfoldable pub reconcile_template :
    AllocationValue
    → Dict Bytes Pod
    → Option Bytes
    → List ServingPod
    → Dict Bytes ClientStatus
    → Option (List Pod × Dict Bytes ClientStatus)
unfolding reconcile_pod
reconcile_template v found ip [] clients = some ([], clients)
reconcile_template v found ip (s ∷ ss) clients = elim (reconcile_pod v found ip s clients) [
  | none ↦ none
  | some (spawned, clients') ↦ do
    (more, clients'') ← reconcile_template v found ip ss clients'
    some (spawned ++ more, clients'')
]

unfoldable pub reconcile_pods :
    AllocationMap
    → Dict Bytes ClientStatus
    → TemplatePodMap
    → Option Bytes
    → Option (List Pod × Dict Bytes ClientStatus)
unfolding reconcile_template
reconcile_pods [] clients found ip = some ([], clients)
reconcile_pods ((_, v) ∷ m) clients found ip =
    elim (reconcile_template v (inner (lookup v.pod_template.name found)) ip v.pods clients) [
      | none ↦ none
      | some (spawned, clients') ↦ do
        (more, clients'') ← reconcile_pods m clients' found ip
        some (spawned ++ more, clients'')
    ]
