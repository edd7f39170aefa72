-- ===== src/Session/Allocation.antt =====
-- client_pods.go: which pod serves which client.
pub mod Named
pub mod Building
pub mod Serving
use xr_telepresence_k8s.Base.{
  Bool, Option, none, some, List, [], ◌∷◌, ◌++◌, ◌==◌, bytes_eq, if◌then◌else◌, get_elem?,
}
use xr_telepresence_k8s.Base.Panic.{◌>>=◌}
use xr_telepresence_k8s.Base.Dict.{Dict, lookup, insert, erase, keys}
use xr_telepresence_k8s.Base.Text.{Bytes, split}
use xr_telepresence_k8s.Resources.Core.{Pod}
use xr_telepresence_k8s.Resources.Session.{ClientPodTemplate, ClientStatus}

pub record PodClient : Type 0 where
  pub id : Bytes
  pub connected : Bool

-- The struct `pod`: a pod that runs or is to run, with the clients that it serves.
pub record ServingPod : Type 0 where
  pub name : Bytes
  pub clients : List PodClient

pub record AllocationValue : Type 0 where
  pub pod_template : ClientPodTemplate
  pub pods : List ServingPod

abbrev pub AllocationMap : Type 0
AllocationMap = Dict Bytes AllocationValue

abbrev pub TemplatePodMap : Type 0
TemplatePodMap = Dict Bytes (Dict Bytes Pod)

-- The zero value, which a map yields for a template that is not in it.
abbrev pub no_allocation : AllocationValue
no_allocation = record {
  pod_template = record {
    max_clients = 0;
    template = record { name = []; spec = record { containers = [] } };
  };
  pods = [];
}

unfoldable pub init_allocation_map_from : AllocationMap → List ClientPodTemplate → AllocationMap
init_allocation_map_from m [] = m
init_allocation_map_from m (t ∷ ts) =
    init_allocation_map_from (insert t.name (record { pod_template = t; pods = [] }) m) ts

unfoldable pub init_allocation_map : List ClientPodTemplate → AllocationMap
unfolding init_allocation_map_from
init_allocation_map templates = init_allocation_map_from [] templates

-- `strings.Split(name, "-")[2]`, which panics on fewer than three parts
unfoldable pub template_of : Bytes → Option Bytes
template_of name = get_elem? (split b'-' name) 2

abbrev pub inner {ℓ} : {V : Type ℓ} → Option (Dict Bytes V) → Dict Bytes V
inner none = []
inner (some pods) = pods

-- One round of `templatePodMapping`: both branches leave the pod under its template and name.
unfoldable pub map_pod : TemplatePodMap → Pod → Option TemplatePodMap
unfolding template_of
map_pod m p = do t ← template_of p.name; some (insert t (insert p.name p (inner (lookup t m))) m)

unfoldable pub template_pod_mapping_from : TemplatePodMap → List Pod → Option TemplatePodMap
unfolding map_pod
template_pod_mapping_from m [] = some m
template_pod_mapping_from m (p ∷ ps) = elim (map_pod m p) [
  | none ↦ none
  | some m' ↦ template_pod_mapping_from m' ps
]

unfoldable pub template_pod_mapping : List Pod → Option TemplatePodMap
unfolding template_pod_mapping_from
template_pod_mapping pods = template_pod_mapping_from [] pods

-- `delete(m[template], name)`; a template that is not in the map has a nil map
unfoldable pub take_pod : Bytes → Bytes → TemplatePodMap → TemplatePodMap
take_pod t name m = elim (lookup t m) [ none ↦ m | some pods ↦ insert t (erase name pods) m ]

-- The inner loop of `buildAllocationMap`: the first pod of that name gets the client, and a pod
-- that is not there is added at the end.
unfoldable pub add_to_pod : PodClient → Bytes → List ServingPod → List ServingPod
add_to_pod client name [] = record { name = name; clients = client ∷ [] } ∷ []
add_to_pod client name (p ∷ ps) =
    if p.name == name
    then record p { clients = p.clients ++ client ∷ [] } ∷ ps
    else p ∷ add_to_pod client name ps

abbrev pub or_zero : Option AllocationValue → AllocationValue
or_zero none = no_allocation
or_zero (some v) = v

-- One round of the outer loop.
unfoldable pub add_client :
    PodClient → Bytes → AllocationMap × TemplatePodMap → Option (AllocationMap × TemplatePodMap)
unfolding template_of add_to_pod take_pod
add_client client name (allocations, reutilize) = do
  t ← template_of name
  let v = or_zero (lookup t allocations)
  some (
    insert t (record v { pods = add_to_pod client name v.pods }) allocations,
    take_pod t name reutilize,
  )

unfoldable pub build_allocation_map_from :
    PodClient
    → List Bytes
    → AllocationMap × TemplatePodMap
    → Option (AllocationMap × TemplatePodMap)
unfolding add_client
build_allocation_map_from client [] s = some s
build_allocation_map_from client (name ∷ names) s = elim (add_client client name s) [
  | none ↦ none
  | some s' ↦ build_allocation_map_from client names s'
]

unfoldable pub build_allocation_map :
    Bytes
    → ClientStatus
    → Bool
    → AllocationMap × TemplatePodMap
    → Option (AllocationMap × TemplatePodMap)
unfolding build_allocation_map_from
build_allocation_map id status connected s =
    build_allocation_map_from (record { id = id; connected = connected }) (keys status.pod_status) s
