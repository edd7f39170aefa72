-- ===== src/Network/Publishing.antt =====
-- ingress.go: the paths of the ingress, one for each port of each service.
pub mod Agreement
pub mod Names
pub mod Sweep
pub mod News
pub mod Refresh
use xr_telepresence_k8s.Base.{
  ℕ, zero, suc, ◌-◌, Bool, true, false, ◌||◌, Option, none, some, List, [], ◌∷◌, ◌++◌, ◌==◌,
  bytes_eq, if◌then◌else◌, length, get_elem?, ltb, contains,
}
use xr_telepresence_k8s.Base.Panic.{◌>>=◌}
use xr_telepresence_k8s.Base.Dict.{lookup}
use xr_telepresence_k8s.Base.Text.{Bytes, text, split}
use xr_telepresence_k8s.Resources.Core.{ServicePort, Service, IngressPath, Ingress}
use xr_telepresence_k8s.Network.Services.{ServicesMap, service_name}

abbrev pub session_manager_path : Bytes
session_manager_path = text "/session-manager(/|$)(.*)"

-- `ingress.Spec.Rules[0].HTTP.Paths`, which panics without a rule or its HTTP part
unfoldable pub http_paths : Ingress → Option (List IngressPath)
http_paths ingress = elim ingress.rules [ [] ↦ none | rule ∷ _ ↦ rule ]

abbrev pub replace_first :
    List IngressPath → List (Option (List IngressPath)) → List (Option (List IngressPath))
replace_first paths [] = []
replace_first paths (_ ∷ rules) = some paths ∷ rules

unfoldable pub with_http_paths : List IngressPath → Ingress → Ingress
with_http_paths paths ingress = record ingress { rules = replace_first paths ingress.rules }

-- The paths kept, the pods of all paths, and whether one was taken out.
pub record Collected : Type 0 where
  pub paths : List IngressPath
  pub pods : List Bytes
  pub updated : Bool

-- `strings.Split(path, "/")[1]`
unfoldable pub pod_of_path : Bytes → Option Bytes
pod_of_path path = get_elem? (split b'/' path) 1

abbrev pub has_service : ServicesMap → Bytes → Bool
has_service services pod = elim (lookup (service_name pod) services) [
  | none ↦ false
  | some _ ↦ true
]

abbrev pub keep_path : IngressPath → Collected → Collected
keep_path p c = record c { paths = p ∷ paths_ }
  where
    open c use {paths as paths_}

-- One round of the loop of `ingressGarbageCollection`, before the rounds that follow.
unfoldable pub collect_path : ServicesMap → IngressPath → Bytes → Collected → Collected
collect_path services p pod rest =
    if has_service services pod
    then record { paths = p ∷ rest.paths; pods = pod ∷ rest.pods; updated = rest.updated }
    else record { paths = rest.paths; pods = pod ∷ rest.pods; updated = true }

unfoldable pub collect_or_skip : ServicesMap → IngressPath → Collected → Option Collected
unfolding collect_path pod_of_path
collect_or_skip services p rest =
    if p.path == session_manager_path
    then some (keep_path p rest)
    else pod_of_path p.path >>= λ pod. some (collect_path services p pod rest)

-- The loop. Taking a path out and stepping back leaves the paths that are kept, in order.
unfoldable pub collect_paths : ServicesMap → List IngressPath → Option Collected
unfolding collect_or_skip
collect_paths services [] = some (record { paths = []; pods = []; updated = false })
collect_paths services (p ∷ ps) = collect_paths services ps >>= collect_or_skip services p

unfoldable pub take_bytes : ℕ → Bytes → Bytes
take_bytes zero s = []
take_bytes (suc n) [] = []
take_bytes (suc n) (c ∷ s) = c ∷ take_bytes n s

-- `serviceName[:len(serviceName)-4]`, which panics on fewer than four bytes
unfoldable pub pod_of_service : Bytes → Option Bytes
unfolding take_bytes
pod_of_service s = if ltb (length s) 4 then none else some (take_bytes (length s - 4) s)

abbrev pub path_suffix : Bytes
path_suffix = text "(/|$)(.*)"

abbrev pub path_for : Bytes → Service → ServicePort → IngressPath
path_for pod svc port = record {
  path = text "/" ++ pod ++ text "/" ++ port.name ++ path_suffix;
  service_name = svc.name;
  service_port = port.port;
}

unfoldable pub paths_for : Bytes → Service → List ServicePort → List IngressPath
paths_for pod svc [] = []
paths_for pod svc (port ∷ ports) = path_for pod svc port ∷ paths_for pod svc ports

-- The paths that one round of `publishToIngress` appends. A nil service panics.
unfoldable pub new_paths : List Bytes → Bytes → Option Service → Option (List IngressPath)
unfolding pod_of_service paths_for
new_paths pods name svc = do
  pod ← pod_of_service name
  if contains pods pod then some [] else do s ← svc; some (paths_for pod s s.ports)

unfoldable pub all_new_paths : List Bytes → ServicesMap → Option (List IngressPath)
unfolding new_paths
all_new_paths pods [] = some []
all_new_paths pods ((name, svc) ∷ services) = do
  paths ← new_paths pods name svc
  more ← all_new_paths pods services
  some (paths ++ more)

abbrev pub any_path : List IngressPath → Bool
any_path [] = false
any_path (_ ∷ _) = true

-- `ingressGarbageCollection` and then `publishToIngress`: the new ingress, and whether to send it.
unfoldable pub ingress_garbage_collection :
    Ingress → ServicesMap → Option (Ingress × List Bytes × Bool)
unfolding http_paths with_http_paths collect_paths
ingress_garbage_collection ingress services = do
  paths ← http_paths ingress
  c ← collect_paths services paths
  some (with_http_paths c.paths ingress, c.pods, c.updated)

unfoldable pub publish_to_ingress : Ingress → ServicesMap → List Bytes → Option (Ingress × Bool)
unfolding http_paths with_http_paths all_new_paths
publish_to_ingress ingress services pods = do
  paths ← http_paths ingress
  new ← all_new_paths pods services
  some (with_http_paths (paths ++ new) ingress, any_path new)

unfoldable pub refresh_ingress : Ingress → ServicesMap → Option (Ingress × Bool)
unfolding ingress_garbage_collection publish_to_ingress
refresh_ingress ingress services = do
  (collected, pods, updated_by_gc) ← ingress_garbage_collection ingress services
  (published, updated_by_pub) ← publish_to_ingress collected services pods
  some (published, updated_by_gc || updated_by_pub)
