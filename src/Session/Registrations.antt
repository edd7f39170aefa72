-- ===== src/Session/Registrations.antt =====
-- client_pods.go and session_pods.go: the registrations by which idle pods are handed to the
-- garbage collector, and taken back from it.
pub mod Listed
pub mod Calm
pub mod Discipline
use xr_telepresence_k8s.Base.{
  ℕ, suc, Bool, true, false, Option, none, some, List, [], ◌∷◌, ◌==◌, nat_eq, bytes_eq,
  if◌then◌else◌,
}
use xr_telepresence_k8s.Base.Dict.{Dict, lookup, insert}
use xr_telepresence_k8s.Base.Text.{Bytes, text}
use xr_telepresence_k8s.Resources.Core.{Pod}
use xr_telepresence_k8s.Resources.Session.{Session}
use xr_telepresence_k8s.Resources.Registration.{GcRegistration, timeout}
use xr_telepresence_k8s.Cluster.{
  Exec, write, create_namespace, create_registration, delete_registration,
}
use xr_telepresence_k8s.Session.Allocation.{PodClient, ServingPod, AllocationMap, TemplatePodMap}
use xr_telepresence_k8s.Effect.{pure, ignoring, is_not_found, is_already_exists, ◌>>◌}

abbrev pub gc_namespace : Bytes
gc_namespace = text "mr-telepresence-gc"

abbrev pub Registered : Type 0
Registered = Dict Bytes GcRegistration

-- `gcRegistrationsMap`
unfoldable pub registrations_by_name_from : Registered → List GcRegistration → Registered
registrations_by_name_from m [] = m
registrations_by_name_from m (r ∷ rs) = registrations_by_name_from (insert r.name r m) rs

unfoldable pub registrations_by_name : List GcRegistration → Registered
unfolding registrations_by_name_from
registrations_by_name = registrations_by_name_from []

abbrev pub registration_for : Bytes → Session → GcRegistration
registration_for pod_name session = record {
  name = pod_name;
  namespace = gc_namespace;
  creation_timestamp = 0;
  spec = record {
    session = record { namespace = session.namespace; name = session.name };
    kind = timeout;
  };
}

unfoldable pub create_gc_registration : Bytes → Session → Exec (Unit {0})
create_gc_registration pod_name session = do
  ignoring is_already_exists (write (create_namespace gc_namespace))
  ignoring is_already_exists (write (create_registration (registration_for pod_name session)))

unfoldable pub delete_gc_registration : GcRegistration → Exec (Unit {0})
delete_gc_registration r = ignoring is_not_found (write (delete_registration r))

-- No connected client is left on the pod.
unfoldable pub pod_is_empty : List PodClient → Bool
pod_is_empty [] = true
pod_is_empty (c ∷ cs) = if c.connected then false else pod_is_empty cs

-- Registers a pod that is idle and not registered, and takes back one that is in use and is.
unfoldable pub settle : Session → Bytes → Bool → Option GcRegistration → Exec (Unit {0})
unfolding create_gc_registration delete_gc_registration
settle session pod_name idle none =
    if idle then create_gc_registration pod_name session else pure tt
settle session pod_name idle (some r) = if idle then pure tt else delete_gc_registration r

unfoldable pub register_pods : Session → Registered → Dict Bytes Pod → Exec (Unit {0})
unfolding settle
register_pods session registered [] = pure tt
register_pods session registered ((_, p) ∷ pods) = do
  settle session p.name true (lookup p.name registered)
  register_pods session registered pods

unfoldable pub register_reutilizable : Session → Registered → TemplatePodMap → Exec (Unit {0})
unfolding register_pods
register_reutilizable session registered [] = pure tt
register_reutilizable session registered ((_, pods) ∷ m) = do
  register_pods session registered pods
  register_reutilizable session registered m

unfoldable pub settle_serving : Session → Registered → List ServingPod → Exec (Unit {0})
unfolding settle pod_is_empty
settle_serving session registered [] = pure tt
settle_serving session registered (p ∷ ps) = do
  settle session p.name (pod_is_empty p.clients) (lookup p.name registered)
  settle_serving session registered ps

unfoldable pub settle_allocations : Session → Registered → AllocationMap → Exec (Unit {0})
unfolding settle_serving
settle_allocations session registered [] = pure tt
settle_allocations session registered ((_, v) ∷ m) = do
  settle_serving session registered v.pods
  settle_allocations session registered m

unfoldable pub manage_gc_registrations :
    Session → AllocationMap → TemplatePodMap → List GcRegistration → Exec (Unit {0})
unfolding registrations_by_name register_reutilizable settle_allocations
manage_gc_registrations session allocations reutilize registrations = do
  register_reutilizable session (registrations_by_name registrations) reutilize
  settle_allocations session (registrations_by_name registrations) allocations

unfoldable pub settle_found : Session → Registered → Bool → List Pod → Exec (Unit {0})
unfolding settle
settle_found session registered idle [] = pure tt
settle_found session registered idle (p ∷ ps) = do
  settle session p.name idle (lookup p.name registered)
  settle_found session registered idle ps

unfoldable pub manage_gc_registrations_for_session_pods :
    Session → ℕ → List Pod → List GcRegistration → Exec (Unit {0})
unfolding registrations_by_name settle_found
manage_gc_registrations_for_session_pods session connected_clients found registrations =
    settle_found session (registrations_by_name registrations) (connected_clients == 0) found

unfoldable pub count_connected_clients : Dict Bytes Bool → ℕ
count_connected_clients [] = 0
count_connected_clients ((_, connected) ∷ clients) =
    let rest = count_connected_clients clients in if connected then suc rest else rest
