-- ===== src/Cluster.antt =====
-- The Kubernetes API as the controllers see it: their calls, and the record `Server` of the answers.
pub mod Answers
pub mod Calls
use xr_telepresence_k8s.Base.{Option, none, some, List, ◌∷◌}
use xr_telepresence_k8s.Base.Text.{Bytes}
use xr_telepresence_k8s.Effect.{Result, ok, err, Error}
use xr_telepresence_k8s.Resources.Core.{NamespacedName, Pod, Service, Ingress}
use xr_telepresence_k8s.Resources.Session.{Session}
use xr_telepresence_k8s.Resources.Registration.{GcRegistration}
use xr_telepresence_k8s.Effect

pub data Call : Type 0 where
  get_session get_pod get_service get_ingress : NamespacedName → Call
  list_registrations list_pods list_services : Bytes → Call
  create_namespace : Bytes → Call
  create_registration delete_registration update_registration : GcRegistration → Call
  create_pod delete_pod : Pod → Call
  create_service : Service → Call
  update_ingress : Ingress → Call
  update_session_status update_session : Session → Call

-- The field and label selectors of `List`.
pub data Selector : Type 0 where
  everything : Selector
  of_session : Bytes → Selector
  owned_pods : Bytes → Bytes → Selector
  telepresence : Selector

pub record Server : Type 0 where
  pub session : List Call → NamespacedName → Result Session
  pub pod : List Call → NamespacedName → Result Pod
  pub service : List Call → NamespacedName → Result Service
  pub ingress : List Call → NamespacedName → Result Ingress
  pub registrations : List Call → Bytes → Selector → Result (List GcRegistration)
  pub pods : List Call → Bytes → Selector → Result (List Pod)
  pub services : List Call → Bytes → Selector → Result (List Service)
  pub write : List Call → Call → Option Error
  -- What an update leaves in the object that was sent: the object as the server has it.
  pub stored : List Call → Session → Session
  -- `ctrl.SetControllerReference`, for the pod of a session and the service of a pod
  pub own_pod : Session → Pod → Result Pod
  pub own_service : Pod → Service → Result Service

abbrev pub Exec {ℓ} : Type ℓ → Type ℓ
Exec A = Effect.Exec Server Call A

abbrev pub written : Option Error → Result (Unit {0})
written none = ok tt
written (some e) = err e

-- `r.Create`, `r.Delete`, `r.Update`
abbrev pub write : Call → Exec (Unit {0})
write c s h = (written (s.write h c), c ∷ h)

abbrev pub stored_or : Option Error → Session → Result Session
stored_or none session = ok session
stored_or (some e) session = err e

-- `r.Status().Update` and `r.Update` of a session
abbrev pub save : (Session → Call) → Session → Exec Session
save c session s h = (stored_or (s.write h (c session)) (s.stored h session), c session ∷ h)

abbrev pub get_session_of : NamespacedName → Exec Session
get_session_of n s h = (s.session h n, get_session n ∷ h)

abbrev pub get_pod_of : NamespacedName → Exec Pod
get_pod_of n s h = (s.pod h n, get_pod n ∷ h)

abbrev pub get_service_of : NamespacedName → Exec Service
get_service_of n s h = (s.service h n, get_service n ∷ h)

abbrev pub get_ingress_of : NamespacedName → Exec Ingress
get_ingress_of n s h = (s.ingress h n, get_ingress n ∷ h)

abbrev pub registrations_in : Bytes → Selector → Exec (List GcRegistration)
registrations_in n q s h = (s.registrations h n q, list_registrations n ∷ h)

abbrev pub pods_in : Bytes → Selector → Exec (List Pod)
pods_in n q s h = (s.pods h n q, list_pods n ∷ h)

abbrev pub services_in : Bytes → Selector → Exec (List Service)
services_in n q s h = (s.services h n q, list_services n ∷ h)
