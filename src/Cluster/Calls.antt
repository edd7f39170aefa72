-- ===== src/Cluster/Calls.antt =====
-- What each call of the controllers' client adds to the calls made.
use xr_telepresence_k8s.Effect.Emits.{Emits}
use xr_telepresence_k8s.Base.Text.{Bytes}
use xr_telepresence_k8s.Resources.Core.{NamespacedName}
use xr_telepresence_k8s.Resources.Session.{Session}
use xr_telepresence_k8s.Cluster.{
  Call, Selector, get_session, get_pod, get_service, get_ingress, list_registrations, list_pods,
  list_services, write, save, get_session_of, get_pod_of, get_service_of, get_ingress_of,
  registrations_in, pods_in, services_in,
}

module _ {κ} {P : Call → Type κ} where
  pub write-Emits : (c : Call) → P c → Emits P (write c)
  write-Emits c p = record { at = λ s h a. (p, a) }

  pub save-Emits : (c : Session → Call) (x : Session) → P (c x) → Emits P (save c x)
  save-Emits c x p = record { at = λ s h a. (p, a) }

  pub get_session_of-Emits : (n : NamespacedName) → P (get_session n) → Emits P (get_session_of n)
  get_session_of-Emits n p = record { at = λ s h a. (p, a) }

  pub get_pod_of-Emits : (n : NamespacedName) → P (get_pod n) → Emits P (get_pod_of n)
  get_pod_of-Emits n p = record { at = λ s h a. (p, a) }

  pub get_service_of-Emits : (n : NamespacedName) → P (get_service n) → Emits P (get_service_of n)
  get_service_of-Emits n p = record { at = λ s h a. (p, a) }

  pub get_ingress_of-Emits : (n : NamespacedName) → P (get_ingress n) → Emits P (get_ingress_of n)
  get_ingress_of-Emits n p = record { at = λ s h a. (p, a) }

  pub registrations_in-Emits :
      (n : Bytes) (q : Selector) → P (list_registrations n) → Emits P (registrations_in n q)
  registrations_in-Emits n q p = record { at = λ s h a. (p, a) }

  pub pods_in-Emits : (n : Bytes) (q : Selector) → P (list_pods n) → Emits P (pods_in n q)
  pods_in-Emits n q p = record { at = λ s h a. (p, a) }

  pub services_in-Emits :
      (n : Bytes) (q : Selector) → P (list_services n) → Emits P (services_in n q)
  services_in-Emits n q p = record { at = λ s h a. (p, a) }
