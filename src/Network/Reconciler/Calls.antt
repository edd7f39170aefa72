-- ===== src/Network/Reconciler/Calls.antt =====
-- network_controller.go and ingress.go: every call that one run makes.
use xr_telepresence_k8s.Base.{Option-cases, inl, inr, List, [], ◌∷◌, bytes_eq}
use xr_telepresence_k8s.Base.Dict.{lookup}
use xr_telepresence_k8s.Base.Text.{Bytes}
use xr_telepresence_k8s.Resources.Core.{NamespacedName, Pod, Service, Ingress}
use xr_telepresence_k8s.Effect.{Result, ok, err, panic, is_already_exists}
use xr_telepresence_k8s.Effect.Emits.{
  Emits, bind-Emits, seq-Emits, pure-Emits, raise-Emits, if-Emits, attempt-Emits, or_panic-Emits,
  result-Emits,
}
use xr_telepresence_k8s.Cluster.{
  Call, get_ingress, list_pods, list_services, create_service, update_ingress,
}
use xr_telepresence_k8s.Cluster.Calls.{
  write-Emits, get_ingress_of-Emits, pods_in-Emits, services_in-Emits,
}
use xr_telepresence_k8s.Network.Services.{
  ServicesMap, service_name, spawn_service, after_spawn, spawn_services,
}
use xr_telepresence_k8s.Network.Publishing.{refresh_ingress}
use xr_telepresence_k8s.Network.Reconciler.{ingress_name, reconcile_ingress, reconcile}

-- The kinds of call that the controller makes all satisfy `P`.
pub record NetworkCalls {κ} (P : Call → Type κ) : Type κ where
  pub lists_pods : (n : Bytes) → P (list_pods n)
  pub lists_services : (n : Bytes) → P (list_services n)
  pub creates_service : (s : Service) → P (create_service s)
  pub gets_ingress : (n : NamespacedName) → P (get_ingress n)
  pub updates_ingress : (i : Ingress) → P (update_ingress i)

module _ {κ} {P : Call → Type κ} (may : NetworkCalls P) where
  spawn_service-Emits : (namespace : Bytes) (p : Pod) → Emits P (spawn_service namespace p)
  unfolding spawn_service
  spawn_service-Emits namespace p =
      bind-Emits (record { at = λ s h a. a })
        λ svc. seq-Emits (write-Emits _ (may.creates_service svc)) pure-Emits

  after_spawn-Emits : (r : Result Service) → Emits P (after_spawn r)
  unfolding after_spawn
  after_spawn-Emits (ok svc) = pure-Emits
  after_spawn-Emits (err e) = if-Emits (is_already_exists e) (λ b. pure-Emits) (λ b. raise-Emits)
  after_spawn-Emits panic = result-Emits panic

  spawn_services-Emits :
      (namespace : Bytes) (ps : List Pod) (m : ServicesMap)
      → Emits P (spawn_services namespace ps m)
  unfolding spawn_services
  spawn_services-Emits namespace [] m = pure-Emits
  spawn_services-Emits namespace (p ∷ ps) m = elim (Option-cases (lookup (service_name p.name) m)) [
    | inl e ↦
        rw (e, spawn_services)
          (bind-Emits (attempt-Emits (spawn_service-Emits namespace p))
            λ r. bind-Emits (after_spawn-Emits r) (λ svc. spawn_services-Emits namespace ps _))
    | inr (svc, e) ↦ rw (e, spawn_services) (spawn_services-Emits namespace ps m)
  ]

  reconcile_ingress-Emits : (m : ServicesMap) → Emits P (reconcile_ingress m)
  unfolding reconcile_ingress
  reconcile_ingress-Emits m =
      bind-Emits (get_ingress_of-Emits _ (may.gets_ingress ingress_name)) λ ingress.
        bind-Emits (or_panic-Emits (refresh_ingress ingress m)) λ (refreshed, updated).
          if-Emits updated (λ b. write-Emits _ (may.updates_ingress refreshed)) (λ b. pure-Emits)

  pub reconcile-Emits : (request : NamespacedName) → Emits P (reconcile request)
  unfolding reconcile
  reconcile-Emits request =
      bind-Emits (pods_in-Emits _ _ (may.lists_pods request.namespace)) λ pods.
        bind-Emits (services_in-Emits _ _ (may.lists_services request.namespace)) λ services.
          bind-Emits (spawn_services-Emits request.namespace pods _) reconcile_ingress-Emits
