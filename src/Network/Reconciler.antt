-- ===== src/Network/Reconciler.antt =====
-- network_controller.go and ingress.go: one run of the controller.
pub mod Convergence
pub mod Calls
pub mod Nil
use xr_telepresence_k8s.Base.{if◌then◌else◌}
use xr_telepresence_k8s.Base.Text.{text}
use xr_telepresence_k8s.Resources.Core.{NamespacedName}
use xr_telepresence_k8s.Effect.{pure, or_panic, ◌>>=◌}
use xr_telepresence_k8s.Cluster.{
  Exec, write, update_ingress, get_ingress_of, pods_in, services_in, telepresence,
}
use xr_telepresence_k8s.Network.Services.{ServicesMap, services_by_name, spawn_services}
use xr_telepresence_k8s.Network.Publishing.{refresh_ingress}

abbrev pub ingress_name : NamespacedName
ingress_name = record { namespace = text "default"; name = text "ingress" }

unfoldable pub reconcile_ingress : ServicesMap → Exec (Unit {0})
unfolding refresh_ingress
reconcile_ingress services = do
  ingress ← get_ingress_of ingress_name
  (refreshed, updated) ← or_panic (refresh_ingress ingress services)
  if updated then write (update_ingress refreshed) else pure tt

unfoldable pub reconcile : NamespacedName → Exec (Unit {0})
unfolding services_by_name spawn_services reconcile_ingress
reconcile request = do
  pods ← pods_in request.namespace telepresence
  services ← services_in request.namespace telepresence
  services' ← spawn_services request.namespace pods (services_by_name services)
  reconcile_ingress services'
