-- ===== src/Network/Honest.antt =====
-- A cluster in which the network controller is the only writer: what it answers is what was there,
-- with what the calls so far have changed.
use xr_telepresence_k8s.Base.{◌≡◌, none, List, [], ◌∷◌, ◌++◌}
use xr_telepresence_k8s.Base.Text.{Bytes}
use xr_telepresence_k8s.Resources.Core.{Pod, Service, Ingress}
use xr_telepresence_k8s.Effect.{ok}
use xr_telepresence_k8s.Cluster.{Server, Call, create_service, update_ingress, telepresence}
use xr_telepresence_k8s.Network.Reconciler.{ingress_name}

-- The services that the calls have created, in order.
unfoldable pub created_in : List Call → List Service
created_in [] = []
created_in (create_service svc ∷ h) = created_in h ++ svc ∷ []
created_in (_ ∷ h) = created_in h

-- The ingress after the calls, if it was `i` before.
unfoldable pub latest : Ingress → List Call → Ingress
latest i [] = i
latest i (update_ingress j ∷ h) = j
latest i (_ ∷ h) = latest i h

pub record Honest (s : Server) (namespace : Bytes) (pods : List Pod) (services : List Service)
    (ingress : Ingress) : Type 0 where
  pub lists_pods : (h : List Call) → s.pods h namespace telepresence ≡ ok pods
  pub lists_services :
      (h : List Call) → s.services h namespace telepresence ≡ ok (services ++ created_in h)
  pub reads_ingress : (h : List Call) → s.ingress h ingress_name ≡ ok (latest ingress h)
  pub accepts : (h : List Call) (c : Call) → s.write h c ≡ none
  pub owns :
      (p : Pod) (svc : Service)
      → (owned : Service) × (s.own_service p svc ≡ ok owned) × (owned.name ≡ svc.name)
