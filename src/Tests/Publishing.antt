-- ===== src/Tests/Publishing.antt =====
-- The network controller on the pods of the fixtures.
use xr_telepresence_k8s.Base.{some, none, refl, ◌∷◌, [], ◌≡◌, nat_eq, bytes_eq, All, inr, Bool}
use xr_telepresence_k8s.Network.Publishing.Refresh.{Refreshed, refresh_ingress-Refreshed}
use xr_telepresence_k8s.Network.Services.{service_name, ServicesMap}
use xr_telepresence_k8s.Resources.Core.{Service, IngressPath, Ingress}
use xr_telepresence_k8s.Base.Text.{Lacks, text, split}
use xr_telepresence_k8s.Network.Publishing.News.{IsRegular}
use xr_telepresence_k8s.Network.Publishing.{pod_of_path, http_paths, refresh_ingress}
use xr_telepresence_k8s.Tests.Fixtures.{first_pod_name, second_pod_name, contains-Lacks}
use xr_telepresence_k8s.Network.Publishing.Sweep.{NamesPod}

abbrev first_service : Service
first_service = record {
  name = service_name first_pod_name;
  namespace = text "default";
  labels = (text "telepresence", text "true") ∷ [];
  controller = none;
  ports = record { name = text "web"; port = 80; protocol = text "TCP" } ∷ [];
  selector = (text "svc", first_pod_name) ∷ [];
  load_balancer = [];
}

abbrev services : ServicesMap
services = (service_name first_pod_name, some first_service) ∷ []

abbrev stale : IngressPath
stale = record {
  path = text "/demo-1a2b-vr-0002/web(/|$)(.*)";
  service_name = service_name second_pod_name;
  service_port = 80;
}

abbrev ingress : Ingress
ingress = record { rules = some (stale ∷ []) ∷ [] }

first_pod-Lacks : Lacks b'/' first_pod_name
unfolding nat_eq
first_pod-Lacks = contains-Lacks b'/' first_pod_name refl

services-IsRegular : All IsRegular services
services-IsRegular = ((first_pod_name, refl, first_pod-Lacks, first_service, refl), tt)

stale-NamesPod : NamesPod stale
unfolding pod_of_path split nat_eq
stale-NamesPod = inr (second_pod_name, refl)

refresh_ingress-Refreshed_example :
    (refreshed : Ingress) × (updated : Bool) × (refresh_ingress ingress services
      ≡ some (refreshed, updated))
    × Refreshed services services-IsRegular refreshed
unfolding http_paths
refresh_ingress-Refreshed_example =
    refresh_ingress-Refreshed ingress services services-IsRegular on_ingress (stale-NamesPod, tt)
  where
    on_ingress : http_paths ingress ≡ some (stale ∷ [])
    on_ingress = refl
