-- ===== src/Tests/Converging.antt =====
-- Whole runs of the controllers on the fixtures.
use xr_telepresence_k8s.Base.{refl, none, some, [], ◌∷◌, inr, nat_eq}
use xr_telepresence_k8s.Base.Text.{text, split}
use xr_telepresence_k8s.Resources.Core.{NamespacedName, Ingress, IngressPath}
use xr_telepresence_k8s.Effect.{ok, err, api_error, not_found}
use xr_telepresence_k8s.Effect.Emits.{Emits}
use xr_telepresence_k8s.Cluster.{Server}
use xr_telepresence_k8s.Network.Honest.{Honest, created_in, latest}
use xr_telepresence_k8s.Network.Services.{services_by_name}
use xr_telepresence_k8s.Network.Publishing.{http_paths, pod_of_path}
use xr_telepresence_k8s.Network.Publishing.Sweep.{NamesPod}
use xr_telepresence_k8s.Network.Reconciler.Convergence.{Converges, reconcile-Converges}
use xr_telepresence_k8s.Access.{session_rules, gc_rules, network_rules}
use xr_telepresence_k8s.Access.Permitted.{Granted, reconcile-Granted}
use xr_telepresence_k8s.Tests.Fixtures.{
  minute, first_pod_name, second_pod_name, pod_named, demo, contains-Lacks,
}
use xr_telepresence_k8s.Session.Reconciler as SessionController
use xr_telepresence_k8s.Gc.Reconciler as Collector
use xr_telepresence_k8s.Network.Reconciler as Publisher

abbrev request : NamespacedName
request = record { namespace = text "default"; name = text "demo" }

abbrev old_path : IngressPath
old_path = record {
  path = text "/demo-1a2b-vr-0002/web(/|$)(.*)";
  service_name = text "demo-1a2b-vr-0002-svc";
  service_port = 80;
}

abbrev old_ingress : Ingress
old_ingress = record { rules = some (old_path ∷ []) ∷ [] }

-- It keeps the services and the ingress that it is sent.
abbrev keeping : Server
keeping = record {
  session = λ h n. ok demo;
  pod = λ h n. ok (pod_named n.name);
  service = λ h n. err (api_error not_found []);
  ingress = λ h n. ok (latest old_ingress h);
  registrations = λ h n q. ok [];
  pods = λ h n q. ok (pod_named first_pod_name ∷ []);
  services = λ h n q. ok (created_in h);
  write = λ h c. none;
  stored = λ h s. s;
  own_pod = λ session p. ok p;
  own_service = λ p svc. ok svc;
}

keeping-Honest : Honest keeping (text "default") (pod_named first_pod_name ∷ []) [] old_ingress
keeping-Honest = record {
  lists_pods = λ h. refl;
  lists_services = λ h. refl;
  reads_ingress = λ h. refl;
  accepts = λ h c. refl;
  owns = λ p svc. (svc, refl, refl);
}

old_path-NamesPod : NamesPod old_path
unfolding pod_of_path split nat_eq
old_path-NamesPod = inr (second_pod_name, refl)

reconcile-Converges_example : Converges keeping-Honest request []
unfolding http_paths services_by_name created_in latest nat_eq
reconcile-Converges_example =
    reconcile-Converges keeping-Honest (text "demo") [] {ps = old_path ∷ []}
      (contains-Lacks b'/' first_pod_name refl, tt) tt refl (old_path-NamesPod, tt)

reconcile-Granted_example :
    Emits
      (Granted session_rules)
      (SessionController.reconcile (λ n. n ∷ []) (λ status. text "hash") minute request)
    × Emits (Granted gc_rules) (Collector.reconcile (λ h. minute))
    × Emits (Granted network_rules) (Publisher.reconcile request)
reconcile-Granted_example =
    reconcile-Granted (λ n. n ∷ []) (λ status. text "hash") minute (λ h. minute) request
