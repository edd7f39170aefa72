-- ===== src/Tests/Running.antt =====
-- Runs of the session controller, of the collector and of the network controller that return.
use xr_telepresence_k8s.Base.{◌≡◌, ℕ, ◌*◌, [], nat_eq, none, ◌∷◌, refl, inl, bytes_eq, arith}
use xr_telepresence_k8s.Gc.Reconciler.{gc_namespace}
use xr_telepresence_k8s.Tests.Fixtures.{
  demo-NodupKeys, spec-NodupKeys, demo, willing, minute, demo, registration, first_pod_name, vr,
  not_ready, spec-NodupKeys, pod_named,
}
use xr_telepresence_k8s.Base.Text.{Bytes, text, split, text, Bytes, split}
use xr_telepresence_k8s.Resources.Core.{NamespacedName, Service}
use xr_telepresence_k8s.Cluster.{Server, list_registrations}
use xr_telepresence_k8s.Resources.Session.{SessionStatus, nanos_per_second}
use xr_telepresence_k8s.Session.Allocation.{template_of}
use xr_telepresence_k8s.Session.Soundness.{IsSound, SoundPods}
use xr_telepresence_k8s.Cluster.Answers.{Answers}
use xr_telepresence_k8s.Session.Reconciler.{first_address}
use xr_telepresence_k8s.Effect.Ensures.{Calm, Ensures}
use xr_telepresence_k8s.Session.Reconciler.Membership.{Admits, place_clients-Admits}
use xr_telepresence_k8s.Session.Reconciler.Calm.{Sane, reconcile-Calm}
use xr_telepresence_k8s.Session.Reconciler.Soundness.{
  KeepsSound, place_clients_total, reconcile_client_pods-Sound,
}
use xr_telepresence_k8s.Effect.{ok}
use xr_telepresence_k8s.Session.Allocation.Named.{HasTemplate}
use xr_telepresence_k8s.Resources.Registration.{timeout}
use xr_telepresence_k8s.Gc.Reconciler.Calm.{reconcile-requeues}
use xr_telepresence_k8s.Gc.Reconciler.Fate.{reconcile-Fates, after_all}
use xr_telepresence_k8s.Session.Reconciler as SessionController
use xr_telepresence_k8s.Gc.Reconciler as Collector

abbrev request : NamespacedName
request = record { namespace = text "default"; name = text "demo" }

abbrev ingress_controller : Service
ingress_controller = record {
  name = text "ingress";
  namespace = text "ingress";
  labels = [];
  controller = none;
  ports = [];
  selector = [];
  load_balancer = text "192.0.2.1" ∷ [];
}

-- The ingress service has an address, and one pod is registered.
abbrev reachable : Server
reachable = record willing {
  service = λ h n. ok ingress_controller;
  registrations = λ h n q. ok (registration timeout 0 ∷ []);
}

abbrev uuids : ℕ → Bytes
uuids n = text "0003"

abbrev hash_status : SessionStatus → Bytes
hash_status status = text "hash"

first_pod-HasTemplate : HasTemplate first_pod_name
unfolding template_of split nat_eq
first_pod-HasTemplate = (vr, refl)

demo-IsSound : IsSound demo.status.clients
demo-IsSound = (entry, (entry, tt))
  where
    entry : SoundPods ((first_pod_name, not_ready) ∷ [])
    entry = ((first_pod-HasTemplate, (inl (_, refl), tt)), tt)

reachable-Answers : Answers reachable
reachable-Answers = record {
  session = λ h n. tt;
  pod = λ h n. tt;
  service = λ h n. tt;
  registrations = λ h n q. tt;
  own_pod = λ x p. tt;
}

reachable-Sane : Sane reachable request
unfolding first_address
reachable-Sane = record {
  answers = reachable-Answers;
  lists_session_pods = λ h name. tt;
  lists_client_pods = λ name h. (first_pod-HasTemplate, tt);
  sound = λ h. demo-IsSound;
  addressed = λ h. (text "192.0.2.1", refl);
}

reconcile-Calm_example :
    Calm reachable (SessionController.reconcile uuids hash_status minute request)
reconcile-Calm_example = reconcile-Calm reachable-Sane uuids hash_status minute

reconcile_client_pods-Sound_example :
    Ensures reachable KeepsSound
      (SessionController.reconcile_client_pods uuids minute (text "default") demo [] none)
reconcile_client_pods-Sound_example =
    reconcile_client_pods-Sound uuids minute (text "default") demo [] none demo-IsSound
      (λ h. (first_pod-HasTemplate, tt))

place_clients-Admits_example :
    Admits minute demo (place_clients_total uuids minute demo [] demo-IsSound tt).0.clients
place_clients-Admits_example =
    place_clients-Admits uuids minute demo [] spec-NodupKeys demo-NodupKeys
      (place_clients_total uuids minute demo [] demo-IsSound tt).1

reconcile-requeues_example :
    Ensures reachable (λ after. after ≡ 10 * nanos_per_second) (Collector.reconcile (λ h. minute))
reconcile-requeues_example = reconcile-requeues reachable-Answers (λ h. minute)

reconcile-Fates_example : Collector.reconcile (λ h. 4 * minute) reachable [] ≡ (
  ok (10 * nanos_per_second),
  after_all
      (λ h. 4 * minute)
      reachable
      (λ n. demo)
      (λ n. pod_named n.name)
      (registration timeout 0 ∷ [])
      (list_registrations gc_namespace ∷ []),
)
reconcile-Fates_example =
    reconcile-Fates (λ h. 4 * minute) reachable (λ n. demo) (λ n. pod_named n.name) (λ h n. refl)
      (λ h n. refl) (λ h c. refl) (registration timeout 0 ∷ []) [] refl (omega arith, tt)
