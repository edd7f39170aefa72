-- ===== src/Tests/Reporting.antt =====
-- The reports and the registrations on the session of the fixtures.
use xr_telepresence_k8s.Base.{some, refl, ◌∷◌, [], ◌≡◌, ◌↔◌, true, nat_eq, bytes_eq, All}
use xr_telepresence_k8s.Base.Panic.{◌>>=◌}
use xr_telepresence_k8s.Session.Readiness.Reports.{AllReady, set_readiness_iff}
use xr_telepresence_k8s.Session.Allocation.{
  AllocationMap, TemplatePodMap, template_pod_mapping, template_of,
}
use xr_telepresence_k8s.Session.Readiness.Missing.{IsCurrent, asked, absent, reconcile_pods-spawns}
use xr_telepresence_k8s.Base.Text.{Bytes, text, split}
use xr_telepresence_k8s.Resources.Session.{ClientStatus, default_time, PodStatus}
use xr_telepresence_k8s.Session.Readiness.{
  set_readiness, client_pod, concat_paths, concat_ingress_external_ip_to_pod_paths, concat_path,
  all_ready, reconcile_pods,
}
use xr_telepresence_k8s.Base.Dict.{Dict, lookup, insert}
use xr_telepresence_k8s.Effect.Emits.{Emits}
use xr_telepresence_k8s.Tests.Fixtures.{
  vr, alice, second_pod_name, vr_template, first_pod_name, bob, pod_spec, not_ready, demo, serving,
  pod_named, on_first_pod, contains-Lacks,
}
use xr_telepresence_k8s.Session.Readiness.Paths.{concat_paths_again}

abbrev two_pods : AllocationMap
two_pods =
    (
      vr,
      record {
        pod_template = vr_template;
        pods = serving first_pod_name (alice ∷ []) ∷ serving second_pod_name (bob ∷ []) ∷ [];
      },
    )
    ∷ []

abbrev one_found : TemplatePodMap
one_found = (vr, (first_pod_name, pod_named first_pod_name) ∷ []) ∷ []

abbrev address : Bytes
address = text "10.0.0.1"

abbrev ready_alice : ClientStatus
ready_alice = record {
  last_seen_at = default_time;
  ready = true;
  pod_status =
      (
        first_pod_name,
        record { paths = (text "https://10.0.0.1/demo-1a2b-vr-0001/web") ∷ []; ready = true },
      )
      ∷ [];
}

set_readiness_iff_example :
    ((status' : PodStatus) × (lookup first_pod_name ready_alice.pod_status ≡ some status')
      × (status'.ready ≡ true))
    × ((ready_alice.ready ≡ true) ↔ ((true ≡ true) × AllReady ready_alice.pod_status))
unfolding set_readiness concat_ingress_external_ip_to_pod_paths concat_paths concat_path all_ready
    lookup insert bytes_eq nat_eq
set_readiness_iff_example =
    set_readiness_iff true first_pod_name address (on_first_pod default_time) {status = not_ready}
      {value' = ready_alice} refl refl

abbrev reported : Dict Bytes ClientStatus
reported = (alice, ready_alice) ∷ (bob, record (on_first_pod default_time) { ready = true }) ∷ []

two_pods-IsCurrent : All IsCurrent two_pods
unfolding bytes_eq nat_eq split template_of
two_pods-IsCurrent = ((refl, (refl, (refl, tt))), tt)

reconcile_pods-spawns_example :
    asked (client_pod second_pod_name pod_spec ∷ [])
    ≡ absent (pod_named first_pod_name ∷ []) two_pods
unfolding reconcile_pods lookup bytes_eq nat_eq insert split template_pod_mapping
reconcile_pods-spawns_example =
    reconcile_pods-spawns (pod_named first_pod_name ∷ []) {found = one_found} refl two_pods
      demo.status.clients (some address) {r = (client_pod second_pod_name pod_spec ∷ [], reported)}
      two_pods-IsCurrent refl

concat_paths_again_example :
    (concat_paths (text "10.0.0.2") (not_ready.paths) >>= concat_paths address)
    ≡ concat_paths address not_ready.paths
unfolding nat_eq
concat_paths_again_example =
    concat_paths_again address (text "10.0.0.2") not_ready.paths
      (contains-Lacks b'/' (text "10.0.0.2") refl) ((text "demo-1a2b-vr-0001/web", refl), tt)
