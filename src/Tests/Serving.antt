-- ===== src/Tests/Serving.antt =====
-- The session and network controllers on the server of the fixtures.
use xr_telepresence_k8s.Base.{◌≡◌, refl, some, List, [], ◌∷◌, ◌↔◌, false, bytes_eq, nat_eq, ℕ}
use xr_telepresence_k8s.Base.Text.{Bytes, text}
use xr_telepresence_k8s.Effect.{ok, panic}
use xr_telepresence_k8s.Network.Services.{service_for, container_ports, ports_of}
use xr_telepresence_k8s.Network.Publishing.Agreement.{routes, suffixed, routes-service_for}
use xr_telepresence_k8s.Session.Reconciler.Publication.{IsFaithful, hash_of, publish_status_again}
use xr_telepresence_k8s.Resources.Session.{SessionStatus, Session}
use xr_telepresence_k8s.Tests.Fixtures.{
  vr_template, willing, pod_named, minute, demo, first_pod_name, bob, spec-NodupKeys, pod_spec,
}
use xr_telepresence_k8s.Session.Pods.{reconcile_session_pods}
use xr_telepresence_k8s.Session.Registrations.{gc_namespace}
use xr_telepresence_k8s.Base.Dict.{lookup, NodupKeys}
use xr_telepresence_k8s.Session.Events.{session_update_func}
use xr_telepresence_k8s.Session.Reconciler.{publish_status, ingress_service, reconcile}
use xr_telepresence_k8s.Cluster.{
  list_registrations, get_service, get_session, Server, Call, list_pods,
}
use xr_telepresence_k8s.Resources.Core.{NamespacedName}
use xr_telepresence_k8s.Effect.Emits.{Emits}
use xr_telepresence_k8s.Network.Publishing.{paths_for}
use xr_telepresence_k8s.Session.Pods.Idle.{NoPod, reconcile_session_pods-NoPod}
use xr_telepresence_k8s.Session.Events.Wakes.{SameClients, session_update_func_iff}
use xr_telepresence_k8s.Session.Reconciler.Address.{reconcile-panics}
use xr_telepresence_k8s.Session.Placement.{build_pod_status}

abbrev uuids : ℕ → Bytes
uuids n = text "0003"

abbrev constant_hash : SessionStatus → Bytes
constant_hash status = text "2c26b46b"

willing-IsFaithful : IsFaithful willing
willing-IsFaithful = record { accepts = λ h c. refl; keeps = λ h x. refl }

publish_status_again_example :
    (published : Session) × ((publish_status uuids constant_hash demo willing []).0 ≡ ok published)
    × (published.status ≡ demo.status)
    × (hash_of published ≡ constant_hash demo.status)
    × ((later : List Call)
        → publish_status uuids constant_hash published willing later ≡ (ok published, later))
publish_status_again_example =
    publish_status_again uuids constant_hash demo willing [] willing-IsFaithful

abbrev with_session_pod : Session
with_session_pod = record demo {
  spec = record spec_ { session_pod_templates = vr_template.template ∷ [] };
}
  where
    open demo use {spec as spec_}

abbrev unaddressed : Server
unaddressed = record willing { session = λ h n. ok with_session_pod }

abbrev request : NamespacedName
request = record { namespace = text "default"; name = text "demo-1a2b" }

reconcile-panics_example : reconcile uuids constant_hash minute request unaddressed [] ≡ (
  panic,
  list_pods (text "default")
      ∷ get_service ingress_service
      ∷ list_registrations gc_namespace
      ∷ get_session request
      ∷ [],
)
reconcile-panics_example =
    reconcile-panics uuids constant_hash minute request unaddressed [] with_session_pod refl refl
      (λ h. refl) (λ h. tt) (λ h. refl)

abbrev deserted : Session
deserted = record demo { spec = record spec_ { clients = (bob, false) ∷ [] } }
  where
    open demo use {spec as spec_}

reconcile_session_pods-NoPod_example :
    Emits NoPod
      (reconcile_session_pods minute (text "default") deserted [] (some (text "10.0.0.1")))
reconcile_session_pods-NoPod_example =
    reconcile_session_pods-NoPod minute (text "default") deserted [] (some (text "10.0.0.1"))
      (refl, tt)

deserted-NodupKeys : NodupKeys deserted.spec.clients
unfolding lookup
deserted-NodupKeys = (refl, tt)

session_update_func_iff_example :
    (session_update_func demo deserted ≡ false) ↔ SameClients demo deserted
session_update_func_iff_example =
    session_update_func_iff demo deserted spec-NodupKeys deserted-NodupKeys

routes-service_for_example :
    routes (
      paths_for first_pod_name
        (service_for (text "default") (pod_named first_pod_name))
        (service_for (text "default") (pod_named first_pod_name)).ports)
    ≡ suffixed (build_pod_status first_pod_name pod_spec).paths
unfolding container_ports ports_of
routes-service_for_example =
    routes-service_for (text "default") (pod_named first_pod_name)
      {first = record { name = text "web"; port = 80; protocol = text "TCP" }} {more = []} refl
