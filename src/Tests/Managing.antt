-- ===== src/Tests/Managing.antt =====
-- The session manager on two clusters, of which one has the client.
use xr_telepresence_k8s.Base.{
  ◌≡◌, refl, none, some, [], ◌∷◌, false, bytes_eq, inl, inr, ◌==◌, if◌then◌else◌, Option,
  Bool-cases,
}
use xr_telepresence_k8s.Base.Dict.{lookup, NodupKeys}
use xr_telepresence_k8s.Base.Text.{Bytes, text}
use xr_telepresence_k8s.Effect.{ok, err, api_error, not_found, is_not_found, Error, Settles}
use xr_telepresence_k8s.Manager.Clusters.{Clusters, Request, delete_session, create_session}
use xr_telepresence_k8s.Manager.Sessions.{
  Handler, RegisterSessionBody, SessionTemplate, find_session, deletion_reply, without_session_pods,
  new_session,
}
use xr_telepresence_k8s.Manager.Clients.{UpdateClientBody}
use xr_telepresence_k8s.Manager.Clients.Patching.{answer}
use xr_telepresence_k8s.Manager.Clusters.{reply, null}
use xr_telepresence_k8s.Manager.Sessions.Everywhere.{
  session_of, after_all, some_accepted, delete_session_everywhere, create_session_everywhere,
  created_reply,
}
use xr_telepresence_k8s.Tests.Fixtures.{demo, vr_template, spec-NodupKeys}
use xr_telepresence_k8s.Resources.Session.{Session}
use xr_telepresence_k8s.Manager.Sessions.Sum.{last_entry, find_session-clients}
use xr_telepresence_k8s.Manager.Sessions

abbrev pub demo_id : Bytes
demo_id = text "demo-1a2b"

abbrev north : Bytes
north = text "north"

abbrev pub south : Bytes
south = text "south"

abbrev without_clients : Session
without_clients = Sessions.empty_session demo_id

-- The south has the clients.
abbrev in_cluster : Bytes → Session
in_cluster cluster = if cluster == south then demo else without_clients

abbrev pub maybe_in_cluster : Bytes → Option Session
maybe_in_cluster cluster = some (in_cluster cluster)

-- The north does not know the session that is to be deleted.
abbrev deletion_answer : Bytes → Option Error
deletion_answer cluster = if cluster == south then none else some (api_error not_found [])

abbrev pub two_clusters : Clusters
two_clusters = record {
  sessions = λ h cluster. ok [];
  session = λ h cluster id. answer (maybe_in_cluster cluster);
  ping = λ h cluster. err (api_error not_found []);
  write = λ h r. deletion_or_accepted r;
}
  where
    deletion_or_accepted : Request → Option Error
    deletion_or_accepted (delete_session cluster _) = deletion_answer cluster
    deletion_or_accepted _ = none

abbrev template : SessionTemplate
template = record {
  name = text "demo";
  session_pod_templates = vr_template.template ∷ [];
  client_pod_templates = vr_template ∷ [];
  timeout_seconds = 60;
  reutilize_timeout_seconds = 60;
}

abbrev pub handler : Handler
handler = record { clusters = north ∷ south ∷ []; session_templates = (text "demo", template) ∷ [] }

abbrev pub registration_body : RegisterSessionBody
registration_body = record { template_name = text "demo"; session_pods_cluster = south }

abbrev pub disconnected : UpdateClientBody
disconnected = record { connected = false }

find_session-clients_example :
    (sum : Session) × ((find_session demo_id (north ∷ south ∷ []) two_clusters []).0 ≡ ok sum)
    × ((client : Bytes)
        → lookup client sum.spec.clients ≡ last_entry in_cluster client (north ∷ south ∷ []) none)
find_session-clients_example =
    find_session-clients in_cluster demo_id (north ∷ south ∷ []) two_clusters [] (λ h cluster. refl)
      distinct
  where
    distinct : (cluster : Bytes) → NodupKeys (in_cluster cluster).spec.clients
    distinct cluster = elim (Bool-cases (cluster == south)) [
      | inl b ↦ rw b spec-NodupKeys
      | inr b ↦ rw b tt
    ]

delete_session_everywhere_example : Sessions.delete_session handler demo_id two_clusters [] ≡ (
  ok (reply (if some_accepted deletion_answer (north ∷ south ∷ []) then 200 else 404) null),
  after_all (λ cluster. delete_session cluster demo_id) (north ∷ south ∷ []) [],
)
delete_session_everywhere_example =
    delete_session_everywhere two_clusters deletion_answer handler demo_id [] (λ h cluster. refl)
      settles
  where
    settles : (cluster : Bytes) → Settles is_not_found (deletion_answer cluster)
    settles cluster = elim (Bool-cases (cluster == south)) [
      | inl b ↦ rw b (inl refl)
      | inr b ↦ rw b (inr (api_error not_found [], refl, refl))
    ]

create_session_everywhere_example :
    Sessions.create_session handler
      (text "/sessions")
      (text "1a2b")
      (ok registration_body)
      two_clusters
      []
    ≡ (
      ok (created_reply (text "/sessions") demo_id),
      after_all
          (λ cluster. create_session cluster (session_of demo_id template []))
          handler.clusters
          (create_session south (session_of demo_id template (vr_template.template ∷ [])) ∷ []),
    )
unfolding lookup bytes_eq
create_session_everywhere_example =
    create_session_everywhere two_clusters (λ h cluster session. inl refl) handler
      (text "/sessions") (text "1a2b") registration_body [] {t = template} refl refl refl
