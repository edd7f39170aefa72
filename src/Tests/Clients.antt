-- ===== src/Tests/Clients.antt =====
-- The clients' life on the session of the fixtures.
use xr_telepresence_k8s.Base.{◌++◌, nat_eq, bytes_eq, List, ◌≡◌, [], ◌∷◌, ◌-◌}
use xr_telepresence_k8s.Session.Clients.Lifecycle.{next_status, next_status, lookup-lifecycle}
use xr_telepresence_k8s.Session.Clients.{
  handle_client_changes, clean_expired_clients_from_status, remove_departed_clients,
}
use xr_telepresence_k8s.Base.Dict.{lookup}
use xr_telepresence_k8s.Tests.Fixtures.{bob, minute, demo, demo-NodupKeys, spec-NodupKeys}
use xr_telepresence_k8s.Resources.Session.{Condition}
use xr_telepresence_k8s.Session.Conditions.{set_ready, pods_ready, type_ready}
use xr_telepresence_k8s.Base.Text.{text}
use xr_telepresence_k8s.Session.Conditions.Uniqueness.{
  condition, others, occurrences, set_ready_lem,
}

lookup-lifecycle_example :
    lookup bob (
      remove_departed_clients demo.spec.clients
        (handle_client_changes minute demo.spec.clients
          (clean_expired_clients_from_status minute demo.status.clients 60)).1)
    ≡ next_status minute 60 (lookup bob demo.spec.clients) (lookup bob demo.status.clients)
lookup-lifecycle_example =
    lookup-lifecycle minute 60 bob demo.spec.clients demo.status.clients spec-NodupKeys
      demo-NodupKeys

set_ready_lem_example :
    (rest : List Condition) × (set_ready minute (text "True") pods_ready []
      ≡ rest ++ condition minute (text "True") pods_ready ∷ [])
    × (others type_ready rest ≡ others type_ready [])
    × (occurrences type_ready rest ≡ occurrences type_ready [] - 1)
set_ready_lem_example = set_ready_lem minute (text "True") pods_ready []
