-- ===== src/Session/Clients.antt =====
-- client_pods.go: which clients of a session are connected, lost or expired.

pub mod Keeps
pub mod Lifecycle
use xr_telepresence_k8s.Base.{
  ℕ, Bool, false, not, ◌&&◌, ◌||◌, Option, none, some, List, [], ◌∷◌, ◌++◌, ◌==◌, nat_eq, bytes_eq,
  if◌then◌else◌,
}
use xr_telepresence_k8s.Base.Dict.{Dict, lookup, insert}
use xr_telepresence_k8s.Base.Text.{Bytes}
use xr_telepresence_k8s.Resources.Session.{
  ClientStatus, default_time, unix, seconds, add_before, add_equal,
}

abbrev pub is_connected : ℕ → Bool
is_connected last_seen = unix last_seen == unix default_time

unfoldable pub client_has_expired : ℕ → ℕ → ℕ → Bool
client_has_expired now last_seen timeout_seconds =
    let d = seconds timeout_seconds in
    if is_connected last_seen
    then false
    else add_before last_seen d now || add_equal last_seen d now

-- `for k, v := range clients`: deleting the entry in hand is all that the loop does to the map.
unfoldable pub clean_expired_clients_from_status :
    ℕ → Dict Bytes ClientStatus → ℕ → Dict Bytes ClientStatus
clean_expired_clients_from_status now [] timeout_seconds = []
clean_expired_clients_from_status now ((k, v) ∷ clients) timeout_seconds =
    let rest = clean_expired_clients_from_status now clients timeout_seconds in
    if client_has_expired now v.last_seen_at timeout_seconds then rest else (k, v) ∷ rest

-- The zero value of `ClientStatus`, at the zero time.
abbrev pub no_client_status : ClientStatus
no_client_status = record { last_seen_at = 0; ready = false; pod_status = [] }

-- One round of the loop over `specClients`; `match, ok` is the entry of the status. The result is
-- the entry that the round writes, if any, and whether it reports the client as new.
unfoldable pub client_change : ℕ → Bool → Option ClientStatus → Option ClientStatus × Bool
client_change now connected none = (none, connected)
client_change now connected (some match) =
    if not connected && is_connected match.last_seen_at
    then (some (record match { last_seen_at = now }), false)
    else if connected
    then (some (record match { last_seen_at = default_time }), false)
    else (none, false)

abbrev pub write_change :
    Bytes → Option ClientStatus → Dict Bytes ClientStatus → Dict Bytes ClientStatus
write_change k none status_clients = status_clients
write_change k (some v) status_clients = insert k v status_clients

-- The loop, with the clients found so far.
unfoldable pub handle_client_changes_from :
    ℕ
    → Dict Bytes Bool
    → Dict Bytes ClientStatus
    → List Bytes
    → List Bytes × Dict Bytes ClientStatus
handle_client_changes_from now [] status_clients new_clients = (new_clients, status_clients)
handle_client_changes_from now ((k, connected) ∷ spec_clients) status_clients new_clients =
    let (change, is_new) = client_change now connected (lookup k status_clients) in
    handle_client_changes_from now spec_clients (write_change k change status_clients)
      (if is_new then new_clients ++ k ∷ [] else new_clients)

unfoldable pub handle_client_changes :
    ℕ → Dict Bytes Bool → Dict Bytes ClientStatus → List Bytes × Dict Bytes ClientStatus
unfolding handle_client_changes_from
handle_client_changes now spec_clients status_clients =
    handle_client_changes_from now spec_clients status_clients []

-- The first branch of the loop of `ReconcileClientPods`: a client that is not in the spec any more
-- leaves the status.
unfoldable pub remove_departed_clients :
    Dict Bytes Bool → Dict Bytes ClientStatus → Dict Bytes ClientStatus
remove_departed_clients spec_clients [] = []
remove_departed_clients spec_clients ((k, v) ∷ status_clients) =
    let rest = remove_departed_clients spec_clients status_clients in
    elim (lookup k spec_clients) [ none ↦ rest | some _ ↦ (k, v) ∷ rest ]
