-- ===== src/Manager/Clients.antt =====
-- handlers/clients.go
pub mod Refinement
pub mod Members
pub mod Patching
use xr_telepresence_k8s.Base.{
  Bool, true, false, Option, none, some, List, [], ◌∷◌, ◌++◌, bytes_eq, if◌then◌else◌, contains,
}
use xr_telepresence_k8s.Base.Dict.{Dict, lookup, lookup_or, insert}
use xr_telepresence_k8s.Base.Text.{Bytes, text}
use xr_telepresence_k8s.Resources.Session.{Session}
use xr_telepresence_k8s.Effect.{
  Error, message, Result, ok, err, panic, pure, raise, result, attempt, is_not_found, ◌>>=◌,
}
use xr_telepresence_k8s.Session.Clients.{no_client_status}
use xr_telepresence_k8s.Manager.Clusters.{
  Exec, Reply, reply, null, failure, client, locations, get, Patch, remove_client, patch_clients,
  status_ok, status_bad_request, status_not_found, status_conflict, status_bad_gateway,
}
use xr_telepresence_k8s.Manager.Sessions.{
  Handler, session_not_found, failed_lookup, or_reply, find_session,
}

pub record CreateClientBody : Type 0 where
  pub client_id : Bytes
  pub cluster : Bytes

-- The pointer of the source is not nil: the binding requires it.
pub record UpdateClientBody : Type 0 where
  pub connected : Bool

abbrev pub with_client : Bytes → Bool → Session → Session
with_client id connected s = record s {
  spec = record spec_ { clients = insert id connected s.spec.clients };
}
  where
    open s use {spec as spec_}

-- The replies to an error that comes from a cluster itself.
abbrev pub cluster_failure : Error → Reply
cluster_failure e =
    if is_not_found e
    then reply status_not_found (failure (message e))
    else reply status_bad_gateway (failure (message e))

unfoldable pub patch_session : Session → Bytes → Option Patch → Exec Reply
unfolding patch_clients
patch_session s cluster patch = do
  r ← attempt (patch_clients cluster s.name s patch)
  or_reply cluster_failure (λ _. pure (reply status_ok null)) r

unfoldable pub add_new_client : CreateClientBody → Session → Exec Reply
unfolding patch_session
add_new_client body s = elim (lookup body.client_id s.spec.clients) [
  | some _ ↦ pure (reply status_conflict (failure (text "client already exists")))
  | none ↦ patch_session (with_client body.client_id true s) body.cluster none
]

unfoldable pub create_client : Handler → Bytes → Result CreateClientBody → Exec Reply
unfolding add_new_client
create_client h session_id panic = result panic
create_client h session_id (err e) = pure (reply status_bad_request (failure (message e)))
create_client h session_id (ok body) =
    if contains h.clusters body.cluster
    then attempt (get body.cluster session_id) >>= or_reply cluster_failure (add_new_client body)
    else pure (reply status_bad_request (failure (text "cluster not configured")))

-- What the loop does with one cluster's answer, before the clusters that follow.
unfoldable pub match_client :
    Bytes → Bytes → Result Session → Exec (Bytes × Session) → Exec (Bytes × Session)
match_client cluster client_id (ok s) rest = elim (lookup client_id s.spec.clients) [
  | some _ ↦ pure (cluster, s)
  | none ↦ rest
]
match_client cluster client_id (err e) rest = if is_not_found e then rest else raise e
match_client cluster client_id panic rest = result panic

unfoldable pub find_session_by_client_id : List Bytes → Bytes → Bytes → Exec (Bytes × Session)
unfolding match_client
find_session_by_client_id [] session_id client_id = raise session_not_found
find_session_by_client_id (cluster ∷ clusters) session_id client_id = do
  r ← attempt (get cluster session_id)
  match_client cluster client_id r (find_session_by_client_id clusters session_id client_id)

unfoldable pub get_client : Handler → Bytes → Bytes → Exec Reply
unfolding find_session_by_client_id
get_client h session_id client_id = do
  r ← attempt (find_session_by_client_id h.clusters session_id client_id)
  or_reply failed_lookup
      (λ (_, s). pure (
        reply status_ok (
          client (lookup_or false client_id s.spec.clients)
            (lookup_or no_client_status client_id s.status.clients))))
      r

unfoldable pub client_locations {ℓ} : {V : Type ℓ} → Bytes → Dict Bytes V → List (Bytes × Bytes)
client_locations url [] = []
client_locations url ((k, _) ∷ m) = (k, url ++ text "/" ++ k) ∷ client_locations url m

unfoldable pub get_clients : Handler → Bytes → Bytes → Exec Reply
unfolding find_session client_locations
get_clients h url session_id = do
  r ← attempt (find_session session_id h.clusters)
  or_reply failed_lookup
      (λ s. pure (reply status_ok (locations (client_locations url s.spec.clients)))) r

unfoldable pub update_client : Handler → Bytes → Bytes → Result UpdateClientBody → Exec Reply
unfolding find_session_by_client_id patch_session
update_client h session_id client_id panic = result panic
update_client h session_id client_id (err e) = pure (reply status_bad_request (failure (message e)))
update_client h session_id client_id (ok body) = do
  r ← attempt (find_session_by_client_id h.clusters session_id client_id)
  or_reply failed_lookup
      (λ (cluster, s). patch_session (with_client client_id body.connected s) cluster none) r

unfoldable pub delete_client : Handler → Bytes → Bytes → Exec Reply
unfolding find_session_by_client_id patch_session
delete_client h session_id client_id = do
  r ← attempt (find_session_by_client_id h.clusters session_id client_id)
  or_reply failed_lookup (λ (cluster, s). patch_session s cluster (some (remove_client client_id)))
      r
