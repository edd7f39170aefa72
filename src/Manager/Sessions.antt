-- ===== src/Manager/Sessions.antt =====
-- handlers/session.go: creation, lookup and deletion of sessions.
pub mod Sum
pub mod Everywhere
use xr_telepresence_k8s.Base.{
  ℕ, Bool, true, false, none, some, List, [], ◌∷◌, ◌++◌, ◌==◌, bytes_eq, if◌then◌else◌, contains,
}
use xr_telepresence_k8s.Base.Dict.{Dict, lookup, insert}
use xr_telepresence_k8s.Base.Text.{Bytes, text}
use xr_telepresence_k8s.Resources.Core.{PodTemplate, Service}
use xr_telepresence_k8s.Resources.Session.{ClientPodTemplate, Session}
use xr_telepresence_k8s.Effect.{
  Error, api_error, other, message, Result, ok, err, panic, pure, raise, result, attempt, ignoring,
  is_not_found, is_already_exists, ◌>>=◌, ◌>>◌,
}
use xr_telepresence_k8s.Manager.Clusters.{
  Exec, Reply, reply, null, failure, session, locations, addresses, list, get, get_ping, create,
  delete, status_ok, status_created, status_bad_request, status_not_found, status_bad_gateway,
}

pub record SessionTemplate : Type 0 where
  pub name : Bytes
  pub session_pod_templates : List PodTemplate
  pub client_pod_templates : List ClientPodTemplate
  pub timeout_seconds : ℕ
  pub reutilize_timeout_seconds : ℕ

-- A handler's maps: the names of the clusters, whose clients are the parameter of `Exec`, and the
-- templates.
pub record Handler : Type 0 where
  pub clusters : List Bytes
  pub session_templates : Dict Bytes SessionTemplate

pub record RegisterSessionBody : Type 0 where
  pub template_name : Bytes
  pub session_pods_cluster : Bytes

abbrev pub session_not_found : Error
session_not_found = api_error other (text "session not found")

abbrev pub error_is_session_not_found : Error → Bool
error_is_session_not_found e = message e == text "session not found"

-- The replies to an error of `findSession` and `findSessionByClientId`.
abbrev pub failed_lookup : Error → Reply
failed_lookup e =
    if error_is_session_not_found e
    then reply status_not_found (failure (message e))
    else reply status_bad_gateway (failure (message e))

abbrev pub bad_gateway : Error → Reply
bad_gateway e = reply status_bad_gateway (failure (message e))

-- Goes on after a success, and replies to an error by `f`.
abbrev pub or_reply {ℓ} : {A : Type ℓ} → (Error → Reply) → (A → Exec Reply) → Result A → Exec Reply
or_reply f k (ok a) = k a
or_reply f k (err e) = pure (f e)
or_reply f k panic = result panic

abbrev pub new_session : Bytes → SessionTemplate → Session
new_session name t = record {
  name = name;
  namespace = [];
  annotations = [];
  spec = record {
    session_pod_templates = t.session_pod_templates;
    client_pod_templates = t.client_pod_templates;
    timeout_seconds = t.timeout_seconds;
    reutilize_timeout_seconds = t.reutilize_timeout_seconds;
    clients = [];
  };
  status = record { session_pods = record { conditions = []; pods_status = [] }; clients = [] };
}

abbrev pub without_session_pods : Session → Session
without_session_pods s = record s { spec = record spec_ { session_pod_templates = [] } }
  where
    open s use {spec as spec_}

unfoldable pub create_everywhere : List Bytes → Session → Exec (Unit {0})
create_everywhere [] s = pure tt
create_everywhere (cluster ∷ clusters) s = do
  ignoring is_already_exists (create cluster s)
  create_everywhere clusters s

-- The second half of `CreateSession`: the session without its session pods, in every cluster.
unfoldable pub create_in_all : Handler → Bytes → Session → Exec Reply
unfolding create_everywhere
create_in_all h url s = do
  r ← attempt (create_everywhere h.clusters (without_session_pods s))
  or_reply bad_gateway
      (λ _. pure (record {
        status = status_created;
        location = some (url ++ text "/" ++ s.name);
        body = null;
      }))
      r

-- The session with its session pods, in the cluster asked for.
unfoldable pub create_with_pods : Handler → Bytes → Bytes → Session → Exec Reply
unfolding create_in_all
create_with_pods h url cluster s =
    if contains h.clusters cluster
    then attempt (ignoring is_already_exists (create cluster s))
      >>= or_reply bad_gateway (λ _. create_in_all h url s)
    else pure (reply status_bad_request (failure (text "cluster not configured")))

unfoldable pub create_from : Handler → Bytes → Bytes → Bytes → SessionTemplate → Exec Reply
unfolding create_with_pods create_in_all
create_from h url name cluster t = elim t.session_pod_templates [
  | [] ↦ create_in_all h url (new_session name t)
  | _ ∷ _ ↦ create_with_pods h url cluster (new_session name t)
]

-- `body` is what `ShouldBindJSON` yields, `url` the request's path, and `uuid` the first four
-- characters of a new UUID.
unfoldable pub create_session : Handler → Bytes → Bytes → Result RegisterSessionBody → Exec Reply
unfolding create_from
create_session h url uuid panic = result panic
create_session h url uuid (err e) = pure (reply status_bad_request (failure (message e)))
create_session h url uuid (ok body) = elim (lookup body.template_name h.session_templates) [
  | none ↦ pure (reply status_bad_request (failure (text "template name not configured")))
  | some t ↦ create_from h url (body.template_name ++ text "-" ++ uuid) body.session_pods_cluster t
]

abbrev pub empty_session : Bytes → Session
empty_session name = record {
  name = name;
  namespace = [];
  annotations = [];
  spec = record {
    session_pod_templates = [];
    client_pod_templates = [];
    timeout_seconds = 0;
    reutilize_timeout_seconds = 0;
    clients = [];
  };
  status = record { session_pods = record { conditions = []; pods_status = [] }; clients = [] };
}

-- `for k, v := range from { to[k] = v }`
unfoldable pub copy_into {ℓ} : {V : Type ℓ} → Dict Bytes V → Dict Bytes V → Dict Bytes V
copy_into to [] = to
copy_into to ((k, v) ∷ from) = copy_into (insert k v to) from

abbrev pub or_else {ℓ} : {A : Type ℓ} → List A → List A → List A
or_else [] ys = ys
or_else (x ∷ xs) ys = x ∷ xs

abbrev pub pods_part {ℓ} : {A : Type ℓ} → List PodTemplate → A → A → A
pods_part [] new old = old
pods_part (_ ∷ _) new old = new

-- One round of `findSession`: the session of one cluster is added to the sum.
unfoldable pub add_session : Session → Session → Session
unfolding copy_into
add_session sum s = record sum {
  spec = record {
    session_pod_templates =
        pods_part s.spec.session_pod_templates s.spec.session_pod_templates
          sum.spec.session_pod_templates;
    client_pod_templates = or_else sum.spec.client_pod_templates s.spec.client_pod_templates;
    timeout_seconds = s.spec.timeout_seconds;
    reutilize_timeout_seconds = s.spec.reutilize_timeout_seconds;
    clients = copy_into sum.spec.clients s.spec.clients;
  };
  status = record {
    session_pods =
        pods_part s.spec.session_pod_templates s.status.session_pods sum.status.session_pods;
    clients = copy_into sum.status.clients s.status.clients;
  };
}

abbrev pub found {ℓ} : {A : Type ℓ} → Result A → Exec A
found (ok a) = pure a
found (err e) = if is_not_found e then raise session_not_found else raise e
found panic = result panic

unfoldable pub find_session_from : Bytes → Session → List Bytes → Exec Session
unfolding add_session
find_session_from id sum [] = pure sum
find_session_from id sum (cluster ∷ clusters) = do
  r ← attempt (get cluster id)
  s ← found r
  find_session_from id (add_session sum s) clusters

unfoldable pub find_session : Bytes → List Bytes → Exec Session
unfolding find_session_from
find_session id clusters = find_session_from id (empty_session id) clusters

unfoldable pub get_session : Handler → Bytes → Exec Reply
unfolding find_session
get_session h id = do
  r ← attempt (find_session id h.clusters)
  or_reply failed_lookup (λ s. pure (reply status_ok (session s))) r

unfoldable pub session_locations : Bytes → List Session → List (Bytes × Bytes)
session_locations url [] = []
session_locations url (s ∷ ss) = (s.name, url ++ text "/" ++ s.name) ∷ session_locations url ss

-- The loop leaves after the first cluster.
unfoldable pub get_sessions : Handler → Bytes → Exec Reply
unfolding session_locations
get_sessions h url = elim h.clusters [
  | [] ↦ pure (reply status_ok (locations []))
  | cluster ∷ _ ↦
      attempt (list cluster)
      >>= or_reply bad_gateway (λ ss. pure (reply status_ok (locations (session_locations url ss))))
]

-- What one cluster's answer says of the deletion so far.
unfoldable pub deletion : Bool → Result (Unit {0}) → Exec Bool
deletion deleted (ok _) = pure true
deletion deleted (err e) = if is_not_found e then pure deleted else raise e
deletion deleted panic = result panic

unfoldable pub delete_everywhere : Bytes → Bool → List Bytes → Exec Bool
unfolding deletion
delete_everywhere id deleted [] = pure deleted
delete_everywhere id deleted (cluster ∷ clusters) = do
  r ← attempt (delete cluster id)
  deleted' ← deletion deleted r
  delete_everywhere id deleted' clusters

abbrev pub deletion_reply : Bool → Reply
deletion_reply true = reply status_ok null
deletion_reply false = reply status_not_found null

unfoldable pub delete_session : Handler → Bytes → Exec Reply
unfolding delete_everywhere
delete_session h id = do
  r ← attempt (delete_everywhere id false h.clusters)
  or_reply bad_gateway (λ deleted. pure (deletion_reply deleted)) r
