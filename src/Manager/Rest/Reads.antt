-- ===== src/Manager/Rest/Reads.antt =====
-- handlers/: what is true of every request of a handler that reads sessions, and maybe patches one,
-- if it is of the requests for them.
use xr_telepresence_k8s.Base.{Bool, Option, none, some, List, [], ◌∷◌, bytes_eq, contains, true}
use xr_telepresence_k8s.Base.Dict.{lookup}
use xr_telepresence_k8s.Base.Text.{Bytes, text}
use xr_telepresence_k8s.Resources.Session.{Session}
use xr_telepresence_k8s.Effect.{Result, ok, err, panic, Error, pure, is_not_found}
use xr_telepresence_k8s.Effect.Emits.{
  Emits, bind-Emits, pure-Emits, raise-Emits, attempt-Emits, result-Emits, if-Emits,
}
use xr_telepresence_k8s.Manager.Clusters.{
  Exec, Clusters, Request, Reply, Patch, list_sessions, get_session, create_session, patch_session,
  delete_session, get_ping_service, reply, status_conflict, failure, remove_client,
  status_bad_request,
}
use xr_telepresence_k8s.Manager.Sessions.{
  Handler, or_reply, found, find_session, find_session_from, add_session, empty_session,
  failed_lookup, create_everywhere, create_in_all, create_with_pods, create_from,
  RegisterSessionBody, deletion, delete_everywhere, without_session_pods, bad_gateway,
  SessionTemplate, new_session,
}
use xr_telepresence_k8s.Manager.Clients.{
  match_client, find_session_by_client_id, cluster_failure, CreateClientBody, UpdateClientBody,
  with_client,
}
use xr_telepresence_k8s.Manager.Clusters as Api
use xr_telepresence_k8s.Manager.Sessions
use xr_telepresence_k8s.Manager.Clients

-- Goes on with the value, or replies to the error.
pub or_reply-Emits {ℓ} :
    {P : Request → Type 0} {A : Type ℓ} (f : Error → Reply) {k : A → Exec Reply} (r : Result A)
    → ((a : A) → Emits P (k a))
    → Emits P (or_reply f k r)
or_reply-Emits f (ok a) e = e a
or_reply-Emits f (err x) e = pure-Emits
or_reply-Emits f panic e = result-Emits panic

pub send-Emits : {P : Request → Type 0} (r : Request) → P r → Emits P (Api.send r)
send-Emits r p = record { at = λ s h a. (p, a) }

module _ {P : Request → Type 0} (gets : (cluster id : Bytes) → P (get_session cluster id)) where
  get-Emits : (cluster id : Bytes) → Emits P (Api.get cluster id)
  get-Emits cluster id = record { at = λ s h a. (gets cluster id, a) }

  found-Emits {ℓ} : {A : Type ℓ} (r : Result A) → Emits P (found r)
  found-Emits (ok a) = pure-Emits
  found-Emits (err e) = if-Emits (is_not_found e) (λ _. raise-Emits) (λ _. raise-Emits)
  found-Emits panic = result-Emits panic

  find_session-Emits :
      (id : Bytes) (clusters : List Bytes) (sum : Session)
      → Emits P (find_session_from id sum clusters)
  unfolding find_session_from
  find_session-Emits id [] sum = pure-Emits
  find_session-Emits id (cluster ∷ clusters) sum =
      bind-Emits (attempt-Emits (get-Emits cluster id))
        λ r. bind-Emits (found-Emits r) λ s. find_session-Emits id clusters (add_session sum s)

  match_client-Emits :
      (cluster k : Bytes) (r : Result Session) {rest : Exec (Bytes × Session)}
      → Emits P rest
      → Emits P (match_client cluster k r rest)
  unfolding match_client
  match_client-Emits cluster k (err e) rest-P =
      if-Emits (is_not_found e) (λ _. rest-P) (λ _. raise-Emits)
  match_client-Emits cluster k panic rest-P = result-Emits panic
  match_client-Emits cluster k (ok x) {rest} rest-P = by_entry (lookup k x.spec.clients)
    where
      by_entry :
          (o : Option Bool)
          → Emits {S = Clusters} {A = Bytes × Session} P
              (elim o [ some _ ↦ pure (cluster, x) | none ↦ rest ])
      by_entry none = rest-P
      by_entry (some _) = pure-Emits

  find_by_client-Emits :
      (clusters : List Bytes) (id k : Bytes) → Emits P (find_session_by_client_id clusters id k)
  unfolding find_session_by_client_id
  find_by_client-Emits [] id k = raise-Emits
  find_by_client-Emits (cluster ∷ clusters) id k =
      bind-Emits (attempt-Emits (get-Emits cluster id))
        λ r. match_client-Emits cluster k r (find_by_client-Emits clusters id k)

  pub get_session-Emits : (h : Handler) (id : Bytes) → Emits P (Sessions.get_session h id)
  unfolding Sessions.get_session find_session
  get_session-Emits h id =
      bind-Emits (attempt-Emits (find_session-Emits id h.clusters (empty_session id)))
        λ r. or_reply-Emits failed_lookup r (λ _. pure-Emits)

  pub get_clients-Emits : (h : Handler) (url id : Bytes) → Emits P (Clients.get_clients h url id)
  unfolding Clients.get_clients find_session
  get_clients-Emits h url id =
      bind-Emits (attempt-Emits (find_session-Emits id h.clusters (empty_session id)))
        λ r. or_reply-Emits failed_lookup r (λ _. pure-Emits)

  pub get_client-Emits : (h : Handler) (id k : Bytes) → Emits P (Clients.get_client h id k)
  unfolding Clients.get_client
  get_client-Emits h id k =
      bind-Emits (attempt-Emits (find_by_client-Emits h.clusters id k))
        λ r. or_reply-Emits failed_lookup r (λ _. pure-Emits)

  -- The handlers that patch a session that they have read.
  module _ (patches : (cluster id : Bytes) (p : Patch) → P (patch_session cluster id p)) where
    patching-Emits :
        (x : Session) (cluster : Bytes) (p : Option Patch)
        → Emits P (Clients.patch_session x cluster p)
    unfolding Clients.patch_session Api.patch_clients
    patching-Emits x cluster p =
        bind-Emits (attempt-Emits (send-Emits _ (patches cluster x.name _)))
          λ r. or_reply-Emits cluster_failure r (λ _. pure-Emits)

    add_new_client-Emits :
        (body : CreateClientBody) (x : Session) → Emits P (Clients.add_new_client body x)
    unfolding Clients.add_new_client
    add_new_client-Emits body x = by_entry (lookup body.client_id x.spec.clients)
      where
        by_entry :
            (o : Option Bool)
            → Emits {S = Clusters} {A = Reply} P (elim o [
              | some _ ↦ pure (reply status_conflict (failure (text "client already exists")))
              | none ↦ Clients.patch_session (with_client body.client_id true x) body.cluster none
            ])
        by_entry none = patching-Emits (with_client body.client_id true x) body.cluster none
        by_entry (some _) = pure-Emits

    pub create_client-Emits :
        (h : Handler) (id : Bytes) (body : Result CreateClientBody)
        → Emits P (Clients.create_client h id body)
    unfolding Clients.create_client
    create_client-Emits h id panic = result-Emits panic
    create_client-Emits h id (err e) = pure-Emits
    create_client-Emits h id (ok body) =
        if-Emits (contains h.clusters body.cluster)
          (λ _.
            bind-Emits (attempt-Emits (get-Emits body.cluster id))
              λ r. or_reply-Emits cluster_failure r (add_new_client-Emits body))
          (λ _. pure-Emits)

    pub update_client-Emits :
        (h : Handler) (id k : Bytes) (body : Result UpdateClientBody)
        → Emits P (Clients.update_client h id k body)
    unfolding Clients.update_client
    update_client-Emits h id k panic = result-Emits panic
    update_client-Emits h id k (err e) = pure-Emits
    update_client-Emits h id k (ok body) =
        bind-Emits (attempt-Emits (find_by_client-Emits h.clusters id k)) λ r.
          or_reply-Emits failed_lookup r
            (λ (cluster, x). patching-Emits (with_client k body.connected x) cluster none)

    pub delete_client-Emits : (h : Handler) (id k : Bytes) → Emits P (Clients.delete_client h id k)
    unfolding Clients.delete_client
    delete_client-Emits h id k =
        bind-Emits (attempt-Emits (find_by_client-Emits h.clusters id k)) λ r.
          or_reply-Emits failed_lookup r
            (λ (cluster, x). patching-Emits x cluster (some (remove_client k)))
