-- ===== src/Manager/Rest/Writes.antt =====
-- handlers/session.go: what is true of every request by which sessions are created or deleted, if
-- it is of one.
use xr_telepresence_k8s.Base.{
  Bool, Option, none, some, List, [], ◌∷◌, bytes_eq, contains, ◌++◌, false,
}
use xr_telepresence_k8s.Base.Dict.{lookup}
use xr_telepresence_k8s.Base.Text.{Bytes, text}
use xr_telepresence_k8s.Resources.Core.{PodTemplate}
use xr_telepresence_k8s.Resources.Session.{Session}
use xr_telepresence_k8s.Effect.{Result, ok, err, panic, pure, is_not_found, is_already_exists}
use xr_telepresence_k8s.Effect.Emits.{
  Emits, bind-Emits, seq-Emits, pure-Emits, raise-Emits, ignoring-Emits, attempt-Emits,
  result-Emits, if-Emits,
}
use xr_telepresence_k8s.Manager.Clusters.{
  Exec, Clusters, Request, Reply, Patch, list_sessions, get_session, create_session, patch_session,
  delete_session, get_ping_service, reply, status_conflict, failure, remove_client,
  status_bad_request,
}
use xr_telepresence_k8s.Manager.Sessions.{
  Handler, or_reply, found, find_session, find_session_from, add_session, empty_session,
  failed_lookup, create_everywhere, create_in_all, create_with_pods, create_from,
  RegisterSessionBody, deletion, delete_everywhere, without_session_pods, bad_gateway,
  SessionTemplate, new_session,
}
use xr_telepresence_k8s.Manager.Rest.Reads.{or_reply-Emits, send-Emits}
use xr_telepresence_k8s.Manager.Clusters as Api
use xr_telepresence_k8s.Manager.Sessions

module _ {P : Request → Type 0}
    (creates : (cluster : Bytes) (x : Session) → P (create_session cluster x)) where
  create-Emits : (cluster : Bytes) (x : Session) → Emits P (Api.create cluster x)
  create-Emits cluster x = send-Emits (create_session cluster x) (creates cluster x)

  create_everywhere-Emits :
      (clusters : List Bytes) (x : Session) → Emits P (create_everywhere clusters x)
  unfolding create_everywhere
  create_everywhere-Emits [] x = pure-Emits
  create_everywhere-Emits (cluster ∷ clusters) x =
      seq-Emits (ignoring-Emits is_already_exists (create-Emits cluster x))
        (create_everywhere-Emits clusters x)

  create_in_all-Emits : (h : Handler) (url : Bytes) (x : Session) → Emits P (create_in_all h url x)
  unfolding create_in_all
  create_in_all-Emits h url x =
      bind-Emits (attempt-Emits (create_everywhere-Emits h.clusters (without_session_pods x)))
        λ r. or_reply-Emits bad_gateway r (λ _. pure-Emits)

  create_with_pods-Emits :
      (h : Handler) (url cluster : Bytes) (x : Session) → Emits P (create_with_pods h url cluster x)
  unfolding create_with_pods
  create_with_pods-Emits h url cluster x =
      if-Emits (contains h.clusters cluster)
        (λ _.
          bind-Emits (attempt-Emits (ignoring-Emits is_already_exists (create-Emits cluster x)))
            λ r. or_reply-Emits bad_gateway r (λ _. create_in_all-Emits h url x))
        (λ _. pure-Emits)

  create_from-Emits :
      (h : Handler) (url name cluster : Bytes) (t : SessionTemplate)
      → Emits P (create_from h url name cluster t)
  unfolding create_from
  create_from-Emits h url name cluster t = by_pods t.session_pod_templates
    where
      by_pods :
          (ts : List PodTemplate)
          → Emits {S = Clusters} {A = Reply} P (elim ts [
            | [] ↦ create_in_all h url (new_session name t)
            | _ ∷ _ ↦ create_with_pods h url cluster (new_session name t)
          ])
      by_pods [] = create_in_all-Emits h url (new_session name t)
      by_pods (_ ∷ _) = create_with_pods-Emits h url cluster (new_session name t)

  pub create_session-Emits :
      (h : Handler) (url uuid : Bytes) (body : Result RegisterSessionBody)
      → Emits P (Sessions.create_session h url uuid body)
  unfolding Sessions.create_session
  create_session-Emits h url uuid panic = result-Emits panic
  create_session-Emits h url uuid (err e) = pure-Emits
  create_session-Emits h url uuid (ok body) =
      by_template (lookup body.template_name h.session_templates)
    where
      name : Bytes
      name = body.template_name ++ text "-" ++ uuid

      by_template :
          (o : Option SessionTemplate)
          → Emits {S = Clusters} {A = Reply} P (elim o [
            | none ↦ pure (reply status_bad_request (failure (text "template name not configured")))
            | some t ↦ create_from h url name body.session_pods_cluster t
          ])
      by_template none = pure-Emits
      by_template (some t) = create_from-Emits h url name body.session_pods_cluster t

module _ {P : Request → Type 0}
    (deletes : (cluster id : Bytes) → P (delete_session cluster id)) where
  deletion-Emits : (deleted : Bool) (r : Result (Unit {0})) → Emits P (deletion deleted r)
  unfolding deletion
  deletion-Emits deleted (ok _) = pure-Emits
  deletion-Emits deleted (err e) = if-Emits (is_not_found e) (λ _. pure-Emits) (λ _. raise-Emits)
  deletion-Emits deleted panic = result-Emits panic

  delete_everywhere-Emits :
      (id : Bytes) (deleted : Bool) (clusters : List Bytes)
      → Emits P (delete_everywhere id deleted clusters)
  unfolding delete_everywhere
  delete_everywhere-Emits id deleted [] = pure-Emits
  delete_everywhere-Emits id deleted (cluster ∷ clusters) =
      bind-Emits (attempt-Emits (send-Emits _ (deletes cluster id)))
        λ r. bind-Emits (deletion-Emits deleted r) λ d. delete_everywhere-Emits id d clusters

  pub delete_session-Emits : (h : Handler) (id : Bytes) → Emits P (Sessions.delete_session h id)
  unfolding Sessions.delete_session
  delete_session-Emits h id =
      bind-Emits (attempt-Emits (delete_everywhere-Emits id false h.clusters))
        λ r. or_reply-Emits bad_gateway r (λ _. pure-Emits)
