-- ===== src/Manager/Sessions/Everywhere.antt =====
-- handlers/session.go: creation and deletion over all clusters.
use xr_telepresence_k8s.Effect.{Settles, Error, ok, is_not_found, is_already_exists}
use xr_telepresence_k8s.Base.{
  ap, subst, if◌then◌else◌, contains, bytes_eq, ◌≡◌, refl, inl, inr, Bool, true, false, ◌||◌,
  Option, none, some, List, [], ◌∷◌, ◌++◌, arith,
}
use xr_telepresence_k8s.Manager.Clusters.{
  create_session, delete_session, Request, Clusters, Reply, reply, null,
}
use xr_telepresence_k8s.Manager.Sessions.{
  create_everywhere, create_in_all, create_with_pods, create_from, without_session_pods,
  new_session, delete_everywhere, Handler, create_everywhere, deletion, deletion_reply,
  RegisterSessionBody, SessionTemplate,
}
use xr_telepresence_k8s.Base.Text.{Bytes, text}
use xr_telepresence_k8s.Resources.Session.{Session}
use xr_telepresence_k8s.Resources.Core.{PodTemplate}
use xr_telepresence_k8s.Base.Dict.{lookup}
use xr_telepresence_k8s.Manager.Sessions

-- The requests, the newest first, after one of each cluster in order.
abbrev pub after_all : (Bytes → Request) → List Bytes → List Request → List Request
after_all request [] h = h
after_all request (cluster ∷ clusters) h = after_all request clusters (request cluster ∷ h)

abbrev pub accepted : Option Error → Bool
accepted none = true
accepted (some _) = false

abbrev pub some_accepted : (Bytes → Option Error) → List Bytes → Bool
some_accepted answer [] = false
some_accepted answer (cluster ∷ clusters) =
    accepted (answer cluster) || some_accepted answer clusters

or_true : (b : Bool) → (b || true) ≡ true
or_true b = ground arith

deletion_reply_lem :
    (deleted : Bool) → deletion_reply deleted ≡ reply (if deleted then 200 else 404) null
deletion_reply_lem true = refl
deletion_reply_lem false = refl

module _ (s : Clusters) (answer : Bytes → Option Error) where
  delete_everywhere-all :
      (id : Bytes) (deleted : Bool) (clusters : List Bytes) (h : List Request)
      → ((h : List Request) (cluster : Bytes)
          → s.write h (delete_session cluster id) ≡ answer cluster)
      → ((cluster : Bytes) → Settles is_not_found (answer cluster))
      → delete_everywhere id deleted clusters s h ≡ (
        ok (deleted || some_accepted answer clusters),
        after_all (λ cluster. delete_session cluster id) clusters h,
      )
  unfolding delete_everywhere deletion
  delete_everywhere-all id deleted [] h answers settles = ground arith
  delete_everywhere-all id deleted (cluster ∷ clusters) h answers settles =
      let rest = λ (d : Bool).
        delete_everywhere-all id d clusters (delete_session cluster id ∷ h) answers settles in
      elim (settles cluster) [
        | inl e ↦ rw (answers h cluster, e) (rw (or_true deleted) (rest true))
        | inr (x, e, t) ↦ rw (answers h cluster, e) (rw t (rest deleted))
      ]

  -- If every cluster either deletes the session or does not know it, always alike, every cluster
  -- is asked in order, and the reply is 200 when some cluster deleted it and 404 otherwise.
  pub delete_session_everywhere :
      (handler : Handler) (id : Bytes) (h : List Request)
      → ((h : List Request) (cluster : Bytes)
          → s.write h (delete_session cluster id) ≡ answer cluster)
      → ((cluster : Bytes) → Settles is_not_found (answer cluster))
      → Sessions.delete_session handler id s h ≡ (
        ok (reply (if some_accepted answer handler.clusters then 200 else 404) null),
        after_all (λ cluster. delete_session cluster id) handler.clusters h,
      )
  unfolding Sessions.delete_session
  delete_session_everywhere handler id h answers settles =
      rw (delete_everywhere-all id false handler.clusters h answers settles) (
        ap
          (λ (r : Reply).
            (ok r, after_all (λ cluster. delete_session cluster id) handler.clusters h))
          (deletion_reply_lem (some_accepted answer handler.clusters)))

abbrev pub created_reply : Bytes → Bytes → Reply
created_reply url name = record {
  status = 201;
  location = some (url ++ text "/" ++ name);
  body = null;
}

-- A session of that name with these session pods, no clients, and all else from the template.
abbrev pub session_of : Bytes → SessionTemplate → List PodTemplate → Session
session_of name t session_pods = record {
  name = name;
  namespace = [];
  annotations = [];
  spec = record {
    session_pod_templates = session_pods;
    client_pod_templates = t.client_pod_templates;
    timeout_seconds = t.timeout_seconds;
    reutilize_timeout_seconds = t.reutilize_timeout_seconds;
    clients = [];
  };
  status = record { session_pods = record { conditions = []; pods_status = [] }; clients = [] };
}

create_from-with_pods :
    (handler : Handler) (url name cluster : Bytes) (t : SessionTemplate) {first : PodTemplate}
    {more : List PodTemplate}
    → t.session_pod_templates ≡ first ∷ more
    → create_from handler url name cluster t
      ≡ create_with_pods handler url cluster (new_session name t)
unfolding create_from
create_from-with_pods handler url name cluster t pods =
    ap
      (λ templates. elim templates [
        | [] ↦ create_in_all handler url (new_session name t)
        | _ ∷ _ ↦ create_with_pods handler url cluster (new_session name t)
      ])
      pods

module _ (s : Clusters)
    (settles : (h : List Request) (cluster : Bytes) (session : Session)
      → Settles is_already_exists (s.write h (create_session cluster session))) where
  create_everywhere-all :
      (session : Session) (clusters : List Bytes) (h : List Request)
      → create_everywhere clusters session s h
        ≡ (ok tt, after_all (λ cluster. create_session cluster session) clusters h)
  unfolding create_everywhere
  create_everywhere-all session [] h = refl
  create_everywhere-all session (cluster ∷ clusters) h =
      let rest = create_everywhere-all session clusters (create_session cluster session ∷ h) in
      elim (settles h cluster session) [ inl e ↦ rw e rest | inr (x, e, t) ↦ rw e (rw t rest) ]

  create_in_all-created :
      (handler : Handler) (url : Bytes) (session : Session) (h : List Request)
      → create_in_all handler url session s h ≡ (
        ok (created_reply url session.name),
        after_all
            (λ cluster. create_session cluster (without_session_pods session))
            handler.clusters
            h,
      )
  unfolding create_in_all
  create_in_all-created handler url session h =
      rw (create_everywhere-all (without_session_pods session) handler.clusters h)

  -- If the template is configured and has session pods, the cluster asked for is configured, and
  -- every creation is accepted or refused as already existing, the session is created with its
  -- session pods in that cluster, then without them in every cluster in order, and the reply is
  -- its location.
  pub create_session_everywhere :
      (handler : Handler) (url uuid : Bytes) (body : RegisterSessionBody) (h : List Request)
      {t : SessionTemplate} {first : PodTemplate} {more : List PodTemplate}
      → lookup body.template_name handler.session_templates ≡ some t
      → t.session_pod_templates ≡ first ∷ more
      → contains handler.clusters body.session_pods_cluster ≡ true
      → let name = body.template_name ++ text "-" ++ uuid in
        Sessions.create_session handler url uuid (ok body) s h ≡ (
          ok (created_reply url name),
          after_all
              (λ cluster. create_session cluster (session_of name t []))
              handler.clusters
              (create_session body.session_pods_cluster (session_of name t (first ∷ more)) ∷ h),
        )
  unfolding Sessions.create_session create_with_pods
  create_session_everywhere handler url uuid body h {t} found pods configured =
      let name = body.template_name ++ text "-" ++ uuid in
      let session = new_session name t in
      let all =
        create_in_all-created handler url session
          (create_session body.session_pods_cluster session ∷ h) in
      subst
        (λ (x : Session). Sessions.create_session handler url uuid (ok body) s h ≡ (
          ok (created_reply url name),
          after_all (λ cluster. create_session cluster (session_of name t [])) handler.clusters
              (create_session body.session_pods_cluster x ∷ h),
        ))
        (ap (session_of name t) pods)
        (rw (found, Sessions.create_session)
          (rw (create_from-with_pods handler url name body.session_pods_cluster t pods) (
            rw (configured, create_with_pods)
              (elim (settles h body.session_pods_cluster session) [
                | inl e ↦ rw e all
                | inr (x, e, tolerated) ↦ rw e (rw tolerated all)
              ]))))
