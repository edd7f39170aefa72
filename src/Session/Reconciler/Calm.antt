-- ===== src/Session/Reconciler/Calm.antt =====
-- session_controller.go: a run returns.
use xr_telepresence_k8s.Base.{ℕ, ◌≡◌, sym, subst, Option, none, some, List, [], ◌∷◌, bytes_eq}
use xr_telepresence_k8s.Base.Panic.{none_absurd}
use xr_telepresence_k8s.Base.Dict.{lookup_or}
use xr_telepresence_k8s.Base.Text.{Bytes, text}
use xr_telepresence_k8s.Resources.Core.{NamespacedName, Pod, PodTemplate, Service}
use xr_telepresence_k8s.Resources.Session.{Session, SessionStatus, ClientPodTemplate}
use xr_telepresence_k8s.Resources.Registration.{GcRegistration}
use xr_telepresence_k8s.Effect.{
  Result, ok, err, panic, Error, is_not_found, caught, and_then, pure, raise, attempt, ◌>>=◌,
}
use xr_telepresence_k8s.Effect.Ensures.{
  Ensures, Calm, Returns, bind-Ensures, seq-Ensures, pure-Ensures, raise-Ensures, attempt-Ensures,
  if-Ensures, Ensures-weaken,
}
use xr_telepresence_k8s.Cluster.{
  Server, Call, get_service, owned_pods, of_session, update_session_status, update_session,
  get_session_of, save,
}
use xr_telepresence_k8s.Cluster.Answers.{Answers, Answered, save-Calm, registrations_in-Calm}
use xr_telepresence_k8s.Session.Registrations.{gc_namespace}
use xr_telepresence_k8s.Session.Soundness.{IsSound}
use xr_telepresence_k8s.Session.Pods.{reconcile_session_pods}
use xr_telepresence_k8s.Session.Pods.Calm.{spawn_pod-Calm, reconcile_session_pods-Ensures}
use xr_telepresence_k8s.Session.Reconciler.Soundness.{ListsNamed, reconcile_client_pods-Sound}
use xr_telepresence_k8s.Session.Reconciler.{
  first_address, ingress_service, get_ingress_service_external_ip, spawn_pods, status_has_changed,
  set_status_hash_annotation, publish_status, reconcile_session_part, reconcile_client_part,
  reconcile_found, reconcile_client_pods, on_session, reconcile,
}

-- What the run relies on: calls are answered, the session's status is sound, client pods have
-- names with a template, and the ingress service has an address.
pub record Sane (s : Server) (request : NamespacedName) : Type 0 where
  pub answers : Answers s
  pub lists_session_pods :
      (h : List Call) (name : Bytes)
      → Answered (s.pods h request.namespace (owned_pods name (text "session")))
  pub lists_client_pods : (name : Bytes) → ListsNamed s request.namespace name
  pub sound :
      (h : List Call) → Returns (λ (x : Session). IsSound x.status.clients) (s.session h request)
  pub addressed :
      (h : List Call) → (ip : Bytes) × (first_address (s.service h ingress_service) ≡ some ip)

abbrev IsAddress : Option Bytes → Type 0
IsAddress o = (ip : Bytes) × (o ≡ some ip)

abbrev SoundSession : Session → Type 0
SoundSession x = IsSound x.status.clients

module _ {s : Server} {request : NamespacedName} (sane : Sane s request) where
  external_ip-IsAddress : Ensures s IsAddress get_ingress_service_external_ip
  unfolding get_ingress_service_external_ip first_address
  external_ip-IsAddress = record { at = λ h. go h (s.service h ingress_service) (sane.addressed h) }
    where
      go :
          (h : List Call) (r : Result Service)
          → IsAddress (first_address r)
          → Returns IsAddress
              (and_then
                (λ svc. pure (first_address svc))
                s
                (caught r)
                (get_service ingress_service ∷ h)).0
      go h (ok svc) a = a
      go h (err e) a = a
      go h panic (ip, e) = absurd (none_absurd e)

  spawn_pods-Calm : (session : Session) (ps : List Pod) → Calm s (spawn_pods session ps)
  unfolding spawn_pods
  spawn_pods-Calm session [] = pure-Ensures tt
  spawn_pods-Calm session (p ∷ ps) =
      seq-Ensures (spawn_pod-Calm sane.answers session p) (spawn_pods-Calm session ps)

  module _ (uuid : ℕ → Bytes) (hash_status : SessionStatus → Bytes) where
    publish_status-Calm : (session : Session) → Calm s (publish_status uuid hash_status session)
    unfolding publish_status
    publish_status-Calm session =
        if-Ensures
          (status_has_changed (lookup_or [] (text "statusHash") session.annotations)
            (hash_status session.status))
          (bind-Ensures (save-Calm update_session_status session) (λ stored _.
            save-Calm update_session
              (set_status_hash_annotation (hash_status session.status) stored)))
          (pure-Ensures tt)

    session_part-Ensures :
        (now : ℕ) (registrations : List GcRegistration) (ip : Bytes) (session : Session)
        → SoundSession session
        → Ensures s SoundSession (
            reconcile_session_part uuid hash_status now request.namespace registrations
              (some ip)
              session)
    unfolding reconcile_session_part
    session_part-Ensures now registrations ip session sound =
        with_templates session.spec.session_pod_templates
      where
        failed :
            (x : Session) (e : Option Error)
            → SoundSession x
            → Ensures {C = Call} s SoundSession (elim e [
              | none ↦ pure x
              | some e ↦ attempt (save update_session_status x) >>= λ _. raise e
            ])
        failed x none k = pure-Ensures k
        failed x (some e) k =
            bind-Ensures (attempt-Ensures (save-Calm update_session_status x))
              (λ _ _. raise-Ensures)

        with_templates :
            (ts : List PodTemplate)
            → Ensures {C = Call} s SoundSession (elim ts [
              | [] ↦ pure session
              | _ ∷ _ ↦
                  reconcile_session_pods now request.namespace session registrations (some ip)
                  >>= λ (session', error). elim error [
                    | none ↦ pure session'
                    | some e ↦ attempt (save update_session_status session') >>= λ _. raise e
                  ]
            ])
        with_templates [] = pure-Ensures sound
        with_templates (_ ∷ _) =
            bind-Ensures
              (reconcile_session_pods-Ensures sane.answers now request.namespace session
                registrations ip (λ h. sane.lists_session_pods h session.name))
              (λ (x, e) same. failed x e (subst IsSound (sym same) sound))

    client_part-Calm :
        (now : ℕ) (registrations : List GcRegistration) (ip : Option Bytes) (session : Session)
        → SoundSession session
        → Calm s
            (reconcile_client_part uuid hash_status now request.namespace registrations ip session)
    unfolding reconcile_client_part
    client_part-Calm now registrations ip session sound =
        with_templates session.spec.client_pod_templates
      where
        with_templates :
            (ts : List ClientPodTemplate)
            → Calm {C = Call} {A = Session × List Pod} s (elim ts [
              | [] ↦ pure (session, [])
              | _ ∷ _ ↦ reconcile_client_pods uuid now request.namespace session registrations ip
            ])
        with_templates [] = pure-Ensures tt
        with_templates (_ ∷ _) =
            Ensures-weaken (λ _ _. tt)
              (reconcile_client_pods-Sound uuid now request.namespace session registrations ip sound
                (sane.lists_client_pods session.name))

    reconcile_found-Calm :
        (now : ℕ) (session : Session)
        → SoundSession session
        → Calm s (reconcile_found uuid hash_status now request.namespace session)
    unfolding reconcile_found
    reconcile_found-Calm now session sound =
        bind-Ensures (registrations_in-Calm sane.answers gc_namespace (of_session session.name))
          λ rs _. bind-Ensures external_ip-IsAddress λ o (ip, e).
            bind-Ensures (rw e (session_part-Ensures now rs ip session sound)) λ x k.
              bind-Ensures (client_part-Calm now rs o x k) λ (y, pods) _.
                bind-Ensures (publish_status-Calm y) λ stored _. spawn_pods-Calm stored pods

    found_session : Ensures s SoundSession (get_session_of request)
    found_session = record { at = λ h. sane.sound h }

    -- If the server answers each call with a value or an error, lists client pods whose names have
    -- a template, has the session with a sound status (names with a template, paths that can be
    -- given an address), and has an address of the ingress service, a run of the session
    -- controller returns, with success or an error, and does not panic.
    pub reconcile-Calm : (now : ℕ) → Calm s (reconcile uuid hash_status now request)
    unfolding reconcile
    reconcile-Calm now = bind-Ensures (attempt-Ensures found_session) found
      where
        found :
            (r : Result Session)
            → Returns SoundSession r
            → Calm s (on_session uuid hash_status now request.namespace r)
        found (ok session) k = reconcile_found-Calm now session k
        found (err e) _ = if-Ensures (is_not_found e) (pure-Ensures tt) raise-Ensures
        found panic k = absurd k
