-- ===== src/Session/Reconciler/Calls.antt =====
-- session_controller.go, session_pods.go, client_pods.go: every call that one run makes.
use xr_telepresence_k8s.Base.{
  ℕ, Option, none, some, List, [], ◌∷◌, ◌==◌, nat_eq, bytes_eq, length, ltb, contains, All-intro,
  Bool-cases, inl, inr,
}
use xr_telepresence_k8s.Base.Text.{Bytes, text}
use xr_telepresence_k8s.Base.Dict.{lookup_or}
use xr_telepresence_k8s.Effect.{
  Result, ok, err, panic, Error, is_not_found, is_already_exists, pure, raise, attempt, ◌>>=◌,
}
use xr_telepresence_k8s.Effect.Emits.{
  Emits, bind-Emits, seq-Emits, pure-Emits, raise-Emits, ignoring-Emits, if-Emits, attempt-Emits,
  or_panic-Emits, result-Emits,
}
use xr_telepresence_k8s.Cluster.{
  Server, Call, get_session, get_service, list_registrations, list_pods, create_namespace,
  create_registration, delete_registration, create_pod, update_session_status, update_session, save,
}
use xr_telepresence_k8s.Cluster.Calls.{
  write-Emits, save-Emits, get_session_of-Emits, get_service_of-Emits, registrations_in-Emits,
  pods_in-Emits,
}
use xr_telepresence_k8s.Session.Registrations.Discipline.{
  settle_found-Emits, register_reutilizable-Emits, settle_allocations-Emits,
}
use xr_telepresence_k8s.Resources.Core.{NamespacedName, Pod, PodTemplate}
use xr_telepresence_k8s.Session.Pods.{
  mark_missing, session_pod, spawn_pod, restore_pods_from, report_session_pods,
  reconcile_session_pods, Outcome, restore_pods, reconcile_found_session_pods, proceed,
  session_pod_name, on_listed, build_pods_status,
}
use xr_telepresence_k8s.Session.Reconciler.{
  spawn_pods, reconcile_client_pods, publish_status, reconcile_session_part, reconcile_client_part,
  reconcile_found, get_ingress_service_external_ip, place_clients, reconcile, on_session,
  status_has_changed, set_status_hash_annotation,
}
use xr_telepresence_k8s.Resources.Session.{Session, SessionStatus, ClientPodTemplate}
use xr_telepresence_k8s.Session.Registrations.{
  manage_gc_registrations, manage_gc_registrations_for_session_pods, gc_namespace,
}
use xr_telepresence_k8s.Resources.Registration.{GcRegistration}
use xr_telepresence_k8s.Session.Allocation.{AllocationMap, TemplatePodMap, template_pod_mapping}

-- The kinds of call that the controller makes all satisfy `P`.
pub record SessionCalls {κ} (P : Call → Type κ) : Type κ where
  pub gets_session : (n : NamespacedName) → P (get_session n)
  pub gets_service : (n : NamespacedName) → P (get_service n)
  pub lists_registrations : (n : Bytes) → P (list_registrations n)
  pub lists_pods : (n : Bytes) → P (list_pods n)
  pub creates_namespace : (n : Bytes) → P (create_namespace n)
  pub registers : (r : GcRegistration) → P (create_registration r)
  pub takes_back : (r : GcRegistration) → P (delete_registration r)
  pub creates_pod : (p : Pod) → P (create_pod p)
  pub updates_status : (x : Session) → P (update_session_status x)
  pub updates : (x : Session) → P (update_session x)

module _ {κ} {P : Call → Type κ} (may : SessionCalls P) where
  spawn_pod-Emits : (session : Session) (p : Pod) → Emits P (spawn_pod session p)
  unfolding spawn_pod
  spawn_pod-Emits session p =
      bind-Emits (record { at = λ s h a. a })
        λ p'. ignoring-Emits is_already_exists (write-Emits _ (may.creates_pod p'))

  spawn_pods-Emits : (session : Session) (ps : List Pod) → Emits P (spawn_pods session ps)
  unfolding spawn_pods
  spawn_pods-Emits session [] = pure-Emits
  spawn_pods-Emits session (p ∷ ps) =
      seq-Emits (spawn_pod-Emits session p) (spawn_pods-Emits session ps)

  proceed-Emits :
      (session : Session) (r : Result (Unit {0})) (k : Outcome)
      → Emits P k
      → Emits P (proceed session r k)
  proceed-Emits session (ok _) k e = e
  proceed-Emits session (err x) k e = pure-Emits
  proceed-Emits session panic k e = result-Emits panic

  restore_pods_from-Emits :
      (found : List Bytes) (ts : List PodTemplate) (session : Session)
      → Emits P (restore_pods_from found ts session)
  unfolding restore_pods_from
  restore_pods_from-Emits found [] session = pure-Emits
  restore_pods_from-Emits found (t ∷ ts) session =
      let key = session_pod_name session t in
      elim (Bool-cases (contains found key)) [
        | inl b ↦ rw (b, restore_pods_from) (restore_pods_from-Emits found ts session)
        | inr b ↦
            rw (b, restore_pods_from)
              (bind-Emits
                (attempt-Emits
                  (spawn_pod-Emits (mark_missing key session) (session_pod key t.spec)))
                λ r.
                  proceed-Emits (mark_missing key session) r _
                    (restore_pods_from-Emits found ts (mark_missing key session)))
      ]

  report_session_pods-Emits :
      (now connected : ℕ) (found : List Pod) (ip : Option Bytes) (session : Session)
      → Emits P (report_session_pods now connected found ip session)
  unfolding report_session_pods restore_pods
  report_session_pods-Emits now connected found ip session =
      if-Emits (length session.spec.session_pod_templates == length found) (λ b. pure-Emits)
        λ b.
          if-Emits (ltb 0 connected)
            (λ c. bind-Emits (restore_pods_from-Emits _ _ session) (λ o. pure-Emits))
            (λ c. pure-Emits)

  reconcile_session_pods-Emits :
      (now : ℕ) (namespace : Bytes) (session : Session) (registrations : List GcRegistration)
      (ip : Option Bytes)
      → Emits P (reconcile_session_pods now namespace session registrations ip)
  unfolding reconcile_session_pods reconcile_found_session_pods
      manage_gc_registrations_for_session_pods
  reconcile_session_pods-Emits now namespace session registrations ip =
      bind-Emits (attempt-Emits (pods_in-Emits namespace _ (may.lists_pods namespace))) listed
    where
      listed : (r : Result (List Pod)) → Emits P (on_listed now session registrations ip r)
      listed (err e) = pure-Emits
      listed panic = result-Emits panic
      listed (ok found) = bind-Emits (or_panic-Emits ip) λ address.
          bind-Emits
            (or_panic-Emits (build_pods_status session session.spec.session_pod_templates address))
            λ session'.
              bind-Emits
                (attempt-Emits (
                  settle_found-Emits (may.creates_namespace gc_namespace) session' _ _ found (
                    All-intro _ (λ p. ((λ b e. may.registers _), (λ r b e. may.takes_back r)))
                      found)))
                λ _. report_session_pods-Emits now _ found ip session'

  manage_gc_registrations-Emits :
      (session : Session) (m : AllocationMap) (reutilize : TemplatePodMap)
      (registrations : List GcRegistration)
      → Emits P (manage_gc_registrations session m reutilize registrations)
  unfolding manage_gc_registrations
  manage_gc_registrations-Emits session m reutilize registrations =
      let namespaced = may.creates_namespace gc_namespace in
      seq-Emits
        (register_reutilizable-Emits namespaced session _ reutilize (
          All-intro _
            (λ e. All-intro _ (λ f. ((λ b e. may.registers _), (λ r b e. may.takes_back r))) e.1)
            reutilize))
        (settle_allocations-Emits namespaced session _ m (
          All-intro _
            (λ e.
              All-intro _ (λ f. ((λ b e. may.registers _), (λ r b e. may.takes_back r))) e.1.pods)
            m))

  module _ (uuid : ℕ → Bytes) (hash_status : SessionStatus → Bytes) where
    reconcile_client_pods-Emits :
        (now : ℕ) (namespace : Bytes) (session : Session) (registrations : List GcRegistration)
        (ip : Option Bytes)
        → Emits P (reconcile_client_pods uuid now namespace session registrations ip)
    unfolding reconcile_client_pods
    reconcile_client_pods-Emits now namespace session registrations ip =
        bind-Emits (pods_in-Emits namespace _ (may.lists_pods namespace)) λ pods.
          bind-Emits (or_panic-Emits (template_pod_mapping pods)) λ mapped.
            bind-Emits (or_panic-Emits (place_clients uuid now session mapped)) λ placed.
              bind-Emits
                (attempt-Emits (
                  manage_gc_registrations-Emits session placed.allocations placed.reutilize
                    registrations))
                λ _. bind-Emits (or_panic-Emits _) (λ o. pure-Emits)

    publish_status-Emits : (session : Session) → Emits P (publish_status uuid hash_status session)
    unfolding publish_status
    publish_status-Emits session =
        if-Emits
          (status_has_changed (lookup_or [] (text "statusHash") session.annotations)
            (hash_status session.status))
          (λ b.
            bind-Emits (save-Emits update_session_status session (may.updates_status session))
              λ stored.
                save-Emits update_session (set_status_hash_annotation _ stored) (may.updates _))
          (λ b. pure-Emits)

    reconcile_session_part-Emits :
        (now : ℕ) (namespace : Bytes) (registrations : List GcRegistration) (ip : Option Bytes)
        (session : Session)
        → Emits P (reconcile_session_part uuid hash_status now namespace registrations ip session)
    unfolding reconcile_session_part
    reconcile_session_part-Emits now namespace registrations ip session =
        with_templates session.spec.session_pod_templates
      where
        failed :
            (x : Session) (e : Option Error)
            → Emits {S = Server} {A = Session} P (elim e [
              | none ↦ pure x
              | some e ↦ attempt (save update_session_status x) >>= λ _. raise e
            ])
        failed x none = pure-Emits
        failed x (some e) =
            bind-Emits (attempt-Emits (save-Emits update_session_status x (may.updates_status x)))
              (λ _. raise-Emits)

        with_templates :
            (ts : List PodTemplate)
            → Emits {S = Server} {A = Session} P (elim ts [
              | [] ↦ pure session
              | _ ∷ _ ↦
                  reconcile_session_pods now namespace session registrations ip
                  >>= λ (session', error). elim error [
                    | none ↦ pure session'
                    | some e ↦ attempt (save update_session_status session') >>= λ _. raise e
                  ]
            ])
        with_templates [] = pure-Emits
        with_templates (_ ∷ _) =
            bind-Emits (reconcile_session_pods-Emits now namespace session registrations ip)
              (λ (x, e). failed x e)

    reconcile_client_part-Emits :
        (now : ℕ) (namespace : Bytes) (registrations : List GcRegistration) (ip : Option Bytes)
        (session : Session)
        → Emits P (reconcile_client_part uuid hash_status now namespace registrations ip session)
    unfolding reconcile_client_part
    reconcile_client_part-Emits now namespace registrations ip session =
        with_templates session.spec.client_pod_templates
      where
        with_templates :
            (ts : List ClientPodTemplate)
            → Emits {S = Server} {A = Session × List Pod} P (elim ts [
              | [] ↦ pure (session, [])
              | _ ∷ _ ↦ reconcile_client_pods uuid now namespace session registrations ip
            ])
        with_templates [] = pure-Emits
        with_templates (_ ∷ _) = reconcile_client_pods-Emits now namespace session registrations ip

    reconcile_found-Emits :
        (now : ℕ) (namespace : Bytes) (session : Session)
        → Emits P (reconcile_found uuid hash_status now namespace session)
    unfolding reconcile_found get_ingress_service_external_ip
    reconcile_found-Emits now namespace session =
        bind-Emits (registrations_in-Emits gc_namespace _ (may.lists_registrations gc_namespace))
          λ rs.
            bind-Emits
              (bind-Emits (attempt-Emits (get_service_of-Emits _ (may.gets_service _)))
                (λ r. pure-Emits))
              λ ip.
                bind-Emits (reconcile_session_part-Emits now namespace rs ip session) λ session'.
                  bind-Emits (reconcile_client_part-Emits now namespace rs ip session')
                    λ (session'', pods).
                      bind-Emits (publish_status-Emits session'')
                        λ stored. spawn_pods-Emits stored pods

    pub reconcile-Emits :
        (now : ℕ) (request : NamespacedName) → Emits P (reconcile uuid hash_status now request)
    unfolding reconcile
    reconcile-Emits now request =
        bind-Emits (attempt-Emits (get_session_of-Emits request (may.gets_session request))) found
      where
        found : (r : Result Session) → Emits P (on_session uuid hash_status now request.namespace r)
        found (ok session) = reconcile_found-Emits now request.namespace session
        found (err e) = if-Emits (is_not_found e) (λ b. pure-Emits) (λ b. raise-Emits)
        found panic = result-Emits panic
