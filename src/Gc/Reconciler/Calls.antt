-- ===== src/Gc/Reconciler/Calls.antt =====
-- gc_controller.go: every call that one run makes.
use xr_telepresence_k8s.Base.{ℕ, List, [], ◌∷◌}
use xr_telepresence_k8s.Base.Text.{Bytes}
use xr_telepresence_k8s.Resources.Core.{NamespacedName, Pod}
use xr_telepresence_k8s.Resources.Session.{Session}
use xr_telepresence_k8s.Resources.Registration.{GcRegistration}
use xr_telepresence_k8s.Effect.{Result, ok, err, panic, is_not_found, ignoring}
use xr_telepresence_k8s.Effect.Emits.{
  Emits, bind-Emits, seq-Emits, pure-Emits, raise-Emits, ignoring-Emits, if-Emits, attempt-Emits,
  result-Emits,
}
use xr_telepresence_k8s.Cluster.{
  Call, get_session, get_pod, list_registrations, delete_registration, update_registration,
  delete_pod, write,
}
use xr_telepresence_k8s.Cluster.Calls.{
  write-Emits, get_session_of-Emits, get_pod_of-Emits, registrations_in-Emits,
}
use xr_telepresence_k8s.Gc.Reconciler.{
  gc_namespace, registration_has_expired, is_final, for_reutilization, handle_expired_registration,
  delete_gc_registration, collect_pod, collect_session, collect, collect_all, reconcile, pod_of,
  read_clock,
}

-- The kinds of call that the controller makes all satisfy `P`.
pub record GcCalls {κ} (P : Call → Type κ) : Type κ where
  pub gets_session : (n : NamespacedName) → P (get_session n)
  pub gets_pod : (n : NamespacedName) → P (get_pod n)
  pub lists_registrations : (n : Bytes) → P (list_registrations n)
  pub deletes_registration : (r : GcRegistration) → P (delete_registration r)
  pub updates_registration : (r : GcRegistration) → P (update_registration r)
  pub deletes_pod : (p : Pod) → P (delete_pod p)

module _ {κ} {P : Call → Type κ} (may : GcCalls P) where
  tolerant-Emits : (c : Call) → P c → Emits P (ignoring is_not_found (write c))
  tolerant-Emits c p = ignoring-Emits is_not_found (write-Emits c p)

  handle_expired_registration-Emits :
      (r : GcRegistration) (p : Pod) (session : Session)
      → Emits P (handle_expired_registration r p session)
  unfolding handle_expired_registration
  handle_expired_registration-Emits r p session =
      if-Emits (is_final r session)
        (λ b.
          seq-Emits (tolerant-Emits _ (may.deletes_pod p))
            (tolerant-Emits _ (may.deletes_registration r)))
        (λ b. tolerant-Emits _ (may.updates_registration (for_reutilization r)))

  delete_gc_registration-Emits : (r : GcRegistration) → Emits P (delete_gc_registration r)
  unfolding delete_gc_registration
  delete_gc_registration-Emits r = tolerant-Emits _ (may.deletes_registration r)

  module _ (clock : List Call → ℕ) where
    read_clock-Emits : Emits P (read_clock clock)
    read_clock-Emits = record { at = λ s h a. a }

    collect_pod-Emits :
        (r : GcRegistration) (session : Session) (found : Result Pod)
        → Emits P (collect_pod clock r session found)
    unfolding collect_pod
    collect_pod-Emits r session (ok p) = bind-Emits read_clock-Emits λ now.
        if-Emits (registration_has_expired now r session)
          (λ b. handle_expired_registration-Emits r p session) (λ b. pure-Emits)
    collect_pod-Emits r session (err e) =
        if-Emits (is_not_found e) (λ b. delete_gc_registration-Emits r) (λ b. raise-Emits)
    collect_pod-Emits r session panic = result-Emits panic

    collect_session-Emits :
        (r : GcRegistration) (found : Result Session) → Emits P (collect_session clock r found)
    unfolding collect_session
    collect_session-Emits r (ok session) =
        bind-Emits (attempt-Emits (get_pod_of-Emits _ (may.gets_pod (pod_of clock r))))
          (collect_pod-Emits r session)
    collect_session-Emits r (err e) =
        if-Emits (is_not_found e) (λ b. delete_gc_registration-Emits r) (λ b. raise-Emits)
    collect_session-Emits r panic = result-Emits panic

    collect-Emits : (r : GcRegistration) → Emits P (collect clock r)
    unfolding collect
    collect-Emits r =
        bind-Emits (attempt-Emits (get_session_of-Emits _ (may.gets_session r.spec.session)))
          (collect_session-Emits r)

    collect_all-Emits : (rs : List GcRegistration) → Emits P (collect_all clock rs)
    unfolding collect_all
    collect_all-Emits [] = pure-Emits
    collect_all-Emits (r ∷ rs) = seq-Emits (collect-Emits r) (collect_all-Emits rs)

    pub reconcile-Emits : Emits P (reconcile clock)
    unfolding reconcile
    reconcile-Emits =
        bind-Emits (registrations_in-Emits gc_namespace _ (may.lists_registrations gc_namespace))
          λ rs. bind-Emits (collect_all-Emits rs) (λ _. pure-Emits)
