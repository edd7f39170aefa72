-- ===== src/Gc/Reconciler/Calm.antt =====
-- gc_controller.go: a run returns, and asks for the next one.
use xr_telepresence_k8s.Base.{ℕ, ◌*◌, ◌≡◌, refl, List, [], ◌∷◌}
use xr_telepresence_k8s.Resources.Core.{Pod}
use xr_telepresence_k8s.Resources.Session.{Session, nanos_per_second}
use xr_telepresence_k8s.Resources.Registration.{GcRegistration}
use xr_telepresence_k8s.Effect.{Result, ok, err, panic, is_not_found, ignoring}
use xr_telepresence_k8s.Effect.Ensures.{
  Ensures, Calm, bind-Ensures, seq-Ensures, pure-Ensures, raise-Ensures, ignoring-Calm,
  attempt-Ensures, if-Ensures,
}
use xr_telepresence_k8s.Cluster.{Server, Call, write, everything}
use xr_telepresence_k8s.Cluster.Answers.{
  Answers, Answered, write-Calm, get_session_of-Calm, get_pod_of-Calm, registrations_in-Calm,
}
use xr_telepresence_k8s.Gc.Reconciler.{
  gc_namespace, registration_has_expired, is_final, handle_expired_registration,
  delete_gc_registration, collect_pod, collect_session, collect, collect_all, reconcile, pod_of,
  read_clock,
}

tolerant-Calm : {s : Server} (c : Call) → Calm s (ignoring is_not_found (write c))
tolerant-Calm c = ignoring-Calm is_not_found (write-Calm c)

module _ {s : Server} (answers : Answers s) (clock : List Call → ℕ) where
  delete_gc_registration-Calm : (r : GcRegistration) → Calm s (delete_gc_registration r)
  unfolding delete_gc_registration
  delete_gc_registration-Calm r = tolerant-Calm _

  handle_expired_registration-Calm :
      (r : GcRegistration) (p : Pod) (session : Session)
      → Calm s (handle_expired_registration r p session)
  unfolding handle_expired_registration
  handle_expired_registration-Calm r p session =
      if-Ensures (is_final r session) (seq-Ensures (tolerant-Calm _) (tolerant-Calm _))
        (tolerant-Calm _)

  read_clock-Calm : Calm s (read_clock clock)
  read_clock-Calm = record { at = λ h. tt }

  collect_pod-Calm :
      (r : GcRegistration) (session : Session) (p : Result Pod)
      → Answered p
      → Calm s (collect_pod clock r session p)
  unfolding collect_pod
  collect_pod-Calm r session (ok p) _ = bind-Ensures read_clock-Calm λ now _.
      if-Ensures (registration_has_expired now r session)
        (handle_expired_registration-Calm r p session) (pure-Ensures tt)
  collect_pod-Calm r session (err e) _ =
      if-Ensures (is_not_found e) (delete_gc_registration-Calm r) raise-Ensures
  collect_pod-Calm r session panic h = absurd h

  collect_session-Calm :
      (r : GcRegistration) (found : Result Session)
      → Answered found
      → Calm s (collect_session clock r found)
  unfolding collect_session
  collect_session-Calm r (ok session) _ =
      bind-Ensures (attempt-Ensures (get_pod_of-Calm answers (pod_of clock r)))
        (collect_pod-Calm r session)
  collect_session-Calm r (err e) _ =
      if-Ensures (is_not_found e) (delete_gc_registration-Calm r) raise-Ensures
  collect_session-Calm r panic h = absurd h

  collect-Calm : (r : GcRegistration) → Calm s (collect clock r)
  unfolding collect
  collect-Calm r =
      bind-Ensures (attempt-Ensures (get_session_of-Calm answers r.spec.session))
        (collect_session-Calm r)

  collect_all-Calm : (rs : List GcRegistration) → Calm s (collect_all clock rs)
  unfolding collect_all
  collect_all-Calm [] = pure-Ensures tt
  collect_all-Calm (r ∷ rs) = seq-Ensures (collect-Calm r) (collect_all-Calm rs)

  -- If the server answers each call with a value or an error, a run of the collector does not
  -- panic, and if it succeeds it asks for the next one after ten seconds.
  pub reconcile-requeues : Ensures s (λ after. after ≡ 10 * nanos_per_second) (reconcile clock)
  unfolding reconcile
  reconcile-requeues =
      bind-Ensures (registrations_in-Calm answers gc_namespace everything)
        λ rs _. bind-Ensures (collect_all-Calm rs) (λ _ _. pure-Ensures refl)
