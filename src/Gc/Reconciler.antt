-- ===== src/Gc/Reconciler.antt =====
-- gc_controller.go: one run over all registrations. The clock is read once for each registration,
-- and may depend on the calls made before.
pub mod Fate
pub mod Calm
pub mod Calls
pub mod Expiry
use xr_telepresence_k8s.Base.{
  ℕ, ◌+◌, ◌*◌, ◌%◌, ◌^◌, Bool, ◌&&◌, ◌||◌, List, [], ◌∷◌, ◌==◌, nat_eq, bytes_eq, if◌then◌else◌,
}
use xr_telepresence_k8s.Base.Text.{Bytes, text}
use xr_telepresence_k8s.Resources.Core.{NamespacedName, Pod}
use xr_telepresence_k8s.Resources.Session.{Session, seconds, nanos_per_second, add_before}
use xr_telepresence_k8s.Resources.Registration.{GcRegistration, timeout, reutilize_timeout}
use xr_telepresence_k8s.Effect.{
  Result, ok, err, panic, pure, raise, result, attempt, ignoring, is_not_found, ◌>>=◌, ◌>>◌,
}
use xr_telepresence_k8s.Cluster.{
  Exec, Call, write, delete_registration, delete_pod, update_registration, get_session_of,
  get_pod_of, registrations_in, everything,
}

abbrev pub gc_namespace : Bytes
gc_namespace = text "mr-telepresence-gc"

abbrev pub requeue_after_sec : ℕ
requeue_after_sec = 10

unfoldable pub registration_has_expired : ℕ → GcRegistration → Session → Bool
registration_has_expired now r session =
    let timeout_duration = seconds session.spec.timeout_seconds in
    let reutilize_timeout_duration =
      (seconds session.spec.reutilize_timeout_seconds + timeout_duration) % 2 ^ 64 in
    if r.spec.kind == timeout
    then add_before r.creation_timestamp timeout_duration now
    else add_before r.creation_timestamp reutilize_timeout_duration now

-- The test of `handleExpiredRegistration`: the pod is not kept for other clients any longer.
unfoldable pub is_final : GcRegistration → Session → Bool
is_final r session =
    r.spec.kind == reutilize_timeout
    || (r.spec.kind == timeout && session.spec.reutilize_timeout_seconds == 0)

abbrev pub for_reutilization : GcRegistration → GcRegistration
for_reutilization r = record r { spec = record spec_ { kind = reutilize_timeout } }
  where
    open r use {spec as spec_}

unfoldable pub handle_expired_registration : GcRegistration → Pod → Session → Exec (Unit {0})
unfolding is_final
handle_expired_registration r p session =
    if is_final r session
    then (ignoring is_not_found (write (delete_pod p))
        >> ignoring is_not_found (write (delete_registration r)))
    else ignoring is_not_found (write (update_registration (for_reutilization r)))

unfoldable pub delete_gc_registration : GcRegistration → Exec (Unit {0})
delete_gc_registration r = ignoring is_not_found (write (delete_registration r))

module _ (clock : List Call → ℕ) where
  abbrev pub read_clock : Exec ℕ
  read_clock s h = (ok (clock h), h)

  -- What becomes of a registration whose session is there.
  unfoldable pub collect_pod : GcRegistration → Session → Result Pod → Exec (Unit {0})
  unfolding registration_has_expired handle_expired_registration delete_gc_registration
  collect_pod r session (err e) = if is_not_found e then delete_gc_registration r else raise e
  collect_pod r session panic = result panic
  collect_pod r session (ok p) = read_clock >>= λ now.
      if registration_has_expired now r session
      then handle_expired_registration r p session
      else pure tt

  abbrev pub pod_of : GcRegistration → NamespacedName
  pod_of r = record { namespace = r.spec.session.namespace; name = r.name }

  unfoldable pub collect_session : GcRegistration → Result Session → Exec (Unit {0})
  unfolding collect_pod delete_gc_registration
  collect_session r (err e) = if is_not_found e then delete_gc_registration r else raise e
  collect_session r panic = result panic
  collect_session r (ok session) = do p ← attempt (get_pod_of (pod_of r)); collect_pod r session p

  -- The body of the loop.
  unfoldable pub collect : GcRegistration → Exec (Unit {0})
  unfolding collect_session
  collect r = do session ← attempt (get_session_of r.spec.session); collect_session r session

  unfoldable pub collect_all : List GcRegistration → Exec (Unit {0})
  unfolding collect
  collect_all [] = pure tt
  collect_all (r ∷ rs) = do collect r; collect_all rs

  -- The result is the time after which the controller runs again.
  unfoldable pub reconcile : Exec ℕ
  unfolding collect_all
  reconcile = do
    registrations ← registrations_in gc_namespace everything
    collect_all registrations
    pure (requeue_after_sec * nanos_per_second)
