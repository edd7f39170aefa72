-- ===== src/Gc/Reconciler/Expiry.antt =====
-- gc_controller.go: when a registration expires, and what becomes of its pod.
use xr_telepresence_k8s.Base.{
  ℕ, ◌+◌, ◌*◌, ◌<◌, ◌^◌, ◌≡◌, refl, true, false, none, List, ◌∷◌, arith, nat_eq, bytes_eq, All, ◌≤◌,
  ◌∙◌,
}
use xr_telepresence_k8s.Resources.Core.{Pod}
use xr_telepresence_k8s.Resources.Session.{Session, nanos_per_second}
use xr_telepresence_k8s.Resources.Registration.{GcRegistration}
use xr_telepresence_k8s.Effect.{Result, ok, err, panic, and_then, caught}
use xr_telepresence_k8s.Cluster.{
  Call, Server, delete_pod, delete_registration, update_registration, get_session, get_pod,
}
use xr_telepresence_k8s.Gc.Reconciler.{
  registration_has_expired, is_final, for_reutilization, collect_pod, collect_session, collect,
  pod_of,
}

-- The two grace periods in nanoseconds.
abbrev pub grace : Session → ℕ
grace session = session.spec.timeout_seconds * nanos_per_second

abbrev pub reutilize_grace : Session → ℕ
reutilize_grace session = session.spec.reutilize_timeout_seconds * nanos_per_second

-- Together they fit a duration, so that nothing overflows.
abbrev pub FitsDuration : Session → Type 0
FitsDuration session = grace session + reutilize_grace session < 2 ^ 63

-- If both grace periods together fit a duration, a registration that is final and has expired is
-- older than both together.
pub final_after_both :
    (now : ℕ) (r : GcRegistration) (session : Session)
    → FitsDuration session
    → is_final r session ≡ true
    → registration_has_expired now r session ≡ true
    → r.creation_timestamp + grace session + reutilize_grace session < now
unfolding is_final registration_has_expired nat_eq
final_after_both now r session fits final expired = ground arith

-- The call deletes no pod.
abbrev pub Spares : Call → Type 0
Spares (delete_pod _) = ⊥
Spares _ = Unit

collect_pod-Spares :
    (clock : List Call → ℕ) (s : Server) (h : List Call) (r : GcRegistration) (session : Session)
    (p : Result Pod)
    → All Spares h
    → (is_final r session ≡ true → registration_has_expired (clock h) r session ≡ true → ⊥)
    → All Spares (collect_pod clock r session p s h).1
unfolding collect_pod
collect_pod-Spares clock s h r session (ok p) spared young = ground arith
collect_pod-Spares clock s h r session (err e) spared young = ground arith
collect_pod-Spares clock s h r session panic spared young = spared

collect_session-Spares :
    (clock : List Call → ℕ) (s : Server) (h : List Call) (r : GcRegistration)
    (found : Result Session)
    → All Spares h
    → ((session : Session)
        → found ≡ ok session
        → is_final r session ≡ true
        → registration_has_expired (clock (get_pod (pod_of clock r) ∷ h)) r session ≡ true
        → ⊥)
    → All Spares (collect_session clock r found s h).1
unfolding collect_session
collect_session-Spares clock s h r (ok session) spared young = asked_pod (s.pod h (pod_of clock r))
  where
    asked_pod :
        (p : Result Pod)
        → All Spares
            (and_then (collect_pod clock r session) s (caught p) (get_pod (pod_of clock r) ∷ h)).1
    asked_pod (ok p) =
        collect_pod-Spares clock s _ r session (ok p) (tt, spared) (young session refl)
    asked_pod (err e) =
        collect_pod-Spares clock s _ r session (err e) (tt, spared) (young session refl)
    asked_pod panic = (tt, spared)
collect_session-Spares clock s h r (err e) spared young = ground arith
collect_session-Spares clock s h r panic spared young = spared

module _ (clock : List Call → ℕ) (s : Server) (h : List Call) (r : GcRegistration) where
  -- The calls made before the clock is read.
  abbrev pub asked : List Call
  asked = get_pod (pod_of clock r) ∷ get_session r.spec.session ∷ h

  -- If the session that the server answers has grace periods that fit a duration, and the clock is
  -- not past the creation of the registration by more than both together, collecting the
  -- registration deletes no pod.
  pub collect-Spares :
      All Spares h
      → ((session : Session)
          → s.session h r.spec.session ≡ ok session
          → FitsDuration session
            × (clock asked ≤ r.creation_timestamp + grace session + reutilize_grace session))
      → All Spares (collect clock r s h).1
  unfolding collect
  collect-Spares spared young = asked_session (s.session h r.spec.session) refl
    where
      asked_session :
          (found : Result Session)
          → s.session h r.spec.session ≡ found
          → All Spares
              (and_then
                (collect_session clock r)
                s
                (caught found)
                (get_session r.spec.session ∷ h)).1
      asked_session panic e = (tt, spared)
      asked_session (err x) e =
          collect_session-Spares clock s _ r (err x) (tt, spared) (λ session q. cc)
      asked_session (ok found) e =
          collect_session-Spares clock s _ r (ok found) (tt, spared)
            λ session q final expired.
              let (fits, not_over) = young session (e ∙ q) in
              omega (arith, final_after_both (clock asked) r session fits final expired, not_over)

  -- If the session and the pod are found, the registration is final and has expired, and the
  -- server accepts the deletions, collecting deletes the pod and then the registration.
  pub collect-retires :
      (session : Session) (p : Pod)
      → s.session h r.spec.session ≡ ok session
      → s.pod (get_session r.spec.session ∷ h) (pod_of clock r) ≡ ok p
      → is_final r session ≡ true
      → registration_has_expired (clock asked) r session ≡ true
      → s.write asked (delete_pod p) ≡ none
      → s.write (delete_pod p ∷ asked) (delete_registration r) ≡ none
      → collect clock r s h ≡ (ok tt, delete_registration r ∷ delete_pod p ∷ asked)
  unfolding collect
  collect-retires session p found running final expired gone forgotten = ground arith

  -- If the session and the pod are found, the registration has expired and is not final, and the
  -- server accepts the update, collecting only turns the registration into one for reuse.
  pub collect-offers :
      (session : Session) (p : Pod)
      → s.session h r.spec.session ≡ ok session
      → s.pod (get_session r.spec.session ∷ h) (pod_of clock r) ≡ ok p
      → is_final r session ≡ false
      → registration_has_expired (clock asked) r session ≡ true
      → s.write asked (update_registration (for_reutilization r)) ≡ none
      → collect clock r s h ≡ (ok tt, update_registration (for_reutilization r) ∷ asked)
  unfolding collect
  collect-offers session p found running final expired done = ground arith
