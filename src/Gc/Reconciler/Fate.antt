-- ===== src/Gc/Reconciler/Fate.antt =====
-- gc_controller.go: what one round makes of a registration, in terms of its age.
use xr_telepresence_k8s.Base.{
  ℕ, ◌+◌, ◌≡◌, refl, inl, inr, none, List, ◌∷◌, ◌++◌, [], ◌==◌, arith, nat_eq, bytes_eq,
  if◌then◌else◌, ltb, Bool-cases, All, ◌*◌,
}
use xr_telepresence_k8s.Resources.Core.{Pod, NamespacedName}
use xr_telepresence_k8s.Resources.Session.{Session, nanos_per_second}
use xr_telepresence_k8s.Resources.Registration.{GcRegistration, timeout, reutilize_timeout}
use xr_telepresence_k8s.Base.Text.{text}
use xr_telepresence_k8s.Effect.{ok}
use xr_telepresence_k8s.Cluster.{
  Call, Server, delete_pod, delete_registration, update_registration, get_session, everything,
  list_registrations,
}
use xr_telepresence_k8s.Gc.Reconciler.{
  registration_has_expired, is_final, collect, pod_of, collect_all, reconcile, gc_namespace,
}
use xr_telepresence_k8s.Gc.Reconciler.Expiry.{
  grace, reutilize_grace, FitsDuration, asked, collect-retires, collect-offers,
}

-- A pod waits, is offered to other clients, or is gone.
pub data Fate : Type 0 where
  kept offered retired : Fate

-- The last moment at which the registration is left alone.
abbrev pub due : GcRegistration → Session → ℕ
due r session =
    if r.spec.kind == timeout
    then r.creation_timestamp + grace session
    else r.creation_timestamp + grace session + reutilize_grace session

-- The pod of a registration that is due goes if it was offered, or if it is in its first period and
-- no time to reuse it is granted; else, and for any type that is neither of the two, it is offered.
abbrev pub fate : ℕ → GcRegistration → Session → Fate
fate now r session =
    if ltb (due r session) now
    then (if r.spec.kind == reutilize_timeout
        then retired
        else if r.spec.kind == timeout
        then (if session.spec.reutilize_timeout_seconds == 0 then retired else offered)
        else offered)
    else kept

-- The registration of the same pod and session, by which the pod is open to reuse.
abbrev pub offer : GcRegistration → GcRegistration
offer r = record {
  name = r.name;
  namespace = r.namespace;
  creation_timestamp = r.creation_timestamp;
  spec = record { session = r.spec.session; kind = text "ReutilizeTimeout" };
}

-- The calls by which the collector brings it about, the newest first.
abbrev pub calls_of : GcRegistration → Pod → Fate → List Call
calls_of r p kept = []
calls_of r p offered = update_registration (offer r) ∷ []
calls_of r p retired = delete_registration r ∷ delete_pod p ∷ []

expired_iff :
    (now : ℕ) (r : GcRegistration) (session : Session)
    → FitsDuration session
    → registration_has_expired now r session ≡ ltb (due r session) now
unfolding registration_has_expired nat_eq
expired_iff now r session fits = ground arith

fate_by_tests :
    (now : ℕ) (r : GcRegistration) (session : Session)
    → fate now r session ≡ (
        if ltb (due r session) now then (if is_final r session then retired else offered) else kept)
unfolding is_final
fate_by_tests now r session = ground arith

module _ (clock : List Call → ℕ) (s : Server) (h : List Call) (r : GcRegistration) where
  collect_by_tests :
      (session : Session) (p : Pod)
      → s.session h r.spec.session ≡ ok session
      → s.pod (get_session r.spec.session ∷ h) (pod_of clock r) ≡ ok p
      → ((h : List Call) (c : Call) → s.write h c ≡ none)
      → collect clock r s h ≡ (
        ok tt,
        calls_of r p (
              if registration_has_expired (clock (asked clock s h r)) r session
              then (if is_final r session then retired else offered)
              else kept)
            ++ asked clock s h r,
      )
  unfolding collect
  collect_by_tests session p found running accepts =
      elim (Bool-cases (registration_has_expired (clock (asked clock s h r)) r session)) [
        | inr b ↦ ground (arith, found, running, b)
        | inl b ↦ elim (Bool-cases (is_final r session)) [
          | inl c ↦
              rw (b, c)
                (collect-retires clock s h r session p found running c b (accepts _ _)
                  (accepts _ _))
          | inr c ↦ rw (b, c) (collect-offers clock s h r session p found running c b (accepts _ _))
        ]
      ]

  pub collect-Fate :
      (session : Session) (p : Pod)
      → FitsDuration session
      → s.session h r.spec.session ≡ ok session
      → s.pod (get_session r.spec.session ∷ h) (pod_of clock r) ≡ ok p
      → ((h : List Call) (c : Call) → s.write h c ≡ none)
      → collect clock r s h
        ≡ (ok tt, calls_of r p (fate (clock (asked clock s h r)) r session) ++ asked clock s h r)
  collect-Fate session p fits found running accepts =
      rw
        (
          fate_by_tests (clock (asked clock s h r)) r session,
          ← expired_iff (clock (asked clock s h r)) r session fits,
        )
        (collect_by_tests session p found running accepts)

-- A whole run over the registrations, when every session and every pod is there.
module _ (clock : List Call → ℕ) (s : Server) (session : NamespacedName → Session)
    (p : NamespacedName → Pod) where
  -- Each registration meets its fate at the time at which the clock is read for it.
  abbrev pub after_all : List GcRegistration → List Call → List Call
  after_all [] h = h
  after_all (r ∷ rs) h = after_all rs (
      calls_of r (p (pod_of clock r)) (fate (clock (asked clock s h r)) r (session r.spec.session))
      ++ asked clock s h r)

  module _ (finds : (h : List Call) (n : NamespacedName) → s.session h n ≡ ok (session n))
      (runs : (h : List Call) (n : NamespacedName) → s.pod h n ≡ ok (p n))
      (accepts : (h : List Call) (c : Call) → s.write h c ≡ none) where
    collect_all-Fates :
        (rs : List GcRegistration) (h : List Call)
        → All (λ (r : GcRegistration). FitsDuration (session r.spec.session)) rs
        → collect_all clock rs s h ≡ (ok tt, after_all rs h)
    unfolding collect_all
    collect_all-Fates [] h _ = refl
    collect_all-Fates (r ∷ rs) h (fits, fs) =
        rw
          (collect-Fate clock s h r (session r.spec.session) (p (pod_of clock r)) fits
            (finds h r.spec.session) (runs _ (pod_of clock r)) accepts)
          (collect_all-Fates rs _ fs)

    -- If every session and pod is found, every write is accepted, and the grace periods of the
    -- sessions fit a duration, a run of the collector succeeds, asks for the next one after ten
    -- seconds, and its calls are those of an abstract rule for each registration listed, in order:
    -- before it is due its pod is kept; a due one in its first period is offered for reuse if some
    -- time for that is granted, and its pod is deleted otherwise; a due one that was offered is
    -- deleted with its pod; a due one of any other type is offered. Offering replaces the type of
    -- the registration by ReutilizeTimeout and nothing else.
    pub reconcile-Fates :
        (rs : List GcRegistration) (h : List Call)
        → s.registrations h gc_namespace everything ≡ ok rs
        → All (λ (r : GcRegistration). FitsDuration (session r.spec.session)) rs
        → reconcile clock s h
          ≡ (ok (10 * nanos_per_second), after_all rs (list_registrations gc_namespace ∷ h))
    unfolding reconcile
    reconcile-Fates rs h listed fits =
        rw (listed, collect_all-Fates rs (list_registrations gc_namespace ∷ h) fits) refl
