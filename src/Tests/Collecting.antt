-- ===== src/Tests/Collecting.antt =====
-- The collector on the registration of the fixtures.
use xr_telepresence_k8s.Base.{◌+◌, ◌*◌, ◌≤◌, [], ◌≡◌, nat_eq, bytes_eq, All, ℕ, List, arith}
use xr_telepresence_k8s.Cluster.{Call}
use xr_telepresence_k8s.Resources.Registration.{GcRegistration, reutilize_timeout, timeout}
use xr_telepresence_k8s.Gc.Reconciler.Expiry.{
  FitsDuration, Spares, grace, reutilize_grace, collect-Spares,
}
use xr_telepresence_k8s.Gc.Reconciler.{collect}
use xr_telepresence_k8s.Tests.Fixtures.{registration, demo, minute, willing}
use xr_telepresence_k8s.Resources.Session.{Session}
use xr_telepresence_k8s.Effect.{ok, Result}

abbrev at_time : ℕ → List Call → ℕ
at_time now h = now

abbrev offered : GcRegistration
offered = registration reutilize_timeout minute

abbrev registered : GcRegistration
registered = registration timeout minute

demo-FitsDuration : FitsDuration demo
demo-FitsDuration = omega arith

collect-Spares_example : All Spares (collect (at_time (2 * minute)) registered willing []).1
collect-Spares_example = collect-Spares (at_time (2 * minute)) willing [] registered tt young
  where
    injective :
        {session : Session} → ◌≡◌ {A = Result Session} (ok demo) (ok session) → demo ≡ session
    injective e = cc

    young :
        (session : Session)
        → ok demo ≡ ok session
        → FitsDuration session × (2 * minute ≤ minute + grace session + reutilize_grace session)
    young session e = rw (← injective e) (demo-FitsDuration, omega arith)
