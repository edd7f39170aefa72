-- ===== src/Session/Pods/Idle.antt =====
-- session_pods.go: the session pods of a session without a connected client.
use xr_telepresence_k8s.Base.{
  ℕ, ◌≡◌, refl, All, Bool, false, [], ◌∷◌, Option, List, nat_eq, All-intro, length, ◌==◌,
}
use xr_telepresence_k8s.Effect.{ok, err, panic, Result}
use xr_telepresence_k8s.Effect.Emits.{
  Emits, bind-Emits, pure-Emits, if-Emits, result-Emits, or_panic-Emits, attempt-Emits,
}
use xr_telepresence_k8s.Cluster.{Call, create_pod}
use xr_telepresence_k8s.Session.Pods.{
  reconcile_session_pods, report_session_pods, reconcile_found_session_pods, on_listed,
  build_pods_status,
}
use xr_telepresence_k8s.Session.Registrations.Discipline.{settle_found-Emits}
use xr_telepresence_k8s.Base.Text.{Bytes}
use xr_telepresence_k8s.Base.Dict.{Dict}
use xr_telepresence_k8s.Session.Registrations.{
  manage_gc_registrations_for_session_pods, count_connected_clients,
}
use xr_telepresence_k8s.Resources.Session.{Session}
use xr_telepresence_k8s.Resources.Core.{Pod}
use xr_telepresence_k8s.Resources.Registration.{GcRegistration}
use xr_telepresence_k8s.Cluster.Calls.{pods_in-Emits}

-- The call creates no pod.
abbrev pub NoPod : Call → Type 0
NoPod (create_pod _) = ⊥
NoPod _ = Unit

registrations-NoPod :
    (session : Session) (connected : ℕ) (found : List Pod) (registrations : List GcRegistration)
    → Emits NoPod (manage_gc_registrations_for_session_pods session connected found registrations)
unfolding manage_gc_registrations_for_session_pods
registrations-NoPod session connected found registrations =
    settle_found-Emits tt session _ _ found (All-intro _ (λ p. ((λ b e. tt), (λ r b e. tt))) found)

report-NoPod :
    (now : ℕ) (found : List Pod) (ip : Option Bytes) (session : Session)
    → Emits NoPod (report_session_pods now 0 found ip session)
unfolding report_session_pods
report-NoPod now found ip session =
    if-Emits (length session.spec.session_pod_templates == length found) (λ b. pure-Emits)
      (λ b. pure-Emits)

none_connected :
    (clients : Dict Bytes Bool)
    → All (λ (c : Bytes × Bool). c.1 ≡ false) clients
    → count_connected_clients clients ≡ 0
unfolding count_connected_clients
none_connected [] _ = refl
none_connected ((k, connected) ∷ clients) (lost, rest) = rw lost (none_connected clients rest)

-- If no client of the session is connected, reconciling the session pods creates no pod, whatever
-- the server answers.
pub reconcile_session_pods-NoPod :
    (now : ℕ) (namespace : Bytes) (session : Session) (registrations : List GcRegistration)
    (ip : Option Bytes)
    → All (λ (c : Bytes × Bool). c.1 ≡ false) session.spec.clients
    → Emits NoPod (reconcile_session_pods now namespace session registrations ip)
unfolding reconcile_session_pods reconcile_found_session_pods
reconcile_session_pods-NoPod now namespace session registrations ip idle =
    bind-Emits (attempt-Emits (pods_in-Emits namespace _ tt)) listed
  where
    listed : (r : Result (List Pod)) → Emits NoPod (on_listed now session registrations ip r)
    listed (err e) = pure-Emits
    listed panic = result-Emits panic
    listed (ok found) = bind-Emits (or_panic-Emits ip) λ address.
        bind-Emits
          (or_panic-Emits (build_pods_status session session.spec.session_pod_templates address))
          λ session'.
            bind-Emits (attempt-Emits (registrations-NoPod session' _ found registrations)) λ _.
              rw (none_connected session.spec.clients idle) (report-NoPod now found ip session')
