-- ===== src/Session/Pods/Calm.antt =====
-- session_pods.go: reconciling the session pods returns when the ingress has an address, and leaves
-- the clients of the status as they are.
use xr_telepresence_k8s.Base.{
  ℕ, ◌≡◌, refl, inl, inr, Bool, true, false, Option, none, some, List, [], ◌∷◌, ◌==◌, nat_eq,
  bytes_eq, length, ltb, contains, Bool-cases, map, ◌∙◌, ap,
}
use xr_telepresence_k8s.Base.Dict.{Dict, insert}
use xr_telepresence_k8s.Base.Text.{Bytes, text}
use xr_telepresence_k8s.Resources.Core.{Pod, PodTemplate}
use xr_telepresence_k8s.Resources.Session.{Session, PodStatus}
use xr_telepresence_k8s.Resources.Registration.{GcRegistration}
use xr_telepresence_k8s.Effect.{Result, ok, err, panic, Error, is_already_exists}
use xr_telepresence_k8s.Effect.Ensures.{
  Ensures, Calm, bind-Ensures, pure-Ensures, ignoring-Calm, attempt-Ensures, or_panic_then,
  Ensures-weaken, if-Ensures,
}
use xr_telepresence_k8s.Cluster.{Server, pods_in, Call, owned_pods, create_pod, Selector}
use xr_telepresence_k8s.Cluster.Answers.{Answers, Answered, write-Calm}
use xr_telepresence_k8s.Session.Conditions.{set_ready_condition}
use xr_telepresence_k8s.Session.Readiness.{concat_ingress_external_ip_to_pod_paths, pods_are_ready}
use xr_telepresence_k8s.Session.Placement.{build_pod_status}
use xr_telepresence_k8s.Session.Registrations.Calm.{manage_for_session_pods-Calm}
use xr_telepresence_k8s.Session.Pods.{
  owned, spawn_pod, labelled, build_pods_status_from, build_pods_status, session_pod_name,
  mark_missing, session_pod, Outcome, proceed, restore_pods_from, restore_pods, settled,
  report_all_found, report_session_pods, reconcile_found_session_pods, on_listed,
  reconcile_session_pods, with_pods_status,
}
use xr_telepresence_k8s.Session.Readiness.Totality.{concat_paths_total}
use xr_telepresence_k8s.Session.Soundness.{container_paths-IsServable}
use xr_telepresence_k8s.Session.Registrations.{count_connected_clients}

build_pods_status_from_total :
    (session : Session) (ip : Bytes) (m : Dict Bytes PodStatus) (ts : List PodTemplate)
    → (m' : Dict Bytes PodStatus) × (build_pods_status_from session ip m ts ≡ some m')
unfolding build_pods_status_from build_pod_status concat_ingress_external_ip_to_pod_paths
build_pods_status_from_total session ip m [] = (m, refl)
build_pods_status_from_total session ip m (t ∷ ts) =
    let name = session_pod_name session t in
    let (qs, e, _) =
      concat_paths_total ip (build_pod_status name t.spec).paths
        (container_paths-IsServable name t.spec.containers) in
    let (m', f) =
      build_pods_status_from_total session ip (insert name (record { paths = qs; ready = false }) m)
        ts in
    (m', rw (build_pods_status_from, e) f)

-- The clients of the status are those of `session`.
abbrev pub KeepsClients : Session → Session × Option Error → Type 0
KeepsClients session (x, _) = x.status.clients ≡ session.status.clients

build_pods_status_total :
    (session : Session) (ts : List PodTemplate) (ip : Bytes)
    → (x : Session) × (build_pods_status session ts ip ≡ some x)
      × (x.status.clients ≡ session.status.clients)
unfolding build_pods_status
build_pods_status_total session ts ip =
    let (m, e) = build_pods_status_from_total session ip [] ts in
    (with_pods_status m session, rw (build_pods_status, e) refl, refl)

settled-same :
    (now : ℕ) (session : Session) (o : Session × Option Error)
    → KeepsClients session o
    → KeepsClients session (settled now o)
unfolding set_ready_condition
settled-same now session (x, none) e = e
settled-same now session (x, some _) e = e

report_all_found-same :
    (now : ℕ) (ready : Bool) (ip : Option Bytes) (session : Session)
    → KeepsClients session (report_all_found now ready ip session, none)
unfolding set_ready_condition
report_all_found-same now true none session = refl
report_all_found-same now true (some _) session = refl
report_all_found-same now false ip session = refl

pods_in-Calm :
    {s : Server} {namespace : Bytes} {q : Selector}
    → ((h : List Call) → Answered (s.pods h namespace q))
    → Calm s (pods_in namespace q)
pods_in-Calm lists = record { at = lists }

module _ {s : Server} (answers : Answers s) where
  owned-Calm : (session : Session) (p : Pod) → Calm s (owned session p)
  owned-Calm session p = record { at = λ h. answers.own_pod session p }

  pub spawn_pod-Calm : (session : Session) (p : Pod) → Calm s (spawn_pod session p)
  unfolding spawn_pod
  spawn_pod-Calm session p =
      bind-Ensures (owned-Calm session (labelled p))
        λ p' _. ignoring-Calm is_already_exists (write-Calm (create_pod p'))

  proceed-Ensures :
      {Q : Session × Option Error → Type 0} (session : Session) (r : Result (Unit {0}))
      (k : Outcome)
      → Answered r
      → ((e : Option Error) → Q (session, e))
      → Ensures s Q k
      → Ensures s Q (proceed session r k)
  proceed-Ensures session (ok _) k _ q e = e
  proceed-Ensures session (err x) k _ q e = pure-Ensures (q (some x))
  proceed-Ensures session panic k a q e = absurd a

  restore_pods_from-Ensures :
      (found : List Bytes) (ts : List PodTemplate) (session : Session)
      → Ensures s (KeepsClients session) (restore_pods_from found ts session)
  unfolding restore_pods_from
  restore_pods_from-Ensures found [] session = pure-Ensures refl
  restore_pods_from-Ensures found (t ∷ ts) session =
      let key = session_pod_name session t in
      let marked = mark_missing key session in
      elim (Bool-cases (contains found key)) [
        | inl b ↦ rw (b, restore_pods_from) (restore_pods_from-Ensures found ts session)
        | inr b ↦
            rw (b, restore_pods_from)
              (bind-Ensures (attempt-Ensures (spawn_pod-Calm marked (session_pod key t.spec)))
                λ r a.
                  proceed-Ensures marked r _ a (λ e. refl)
                    (restore_pods_from-Ensures found ts marked))
      ]

  report_session_pods-Ensures :
      (now connected : ℕ) (found : List Pod) (ip : Option Bytes) (session : Session)
      → Ensures s (KeepsClients session) (report_session_pods now connected found ip session)
  unfolding report_session_pods restore_pods
  report_session_pods-Ensures now connected found ip session =
      if-Ensures (length session.spec.session_pod_templates == length found)
        (pure-Ensures (report_all_found-same now (pods_are_ready found) ip session))
        (if-Ensures (ltb 0 connected)
          (bind-Ensures
            (restore_pods_from-Ensures (map (λ (p : Pod). p.name) found)
              session.spec.session_pod_templates session)
            (λ o e. pure-Ensures (settled-same now session o e)))
          (pure-Ensures refl))

  pub reconcile_session_pods-Ensures :
      (now : ℕ) (namespace : Bytes) (session : Session) (registrations : List GcRegistration)
      (ip : Bytes)
      → ((h : List Call) → Answered (s.pods h namespace (owned_pods session.name (text "session"))))
      → Ensures s
          (KeepsClients session)
          (reconcile_session_pods now namespace session registrations (some ip))
  unfolding reconcile_session_pods reconcile_found_session_pods set_ready_condition
  reconcile_session_pods-Ensures now namespace session registrations ip lists =
      bind-Ensures (attempt-Ensures (pods_in-Calm lists)) listed
    where
      listed :
          (r : Result (List Pod))
          → Answered r
          → Ensures s (KeepsClients session) (on_listed now session registrations (some ip) r)
      listed (err e) _ = pure-Ensures refl
      listed panic a = absurd a
      listed (ok found) _ =
          let (x, e, same) =
            build_pods_status_total session session.spec.session_pod_templates ip in
          or_panic_then {o = some ip} refl λ a q.
            or_panic_then (ap (build_pods_status session session.spec.session_pod_templates) q ∙ e)
              λ y q'.
                bind-Ensures
                  (attempt-Ensures (
                    manage_for_session_pods-Calm y (count_connected_clients session.spec.clients)
                      found registrations))
                  λ _ _.
                    Ensures-weaken
                      (λ o same'. same' ∙ ap (λ (z : Session). z.status.clients) q' ∙ same)
                      (report_session_pods-Ensures now
                        (count_connected_clients session.spec.clients) found (some ip) y)
