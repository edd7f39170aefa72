-- ===== src/Session/Pods.antt =====
-- session_pods.go and utils/pods.go: the pods that serve a whole session.
pub mod Calm
pub mod Idle
use xr_telepresence_k8s.Base.{
  ℕ, Bool, true, false, Option, none, some, List, [], ◌∷◌, ◌++◌, ◌==◌, nat_eq, bytes_eq,
  if◌then◌else◌, length, contains, ltb, map,
}
use xr_telepresence_k8s.Base.Dict.{Dict, lookup_or, insert}
use xr_telepresence_k8s.Base.Text.{Bytes, text}
use xr_telepresence_k8s.Resources.Core.{PodTemplate, PodSpec, Pod}
use xr_telepresence_k8s.Resources.Session.{PodStatus, Session}
use xr_telepresence_k8s.Resources.Registration.{GcRegistration}
use xr_telepresence_k8s.Cluster.{Exec, write, create_pod, owned_pods, pods_in}
use xr_telepresence_k8s.Session.Placement.{build_pod_status}
use xr_telepresence_k8s.Session.Readiness.{
  pods_are_ready, concat_ingress_external_ip_to_pod_paths, condition_true, condition_false,
  condition_unknown,
}
use xr_telepresence_k8s.Session.Conditions.{
  set_ready_condition, get_pods_failed, pods_ready, pods_not_ready, pods_reconciled,
}
use xr_telepresence_k8s.Session.Registrations.{
  manage_gc_registrations_for_session_pods, count_connected_clients,
}
use xr_telepresence_k8s.Effect.{
  ◌>>=◌, Result, ok, err, Error, panic, pure, attempt, or_panic, ignoring, is_already_exists,
  result,
}

abbrev pub labelled : Pod → Pod
labelled p = record p {
  labels = insert (text "svc") p.name (insert (text "telepresence") (text "true") p.labels);
  namespace = text "default";
}

-- `ctrl.SetControllerReference` is the server's `own_pod`.
abbrev pub owned : Session → Pod → Exec Pod
owned session p s h = result (s.own_pod session p) s h

unfoldable pub spawn_pod : Session → Pod → Exec (Unit {0})
spawn_pod session p = do
  p' ← owned session (labelled p)
  ignoring is_already_exists (write (create_pod p'))

abbrev pub with_pods_status : Dict Bytes PodStatus → Session → Session
with_pods_status m session = record session {
  status = record status_ { session_pods = record pods_ { pods_status = m } };
}
  where
    open session use {status as status_}
    open session.status use {session_pods as pods_}

abbrev pub pods_status_of : Session → Dict Bytes PodStatus
pods_status_of session = session.status.session_pods.pods_status

abbrev pub session_pod_name : Session → PodTemplate → Bytes
session_pod_name session t = session.name ++ text "-" ++ t.name

unfoldable pub build_pods_status_from :
    Session → Bytes → Dict Bytes PodStatus → List PodTemplate → Option (Dict Bytes PodStatus)
unfolding build_pod_status concat_ingress_external_ip_to_pod_paths
build_pods_status_from session ip m [] = some m
build_pods_status_from session ip m (t ∷ ts) =
    let name = session_pod_name session t in
    elim (concat_ingress_external_ip_to_pod_paths ip (build_pod_status name t.spec)) [
      | none ↦ none
      | some status ↦ build_pods_status_from session ip (insert name status m) ts
    ]

unfoldable pub build_pods_status : Session → List PodTemplate → Bytes → Option Session
unfolding build_pods_status_from
build_pods_status session templates ip = elim (build_pods_status_from session ip [] templates) [
  | none ↦ none
  | some m ↦ some (with_pods_status m session)
]

unfoldable pub set_pods_status_to_true : Dict Bytes PodStatus → Dict Bytes PodStatus
set_pods_status_to_true [] = []
set_pods_status_to_true ((name, status) ∷ m) =
    (name, record status { ready = true }) ∷ set_pods_status_to_true m

abbrev pub no_pod_status : PodStatus
no_pod_status = record { paths = []; ready = false }

-- `podsStatus[key].Ready = false`
abbrev pub mark_missing : Bytes → Session → Session
mark_missing key session =
    with_pods_status
      (insert key (record (lookup_or no_pod_status key (pods_status_of session)) { ready = false })
        (pods_status_of session))
      session

abbrev pub session_pod : Bytes → PodSpec → Pod
session_pod name spec = record {
  name = name;
  namespace = [];
  labels = (text "type", text "session") ∷ [];
  controller = none;
  spec = spec;
  conditions = [];
}

-- The session is changed whether or not the call fails, so it is returned beside the error.
abbrev pub Outcome : Type 0
Outcome = Exec (Session × Option Error)

-- Runs `m`, and then `k` on the session if it succeeded; if not, `k` does not run.
abbrev pub proceed : Session → Result (Unit {0}) → Outcome → Outcome
proceed session (ok _) k = k
proceed session (err e) k = pure (session, some e)
proceed session panic k = result panic

unfoldable pub restore_pods_from : List Bytes → List PodTemplate → Session → Outcome
unfolding spawn_pod
restore_pods_from found [] session = pure (session, none)
restore_pods_from found (t ∷ ts) session =
    let key = session_pod_name session t in
    elim (contains found key) [
      | true ↦ restore_pods_from found ts session
      | false ↦ do
        let session' = mark_missing key session
        r ← attempt (spawn_pod session' (session_pod key t.spec))
        proceed session' r (restore_pods_from found ts session')
    ]

unfoldable pub restore_pods : Session → List Pod → List PodTemplate → Outcome
unfolding restore_pods_from
restore_pods session found templates =
    restore_pods_from (map (λ (p : Pod). p.name) found) templates session

abbrev pub settled : ℕ → Session × Option Error → Session × Option Error
settled now (session, none) =
    (set_ready_condition now condition_unknown pods_reconciled session, none)
settled now (session, some e) =
    (set_ready_condition now condition_false pods_not_ready session, some e)

-- The Ready condition when every session pod exists.
abbrev pub report_all_found : ℕ → Bool → Option Bytes → Session → Session
report_all_found now true (some _) session =
    set_ready_condition now condition_true pods_ready
      (with_pods_status (set_pods_status_to_true (pods_status_of session)) session)
report_all_found now _ _ session = set_ready_condition now condition_false pods_not_ready session

-- The three ways in which `ReconcileSessionPods` goes on once the pods are known.
unfoldable pub report_session_pods : ℕ → ℕ → List Pod → Option Bytes → Session → Outcome
unfolding pods_are_ready set_pods_status_to_true restore_pods set_ready_condition
report_session_pods now connected found ip session =
    let restored =
      restore_pods session found session.spec.session_pod_templates >>= λ o. pure (settled now o) in
    if length session.spec.session_pod_templates == length found
    then pure (report_all_found now (pods_are_ready found) ip session, none)
    else if ltb 0 connected
    then restored
    else pure (session, none)

unfoldable pub reconcile_found_session_pods :
    ℕ → Session → List GcRegistration → Option Bytes → List Pod → Outcome
unfolding build_pods_status report_session_pods manage_gc_registrations_for_session_pods
    count_connected_clients
reconcile_found_session_pods now session registrations ip found = do
  let connected = count_connected_clients session.spec.clients
  address ← or_panic ip
  session' ← or_panic (build_pods_status session session.spec.session_pod_templates address)
  attempt (manage_gc_registrations_for_session_pods session' connected found registrations) >>= λ _.
      report_session_pods now connected found ip session'

-- After the call that lists the pods.
abbrev pub on_listed :
    ℕ → Session → List GcRegistration → Option Bytes → Result (List Pod) → Outcome
on_listed now session registrations ip (ok found) =
    reconcile_found_session_pods now session registrations ip found
on_listed now session registrations ip (err e) =
    pure (set_ready_condition now condition_unknown get_pods_failed session, some e)
on_listed now session registrations ip panic = result panic

-- `now` is the clock, `ip` the address of the ingress service.
unfoldable pub reconcile_session_pods :
    ℕ → Bytes → Session → List GcRegistration → Option Bytes → Outcome
unfolding reconcile_found_session_pods
reconcile_session_pods now namespace session registrations ip = do
  listed ← attempt (pods_in namespace (owned_pods session.name (text "session")))
  on_listed now session registrations ip listed
