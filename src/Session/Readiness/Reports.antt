-- ===== src/Session/Readiness/Reports.antt =====
-- client_pods.go: what the clients are told, and which pods are spawned.
use xr_telepresence_k8s.Base.{
  ◌≡◌, refl, sym, ◌↔◌, inl, inr, Bool, true, false, Option, none, some, List, [], ◌∷◌, ◌++◌, arith,
  bytes_eq, Option-cases, ap, ◌∙◌,
}
use xr_telepresence_k8s.Base.Panic.{◌>>=◌, none_absurd, some_injective}
use xr_telepresence_k8s.Base.Dict.{Dict, lookup, insert, lookup-insert_self}
use xr_telepresence_k8s.Base.Text.{Bytes}
use xr_telepresence_k8s.Resources.Core.{Pod}
use xr_telepresence_k8s.Resources.Session.{PodStatus, ClientStatus}
use xr_telepresence_k8s.Session.Allocation.{
  ServingPod, AllocationValue, AllocationMap, TemplatePodMap, inner,
}
use xr_telepresence_k8s.Session.Readiness.{
  all_ready, with_ip, set_readiness, set_client_status_readiness, client_pod, served_at,
  report_found, concat_ingress_external_ip_to_pod_paths, reconcile_pod, reconcile_template,
  reconcile_pods,
}

-- Every pod of the client is ready.
abbrev pub AllReady : Dict Bytes PodStatus → Type 0
AllReady [] = Unit
AllReady ((_, v) ∷ m) = (v.ready ≡ true) × AllReady m

pub all_ready_iff : (m : Dict Bytes PodStatus) → (all_ready m ≡ true) ↔ AllReady m
unfolding all_ready
all_ready_iff [] = (λ h. tt, λ h. refl)
all_ready_iff ((_, v) ∷ m) = ground (arith, all_ready_iff m)

-- The pods that are wanted and are not among those found.
abbrev pub missing : AllocationValue → Dict Bytes Pod → List ServingPod → List Pod
missing v found [] = []
missing v found (s ∷ ss) = elim (lookup s.name found) [
  | none ↦ client_pod s.name v.pod_template.spec ∷ missing v found ss
  | some _ ↦ missing v found ss
]

abbrev pub all_missing : AllocationMap → TemplatePodMap → List Pod
all_missing [] found = []
all_missing ((_, v) ∷ m) found =
    missing v (inner (lookup v.pod_template.name found)) v.pods ++ all_missing m found

abbrev pub Spawned : Type 0
Spawned = List Pod × Dict Bytes ClientStatus

tagged :
    (pods : List Pod) (m : Option (Dict Bytes ClientStatus)) {r : Spawned}
    → (m >>= λ clients. some (pods, clients)) ≡ some r
    → r.0 ≡ pods
tagged pods none h = absurd (none_absurd h)
tagged pods (some c) h = ap (λ (x : Spawned). x.0) (sym (some_injective h))

prefixed :
    (pods : List Pod) (m : Option Spawned) {r : Spawned}
    → (m >>= λ (more, clients). some (pods ++ more, clients)) ≡ some r
    → (x : Spawned) × (m ≡ some x) × (r.0 ≡ pods ++ x.0)
prefixed pods none h = absurd (none_absurd h)
prefixed pods (some x) h = (x, refl, ap (λ (y : Spawned). y.0) (sym (some_injective h)))

reconcile_pod-spawned :
    (v : AllocationValue) (found : Dict Bytes Pod) (ip : Option Bytes) (s : ServingPod)
    (clients : Dict Bytes ClientStatus) {r : Spawned}
    → reconcile_pod v found ip s clients ≡ some r
    → (ss : List ServingPod) → r.0 ++ missing v found ss ≡ missing v found (s ∷ ss)
unfolding reconcile_pod
reconcile_pod-spawned v found ip s clients h ss = elim (Option-cases (lookup s.name found)) [
  | inl e ↦
      rw (e, missing)
        (ap (λ (x : List Pod). x ++ missing v found ss)
          (tagged (client_pod s.name v.pod_template.spec ∷ [])
            (set_client_status_readiness false s.name s.clients clients [])
            (rw (e, reconcile_pod) at h)))
  | inr (p, e) ↦
      rw (e, missing)
        (ap (λ (x : List Pod). x ++ missing v found ss)
          (tagged [] (report_found (served_at p ip) s clients) (rw (e, reconcile_pod) at h)))
]

reconcile_template-spawned :
    (v : AllocationValue) (found : Dict Bytes Pod) (ip : Option Bytes) (ss : List ServingPod)
    (clients : Dict Bytes ClientStatus) {r : Spawned}
    → reconcile_template v found ip ss clients ≡ some r
    → r.0 ≡ missing v found ss
unfolding reconcile_template
reconcile_template-spawned v found ip [] clients h =
    ap (λ (x : Spawned). x.0) (sym (some_injective h))
reconcile_template-spawned v found ip (s ∷ ss) clients h =
    elim (Option-cases (reconcile_pod v found ip s clients)) [
      | inl e ↦ absurd (none_absurd (rw (e, reconcile_template) at h))
      | inr ((spawned, clients'), e) ↦
          let (more, e', q) =
            prefixed spawned (reconcile_template v found ip ss clients')
              (rw (e, reconcile_template) at h) in
          q
          ∙ ap (◌++◌ spawned) (reconcile_template-spawned v found ip ss clients' e')
          ∙ reconcile_pod-spawned v found ip s clients e ss
    ]

-- If the reports succeed, the pods to spawn are those that are not found under the name that their
-- template has in the allocation, in order.
pub reconcile_pods-spawned :
    (m : AllocationMap) (clients : Dict Bytes ClientStatus) (found : TemplatePodMap)
    (ip : Option Bytes) {r : Spawned}
    → reconcile_pods m clients found ip ≡ some r
    → r.0 ≡ all_missing m found
unfolding reconcile_pods
reconcile_pods-spawned [] clients found ip h = ap (λ (x : Spawned). x.0) (sym (some_injective h))
reconcile_pods-spawned ((t, v) ∷ m) clients found ip h =
    let pods = inner (lookup v.pod_template.name found) in
    elim (Option-cases (reconcile_template v pods ip v.pods clients)) [
      | inl e ↦ absurd (none_absurd (rw (e, reconcile_pods) at h))
      | inr ((spawned, clients'), e) ↦
          let (more, e', q) =
            prefixed spawned (reconcile_pods m clients' found ip) (rw (e, reconcile_pods) at h) in
          q
          ∙ ap (λ (x : List Pod). x ++ more.0)
              (reconcile_template-spawned v pods ip v.pods clients e)
          ∙ ap (◌++◌ (missing v pods v.pods)) (reconcile_pods-spawned m clients' found ip e')
    ]

with_ip-ready :
    (ip : Bytes) (status : PodStatus) {status' : PodStatus}
    → with_ip ip status ≡ some status'
    → status'.ready ≡ status.ready
unfolding concat_ingress_external_ip_to_pod_paths
with_ip-ready ip status h = ground arith

-- If a client's entry names the pod and the report succeeds, the pod has the reported readiness
-- afterwards, and the client counts as ready exactly when the report says ready and all of its
-- pods are.
pub set_readiness_iff :
    (ready : Bool) (pod_name ip : Bytes) (value : ClientStatus) {status : PodStatus}
    {value' : ClientStatus}
    → lookup pod_name value.pod_status ≡ some status
    → set_readiness ready pod_name ip value ≡ some value'
    → ((status' : PodStatus) × (lookup pod_name value'.pod_status ≡ some status')
        × (status'.ready ≡ ready))
      × ((value'.ready ≡ true) ↔ ((ready ≡ true) × AllReady value'.pod_status))
unfolding set_readiness
set_readiness_iff ready pod_name ip value {status} {value'} e h =
    elim (Option-cases (with_ip ip (record status { ready = ready }))) [
      | inl a ↦ absurd (none_absurd (rw (a, set_readiness) at (rw (e, set_readiness) at h)))
      | inr (status', a) ↦
          let q = some_injective (rw (a, set_readiness) at (rw (e, set_readiness) at h)) in
          let statuses = insert pod_name status' value.pod_status in
          rw (← q) (
            (
              status',
              lookup-insert_self pod_name status' value.pod_status,
              with_ip-ready ip (record status { ready = ready }) a,
            ),
            ground (arith, all_ready_iff statuses),
          )
    ]
