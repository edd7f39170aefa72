-- ===== src/Session/Readiness/Totality.antt =====
-- client_pods.go: reports do not panic on sound entries, and leave them sound.
use xr_telepresence_k8s.Base.{
  ◌≡◌, refl, inl, inr, Bool, true, false, Option, none, some, List, [], ◌∷◌, ◌++◌, ◌==◌, bytes_eq,
  nat_eq, All, Option-cases, Bool-cases, ◌&&◌,
}
use xr_telepresence_k8s.Base.Dict.{Dict, lookup, insert, Every-insert, Every-lookup}
use xr_telepresence_k8s.Base.Text.{Bytes, from_first_total}
use xr_telepresence_k8s.Resources.Core.{Pod}
use xr_telepresence_k8s.Resources.Session.{PodStatus, ClientStatus}
use xr_telepresence_k8s.Session.Allocation.{
  PodClient, ServingPod, AllocationValue, AllocationMap, TemplatePodMap, inner,
}
use xr_telepresence_k8s.Session.Soundness.{IsServable, SoundPod, SoundPods, SoundEntry, IsSound}
use xr_telepresence_k8s.Session.Readiness.{
  scheme, slice_from, concat_path, concat_paths, concat_ingress_external_ip_to_pod_paths, with_ip,
  all_ready, set_readiness, set_client_status_readiness, report_found, served_at, reconcile_pod,
  reconcile_template, reconcile_pods, client_pod,
}

concat_path_total :
    (ip p : Bytes) → IsServable p → (q : Bytes) × (concat_path ip p ≡ some q) × IsServable q
unfolding concat_path slice_from nat_eq
concat_path_total ip p (inl (rest, e)) =
    (scheme ++ ip ++ b'/' ∷ rest, rw (e, concat_path) refl, inr (ip, rest, refl))
concat_path_total ip p (inr (host, rest, e)) =
    let (u, f) = from_first_total b'/' host rest in
    (scheme ++ ip ++ b'/' ∷ u, rw e (rw f refl), inr (ip, u, refl))

pub concat_paths_total :
    (ip : Bytes) (ps : List Bytes)
    → All IsServable ps
    → (qs : List Bytes) × (concat_paths ip ps ≡ some qs) × All IsServable qs
unfolding concat_paths
concat_paths_total ip [] _ = ([], refl, tt)
concat_paths_total ip (p ∷ ps) (s, ss) =
    let (q, e, t) = concat_path_total ip p s in
    let (qs, f, ts) = concat_paths_total ip ps ss in (q ∷ qs, rw (concat_paths, e, f) refl, (t, ts))

with_ip_total :
    (name ip : Bytes) (status : PodStatus)
    → SoundPod name status
    → (status' : PodStatus) × (with_ip ip status ≡ some status') × SoundPod name status'
unfolding concat_ingress_external_ip_to_pod_paths
with_ip_total name ip status (d, ss) = elim (Bool-cases (ip == [])) [
  | inl b ↦ (status, rw b refl, (d, ss))
  | inr b ↦
      let (qs, e, ts) = concat_paths_total ip status.paths ss in
      (record status { paths = qs }, rw (b, e) refl, (d, ts))
]

module _ (ready : Bool) (name ip : Bytes) where
  set_readiness_total :
      (value : ClientStatus)
      → SoundPods value.pod_status
      → (value' : ClientStatus) × (set_readiness ready name ip value ≡ some value')
        × SoundPods value'.pod_status
  unfolding set_readiness
  set_readiness_total value s = elim (Option-cases (lookup name value.pod_status)) [
    | inl e ↦ (record value { ready = true }, rw (e, set_readiness) refl, s)
    | inr (status, e) ↦
        let (status', f, t) =
          with_ip_total name ip (record status { ready = ready })
            (Every-lookup SoundPod name value.pod_status e s) in
        let statuses = insert name status' value.pod_status in
        (
          record value { ready = ready && all_ready statuses; pod_status = statuses },
          rw (e, set_readiness, f) refl,
          Every-insert SoundPod name status' value.pod_status t s,
        )
  ]

  set_client_status_readiness_total :
      (cs : List PodClient) (clients : Dict Bytes ClientStatus)
      → IsSound clients
      → (clients' : Dict Bytes ClientStatus) × (set_client_status_readiness ready name cs clients ip
          ≡ some clients')
        × IsSound clients'
  unfolding set_client_status_readiness
  set_client_status_readiness_total [] clients ss = (clients, refl, ss)
  set_client_status_readiness_total (c ∷ cs) clients ss =
      elim (Option-cases (lookup c.id clients)) [
        | inl e ↦
            let (clients', f, ss') = set_client_status_readiness_total cs clients ss in
            (clients', rw (e, set_client_status_readiness) f, ss')
        | inr (value, e) ↦
            let (value', f, s) =
              set_readiness_total value (Every-lookup SoundEntry c.id clients e ss) in
            let (clients', g, ss') =
              set_client_status_readiness_total cs (insert c.id value' clients)
                (Every-insert SoundEntry c.id value' clients s ss) in
            (clients', rw (e, set_client_status_readiness, f) g, ss')
      ]

report_found_total :
    (ip : Option Bytes) (s : ServingPod) (clients : Dict Bytes ClientStatus)
    → IsSound clients
    → (clients' : Dict Bytes ClientStatus) × (report_found ip s clients ≡ some clients')
      × IsSound clients'
report_found_total none s = set_client_status_readiness_total false s.name [] s.clients
report_found_total (some ip) s = set_client_status_readiness_total true s.name ip s.clients

reconcile_pod_total :
    (v : AllocationValue) (found : Dict Bytes Pod) (ip : Option Bytes) (s : ServingPod)
    (clients : Dict Bytes ClientStatus)
    → IsSound clients
    → (spawned : List Pod) × (clients' : Dict Bytes ClientStatus) × (reconcile_pod v found ip s
          clients
        ≡ some (spawned, clients'))
      × IsSound clients'
unfolding reconcile_pod
reconcile_pod_total v found ip s clients ss = elim (Option-cases (lookup s.name found)) [
  | inl e ↦
      let (clients', f, ss') =
        set_client_status_readiness_total false s.name [] s.clients clients ss in
      (client_pod s.name v.pod_template.spec ∷ [], clients', rw (e, reconcile_pod, f) refl, ss')
  | inr (p, e) ↦
      let (clients', f, ss') = report_found_total (served_at p ip) s clients ss in
      ([], clients', rw (e, reconcile_pod, f) refl, ss')
]

reconcile_template_total :
    (v : AllocationValue) (found : Dict Bytes Pod) (ip : Option Bytes) (ps : List ServingPod)
    (clients : Dict Bytes ClientStatus)
    → IsSound clients
    → (spawned : List Pod) × (clients' : Dict Bytes ClientStatus) × (reconcile_template v found ip
          ps clients
        ≡ some (spawned, clients'))
      × IsSound clients'
unfolding reconcile_template
reconcile_template_total v found ip [] clients ss = ([], clients, refl, ss)
reconcile_template_total v found ip (p ∷ ps) clients ss =
    let (spawned, clients', e, ss') = reconcile_pod_total v found ip p clients ss in
    let (more, clients'', f, ss'') = reconcile_template_total v found ip ps clients' ss' in
    (spawned ++ more, clients'', rw (reconcile_template, e, f) refl, ss'')

-- Reporting on the pods of an allocation.
pub reconcile_pods_total :
    (m : AllocationMap) (clients : Dict Bytes ClientStatus) (found : TemplatePodMap)
    (ip : Option Bytes)
    → IsSound clients
    → (spawned : List Pod) × (clients' : Dict Bytes ClientStatus) × (reconcile_pods m clients found
          ip
        ≡ some (spawned, clients'))
      × IsSound clients'
unfolding reconcile_pods
reconcile_pods_total [] clients found ip ss = ([], clients, refl, ss)
reconcile_pods_total ((t, v) ∷ m) clients found ip ss =
    let (spawned, clients', e, ss') =
      reconcile_template_total v (inner (lookup v.pod_template.name found)) ip v.pods clients ss in
    let (more, clients'', f, ss'') = reconcile_pods_total m clients' found ip ss' in
    (spawned ++ more, clients'', rw (reconcile_pods, e, f) refl, ss'')
