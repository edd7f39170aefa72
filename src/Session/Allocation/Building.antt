-- ===== src/Session/Allocation/Building.antt =====
-- client_pods.go: the allocation map that the status and the listed pods give.
use xr_telepresence_k8s.Base.{
  ◌≡◌, ◌∙◌, ap, ◌&&◌, refl, ◌⊎◌, inl, inr, true, false, Option, none, some, List, [], ◌∷◌, ◌++◌,
  arith, ◌==◌, bytes_eq, if◌then◌else◌, Option-cases, ◌&&◌,
}
use xr_telepresence_k8s.Base.Panic.{none_absurd}
use xr_telepresence_k8s.Base.Dict.{
  Dict, lookup, insert, erase, lookup-nil, lookup-insert, lookup-erase,
}
use xr_telepresence_k8s.Base.Text.{Bytes}
use xr_telepresence_k8s.Resources.Core.{Pod}
use xr_telepresence_k8s.Session.Allocation.{
  PodClient, ServingPod, TemplatePodMap, inner, template_of, map_pod, template_pod_mapping_from,
  template_pod_mapping, take_pod, add_to_pod,
}

-- The pod of that name under the template.
abbrev pub find_pod : Bytes → Bytes → TemplatePodMap → Option Pod
find_pod t name m = lookup name (inner (lookup t m))

find_pod-insert :
    (t u name : Bytes) (pods : Dict Bytes Pod) (m : TemplatePodMap)
    → find_pod u name (insert t pods m) ≡ (if u == t then lookup name pods else find_pod u name m)
find_pod-insert t u name pods m = ground (arith, lookup-insert u t pods m)

-- Taking a pod from the map of pods to reuse takes that pod of that template and no other.
pub find_pod-take_pod :
    (t u name other : Bytes) (m : TemplatePodMap)
    → find_pod u other (take_pod t name m)
      ≡ (if u == t && other == name then none else find_pod u other m)
unfolding take_pod
find_pod-take_pod t u name other m = elim (Option-cases (lookup t m)) [
  | inl e ↦ rw (e, take_pod) (ground (arith, lookup-nil {V = Pod} other))
  | inr (pods, e) ↦
      rw (e, take_pod)
        (ground (arith, lookup-insert u t (erase name pods) m, lookup-erase other name pods))
]

-- Some pod of that name serves the client.
abbrev pub Serves : PodClient → Bytes → List ServingPod → Type 0
Serves client name [] = ⊥
Serves client name (p ∷ ps) =
    ((p.name ≡ name)
      × (before : List PodClient) × (after : List PodClient) × (p.clients
          ≡ before ++ client ∷ after))
    ⊎ Serves client name ps

abbrev pub last_named : Bytes → List Pod → Option Pod → Option Pod
last_named name [] d = d
last_named name (p ∷ ps) d = last_named name ps (if p.name == name then some p else d)

find_pod-map_pod :
    (t name : Bytes) (m : TemplatePodMap) (p : Pod) {m' : TemplatePodMap}
    → template_of name ≡ some t
    → map_pod m p ≡ some m'
    → find_pod t name m' ≡ (if p.name == name then some p else find_pod t name m)
unfolding map_pod
find_pod-map_pod t name m p {m'} e h = elim (Option-cases (template_of p.name)) [
  | inl x ↦ absurd (none_absurd (rw (x, map_pod) at h))
  | inr (u, x) ↦ ground (
    arith,
    e,
    x,
    rw (x, map_pod) at h,
    find_pod-insert u t name (insert p.name p (inner (lookup u m))) m,
    lookup-insert name p.name p (inner (lookup u m)),
  )
]

template_pod_mapping_from-last :
    (t name : Bytes) (pods : List Pod) (m : TemplatePodMap) {m' : TemplatePodMap}
    → template_of name ≡ some t
    → template_pod_mapping_from m pods ≡ some m'
    → find_pod t name m' ≡ last_named name pods (find_pod t name m)
unfolding template_pod_mapping_from
template_pod_mapping_from-last t name [] m e h = ground arith
template_pod_mapping_from-last t name (p ∷ ps) m {m'} e h = elim (Option-cases (map_pod m p)) [
  | inl x ↦ absurd (none_absurd (rw (x, template_pod_mapping_from) at h))
  | inr (n, x) ↦
      rw (← find_pod-map_pod t name m p e x)
        (template_pod_mapping_from-last t name ps n e (rw (x, template_pod_mapping_from) at h))
]

-- If the mapping of the listed pods succeeds, it finds under a name's template the last listed pod
-- of that name, and nothing else.
pub find_pod-template_pod_mapping :
    (t name : Bytes) (pods : List Pod) {m : TemplatePodMap}
    → template_of name ≡ some t
    → template_pod_mapping pods ≡ some m
    → find_pod t name m ≡ last_named name pods none
unfolding template_pod_mapping
find_pod-template_pod_mapping t name pods e h =
    template_pod_mapping_from-last t name pods [] e h
    ∙ ap (last_named name pods) (rw (lookup-nil {V = Dict Bytes Pod} t) (lookup-nil name))

pub bytes_cases : (a b : Bytes) → ((a ≡ b) × ((a == b) ≡ true)) ⊎ ((a == b) ≡ false)
bytes_cases a b = ground arith

pub add_to_pod-Serves :
    (client : PodClient) (name : Bytes) (ps : List ServingPod)
    → Serves client name (add_to_pod client name ps)
unfolding add_to_pod
add_to_pod-Serves client name [] = inl (refl, [], [], refl)
add_to_pod-Serves client name (p ∷ ps) = elim (bytes_cases p.name name) [
  | inl (e, b) ↦ rw b (inl (e, p.clients, [], refl))
  | inr b ↦ rw b (inr (add_to_pod-Serves client name ps))
]
