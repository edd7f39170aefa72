-- ===== src/Session/Allocation/Named.antt =====
-- client_pods.go: names of pods from which a template can be read, and the maps built of them.
use mathlib.Core.List.{append_assoc}
use xr_telepresence_k8s.Base.{
  ◌≡◌, refl, inl, inr, some, List, [], ◌∷◌, ◌++◌, arith, bytes_eq, nat_eq, All, Option-cases,
  Bool-cases, get_elem?-in, length, ◌==◌, ◌<◌,
}
use xr_telepresence_k8s.Base.Dict.{
  Dict, lookup, insert, erase, Every, Every-insert, Every-erase, Every-lookup,
}
use xr_telepresence_k8s.Base.Text.{
  Bytes, text, split, from_last, split-from_last, split-nonempty, length-split-append,
}
use xr_telepresence_k8s.Resources.Core.{Pod}
use xr_telepresence_k8s.Resources.Session.{ClientPodTemplate}
use xr_telepresence_k8s.Session.Allocation.{
  PodClient, ServingPod, AllocationValue, AllocationMap, TemplatePodMap, or_zero, inner,
  template_of, map_pod, template_pod_mapping_from, template_pod_mapping, take_pod, add_to_pod,
  add_client, build_allocation_map_from, init_allocation_map_from, init_allocation_map,
}

abbrev pub HasTemplate : Bytes → Type 0
HasTemplate name = (t : Bytes) × (template_of name ≡ some t)

-- A name with a template has a last dash.
pub HasTemplate-dashed :
    (name : Bytes) → HasTemplate name → (id : Bytes) × (from_last b'-' name ≡ some id)
unfolding template_of
HasTemplate-dashed name (t, e) = elim (Option-cases (from_last b'-' name)) [
  | inr found ↦ found
  | inl missing ↦ absurd (too_short (split-from_last b'-' name missing))
]
  where
    too_short : split b'-' name ≡ name ∷ [] → ⊥
    too_short q = cc (e, q)

-- A name with two dashes has a template.
pub HasTemplate-joined : (a b c : Bytes) → HasTemplate (a ++ text "-" ++ b ++ text "-" ++ c)
unfolding template_of
HasTemplate-joined a b c =
    simp append_assoc (get_elem?-in (split b'-' (a ++ b'-' ∷ (b ++ b'-' ∷ c))) 2 long)
  where
    long : 2 < length (split b'-' (a ++ b'-' ∷ (b ++ b'-' ∷ c)))
    long = omega (
      arith,
      length-split-append b'-' a (b ++ b'-' ∷ c),
      length-split-append b'-' b c,
      split-nonempty b'-' a,
      split-nonempty b'-' b,
      split-nonempty b'-' c,
    )

abbrev pub IsNamed : ServingPod → Type 0
IsNamed p = HasTemplate p.name

abbrev pub PodsNamed : Bytes → AllocationValue → Type 0
PodsNamed _ v = All IsNamed v.pods

-- Every pod of the map has a template in its name.
abbrev pub AllNamed : AllocationMap → Type 0
AllNamed = Every PodsNamed

abbrev pub KeyNamed : Bytes → Pod → Type 0
KeyNamed name _ = HasTemplate name

abbrev pub InnerNamed : Bytes → Dict Bytes Pod → Type 0
InnerNamed _ pods = Every KeyNamed pods

-- Every key of the inner maps has a template.
abbrev pub KeysNamed : TemplatePodMap → Type 0
KeysNamed = Every InnerNamed

or_zero-IsNamed :
    (t : Bytes) (m : AllocationMap) → AllNamed m → All IsNamed (or_zero (lookup t m)).pods
or_zero-IsNamed t m is = elim (Option-cases (lookup t m)) [
  | inl e ↦ rw e tt
  | inr (v, e) ↦ rw e (Every-lookup PodsNamed t m e is)
]

pub inner-KeyNamed :
    (t : Bytes) (m : TemplatePodMap) → KeysNamed m → Every KeyNamed (inner (lookup t m))
inner-KeyNamed t m is = elim (Option-cases (lookup t m)) [
  | inl e ↦ rw e tt
  | inr (v, e) ↦ rw e (Every-lookup InnerNamed t m e is)
]

pub take_pod-KeysNamed :
    (t name : Bytes) (m : TemplatePodMap) → KeysNamed m → KeysNamed (take_pod t name m)
unfolding take_pod
take_pod-KeysNamed t name m is = elim (Option-cases (lookup t m)) [
  | inl e ↦ rw (take_pod, e) is
  | inr (pods, e) ↦
      rw (take_pod, e)
        (Every-insert InnerNamed t (erase name pods) m
          (Every-erase KeyNamed name pods (Every-lookup InnerNamed t m e is)) is)
]

add_to_pod-IsNamed :
    (client : PodClient) (name : Bytes) (ps : List ServingPod)
    → HasTemplate name
    → All IsNamed ps
    → All IsNamed (add_to_pod client name ps)
unfolding add_to_pod
add_to_pod-IsNamed client name [] d _ = (d, tt)
add_to_pod-IsNamed client name (p ∷ ps) d (i, is) = elim (Bool-cases (p.name == name)) [
  | inl b ↦ rw b (i, is)
  | inr b ↦ rw b (i, add_to_pod-IsNamed client name ps d is)
]

init_from-AllNamed :
    (ts : List ClientPodTemplate) (m : AllocationMap)
    → AllNamed m
    → AllNamed (init_allocation_map_from m ts)
unfolding init_allocation_map_from
init_from-AllNamed [] m is = is
init_from-AllNamed (t ∷ ts) m is =
    init_from-AllNamed ts _
      (Every-insert PodsNamed t.name (record { pod_template = t; pods = [] }) m tt is)

pub init-AllNamed : (ts : List ClientPodTemplate) → AllNamed (init_allocation_map ts)
unfolding init_allocation_map
init-AllNamed ts = init_from-AllNamed ts [] tt

-- If every name has a template, the pods are added to the map.
pub build_allocation_map_from_total :
    (client : PodClient) (names : List Bytes) (s : AllocationMap × TemplatePodMap)
    → All HasTemplate names
    → AllNamed s.0
    → KeysNamed s.1
    → (s' : AllocationMap × TemplatePodMap) × (build_allocation_map_from client names s ≡ some s')
      × AllNamed s'.0
      × KeysNamed s'.1
unfolding build_allocation_map_from add_client
build_allocation_map_from_total client [] s _ is js = (s, refl, is, js)
build_allocation_map_from_total client (name ∷ names) (m, r) (h, hs) is js =
    let v = or_zero (lookup h.0 m) in
    let v' : AllocationValue = record v { pods = add_to_pod client name v.pods } in
    let (s', e, is', js') =
      build_allocation_map_from_total client names (insert h.0 v' m, take_pod h.0 name r) hs
        (Every-insert PodsNamed h.0 v' m
          (add_to_pod-IsNamed client name v.pods h (or_zero-IsNamed h.0 m is)) is)
        (take_pod-KeysNamed h.0 name r js) in
    (s', rw (build_allocation_map_from, add_client, h.1) e, is', js')

-- Listed pods whose names have a template are mapped.
template_pod_mapping_from_total :
    (pods : List Pod) (m : TemplatePodMap)
    → All (λ p. HasTemplate p.name) pods
    → KeysNamed m
    → (m' : TemplatePodMap) × (template_pod_mapping_from m pods ≡ some m') × KeysNamed m'
unfolding template_pod_mapping_from map_pod
template_pod_mapping_from_total [] m _ js = (m, refl, js)
template_pod_mapping_from_total (p ∷ ps) m (h, hs) js =
    let pods = insert p.name p (inner (lookup h.0 m)) in
    let (m', e, js') = template_pod_mapping_from_total ps (insert h.0 pods m) hs (
      Every-insert InnerNamed h.0 pods m
        (Every-insert KeyNamed p.name p (inner (lookup h.0 m)) h (inner-KeyNamed h.0 m js)) js) in
    (m', rw (template_pod_mapping_from, map_pod, h.1) e, js')

pub template_pod_mapping_total :
    (pods : List Pod)
    → All (λ p. HasTemplate p.name) pods
    → (m : TemplatePodMap) × (template_pod_mapping pods ≡ some m) × KeysNamed m
unfolding template_pod_mapping
template_pod_mapping_total pods hs = template_pod_mapping_from_total pods [] hs tt
