-- ===== src/Session/Readiness/Missing.antt =====
-- client_pods.go: which pods are asked for, in terms of the list of the pods in the cluster.
use xr_telepresence_k8s.Base.{
  ◌≡◌, refl, sym, ap, ◌∙◌, inl, inr, true, false, Bool, Option, none, some, List, [], ◌∷◌, ◌++◌,
  All, bytes_eq, ◌==◌, if◌then◌else◌, Bool-cases, subst,
}
use xr_telepresence_k8s.Base.Dict.{Dict, lookup}
use xr_telepresence_k8s.Base.Text.{Bytes, text}
use xr_telepresence_k8s.Resources.Core.{Pod, PodSpec}
use xr_telepresence_k8s.Resources.Session.{ClientStatus}
use xr_telepresence_k8s.Session.Allocation.{
  ServingPod, AllocationValue, AllocationMap, TemplatePodMap, inner, template_of,
  template_pod_mapping,
}
use xr_telepresence_k8s.Session.Allocation.Building.{last_named, find_pod-template_pod_mapping}
use xr_telepresence_k8s.Session.Readiness.{reconcile_pods}
use xr_telepresence_k8s.Session.Readiness.Reports.{
  missing, all_missing, Spawned, reconcile_pods-spawned,
}

-- What is asked for of a pod: its name, its labels and what it runs.
abbrev pub Asked : Type 0
Asked = Bytes × Dict Bytes Bytes × PodSpec

abbrev pub asked : List Pod → List Asked
asked [] = []
asked (p ∷ ps) = (p.name, p.labels, p.spec) ∷ asked ps

asked-append : (xs ys : List Pod) → asked (xs ++ ys) ≡ asked xs ++ asked ys
asked-append [] ys = refl
asked-append (x ∷ xs) ys = ap (◌∷◌ (x.name, x.labels, x.spec)) (asked-append xs ys)

abbrev pub is_listed : List Pod → Bytes → Bool
is_listed [] name = false
is_listed (p ∷ ps) name = if p.name == name then true else is_listed ps name

-- The pods of one template that are not listed, as client pods that run what the template says.
abbrev pub absent_of : List Pod → PodSpec → List ServingPod → List Asked
absent_of listed spec [] = []
absent_of listed spec (p ∷ ps) =
    if is_listed listed p.name
    then absent_of listed spec ps
    else (p.name, (text "type", text "client") ∷ [], spec) ∷ absent_of listed spec ps

abbrev pub absent : List Pod → AllocationMap → List Asked
absent listed [] = []
absent listed ((_, v) ∷ m) = absent_of listed v.pod_template.template.spec v.pods ++ absent listed m

-- Each template is one of the spec, and its pods have names that lead back to it.
abbrev pub IsCurrent : Bytes × AllocationValue → Type 0
IsCurrent (t, v) =
    (v.pod_template.name ≡ t) × All (λ (p : ServingPod). template_of p.name ≡ some t) v.pods

last_named-unlisted :
    (name : Bytes) (pods : List Pod) (d : Option Pod)
    → is_listed pods name ≡ false
    → last_named name pods d ≡ d
last_named-unlisted name [] d e = refl
last_named-unlisted name (p ∷ ps) d e = elim (Bool-cases (p.name == name)) [
  | inl c ↦ cc (rw c at e)
  | inr c ↦ rw c (last_named-unlisted name ps d (rw c at e))
]

last_named-listed :
    (name : Bytes) (pods : List Pod) (d : Option Pod)
    → is_listed pods name ≡ true
    → (p : Pod) × (last_named name pods d ≡ some p)
last_named-listed name [] d e = cc
last_named-listed name (p ∷ ps) d e = elim (Bool-cases (is_listed ps name)) [
  | inl b ↦ last_named-listed name ps _ b
  | inr b ↦ elim (Bool-cases (p.name == name)) [
    | inl c ↦ rw c (p, last_named-unlisted name ps (some p) b)
    | inr c ↦ cc (b, rw c at e)
  ]
]

module _ (listed : List Pod) {found : TemplatePodMap}
    (mapped : template_pod_mapping listed ≡ some found) where
  missing-absent :
      (v : AllocationValue) (ps : List ServingPod)
      → All (λ (p : ServingPod). template_of p.name ≡ some v.pod_template.name) ps
      → asked (missing v (inner (lookup v.pod_template.name found)) ps)
        ≡ absent_of listed v.pod_template.template.spec ps
  missing-absent v [] _ = refl
  missing-absent v (p ∷ ps) (e, es) =
      let rest = missing-absent v ps es in
      let last = find_pod-template_pod_mapping v.pod_template.name p.name listed e mapped in
      elim (Bool-cases (is_listed listed p.name)) [
        | inl b ↦
            let (q, l) = last_named-listed p.name listed none b in rw (b, last ∙ l, missing) rest
        | inr b ↦
            rw (b, last ∙ last_named-unlisted p.name listed none b, missing)
              (ap (◌∷◌ (p.name, (text "type", text "client") ∷ [], v.pod_template.template.spec))
                rest)
      ]

  all_missing-absent :
      (m : AllocationMap) → All IsCurrent m → asked (all_missing m found) ≡ absent listed m
  all_missing-absent [] _ = refl
  all_missing-absent ((t, v) ∷ m) ((same, named), cs) =
      asked-append (missing v (inner (lookup v.pod_template.name found)) v.pods)
        (all_missing m found)
      ∙ ap (λ (x : List Asked). x ++ asked (all_missing m found))
          (missing-absent v v.pods (
            subst (λ (u : Bytes). All (λ (p : ServingPod). template_of p.name ≡ some u) v.pods)
              (sym same) named))
      ∙ ap (◌++◌ (absent_of listed v.pod_template.template.spec v.pods)) (all_missing-absent m cs)

  -- If the allocation's templates are under their own names and their pods have names that lead
  -- back to them, the listed pods can be sorted by template, and the reports succeed, then the
  -- pods to spawn are exactly the pods of the allocation whose names are not among the listed
  -- ones, in order, each with the label of a client pod and with what its template runs.
  pub reconcile_pods-spawns :
      (m : AllocationMap) (clients : Dict Bytes ClientStatus) (ip : Option Bytes) {r : Spawned}
      → All IsCurrent m
      → reconcile_pods m clients found ip ≡ some r
      → asked r.0 ≡ absent listed m
  reconcile_pods-spawns m clients ip cs e =
      ap asked (reconcile_pods-spawned m clients found ip e) ∙ all_missing-absent m cs
