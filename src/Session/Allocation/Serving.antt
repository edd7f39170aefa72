-- ===== src/Session/Allocation/Serving.antt =====
-- client_pods.go: the pods of a client while the allocation map is built.
use mathlib.Core.List.{append_assoc}
use xr_telepresence_k8s.Base.{
  ◌≡◌, ◌∙◌, ap, sym, refl, inl, inr, none, some, List, [], ◌∷◌, ◌++◌, arith, bytes_eq, All,
  Option-cases,
}
use xr_telepresence_k8s.Base.Panic.{none_absurd, some_injective}
use xr_telepresence_k8s.Base.Dict.{lookup, insert, lookup-insert, lookup-insert_self}
use xr_telepresence_k8s.Base.Text.{Bytes}
use xr_telepresence_k8s.Session.Allocation.{
  PodClient, ServingPod, AllocationValue, AllocationMap, TemplatePodMap, or_zero, template_of,
  take_pod, add_to_pod, add_client, build_allocation_map_from,
}
use xr_telepresence_k8s.Session.Allocation.Building.{
  find_pod, find_pod-take_pod, Serves, bytes_cases, add_to_pod-Serves,
}

-- Another client on the pod, or another pod, leaves the client where it is.
Serves-add_to_pod :
    (client other : PodClient) (name k : Bytes) (ps : List ServingPod)
    → Serves client name ps
    → Serves client name (add_to_pod other k ps)
unfolding add_to_pod
Serves-add_to_pod client other name k [] s = elim s [ ]
Serves-add_to_pod client other name k (p ∷ ps) s = elim (bytes_cases p.name k) [
  | inl (_, b) ↦ rw b (elim s [
    | inl (e, before, after, q) ↦ inl (
      e,
      before,
      after ++ other ∷ [],
      ap (λ (l : List PodClient). l ++ other ∷ []) q ∙ append_assoc before (client ∷ after) _,
    )
    | inr rest ↦ inr rest
  ])
  | inr b ↦ rw b (elim s [
    | inl here ↦ inl here
    | inr rest ↦ inr (Serves-add_to_pod client other name k ps rest)
  ])
]

abbrev pub State : Type 0
State = AllocationMap × TemplatePodMap

-- The client is on the pod, which nobody else may take.
pub record Holds (client : PodClient) (s : State) (name : Bytes) : Type 0 where
  pub template : Bytes
  pub named : template_of name ≡ some template
  pub serves : Serves client name (or_zero (lookup template s.0)).pods
  pub taken : find_pod template name s.1 ≡ none

-- What one round does, once the name leads to a template.
abbrev after_add : PodClient → Bytes → Bytes → State → State
after_add client name t (m, r) =
    let v = or_zero (lookup t m) in
    (insert t (record v { pods = add_to_pod client name v.pods }) m, take_pod t name r)

Serves-after :
    (client other : PodClient) (name k t u : Bytes) (m : AllocationMap)
    → Serves client name (or_zero (lookup t m)).pods
    → (v : AllocationValue) → v ≡ or_zero (lookup u m)
    → Serves client name
        (or_zero (lookup t (insert u (record v { pods = add_to_pod other k v.pods }) m))).pods
Serves-after client other name k t u m s v e =
    rw (lookup-insert t u (record v { pods = add_to_pod other k v.pods }) m)
      (elim (bytes_cases t u) [
        | inl (same, b) ↦ rw b (Serves-add_to_pod client other name k v.pods (rw (e, ← same) s))
        | inr b ↦ rw b s
      ])

Holds-after_add :
    (client other : PodClient) (name k u : Bytes) (s : State)
    → Holds client s name
    → Holds client (after_add other k u s) name
Holds-after_add client other name k u (m, r) h = record {
  template = h.template;
  named = h.named;
  serves = Serves-after client other name k h.template u m h.serves _ refl;
  taken = ground (arith, h.taken, find_pod-take_pod u h.template k name r);
}

after_add-Holds :
    (client : PodClient) (name t : Bytes) (s : State)
    → template_of name ≡ some t
    → Holds client (after_add client name t s) name
after_add-Holds client name t (m, r) e = record {
  template = t;
  named = e;
  serves =
      rw
        (lookup-insert_self t
          (record (or_zero (lookup t m)) {
            pods = add_to_pod client name (or_zero (lookup t m)).pods;
          })
          m)
        (add_to_pod-Serves client name (or_zero (lookup t m)).pods);
  taken = ground (arith, find_pod-take_pod t t name name r);
}

add_client-after :
    (client : PodClient) (name : Bytes) (s : State) {s' : State}
    → add_client client name s ≡ some s'
    → (t : Bytes) × (template_of name ≡ some t) × (s' ≡ after_add client name t s)
unfolding add_client
add_client-after client name (m, r) {s'} h = elim (Option-cases (template_of name)) [
  | inl x ↦ absurd (none_absurd (rw (x, add_client) at h))
  | inr (t, x) ↦ (t, x, sym (some_injective (rw (x, add_client) at h)))
]

Holds-add_client :
    (client other : PodClient) (name k : Bytes) (s : State) {s' : State}
    → add_client other k s ≡ some s'
    → Holds client s name
    → Holds client s' name
Holds-add_client client other name k s h held =
    let (t, _, e) = add_client-after other k s h in
    rw e (Holds-after_add client other name k t s held)

pub Holds-build_from :
    (client other : PodClient) (name : Bytes) (names : List Bytes) (s : State) {s' : State}
    → build_allocation_map_from other names s ≡ some s'
    → Holds client s name
    → Holds client s' name
unfolding build_allocation_map_from
Holds-build_from client other name [] s h held = rw (← some_injective h) held
Holds-build_from client other name (k ∷ names) s {s'} h held =
    elim (Option-cases (add_client other k s)) [
      | inl x ↦ absurd (none_absurd (rw (x, build_allocation_map_from) at h))
      | inr (n, x) ↦
          Holds-build_from client other name names n (rw (x, build_allocation_map_from) at h)
            (Holds-add_client client other name k s x held)
    ]

pub build_from-Holds :
    (client : PodClient) (names : List Bytes) (s : State) {s' : State}
    → build_allocation_map_from client names s ≡ some s'
    → All (Holds client s') names
unfolding build_allocation_map_from
build_from-Holds client [] s h = tt
build_from-Holds client (k ∷ names) s {s'} h = elim (Option-cases (add_client client k s)) [
  | inl x ↦ absurd (none_absurd (rw (x, build_allocation_map_from) at h))
  | inr (n, x) ↦
      let h' = rw (x, build_allocation_map_from) at h in
      let (t, e, q) = add_client-after client k s x in
      (
        Holds-build_from client client k names n h' (rw q (after_add-Holds client k t s e)),
        build_from-Holds client names n h',
      )
]
