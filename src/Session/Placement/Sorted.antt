-- ===== src/Session/Placement/Sorted.antt =====
-- client_pods.go: sorting keeps what holds of all pods, and does not panic on names with a template.
use xr_telepresence_k8s.Base.{
  ◌≡◌, refl, inl, inr, some, List, [], ◌∷◌, All, All-map, All-reverse, Option-cases, true, false,
}
use xr_telepresence_k8s.Base.Panic.{none_absurd, some_injective}
use xr_telepresence_k8s.Session.Allocation.{ServingPod, AllocationMap}
use xr_telepresence_k8s.Session.Allocation.Named.{IsNamed, AllNamed, HasTemplate-dashed}
use xr_telepresence_k8s.Session.Placement.{
  sorts_before, sink, sort_from, sort_pods, sort_allocation_map,
}
use xr_telepresence_k8s.Session.Placement.Order.{sort_pods-FullestFirst}

module _ (P : ServingPod → Type 0) where
  sink-All :
      (x : ServingPod) (ps : List ServingPod) {qs : List ServingPod}
      → sink x ps ≡ some qs
      → P x
      → All P ps
      → All P qs
  unfolding sink
  sink-All x [] h p _ = rw (← some_injective h) (p, tt)
  sink-All x (y ∷ ys) h p (q, qs) = elim (Option-cases (sorts_before x y)) [
    | inl e ↦ absurd (none_absurd (rw (sink, e) at h))
    | inr (true, e) ↦ elim (Option-cases (sink x ys)) [
      | inl f ↦ absurd (none_absurd (rw (sink, e, f) at h))
      | inr (zs, f) ↦ rw (← some_injective (rw (sink, e, f) at h)) (q, sink-All x ys f p qs)
    ]
    | inr (false, e) ↦ rw (← some_injective (rw (sink, e) at h)) (p, (q, qs))
  ]

  sort_from-All :
      (xs sorted : List ServingPod) {qs : List ServingPod}
      → sort_from sorted xs ≡ some qs
      → All P sorted
      → All P xs
      → All P qs
  unfolding sort_from
  sort_from-All [] sorted h ps _ = rw (← some_injective h) (All-reverse P sorted ps)
  sort_from-All (x ∷ xs) sorted h ps (q, qs) = elim (Option-cases (sink x sorted)) [
    | inl e ↦ absurd (none_absurd (rw (sort_from, e) at h))
    | inr (s, e) ↦ sort_from-All xs s (rw (sort_from, e) at h) (sink-All x sorted e q ps) qs
  ]

pub sort_allocation_map_total :
    (m : AllocationMap)
    → AllNamed m
    → (sorted : AllocationMap) × (sort_allocation_map m ≡ some sorted) × AllNamed sorted
unfolding sort_allocation_map sort_pods
sort_allocation_map_total [] _ = ([], refl, tt)
sort_allocation_map_total ((t, v) ∷ m) (i, is) =
    let (pods, e, _, _) =
      sort_pods-FullestFirst v.pods (All-map (λ p. HasTemplate-dashed p.name) v.pods i) in
    let (rest, f, js) = sort_allocation_map_total m is in
    (
      (t, record v { pods = pods }) ∷ rest,
      rw (sort_allocation_map, e, f) refl,
      (sort_from-All IsNamed v.pods [] e tt i, js),
    )
