-- ===== src/Session/Placement/Order.antt =====
-- client_pods.go: the order in which a template's pods are sorted.
use mathlib.Core.List.{reverse, reverse-cons, reverse_perm, append-nil, Perm, perm_middle}
use mathlib.Core.List.Perm
use xr_telepresence_k8s.Base.{
  ℕ, ◌≤◌, ◌≡◌, refl, ◌⊎◌, inl, inr, true, false, some, List, [], ◌∷◌, ◌++◌, arith, All, All-append,
  All-map, length, nat_eq, bytes_eq,
}
use xr_telepresence_k8s.Base.Text.{Bytes, from_last}
use xr_telepresence_k8s.Session.Allocation.{ServingPod}
use xr_telepresence_k8s.Session.Placement.{sorts_before, sink, sort_from, sort_pods}

-- The name has a last dash, as every name has that the controller gives or reads.
abbrev pub HasId : ServingPod → Type 0
HasId p = (id : Bytes) × (from_last b'-' p.name ≡ some id)

abbrev clients_of : ServingPod → ℕ
clients_of p = length p.clients

-- Each pod serves at least as many clients as those behind it.
abbrev pub FullestFirst : List ServingPod → Type 0
FullestFirst [] = Unit
FullestFirst (p ∷ ps) = All (λ q. length q.clients ≤ length p.clients) ps × FullestFirst ps

-- The same for a list that is kept backwards.
abbrev FullestLast : List ServingPod → Type 0
FullestLast [] = Unit
FullestLast (p ∷ ps) = All (λ q. length p.clients ≤ length q.clients) ps × FullestLast ps

sorts_before_cases :
    (a b : ServingPod)
    → HasId a
    → HasId b
    → ((sorts_before a b ≡ some true) × (clients_of b ≤ clients_of a))
      ⊎ ((sorts_before a b ≡ some false) × (clients_of a ≤ clients_of b))
unfolding sorts_before nat_eq
sorts_before_cases a b (i, e) (j, f) = ground (arith, e, f)

Sinks : ServingPod → List ServingPod → Type 0
Sinks x ps =
    (qs : List ServingPod) × (sink x ps ≡ some qs)
    × Perm qs (x ∷ ps)
    × All HasId qs
    × FullestLast qs
    × ((n : ℕ) → n ≤ clients_of x → All (λ q. n ≤ clients_of q) ps → All (λ q. n ≤ clients_of q) qs)

sink-Sinks :
    (x : ServingPod) (ps : List ServingPod) → HasId x → All HasId ps → FullestLast ps → Sinks x ps
unfolding sink Sinks
sink-Sinks x [] i is o = (x ∷ [], refl, Perm.refl _, (i, tt), (tt, tt), λ n h k. (h, tt))
sink-Sinks x (p ∷ ps) i (j, is) (least, o) = elim (sorts_before_cases x p i j) [
  | inl (e, le) ↦
      let (qs, e', perm, ids, o', bound) = sink-Sinks x ps i is o in
      (
        p ∷ qs,
        rw (e, sink) (rw e'),
        Perm.trans (Perm.cons p perm) (Perm.swap x p ps),
        (j, ids),
        (bound (clients_of p) le least, o'),
        λ n h k. (k.0, bound n h k.1),
      )
  | inr (e, le) ↦ (
    x ∷ p ∷ ps,
    rw (e, sink),
    Perm.refl _,
    (i, (j, is)),
    ((le, All-map (λ q h. omega arith) ps least), (least, o)),
    λ n h k. (h, k),
  )
]

FullestFirst-append_one :
    (ps : List ServingPod) (p : ServingPod)
    → FullestFirst ps
    → All (λ q. clients_of p ≤ clients_of q) ps
    → FullestFirst (ps ++ p ∷ [])
FullestFirst-append_one [] p o h = (tt, tt)
FullestFirst-append_one (q ∷ ps) p (least, o) (h, k) =
    (All-append _ ps (p ∷ []) least (h, tt), FullestFirst-append_one ps p o k)

All-reverse :
    (n : ℕ) (ps : List ServingPod)
    → All (λ q. n ≤ clients_of q) ps
    → All (λ q. n ≤ clients_of q) (reverse ps)
All-reverse n [] h = tt
All-reverse n (p ∷ ps) (h, k) =
    rw (reverse-cons p ps) (All-append _ (reverse ps) (p ∷ []) (All-reverse n ps k) (h, tt))

FullestFirst-reverse : (ps : List ServingPod) → FullestLast ps → FullestFirst (reverse ps)
FullestFirst-reverse [] o = tt
FullestFirst-reverse (p ∷ ps) (least, o) = rw (reverse-cons p ps) (
    FullestFirst-append_one (reverse ps) p (FullestFirst-reverse ps o)
      (All-reverse (clients_of p) ps least))

sort_from_lem :
    (xs sorted : List ServingPod)
    → All HasId xs
    → All HasId sorted
    → FullestLast sorted
    → (qs : List ServingPod) × (sort_from sorted xs ≡ some qs)
      × Perm qs (sorted ++ xs)
      × FullestFirst qs
unfolding sort_from Sinks
sort_from_lem [] sorted is js o =
    (reverse sorted, refl, rw append-nil (reverse_perm sorted), FullestFirst-reverse sorted o)
sort_from_lem (x ∷ xs) sorted (i, is) js o =
    let (s, e, perm, js', o', _) = sink-Sinks x sorted i js o in
    let (qs, e', perm', o'') = sort_from_lem xs s is js' o' in
    (
      qs,
      rw (e, sort_from) e',
      Perm.trans perm'
          (Perm.trans (Perm.append perm (Perm.refl xs)) (Perm.symm (perm_middle sorted xs))),
      o'',
    )

-- If every pod's name has a dash, sorting succeeds, its result is a permutation of the pods, and
-- no pod has fewer clients than one behind it.
pub sort_pods-FullestFirst :
    (ps : List ServingPod)
    → All HasId ps
    → (qs : List ServingPod) × (sort_pods ps ≡ some qs) × Perm qs ps × FullestFirst qs
unfolding sort_pods
sort_pods-FullestFirst ps is = sort_from_lem ps [] is tt tt
