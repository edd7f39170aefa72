-- ===== src/Network/Publishing/Sweep.antt =====
-- ingress.go: what the collection of the ingress' paths keeps and reports.

use xr_telepresence_k8s.Base.{
  ◌≡◌, ◌≢◌, refl, ◌∙◌, ◌⊎◌, inl, inr, Bool, true, false, none, some, List, [], ◌∷◌, ◌++◌, arith,
  All, ◌==◌, bytes_eq, if◌then◌else◌, contains, Option-cases, Bool-cases,
}
use xr_telepresence_k8s.Base.Panic.{◌>>=◌, none_absurd, some_injective}
use xr_telepresence_k8s.Base.Text.{Bytes}
use xr_telepresence_k8s.Resources.Core.{IngressPath}
use xr_telepresence_k8s.Network.Services.{ServicesMap}
use xr_telepresence_k8s.Network.Publishing.{
  session_manager_path, Collected, pod_of_path, has_service, collect_path, collect_or_skip,
  collect_paths, keep_path,
}

-- The path of the session manager, or one that leads to a pod with a service.
abbrev pub IsServed : ServicesMap → IngressPath → Type 0
IsServed services p =
    (p.path ≡ session_manager_path)
    ⊎ ((p.path ≢ session_manager_path)
        × (pod : Bytes) × (pod_of_path p.path ≡ some pod)
        × (has_service services pod ≡ true))

-- The pods that the paths lead to.
pub pods_of : List IngressPath → List Bytes
pods_of [] = []
pods_of (p ∷ ps) =
    if p.path == session_manager_path
    then pods_of ps
    else elim (pod_of_path p.path) [ none ↦ pods_of ps | some pod ↦ pod ∷ pods_of ps ]

pub is_session_manager : IngressPath → Bool
is_session_manager p = p.path == session_manager_path

pub is_session_manager_cases :
    (p : IngressPath)
    → ((is_session_manager p ≡ true) × (p.path ≡ session_manager_path))
      ⊎ ((is_session_manager p ≡ false) × (p.path ≢ session_manager_path))
unfolding is_session_manager
is_session_manager_cases p = ground arith

pub pods_of-skip :
    (p : IngressPath) (ps : List IngressPath)
    → is_session_manager p ≡ true
    → pods_of (p ∷ ps) ≡ pods_of ps
unfolding pods_of is_session_manager
pods_of-skip p ps b = rw b

pub pods_of-add :
    (p : IngressPath) (ps : List IngressPath) {pod : Bytes}
    → is_session_manager p ≡ false
    → pod_of_path p.path ≡ some pod
    → pods_of (p ∷ ps) ≡ pod ∷ pods_of ps
unfolding pods_of is_session_manager
pods_of-add p ps b e = rw (b, pods_of) (rw e)

collect_or_skip-skip :
    (services : ServicesMap) (p : IngressPath) (c : Collected)
    → is_session_manager p ≡ true
    → collect_or_skip services p c ≡ some (record c { paths = p ∷ c.paths })
unfolding collect_or_skip is_session_manager
collect_or_skip-skip services p c b = rw b

collect_or_skip-collect :
    (services : ServicesMap) (p : IngressPath) (c : Collected)
    → is_session_manager p ≡ false
    → collect_or_skip services p c
      ≡ (pod_of_path p.path >>= λ pod. some (collect_path services p pod c))
unfolding collect_or_skip is_session_manager
collect_or_skip-collect services p c b = rw b

-- What is known of a collection.
pub record Swept (services : ServicesMap) (c : Collected) : Type 0 where
  pub served : All (IsServed services) c.paths
  pub found :
      (pod : Bytes)
      → contains c.pods pod ≡ true
      → has_service services pod ≡ true
      → contains (pods_of c.paths) pod ≡ true

collect_path-Swept :
    (services : ServicesMap) (p : IngressPath) (pod : Bytes) (c : Collected)
    → is_session_manager p ≡ false
    → p.path ≢ session_manager_path
    → pod_of_path p.path ≡ some pod
    → Swept services c
    → Swept services (collect_path services p pod c)
unfolding collect_path
collect_path-Swept services p pod c b ne e w = elim (Bool-cases (has_service services pod)) [
  | inl has ↦
      rw (has, collect_path)
        (record {
          served = (inr (ne, pod, e, has), w.served);
          found = λ k i j. rw (pods_of-add p c.paths b e) (ground (arith, i, w.found k));
        })
  | inr lacks ↦
      rw (lacks, collect_path)
        (record { served = w.served; found = λ k i j. ground (arith, i, j, lacks, w.found k) })
]

skip-Swept :
    (services : ServicesMap) (p : IngressPath) (c : Collected) {d : Collected}
    → Swept services c
    → collect_or_skip services p c ≡ some d
    → Swept services d
skip-Swept services p c w h = elim (is_session_manager_cases p) [
  | inl (b, e) ↦ rw (← some_injective (rw (collect_or_skip-skip services p c b) at h)) (record {
    served = (inl e, w.served);
    found = λ k i j. rw (pods_of-skip p c.paths b) (w.found k i j);
  })
  | inr (b, ne) ↦
      let h' = rw (collect_or_skip-collect services p c b) at h in
      elim (Option-cases (pod_of_path p.path)) [
        | inl e ↦ absurd (none_absurd (rw (e, ◌>>=◌) at h'))
        | inr (pod, e) ↦
            rw (← some_injective (rw (e, ◌>>=◌) at h'))
              (collect_path-Swept services p pod c b ne e w)
      ]
]

pub collect_paths-Swept :
    (services : ServicesMap) (ps : List IngressPath) {c : Collected}
    → collect_paths services ps ≡ some c
    → Swept services c
unfolding collect_paths
collect_paths-Swept services [] h =
    rw (← some_injective h) (record { served = tt; found = λ k i j. cc })
collect_paths-Swept services (p ∷ ps) h = elim (Option-cases (collect_paths services ps)) [
  | inl e ↦ absurd (none_absurd (rw (e, ◌>>=◌) at h))
  | inr (c, e) ↦ skip-Swept services p c (collect_paths-Swept services ps e) (rw (e, ◌>>=◌) at h)
]

-- Paths that are served are left alone.
pub collect_paths-served :
    (services : ServicesMap) (ps : List IngressPath)
    → All (IsServed services) ps
    → collect_paths services ps ≡ some (record { paths = ps; pods = pods_of ps; updated = false })
unfolding collect_paths collect_path pods_of
collect_paths-served services [] s = refl
collect_paths-served services (p ∷ ps) (s, ss) =
    rw (collect_paths-served services ps ss, ◌>>=◌)
      (elim (is_session_manager_cases p) [
        | inl (b, _) ↦ rw (collect_or_skip-skip services p _ b, pods_of-skip p ps b)
        | inr (b, ne) ↦ elim s [
          | inl e ↦ absurd (ne e)
          | inr (_, pod, e, has) ↦
              rw (collect_or_skip-collect services p _ b, pods_of-add p ps b e) (rw e (rw has))
        ]
      ])

pub pods_of-append : (ps qs : List IngressPath) → pods_of (ps ++ qs) ≡ pods_of ps ++ pods_of qs
unfolding pods_of
pods_of-append [] qs = refl
pods_of-append (p ∷ ps) qs = ground (arith, pods_of-append ps qs)

-- The path of the session manager, or one with a part after the first slash.
abbrev pub NamesPod : IngressPath → Type 0
NamesPod p = (p.path ≡ session_manager_path) ⊎ ((pod : Bytes) × (pod_of_path p.path ≡ some pod))

pub collect_paths_total :
    (services : ServicesMap) (ps : List IngressPath)
    → All NamesPod ps
    → (c : Collected) × (collect_paths services ps ≡ some c)
unfolding collect_paths
collect_paths_total services [] _ = (_, refl)
collect_paths_total services (p ∷ ps) (n, ns) =
    let (c, e) = collect_paths_total services ps ns in
    elim (is_session_manager_cases p) [
      | inl (b, _) ↦ (keep_path p c, rw (e, ◌>>=◌) (collect_or_skip-skip services p c b))
      | inr (b, ne) ↦ elim n [
        | inl same ↦ absurd (ne same)
        | inr (pod, named) ↦ (
          collect_path services p pod c,
          rw (e, ◌>>=◌) (collect_or_skip-collect services p c b ∙ rw (named, ◌>>=◌) refl),
        )
      ]
    ]
