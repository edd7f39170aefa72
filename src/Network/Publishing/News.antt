-- ===== src/Network/Publishing/News.antt =====
-- ingress.go: what one run publishes, and what a second run has left.

use xr_telepresence_k8s.Base.{
  ◌≡◌, refl, ◌⊎◌, inl, inr, true, false, ◌||◌, Option, some, List, [], ◌∷◌, ◌++◌, arith, All,
  All-append, bytes_eq, if◌then◌else◌, contains, contains-append, Bool-cases,
}
use xr_telepresence_k8s.Base.Panic.{◌>>=◌}
use xr_telepresence_k8s.Base.Dict.{lookup}
use xr_telepresence_k8s.Base.Text.{Bytes, Lacks}
use xr_telepresence_k8s.Resources.Core.{ServicePort, Service, IngressPath}
use xr_telepresence_k8s.Network.Services.{ServicesMap, service_name}
use xr_telepresence_k8s.Network.Publishing.{
  Collected, has_service, path_for, paths_for, new_paths, all_new_paths,
}
use xr_telepresence_k8s.Network.Publishing.Sweep.{
  IsServed, pods_of, is_session_manager, is_session_manager_cases, pods_of-add, pods_of-append,
  Swept,
}
use xr_telepresence_k8s.Network.Publishing.Names.{
  pod_of_service-service_name, pod_of_path-path_for, path_for-ne-session_manager_path,
}

-- A service as the controller makes them: under the name of a pod, which has no slash; and not a
-- nil pointer.
abbrev pub IsRegular : Bytes × Option Service → Type 0
IsRegular (name, svc) =
    (pod : Bytes) × (name ≡ service_name pod) × Lacks b'/' pod × (s : Service) × (svc ≡ some s)

new_paths-regular :
    (pods : List Bytes) (pod : Bytes) (s : Service)
    → new_paths pods (service_name pod) (some s)
      ≡ some (if contains pods pod then [] else paths_for pod s s.ports)
unfolding new_paths
new_paths-regular pods pod s = rw (pod_of_service-service_name pod, ◌>>=◌) (ground arith)

paths_for-IsServed :
    (services : ServicesMap) (pod : Bytes) (s : Service) (ports : List ServicePort)
    → Lacks b'/' pod
    → has_service services pod ≡ true
    → All (IsServed services) (paths_for pod s ports)
unfolding paths_for
paths_for-IsServed services pod s [] l has = tt
paths_for-IsServed services pod s (port ∷ ports) l has = (
  inr (path_for-ne-session_manager_path pod s port l, pod, pod_of_path-path_for pod s port l, has),
  paths_for-IsServed services pod s ports l has,
)

contains-paths_for :
    (pod : Bytes) (s : Service) (ports : List ServicePort)
    → Lacks b'/' pod
    → (paths_for pod s ports ≡ []) ⊎ (contains (pods_of (paths_for pod s ports)) pod ≡ true)
unfolding paths_for
contains-paths_for pod s [] l = inl refl
contains-paths_for pod s (port ∷ ports) l =
    let p = path_for pod s port in
    let b : is_session_manager p ≡ false = not_manager in
    inr (
      rw (pods_of-add p (paths_for pod s ports) b (pod_of_path-path_for pod s port l))
        (ground arith))
  where
    not_manager : is_session_manager (path_for pod s port) ≡ false
    not_manager = elim (is_session_manager_cases (path_for pod s port)) [
      | inl (_, e) ↦ absurd (path_for-ne-session_manager_path pod s port l e)
      | inr (b, _) ↦ b
    ]

-- Each service's pod satisfies `K`, or the service has no port to publish.
abbrev pub Covers {κ} :
    (Bytes → Type κ) → (services : ServicesMap) → All IsRegular services → Type κ
Covers K [] _ = Unit
Covers K (_ ∷ services) ((pod, _, _, s, _), rs) =
    (K pod ⊎ (paths_for pod s s.ports ≡ [])) × Covers K services rs

pub Covers-map {κ μ} :
    {K : Bytes → Type κ} {L : Bytes → Type μ} (services : ServicesMap) (rs : All IsRegular services)
    → ((pod : Bytes) → K pod → L pod)
    → Covers K services rs
    → Covers L services rs
Covers-map [] rs f c = tt
Covers-map (_ ∷ services) ((pod, _, _, s, _), rs) f (inl k, c) =
    (inl (f pod k), Covers-map services rs f c)
Covers-map (_ ∷ services) ((pod, _, _, s, _), rs) f (inr e, c) = (inr e, Covers-map services rs f c)

abbrev pub ListedAs : ServicesMap → Bytes → Type 0
ListedAs full name = (svc : Option Service) × (lookup name full ≡ some svc)

abbrev pub Listed : ServicesMap → Bytes × Option Service → Type 0
Listed full (name, _) = ListedAs full name

Listed-has_service :
    (full : ServicesMap) (pod : Bytes) {name : Bytes}
    → name ≡ service_name pod
    → ListedAs full name
    → has_service full pod ≡ true
Listed-has_service full pod e (found, h) = rw (rw e at h, has_service)

covered_by :
    (pods : List Bytes) (ps qs : List IngressPath) (pod : Bytes)
    → contains (pods_of ps) pod ≡ true
    → (contains pods pod || contains (pods_of (ps ++ qs)) pod) ≡ true
covered_by pods ps qs pod h =
    rw (pods_of-append ps qs, contains-append (pods_of ps) (pods_of qs) pod, h) (ground arith)

covered_more :
    (pods : List Bytes) (ps qs : List IngressPath) (pod : Bytes)
    → (contains pods pod || contains (pods_of qs) pod) ≡ true
    → (contains pods pod || contains (pods_of (ps ++ qs)) pod) ≡ true
covered_more pods ps qs pod h =
    rw (pods_of-append ps qs, contains-append (pods_of ps) (pods_of qs) pod) (ground (arith, h))

-- What a first run publishes.
pub record News (full : ServicesMap) (pods : List Bytes) (services : ServicesMap)
    (rs : All IsRegular services) : Type 0 where
  pub paths : List IngressPath
  pub published : all_new_paths pods services ≡ some paths
  pub served : All (IsServed full) paths
  pub covers :
      Covers
        (λ pod.
          (has_service full pod ≡ true)
          × ((contains pods pod || contains (pods_of paths) pod) ≡ true))
        services
        rs

pub all_new_paths-News :
    (full : ServicesMap) (pods : List Bytes) (services : ServicesMap) (rs : All IsRegular services)
    → All (Listed full) services
    → News full pods services rs
unfolding all_new_paths
all_new_paths-News full pods [] rs ls = record {
  paths = [];
  published = refl;
  served = tt;
  covers = tt;
}
all_new_paths-News full pods ((name, svc) ∷ services) ((pod, e, slashless, s, f), rs) (l, ls) =
    let more = all_new_paths-News full pods services rs ls in
    let has = Listed-has_service full pod e l in
    elim (Bool-cases (contains pods pod)) [
      | inl b ↦ record {
        paths = more.paths;
        published = rw (e, f, new_paths-regular pods pod s, b, more.published, ◌>>=◌);
        served = more.served;
        covers = (inl (has, ground (arith, b)), more.covers);
      }
      | inr b ↦
          let here = paths_for pod s s.ports in
          record {
            paths = here ++ more.paths;
            published = rw (e, f, new_paths-regular pods pod s, b, more.published, ◌>>=◌);
            served =
                All-append _ here more.paths (paths_for-IsServed full pod s s.ports slashless has)
                  more.served;
            covers = (
              elim (contains-paths_for pod s s.ports slashless) [
                | inl none_here ↦ inr none_here
                | inr k ↦ inl (has, covered_by pods here more.paths pod k)
              ],
              Covers-map services rs (λ k (h, d). (h, covered_more pods here more.paths k d))
                  more.covers,
            );
          }
    ]

pub all_new_paths-covered :
    (pods : List Bytes) (services : ServicesMap) (rs : All IsRegular services)
    → Covers (λ pod. contains pods pod ≡ true) services rs
    → all_new_paths pods services ≡ some []
unfolding all_new_paths
all_new_paths-covered pods [] rs c = refl
all_new_paths-covered pods ((name, svc) ∷ services) ((pod, e, _, s, f), rs) (k, c) =
    rw (e, f, new_paths-regular pods pod s, all_new_paths-covered pods services rs c, ◌>>=◌)
      (elim k [ inl h ↦ rw h | inr h ↦ rw h (ground arith) ])

pub covered_at_last :
    (services : ServicesMap) (c : Collected) (qs : List IngressPath) (pod : Bytes)
    → Swept services c
    → has_service services pod ≡ true
    → (contains c.pods pod || contains (pods_of qs) pod) ≡ true
    → contains (pods_of (c.paths ++ qs)) pod ≡ true
covered_at_last services c qs pod w has h =
    rw (pods_of-append c.paths qs, contains-append (pods_of c.paths) (pods_of qs) pod)
      (elim (Bool-cases (contains c.pods pod)) [
        | inl b ↦ rw (w.found pod b has)
        | inr b ↦ ground (arith, b, h)
      ])
