-- ===== src/Session/Placement/Reuse.antt =====
-- client_pods.go: idle pods and new ones.
use xr_telepresence_k8s.Base.{
  ℕ, ◌+◌, ◌≡◌, ◌≢◌, refl, ◌&&◌, none, some, List, [], ◌∷◌, ◌++◌, arith, ◌==◌, bytes_eq,
  if◌then◌else◌,
}
use xr_telepresence_k8s.Base.Dict.{Dict, lookup}
use xr_telepresence_k8s.Base.Text.{Bytes, text}
use xr_telepresence_k8s.Resources.Core.{Pod}
use xr_telepresence_k8s.Session.Allocation.{PodClient, ServingPod, AllocationValue, inner, take_pod}
use xr_telepresence_k8s.Session.Allocation.Building.{find_pod, find_pod-take_pod}
use xr_telepresence_k8s.Session.Placement.{find_first_pod_available, Pool, choose_pod, allocate_in}
use xr_telepresence_k8s.Session.Placement.Room.{AllFull}

find_first_pod_available-AllFull :
    (max_clients : ℕ) (ps : List ServingPod)
    → AllFull max_clients ps
    → find_first_pod_available max_clients ps ≡ none
unfolding find_first_pod_available
find_first_pod_available-AllFull max_clients [] h = refl
find_first_pod_available-AllFull max_clients (p ∷ ps) (e, h) =
    rw (e, find_first_pod_available-AllFull max_clients ps h)

module _ (uuid : ℕ → Bytes) (session_name : Bytes) (client : PodClient) (t : Bytes) where
  -- If every pod of the template is full and the first idle pod has a name, the client gets that
  -- pod, it is idle no longer, all other idle pods stay, and no UUID is drawn.
  pub allocate_in-reuses :
      (v : AllocationValue) (pool : Pool) (name : Bytes) (p : Pod) (rest : Dict Bytes Pod)
      → AllFull v.pod_template.max_clients v.pods
      → lookup t pool.reutilize ≡ some ((name, p) ∷ rest)
      → name ≢ []
      → (pool' : Pool) × (allocate_in uuid session_name client t v pool
          ≡ some (
            name,
            record v { pods = v.pods ++ record { name = name; clients = client ∷ [] } ∷ [] },
            pool',
          ))
        × (pool'.fresh ≡ pool.fresh)
        × ((u other : Bytes)
            → find_pod u other pool'.reutilize
              ≡ (if u == t && other == name then none else find_pod u other pool.reutilize))
  unfolding allocate_in choose_pod
  allocate_in-reuses v pool name p rest full idle named = (
    record pool { reutilize = take_pod t name pool.reutilize },
    rw (find_first_pod_available-AllFull _ v.pods full, allocate_in) (rw idle (ground arith)),
    refl,
    λ u other. find_pod-take_pod t u name other pool.reutilize,
  )

  -- If every pod of the template is full and none is idle, the client gets a new pod named after
  -- the session, the template and the next UUID.
  pub allocate_in-names :
      (v : AllocationValue) (pool : Pool)
      → AllFull v.pod_template.max_clients v.pods
      → inner (lookup t pool.reutilize) ≡ []
      → let name = session_name ++ text "-" ++ t ++ text "-" ++ uuid pool.fresh in
        allocate_in uuid session_name client t v pool
        ≡ some (
          name,
          record v { pods = v.pods ++ record { name = name; clients = client ∷ [] } ∷ [] },
          record pool { fresh = pool.fresh + 1 },
        )
  unfolding allocate_in choose_pod
  allocate_in-names v pool full idle =
      rw (find_first_pod_available-AllFull _ v.pods full, allocate_in) (rw idle (ground arith))
