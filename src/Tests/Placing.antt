-- ===== src/Tests/Placing.antt =====
-- The clients' pods on the session of the fixtures.
use mathlib.Core.List.{Perm}
use xr_telepresence_k8s.Base.{
  some, none, ◌++◌, refl, if◌then◌else◌, ◌&&◌, ◌∷◌, [], nat_eq, bytes_eq, List, ℕ, [], arith, true,
  ◌≡◌, ◌∷◌, ◌++◌, some, none, ◌==◌, ◌≢◌,
}
use xr_telepresence_k8s.Session.Placement.Reuse.{allocate_in-reuses}
use xr_telepresence_k8s.Session.Allocation.{
  AllocationValue, PodClient, AllocationMap, ServingPod, build_allocation_map,
}
use xr_telepresence_k8s.Session.Placement.{Pool, allocate_in, sort_pods, allocate_clients}
use xr_telepresence_k8s.Session.Placement.Capacity.{
  IsSized, AddedInTurn, AllSized, allocate_clients_total,
}
use xr_telepresence_k8s.Session.Placement.Room.{AllFull}
use xr_telepresence_k8s.Session.Reconciler.{build_from_status}
use xr_telepresence_k8s.Base.Dict.{lookup, Dict, insert, erase}
use xr_telepresence_k8s.Base.Text.{from_last, Bytes, split, text}
use xr_telepresence_k8s.Session.Allocation.Building.{find_pod}
use xr_telepresence_k8s.Tests.Fixtures.{
  vr_template, vr, carol, serving, second_pod_name, demo, first_pod_name, alice, pod_named, bob,
}
use xr_telepresence_k8s.Resources.Session.{ClientStatus}
use xr_telepresence_k8s.Session.Reconciler.Placing.{AllHold, build_from_status-AllHold}
use xr_telepresence_k8s.Session.Placement.Order.{FullestFirst, sort_pods-FullestFirst}

abbrev placed_pods : List ServingPod
placed_pods = serving first_pod_name (alice ∷ bob ∷ []) ∷ []

abbrev full : AllocationValue
full = record { pod_template = vr_template; pods = placed_pods }

abbrev pool : Pool
pool = record {
  reutilize = (vr, (second_pod_name, pod_named second_pod_name) ∷ []) ∷ [];
  fresh = 0;
}

abbrev empty_pool : Pool
empty_pool = record { reutilize = []; fresh = 0 }

abbrev uuids : ℕ → Bytes
uuids n = text "0003"

abbrev carol_connected : PodClient
carol_connected = record { id = carol; connected = true }

full-IsSized : IsSized full
full-IsSized = record { positive = omega arith; is_int = omega arith; within = (omega arith, tt) }

full-AllFull : AllFull 2 placed_pods
unfolding nat_eq
full-AllFull = (refl, tt)

build_from_status-AllHold_example :
    AllHold
      (insert vr (record { pod_template = vr_template; pods = placed_pods }) [], [])
      demo.status.clients
unfolding build_from_status build_allocation_map nat_eq bytes_eq insert lookup erase split
build_from_status-AllHold_example =
    build_from_status-AllHold demo.status.clients
      ((vr, record { pod_template = vr_template; pods = [] }) ∷ [], []) placed
  where
    placed :
        build_from_status demo.status.clients
          ((vr, record { pod_template = vr_template; pods = [] }) ∷ [], [])
        ≡ some (insert vr (record { pod_template = vr_template; pods = placed_pods }) [], [])
    placed = refl

allocate_clients_total_example :
    (n : AllocationMap) × (pool' : Pool) × (clients' : Dict Bytes ClientStatus) × (allocate_clients
        uuids demo.name
        (carol ∷ [])
        ((vr, full) ∷ [])
        pool
        demo.status.clients
      ≡ some (n, pool', clients'))
    × AddedInTurn (carol ∷ []) ((vr, full) ∷ []) n
    × AllSized n
allocate_clients_total_example =
    allocate_clients_total uuids demo.name (carol ∷ []) ((vr, full) ∷ []) pool demo.status.clients
      (full-IsSized, tt)

allocate_in-reuses_example :
    (pool' : Pool) × (allocate_in uuids demo.name carol_connected vr full pool
      ≡ some (
        second_pod_name,
        record full {
          pods =
              placed_pods ++ record { name = second_pod_name; clients = carol_connected ∷ [] } ∷ [];
        },
        pool',
      ))
    × (pool'.fresh ≡ pool.fresh)
    × ((u other : Bytes)
        → find_pod u other pool'.reutilize
          ≡ (if u == vr && other == second_pod_name then none else find_pod u other pool.reutilize))
unfolding lookup bytes_eq
allocate_in-reuses_example =
    allocate_in-reuses uuids demo.name carol_connected vr full pool second_pod_name
      (pod_named second_pod_name) [] full-AllFull idle named
  where
    idle : lookup vr pool.reutilize ≡ some ((second_pod_name, pod_named second_pod_name) ∷ [])
    idle = refl

    named : second_pod_name ≢ []
    named e = cc

sort_pods-FullestFirst_example :
    (qs : List ServingPod) × (sort_pods (serving second_pod_name [] ∷ placed_pods) ≡ some qs)
    × Perm qs (serving second_pod_name [] ∷ placed_pods)
    × FullestFirst qs
unfolding from_last nat_eq
sort_pods-FullestFirst_example =
    sort_pods-FullestFirst (serving second_pod_name [] ∷ placed_pods)
      ((text "-0002", second_id), ((text "-0001", first_id), tt))
  where
    second_id : from_last b'-' second_pod_name ≡ some (text "-0002")
    second_id = refl

    first_id : from_last b'-' first_pod_name ≡ some (text "-0001")
    first_id = refl

abbrev third_pod_name : Bytes
third_pod_name = text "demo-1a2b-vr-0003"
