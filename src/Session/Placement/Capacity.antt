-- ===== src/Session/Placement/Capacity.antt =====
-- client_pods.go: `allocateClients`, and the limits of the templates.
use xr_telepresence_k8s.Base.{
  ℕ, ◌≤◌, ◌<◌, ◌^◌, ◌≡◌, refl, true, false, Option, none, some, List, [], ◌∷◌, ◌++◌, bytes_eq,
}
use xr_telepresence_k8s.Base.Dict.{Dict, insert}
use xr_telepresence_k8s.Base.Text.{Bytes}
use xr_telepresence_k8s.Resources.Session.{PodStatus, ClientStatus, default_time}
use xr_telepresence_k8s.Session.Allocation.{PodClient, ServingPod, AllocationValue, AllocationMap}
use xr_telepresence_k8s.Session.Placement.{
  find_first_pod_available, Pool, choose_pod, allocate_in, allocate_templates, allocate_clients,
  build_pod_status,
}
use xr_telepresence_k8s.Session.Placement.Room.{
  Finds, find_first_pod_available-Finds, Added, opened_at_end, Within, Within-opened,
  add_at-IsFirst,
}

-- The template allows a client, and its pods are within its limit.
pub record IsSized (v : AllocationValue) : Type 0 where
  pub positive : 1 ≤ v.pod_template.max_clients
  pub is_int : v.pod_template.max_clients < 2 ^ 63
  pub within : Within v.pod_template.max_clients v.pods

abbrev pub AllSized : AllocationMap → Type 0
AllSized [] = Unit
AllSized ((_, v) ∷ m) = IsSized v × AllSized m

-- Each template's pods have the client added to one of them, and the templates are the same.
abbrev pub AddedToAll : PodClient → AllocationMap → AllocationMap → Type 0
AddedToAll client [] [] = Unit
AddedToAll client [] (_ ∷ _) = ⊥
AddedToAll client (_ ∷ _) [] = ⊥
AddedToAll client ((t, v) ∷ m) ((u, w) ∷ n) =
    (u ≡ t)
    × (w.pod_template ≡ v.pod_template)
    × ((name : Bytes) × Added client name v.pods w.pods)
    × AddedToAll client m n

abbrev pub new_client : Bytes → PodClient
new_client id = record { id = id; connected = true }

-- The map after each of the clients in turn has been added to every template.
abbrev pub AddedInTurn : List Bytes → AllocationMap → AllocationMap → Type 0
AddedInTurn [] m n = n ≡ m
AddedInTurn (id ∷ ids) m n =
    (between : AllocationMap) × AddedToAll (new_client id) m between × AddedInTurn ids between n

module _ (uuid : ℕ → Bytes) (session_name : Bytes) where
  -- An allocation to one template succeeds and keeps the limit.
  pub allocate_in_total :
      (client : PodClient) (t : Bytes) (v : AllocationValue) (pool : Pool)
      → IsSized v
      → (name : Bytes) × (w : AllocationValue) × (pool' : Pool) × (allocate_in uuid session_name
            client t v pool
          ≡ some (name, w, pool'))
        × (w.pod_template ≡ v.pod_template)
        × Added client name v.pods w.pods
        × IsSized w
  unfolding allocate_in
  allocate_in_total client t v pool s =
      go (find_first_pod_available v.pod_template.max_clients v.pods) refl
        (find_first_pod_available-Finds v.pod_template.max_clients v.pods)
    where
      go :
          (i : Option ℕ)
          → find_first_pod_available v.pod_template.max_clients v.pods ≡ i
          → Finds v.pod_template.max_clients v.pods i
          → (name : Bytes) × (w : AllocationValue) × (pool' : Pool) × (allocate_in uuid session_name
                client t v pool
              ≡ some (name, w, pool'))
            × (w.pod_template ≡ v.pod_template)
            × Added client name v.pods w.pods
            × IsSized w
      go none e f =
          let name = (choose_pod uuid session_name t pool).0 in
          let pods : List ServingPod =
            v.pods ++ record { name = name; clients = client ∷ [] } ∷ [] in
          (
            name,
            record v { pods = pods },
            (choose_pod uuid session_name t pool).1,
            rw (e, allocate_in),
            refl,
            opened_at_end client name v.pods,
            record {
              positive = s.positive;
              is_int = s.is_int;
              within = Within-opened _ client name v.pods s.positive s.within;
            },
          )
      go (some i) e f =
          let (name, pods, e', a, w) = add_at-IsFirst _ client i v.pods f s.within in
          (
            name,
            record v { pods = pods },
            pool,
            rw (e, allocate_in) (rw e'),
            refl,
            a,
            record { positive = s.positive; is_int = s.is_int; within = w },
          )

  -- The inner loop: every template gets the client.
  pub allocate_templates_total :
      (client : PodClient) (m : AllocationMap) (pool : Pool) (status : Dict Bytes PodStatus)
      → AllSized m
      → (n : AllocationMap) × (pool' : Pool) × (status' : Dict Bytes PodStatus)
        × (allocate_templates uuid session_name client m pool status ≡ some (n, pool', status'))
        × AddedToAll client m n
        × AllSized n
  unfolding allocate_templates
  allocate_templates_total client [] pool status s = ([], pool, status, refl, tt, tt)
  allocate_templates_total client ((t, v) ∷ m) pool status (s, ss) =
      let (name, w, pool', e, same, a, sized) = allocate_in_total client t v pool s in
      let (n, pool'', status', e', a', sized') =
        allocate_templates_total client m pool'
          (insert name (build_pod_status name v.pod_template.spec) status) ss in
      (
        (t, w) ∷ n,
        pool'',
        status',
        rw (e, allocate_templates) (rw e'),
        (refl, same, (name, a), a'),
        (sized, sized'),
      )

  -- If the templates allow at least one client and their pods are within the limit, allocating the
  -- new clients does not panic, adds each of them to one pod of every template, changes nothing
  -- else of the templates' pods, and keeps every pod within the limit.
  pub allocate_clients_total :
      (ids : List Bytes) (m : AllocationMap) (pool : Pool) (clients : Dict Bytes ClientStatus)
      → AllSized m
      → (n : AllocationMap) × (pool' : Pool) × (clients' : Dict Bytes ClientStatus)
        × (allocate_clients uuid session_name ids m pool clients ≡ some (n, pool', clients'))
        × AddedInTurn ids m n
        × AllSized n
  unfolding allocate_clients
  allocate_clients_total [] m pool clients s = (m, pool, clients, refl, refl, s)
  allocate_clients_total (id ∷ ids) m pool clients s =
      let (n, pool', status, e, a, sized) = allocate_templates_total (new_client id) m pool [] s in
      let (n', pool'', clients', e', a', sized') =
        allocate_clients_total ids n pool'
          (insert id (record { last_seen_at = default_time; ready = false; pod_status = status })
            clients)
          sized in
      (n', pool'', clients', rw (e, allocate_clients) e', (n, a, a'), sized')
