-- ===== src/Session/Placement/Totality.antt =====
-- client_pods.go: allocating does not panic, and its entries are sound.
use xr_telepresence_k8s.Base.{
  ℕ, zero, suc, ◌≡◌, refl, inl, inr, true, false, some, List, [], ◌∷◌, ◌++◌, ◌==◌, arith, bytes_eq,
  nat_eq, All, All-append, Option-cases, Bool-cases,
}
use xr_telepresence_k8s.Base.Panic.{none_absurd}
use xr_telepresence_k8s.Base.Dict.{Dict, lookup, insert, Every, Every-insert}
use xr_telepresence_k8s.Base.Text.{Bytes}
use xr_telepresence_k8s.Resources.Core.{Pod}
use xr_telepresence_k8s.Resources.Session.{ClientStatus, PodStatus, default_time}
use xr_telepresence_k8s.Session.Allocation.{
  PodClient, ServingPod, AllocationValue, AllocationMap, inner,
}
use xr_telepresence_k8s.Session.Allocation.Named.{
  HasTemplate, HasTemplate-joined, IsNamed, AllNamed, KeyNamed, KeysNamed, inner-KeyNamed,
  take_pod-KeysNamed,
}
use xr_telepresence_k8s.Session.Soundness.{
  SoundPod, SoundPods, SoundEntry, IsSound, build_pod_status-SoundPod,
}
use xr_telepresence_k8s.Session.Placement.{
  find_first_pod_available, add_at, reutilize_pod, Pool, choose_pod, allocate_in,
  allocate_templates, allocate_clients, build_pod_status,
}

found_behind :
    (n i : ℕ) (p : ServingPod) (ps : List ServingPod)
    → find_first_pod_available n (p ∷ ps) ≡ some (suc i)
    → find_first_pod_available n ps ≡ some i
unfolding find_first_pod_available
found_behind n i p ps h = elim (Option-cases (find_first_pod_available n ps)) [
  | inl e ↦ ground (arith, h, e)
  | inr (j, e) ↦ ground (arith, h, e)
]

-- The index that the search returns is in range.
add_at_total :
    (client : PodClient) (n i : ℕ) (ps : List ServingPod)
    → find_first_pod_available n ps ≡ some i
    → All IsNamed ps
    → (name : Bytes) × (qs : List ServingPod) × (add_at client i ps ≡ some (name, qs))
      × HasTemplate name
      × All IsNamed qs
unfolding find_first_pod_available add_at
add_at_total client n i [] h _ = absurd (none_absurd h)
add_at_total client n zero (p ∷ ps) h (d, ds) = (p.name, _, refl, d, (d, ds))
add_at_total client n (suc i) (p ∷ ps) h (d, ds) =
    let (name, qs, e, d', ds') = add_at_total client n i ps (found_behind n i p ps h) ds in
    (name, p ∷ qs, rw (add_at, e) refl, d', (d, ds'))

first_key-HasTemplate :
    (pods : Dict Bytes Pod)
    → Every KeyNamed pods
    → (reutilize_pod pods == []) ≡ false
    → HasTemplate (reutilize_pod pods)
unfolding reutilize_pod bytes_eq
first_key-HasTemplate [] _ h = cc
first_key-HasTemplate ((k, _) ∷ _) (d, _) h = d

module _ (uuid : ℕ → Bytes) (session_name : Bytes) where
  -- A pod that is taken back or named anew has a template.
  choose_pod-HasTemplate :
      (t : Bytes) (pool : Pool)
      → KeysNamed pool.reutilize
      → HasTemplate (choose_pod uuid session_name t pool).0
        × KeysNamed (choose_pod uuid session_name t pool).1.reutilize
  unfolding choose_pod
  choose_pod-HasTemplate t pool js =
      let pods = inner (lookup t pool.reutilize) in
      elim (Bool-cases (reutilize_pod pods == [])) [
        | inl b ↦ rw b (HasTemplate-joined session_name t (uuid pool.fresh), js)
        | inr b ↦ rw b (
          first_key-HasTemplate pods (inner-KeyNamed t pool.reutilize js) b,
          take_pod-KeysNamed t (reutilize_pod pods) pool.reutilize js,
        )
      ]

  allocate_in-IsNamed :
      (client : PodClient) (t : Bytes) (v : AllocationValue) (pool : Pool)
      → All IsNamed v.pods
      → KeysNamed pool.reutilize
      → (name : Bytes) × (w : AllocationValue) × (pool' : Pool) × (allocate_in uuid session_name
            client t v pool
          ≡ some (name, w, pool'))
        × HasTemplate name
        × All IsNamed w.pods
        × KeysNamed pool'.reutilize
  unfolding allocate_in
  allocate_in-IsNamed client t v pool is js =
      elim (Option-cases (find_first_pod_available v.pod_template.max_clients v.pods)) [
        | inl e ↦
            let (d, js') = choose_pod-HasTemplate t pool js in
            let name = (choose_pod uuid session_name t pool).0 in
            let opened : List ServingPod = record { name = name; clients = client ∷ [] } ∷ [] in
            (
              name,
              record v { pods = v.pods ++ opened },
              (choose_pod uuid session_name t pool).1,
              rw (e, allocate_in) refl,
              d,
              All-append IsNamed v.pods opened is (d, tt),
              js',
            )
        | inr (i, e) ↦
            let (name, qs, f, d, is') =
              add_at_total client v.pod_template.max_clients i v.pods e is in
            (name, record v { pods = qs }, pool, rw (e, allocate_in) (rw f refl), d, is', js)
      ]

  allocate_templates_sound :
      (client : PodClient) (m : AllocationMap) (pool : Pool) (status : Dict Bytes PodStatus)
      → AllNamed m
      → KeysNamed pool.reutilize
      → SoundPods status
      → (n : AllocationMap) × (pool' : Pool) × (status' : Dict Bytes PodStatus)
        × (allocate_templates uuid session_name client m pool status ≡ some (n, pool', status'))
        × AllNamed n
        × KeysNamed pool'.reutilize
        × SoundPods status'
  unfolding allocate_templates
  allocate_templates_sound client [] pool status is js ss = ([], pool, status, refl, is, js, ss)
  allocate_templates_sound client ((t, v) ∷ m) pool status (i, is) js ss =
      let (name, w, pool', e, d, i', js') = allocate_in-IsNamed client t v pool i js in
      let pod_status = build_pod_status name v.pod_template.spec in
      let (n, pool'', status', f, is', js'', ss') =
        allocate_templates_sound client m pool' (insert name pod_status status) is js' (
          Every-insert SoundPod name pod_status status
            (build_pod_status-SoundPod name v.pod_template.spec d) ss) in
      ((t, w) ∷ n, pool'', status', rw (e, allocate_templates) (rw f refl), (i', is'), js'', ss')

  -- Names with templates are all that the allocation needs.
  pub allocate_clients_sound :
      (ids : List Bytes) (m : AllocationMap) (pool : Pool) (clients : Dict Bytes ClientStatus)
      → AllNamed m
      → KeysNamed pool.reutilize
      → IsSound clients
      → (n : AllocationMap) × (pool' : Pool) × (clients' : Dict Bytes ClientStatus)
        × (allocate_clients uuid session_name ids m pool clients ≡ some (n, pool', clients'))
        × AllNamed n
        × KeysNamed pool'.reutilize
        × IsSound clients'
  unfolding allocate_clients
  allocate_clients_sound [] m pool clients is js ss = (m, pool, clients, refl, is, js, ss)
  allocate_clients_sound (id ∷ ids) m pool clients is js ss =
      let (n, pool', status, e, is', js', s) =
        allocate_templates_sound (record { id = id; connected = true }) m pool [] is js tt in
      let entry : ClientStatus = record {
        last_seen_at = default_time;
        ready = false;
        pod_status = status;
      } in
      let (n', pool'', clients', f, is'', js'', ss') =
        allocate_clients_sound ids n pool' (insert id entry clients) is' js'
          (Every-insert SoundEntry id entry clients s ss) in
      (n', pool'', clients', rw (e, allocate_clients) f, is'', js'', ss')
