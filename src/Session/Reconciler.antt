-- ===== src/Session/Reconciler.antt =====
-- session_controller.go, utils/status.go and `ReconcileClientPods`: one run of the controller.
pub mod Address
pub mod Calm
pub mod Soundness
pub mod Membership
pub mod Calls
pub mod Publication
pub mod Placing
use xr_telepresence_k8s.Base.{
  ℕ, Bool, true, false, Option, none, some, List, [], ◌∷◌, ◌==◌, bytes_eq, if◌then◌else◌,
}
use xr_telepresence_k8s.Base.Dict.{Dict, lookup_or, insert}
use xr_telepresence_k8s.Base.Text.{Bytes, text}
use xr_telepresence_k8s.Resources.Core.{NamespacedName, Pod, Service}
use xr_telepresence_k8s.Resources.Session.{ClientStatus, SessionStatus, Session}
use xr_telepresence_k8s.Resources.Registration.{GcRegistration}
use xr_telepresence_k8s.Cluster.{
  Exec, save, update_session_status, update_session, get_session_of, get_service_of,
  registrations_in, of_session, owned_pods, pods_in,
}
use xr_telepresence_k8s.Session.Clients.{
  is_connected, clean_expired_clients_from_status, handle_client_changes, remove_departed_clients,
}
use xr_telepresence_k8s.Session.Allocation.{
  AllocationMap, TemplatePodMap, init_allocation_map, template_pod_mapping, build_allocation_map,
}
use xr_telepresence_k8s.Session.Placement.{sort_allocation_map, allocate_clients}
use xr_telepresence_k8s.Session.Readiness.{reconcile_pods}
use xr_telepresence_k8s.Session.Registrations.{gc_namespace, manage_gc_registrations}
use xr_telepresence_k8s.Session.Pods.{spawn_pod, reconcile_session_pods}
use xr_telepresence_k8s.Effect.{
  ◌>>=◌, Result, ok, err, panic, pure, raise, result, attempt, or_panic, is_not_found, ◌>>◌,
}

-- What the client part of the status and the cluster's pods come to.
pub record Placed : Type 0 where
  pub allocations : AllocationMap
  pub reutilize : TemplatePodMap
  pub clients : Dict Bytes ClientStatus

-- The second branch of the loop over the status, for every client that stays.
unfoldable pub build_from_status :
    Dict Bytes ClientStatus
    → AllocationMap × TemplatePodMap
    → Option (AllocationMap × TemplatePodMap)
unfolding build_allocation_map
build_from_status [] s = some s
build_from_status ((id, status) ∷ clients) s =
    elim (build_allocation_map id status (is_connected status.last_seen_at) s) [
      | none ↦ none
      | some s' ↦ build_from_status clients s'
    ]

-- The UUIDs drawn are a parameter.
module _ (uuid : ℕ → Bytes) where
  -- `if len(newClients) != 0 { … }`
  unfoldable pub place_new_clients :
      Bytes → List Bytes → AllocationMap × TemplatePodMap → Dict Bytes ClientStatus → Option Placed
  unfolding sort_allocation_map allocate_clients
  place_new_clients session_name [] (m, reutilize) clients =
      some (record { allocations = m; reutilize = reutilize; clients = clients })
  place_new_clients session_name (id ∷ ids) (m, reutilize) clients = elim (sort_allocation_map m) [
    | none ↦ none
    | some sorted ↦
        elim (allocate_clients uuid session_name (id ∷ ids) sorted
          (record { reutilize = reutilize; fresh = 0 }) clients) [
            | none ↦ none
            | some (m', pool, clients') ↦
                some (record { allocations = m'; reutilize = pool.reutilize; clients = clients' })
          ]
  ]

  -- From the listed pods to the new allocation.
  unfoldable pub place_clients : ℕ → Session → TemplatePodMap → Option Placed
  unfolding clean_expired_clients_from_status handle_client_changes remove_departed_clients
      init_allocation_map build_from_status place_new_clients
  place_clients now session pods =
      let live =
        clean_expired_clients_from_status now session.status.clients session.spec.timeout_seconds in
      let (new_clients, changed) = handle_client_changes now session.spec.clients live in
      let present = remove_departed_clients session.spec.clients changed in
      elim (build_from_status present
        (init_allocation_map session.spec.client_pod_templates, pods)) [
          | none ↦ none
          | some s ↦ place_new_clients session.name new_clients s present
        ]

  abbrev pub with_clients : Dict Bytes ClientStatus → Session → Session
  with_clients clients session = record session { status = record status_ { clients = clients } }
    where
      open session use {status as status_}

  unfoldable pub reconcile_client_pods :
      ℕ → Bytes → Session → List GcRegistration → Option Bytes → Exec (Session × List Pod)
  unfolding place_clients manage_gc_registrations reconcile_pods template_pod_mapping
  reconcile_client_pods now namespace session registrations ip = do
    pods ← pods_in namespace (owned_pods session.name (text "client"))
    mapped ← or_panic (template_pod_mapping pods)
    placed ← or_panic (place_clients now session mapped)
    attempt (manage_gc_registrations session placed.allocations placed.reutilize registrations)
        >>= λ _.
            or_panic (reconcile_pods placed.allocations placed.clients mapped ip)
            >>= λ (spawned, clients). pure (with_clients clients session, spawned)

-- The first address of the load balancer; any error counts as none.
unfoldable pub first_address : Result Service → Option Bytes
first_address (ok svc) = elim svc.load_balancer [ [] ↦ none | ip ∷ _ ↦ some ip ]
first_address _ = none

abbrev pub ingress_service : NamespacedName
ingress_service = record {
  namespace = text "ingress-nginx";
  name = text "ingress-nginx-controller";
}

unfoldable pub get_ingress_service_external_ip : Exec (Option Bytes)
unfolding first_address
get_ingress_service_external_ip = do
  svc ← attempt (get_service_of ingress_service)
  pure (first_address svc)

unfoldable pub spawn_pods : Session → List Pod → Exec (Unit {0})
unfolding spawn_pod
spawn_pods session [] = pure tt
spawn_pods session (p ∷ ps) = do spawn_pod session p; spawn_pods session ps

unfoldable pub status_has_changed : Bytes → Bytes → Bool
status_has_changed old new = if old == new then false else true

unfoldable pub set_status_hash_annotation : Bytes → Session → Session
set_status_hash_annotation hash session = record session {
  annotations = insert (text "statusHash") hash session.annotations;
}

-- `HashStatus` is the hexadecimal SHA-256 of the status as JSON: a parameter, as are the UUIDs.
module _ (uuid : ℕ → Bytes) (hash_status : SessionStatus → Bytes) where
  unfoldable pub publish_status : Session → Exec Session
  unfolding status_has_changed set_status_hash_annotation
  publish_status session =
      let new_hash = hash_status session.status in
      if status_has_changed (lookup_or [] (text "statusHash") session.annotations) new_hash
      then (save update_session_status session >>= λ stored.
          save update_session (set_status_hash_annotation new_hash stored))
      else pure session

  -- The session pods, if the session has any; on an error the status is written all the same.
  unfoldable pub reconcile_session_part :
      ℕ → Bytes → List GcRegistration → Option Bytes → Session → Exec Session
  unfolding reconcile_session_pods
  reconcile_session_part now namespace registrations ip session =
      elim session.spec.session_pod_templates [
        | [] ↦ pure session
        | _ ∷ _ ↦
            reconcile_session_pods now namespace session registrations ip >>= λ (session', error).
            elim error [
              | none ↦ pure session'
              | some e ↦ attempt (save update_session_status session') >>= λ _. raise e
            ]
      ]

  unfoldable pub reconcile_client_part :
      ℕ → Bytes → List GcRegistration → Option Bytes → Session → Exec (Session × List Pod)
  unfolding reconcile_client_pods
  reconcile_client_part now namespace registrations ip session =
      elim session.spec.client_pod_templates [
        | [] ↦ pure (session, [])
        | _ ∷ _ ↦ reconcile_client_pods uuid now namespace session registrations ip
      ]

  unfoldable pub reconcile_found : ℕ → Bytes → Session → Exec (Unit {0})
  unfolding get_ingress_service_external_ip reconcile_session_part reconcile_client_part
      publish_status spawn_pods
  reconcile_found now namespace session = do
    registrations ← registrations_in gc_namespace (of_session session.name)
    ip ← get_ingress_service_external_ip
    session' ← reconcile_session_part now namespace registrations ip session
    (session'', pods) ← reconcile_client_part now namespace registrations ip session'
    stored ← publish_status session''
    spawn_pods stored pods

  abbrev pub on_session : ℕ → Bytes → Result Session → Exec (Unit {0})
  on_session now namespace (ok session) = reconcile_found now namespace session
  on_session now namespace (err e) = if is_not_found e then pure tt else raise e
  on_session now namespace panic = result panic

  -- `Reconcile`; `now` is the clock.
  unfoldable pub reconcile : ℕ → NamespacedName → Exec (Unit {0})
  unfolding reconcile_found
  reconcile now request = do
    found ← attempt (get_session_of request)
    on_session now request.namespace found
