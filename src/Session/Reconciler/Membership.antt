-- ===== src/Session/Reconciler/Membership.antt =====
-- client_pods.go: which clients the status has after a placement, and with which entries.
use xr_telepresence_k8s.Base.{
  ℕ, ◌≡◌, refl, ◌∙◌, inl, inr, true, false, none, some, List, [], ◌∷◌, arith, bytes_eq, nat_eq,
  contains, Option-cases, Bool-cases,
}
use xr_telepresence_k8s.Base.Panic.{none_absurd, some_injective}
use xr_telepresence_k8s.Base.Dict.{Dict, lookup, NodupKeys}
use xr_telepresence_k8s.Base.Text.{Bytes}
use xr_telepresence_k8s.Resources.Session.{Session, ClientStatus}
use xr_telepresence_k8s.Session.Allocation.{AllocationMap, TemplatePodMap, init_allocation_map}
use xr_telepresence_k8s.Session.Clients.{
  clean_expired_clients_from_status, handle_client_changes, remove_departed_clients,
}
use xr_telepresence_k8s.Session.Clients.Lifecycle.{
  unexpired, next_status, lookup-clean_expired, lookup-lifecycle, contains-handle_client_changes,
  joins,
}
use xr_telepresence_k8s.Session.Placement.{allocate_clients, sort_allocation_map}
use xr_telepresence_k8s.Session.Placement.Arrivals.{Arrive, IsArrival, allocate_clients-Arrive}
use xr_telepresence_k8s.Session.Reconciler.{
  Placed, place_new_clients, place_clients, build_from_status,
}

-- The status has the clients that the spec asks for: those that join have new entries, all others
-- the next entry of their life.
pub record Admits (now : ℕ) (session : Session) (clients : Dict Bytes ClientStatus) : Type 0 where
  pub joined :
      (k : Bytes)
      → lookup k session.spec.clients ≡ some true
      → unexpired now session.spec.timeout_seconds (lookup k session.status.clients) ≡ none
      → IsArrival k clients
  pub lived :
      (k : Bytes)
      → joins
          (lookup k session.spec.clients)
          (unexpired now session.spec.timeout_seconds (lookup k session.status.clients))
        ≡ false
      → lookup k clients
        ≡ next_status now session.spec.timeout_seconds
            (lookup k session.spec.clients)
            (lookup k session.status.clients)

module _ (uuid : ℕ → Bytes) where
  place_new_clients-Arrive :
      (name : Bytes) (new : List Bytes) (s : AllocationMap × TemplatePodMap)
      (clients : Dict Bytes ClientStatus) {placed : Placed}
      → place_new_clients uuid name new s clients ≡ some placed
      → Arrive new clients placed.clients
  unfolding place_new_clients
  place_new_clients-Arrive name [] (m, r) clients h =
      rw (← some_injective h) (record { others = λ k e. refl; placed = λ k e. cc })
  place_new_clients-Arrive name (id ∷ ids) (m, r) clients h =
      elim (Option-cases (sort_allocation_map m)) [
        | inl e ↦ absurd (none_absurd (rw (e, place_new_clients) at h))
        | inr (sorted, e) ↦
            elim (Option-cases (
              allocate_clients uuid name (id ∷ ids) sorted (record { reutilize = r; fresh = 0 })
                clients)) [
                  | inl f ↦ absurd (none_absurd (rw (e, place_new_clients, f) at h))
                  | inr ((m', pool, clients'), f) ↦
                      rw (← some_injective (rw (e, place_new_clients, f) at h))
                        (allocate_clients-Arrive uuid name (id ∷ ids) sorted _ clients f)
                ]
      ]

  -- For maps without repeated keys, if the placement of the clients succeeds, the new status has a
  -- new entry, connected and not yet ready, for each client that the spec has connected and that
  -- the status lacks or has as expired, and for each other one the next entry of its life.
  pub place_clients-Admits :
      (now : ℕ) (session : Session) (pods : TemplatePodMap) {placed : Placed}
      → NodupKeys session.spec.clients
      → NodupKeys session.status.clients
      → place_clients uuid now session pods ≡ some placed
      → Admits now session placed.clients
  unfolding place_clients
  place_clients-Admits now session pods {placed} u w h =
      elim (Option-cases (build_from_status present (init, pods))) [
        | inl e ↦ absurd (none_absurd (rw (e, place_clients) at h))
        | inr (s, e) ↦
            admitted
              (place_new_clients-Arrive session.name new s present (rw (e, place_clients) at h))
      ]
    where
      live : Dict Bytes ClientStatus
      live =
          clean_expired_clients_from_status now session.status.clients session.spec.timeout_seconds

      new : List Bytes
      new = (handle_client_changes now session.spec.clients live).0

      present : Dict Bytes ClientStatus
      present =
          remove_departed_clients session.spec.clients
            (handle_client_changes now session.spec.clients live).1

      init : AllocationMap
      init = init_allocation_map session.spec.client_pod_templates

      cleaned :
          (k : Bytes)
          → lookup k live
            ≡ unexpired now session.spec.timeout_seconds (lookup k session.status.clients)
      cleaned k = lookup-clean_expired now session.spec.timeout_seconds k session.status.clients w

      not_new :
          (k : Bytes)
          → joins
              (lookup k session.spec.clients)
              (unexpired now session.spec.timeout_seconds (lookup k session.status.clients))
            ≡ false
          → contains new k ≡ false
      not_new k e = elim (Bool-cases (contains new k)) [
        | inr b ↦ b
        | inl b ↦
            let (f, g) = (contains-handle_client_changes now k session.spec.clients live u).0 b in
            ground (arith, e, f, g, cleaned k)
      ]

      admitted : Arrive new present placed.clients → Admits now session placed.clients
      admitted a = record {
        joined = λ k e f. a.placed k (
            (contains-handle_client_changes now k session.spec.clients live u).1
              (e, cleaned k ∙ f));
        lived = λ k e.
            a.others k (not_new k e)
            ∙ lookup-lifecycle now session.spec.timeout_seconds k session.spec.clients
                session.status.clients u w;
      }
