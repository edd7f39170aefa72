-- ===== src/Network/Services/Coverage.antt =====
-- network_controller.go: which pods have an entry after the services are spawned.
use xr_telepresence_k8s.Effect.{Result, err, caught, ok, Settles, is_already_exists}
use xr_telepresence_k8s.Base.{
  ◌≡◌, refl, inl, inr, true, none, some, List, [], ◌∷◌, arith, bytes_eq, All, Option-cases, Option,
}
use xr_telepresence_k8s.Base.Dict.{lookup, insert, lookup-insert, lookup-insert_self}
use xr_telepresence_k8s.Base.Text.{Bytes}
use xr_telepresence_k8s.Network.Services.{
  ServicesMap, service_name, spawn_service, after_spawn, spawn_services, service_for,
}
use xr_telepresence_k8s.Network.Publishing.{has_service}
use xr_telepresence_k8s.Resources.Core.{Pod, Service}
use xr_telepresence_k8s.Cluster.{Server, Call, create_service}

pub record Covered (ps : List Pod) (m m' : ServicesMap) : Type 0 where
  pub kept : (pod : Bytes) → has_service m pod ≡ true → has_service m' pod ≡ true
  pub covered : All (λ p. has_service m' p.name ≡ true) ps

has_service-insert :
    (name pod : Bytes) (svc : Option Service) (m : ServicesMap)
    → has_service m pod ≡ true
    → has_service (insert name svc m) pod ≡ true
has_service-insert name pod svc m h = ground (arith, h, lookup-insert (service_name pod) name svc m)

has_service-insert_self :
    (pod : Bytes) (svc : Option Service) (m : ServicesMap)
    → has_service (insert (service_name pod) svc m) pod ≡ true
has_service-insert_self pod svc m = rw (lookup-insert_self (service_name pod) svc m, has_service)

module _ (namespace : Bytes) (s : Server)
    (owns : (p : Pod) (svc : Service) → (owned : Service) × (s.own_service p svc ≡ ok owned))
    (settles : (h : List Call) (c : Call) → Settles is_already_exists (s.write h c)) where
  -- One round returns a service or a nil pointer.
  pub round :
      (p : Pod) (h : List Call)
      → (r : Result Service) × (svc : Option Service) × (h' : List Call) × ((spawn_service namespace
              p)
            s h
          ≡ (r, h'))
        × (caught r ≡ ok r)
        × (after_spawn r s h' ≡ (ok svc, h'))
  unfolding spawn_service after_spawn
  round p h =
      let (svc, e) = owns p (service_for namespace p) in
      elim (settles h (create_service svc)) [
        | inl a ↦ (ok svc, some svc, create_service svc ∷ h, rw (e, a), refl, refl)
        | inr (x, a, t) ↦ (err x, none, create_service svc ∷ h, rw (e, a), refl, rw t)
      ]

  -- If owner references can be set and every creation is accepted or refused as already existing,
  -- spawning succeeds, each pod has an entry in the resulting map, and the entries that were there
  -- are kept.
  pub spawn_services-Covered :
      (ps : List Pod) (m : ServicesMap) (h : List Call)
      → (m' : ServicesMap) × ((spawn_services namespace ps m s h).0 ≡ ok m') × Covered ps m m'
  unfolding spawn_services
  spawn_services-Covered [] m h = (m, refl, record { kept = λ pod e. e; covered = tt })
  spawn_services-Covered (p ∷ ps) m h = elim (Option-cases (lookup (service_name p.name) m)) [
    | inr (svc, e) ↦
        let (m', e', c) = spawn_services-Covered ps m h in
        (
          m',
          rw (e, spawn_services) e',
          record { kept = c.kept; covered = (c.kept p.name (rw (e, has_service)), c.covered) },
        )
    | inl e ↦
        let (r, svc, h', made, went_on, left) = round p h in
        let (m', e', c) = spawn_services-Covered ps (insert (service_name p.name) svc m) h' in
        (
          m',
          rw (e, spawn_services) (rw made (rw went_on (rw left e'))),
          record {
            kept = λ pod held. c.kept pod (has_service-insert (service_name p.name) pod svc m held);
            covered = (c.kept p.name (has_service-insert_self p.name svc m), c.covered);
          },
        )
  ]
