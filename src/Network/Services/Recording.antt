-- ===== src/Network/Services/Recording.antt =====
-- network_controller.go: the services that spawning creates, and spawning when all are there.
use xr_telepresence_k8s.Base.{
  ◌≡◌, refl, sym, subst, ap, ◌∙◌, inl, inr, true, none, some, List, [], ◌∷◌, ◌++◌, All,
  Option-cases, bytes_eq, ◌==◌, Bool-cases, arith,
}
use xr_telepresence_k8s.Base.Dict.{lookup, insert}
use xr_telepresence_k8s.Base.Text.{Bytes, Lacks}
use xr_telepresence_k8s.Resources.Core.{Pod, Service, Ingress}
use xr_telepresence_k8s.Effect.{ok}
use xr_telepresence_k8s.Cluster.{Server, Call, create_service}
use xr_telepresence_k8s.Network.Honest.{Honest, created_in, latest}
use xr_telepresence_k8s.Network.Services.{
  ServicesMap, service_name, service_for, spawn_service, after_spawn, spawn_services,
  services_by_name, services_by_name_from,
}
use xr_telepresence_k8s.Network.Publishing.{has_service}
use xr_telepresence_k8s.Network.Publishing.News.{IsRegular}
use mathlib.Core.List.{append_assoc, append-nil}

services_by_name_from-append :
    (m : ServicesMap) (xs ys : List Service)
    → services_by_name_from m (xs ++ ys) ≡ services_by_name_from (services_by_name_from m xs) ys
unfolding services_by_name_from
services_by_name_from-append m [] ys = refl
services_by_name_from-append m (x ∷ xs) ys =
    services_by_name_from-append (insert x.name (some x) m) xs ys

pub services_by_name-append :
    (xs ys : List Service)
    → services_by_name (xs ++ ys) ≡ services_by_name_from (services_by_name xs) ys
unfolding services_by_name
services_by_name-append xs ys = services_by_name_from-append [] xs ys

insert-IsRegular :
    (pod : Bytes) (svc : Service) (m : ServicesMap)
    → Lacks b'/' pod
    → All IsRegular m
    → All IsRegular (insert (service_name pod) (some svc) m)
unfolding insert
insert-IsRegular pod svc [] lacks _ = ((pod, refl, lacks, svc, refl), tt)
insert-IsRegular pod svc ((k, v) ∷ m) lacks (r, rs) = elim (Bool-cases (service_name pod == k)) [
  | inl b ↦ rw b ((pod, refl, lacks, svc, refl), rs)
  | inr b ↦ rw b (r, insert-IsRegular pod svc m lacks rs)
]

-- With an entry for every pod there is nothing to do.
pub spawn_services-idle :
    (namespace : Bytes) (ps : List Pod) (m : ServicesMap) (s : Server) (h : List Call)
    → All (λ p. has_service m p.name ≡ true) ps
    → spawn_services namespace ps m s h ≡ (ok m, h)
unfolding spawn_services
spawn_services-idle namespace [] m s h _ = refl
spawn_services-idle namespace (p ∷ ps) m s h (c, cs) =
    elim (Option-cases (lookup (service_name p.name) m)) [
      | inl e ↦ absurd (none_has e c)
      | inr (svc, e) ↦ rw (e, spawn_services) (spawn_services-idle namespace ps m s h cs)
    ]
  where
    none_has : lookup (service_name p.name) m ≡ none → has_service m p.name ≡ true → ⊥
    none_has e c = ground (arith, e, c)

-- What spawning creates, and what it leaves of the cluster.
pub record Spawned (namespace : Bytes) (ps : List Pod) (m : ServicesMap) (s : Server)
    (h : List Call) : Type 0 where
  pub news : List Service
  pub history : List Call
  pub ran : spawn_services namespace ps m s h ≡ (ok (services_by_name_from m news), history)
  pub created : created_in history ≡ created_in h ++ news
  pub untouched : (i : Ingress) → latest i history ≡ latest i h
  pub regular : All IsRegular (services_by_name_from m news)

module _ {namespace : Bytes} {pods : List Pod} {services : List Service} {ingress : Ingress}
    {s : Server} (honest : Honest s namespace pods services ingress) where
  pub spawn_services-Spawned :
      (ps : List Pod) (m : ServicesMap) (h : List Call)
      → All (λ p. Lacks b'/' p.name) ps
      → All IsRegular m
      → Spawned namespace ps m s h
  unfolding spawn_services spawn_service after_spawn services_by_name_from created_in latest
      service_for
  spawn_services-Spawned [] m h _ rs = record {
    news = [];
    history = h;
    ran = refl;
    created = sym (append-nil (created_in h));
    untouched = λ i. refl;
    regular = rs;
  }
  spawn_services-Spawned (p ∷ ps) m h (lacks, ls) rs =
      elim (Option-cases (lookup (service_name p.name) m)) [
        | inr (v, e) ↦
            let w = spawn_services-Spawned ps m h ls rs in
            record {
              news = w.news;
              history = w.history;
              ran = rw (e, spawn_services) w.ran;
              created = w.created;
              untouched = w.untouched;
              regular = w.regular;
            }
        | inl e ↦
            let (svc, o, n) = honest.owns p (service_for namespace p) in
            let name = service_name p.name in
            let at = sym (ap (λ k. insert k (some svc) m) n) in
            let w =
              spawn_services-Spawned ps (insert name (some svc) m) (create_service svc ∷ h) ls
                (insert-IsRegular p.name svc m lacks rs) in
            record {
              news = svc ∷ w.news;
              history = w.history;
              ran =
                  rw (e, spawn_services, o, honest.accepts h (create_service svc))
                    (w.ran ∙ ap (λ x. (ok (services_by_name_from x w.news), w.history)) at);
              created = w.created ∙ append_assoc (created_in h) (svc ∷ []) w.news;
              untouched = w.untouched;
              regular = subst (λ x. All IsRegular (services_by_name_from x w.news)) at w.regular;
            }
      ]
