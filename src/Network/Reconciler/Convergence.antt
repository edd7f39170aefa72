-- ===== src/Network/Reconciler/Convergence.antt =====
-- network_controller.go and ingress.go: a second run after a first.
use xr_telepresence_k8s.Base.{
  ◌≡◌, refl, sym, ap, ◌∙◌, Bool, true, false, some, List, ◌∷◌, ◌++◌, All, inl, subst,
}
use xr_telepresence_k8s.Base.Text.{Bytes, Lacks}
use xr_telepresence_k8s.Resources.Core.{NamespacedName, Pod, Service, Ingress, IngressPath}
use xr_telepresence_k8s.Effect.{ok, ok_injective}
use xr_telepresence_k8s.Cluster.{
  Server, Call, get_ingress, list_pods, list_services, update_ingress,
}
use xr_telepresence_k8s.Network.Honest.{Honest, created_in, latest}
use xr_telepresence_k8s.Network.Services.{ServicesMap, services_by_name, services_by_name_from}
use xr_telepresence_k8s.Network.Services.Coverage.{spawn_services-Covered}
use xr_telepresence_k8s.Network.Services.Recording.{
  Spawned, spawn_services-Spawned, spawn_services-idle, services_by_name-append,
}
use xr_telepresence_k8s.Network.Publishing.{http_paths, refresh_ingress, has_service}
use xr_telepresence_k8s.Network.Publishing.News.{IsRegular}
use xr_telepresence_k8s.Network.Publishing.Sweep.{NamesPod}
use xr_telepresence_k8s.Network.Publishing.Refresh.{refresh_ingress-Refreshed}
use xr_telepresence_k8s.Network.Reconciler.{ingress_name, reconcile_ingress, reconcile}
use mathlib.Core.List.{append_assoc}

-- The calls of a run that only reads.
abbrev pub only_read : Bytes → List Call → List Call
only_read namespace h = get_ingress ingress_name ∷ list_services namespace ∷ list_pods namespace ∷ h

module _ {namespace : Bytes} {pods : List Pod} {services : List Service} {ingress : Ingress}
    {s : Server} (honest : Honest s namespace pods services ingress) where
  -- A run on the ingress leaves one that refreshing does not change, and creates no service.
  record IngressRun (m : ServicesMap) (h : List Call) : Type 0 where
    history : List Call
    ran : reconcile_ingress m s h ≡ (ok tt, history)
    created : created_in history ≡ created_in h
    settled :
        (updated : Ingress) × (refresh_ingress (latest ingress history) m ≡ some (updated, false))

  reconcile_ingress-IngressRun :
      (m : ServicesMap) (h : List Call) (rs : All IsRegular m) {ps : List IngressPath}
      → http_paths (latest ingress h) ≡ some ps
      → All NamesPod ps
      → IngressRun m h
  unfolding reconcile_ingress created_in latest
  reconcile_ingress-IngressRun m h rs on_ingress named =
      let (refreshed, updated, e, done) =
        refresh_ingress-Refreshed (latest ingress h) m rs on_ingress named in
      by_update refreshed updated e done.settled
    where
      by_update :
          (refreshed : Ingress) (updated : Bool)
          → refresh_ingress (latest ingress h) m ≡ some (refreshed, updated)
          → refresh_ingress refreshed m ≡ some (refreshed, false)
          → IngressRun m h
      by_update refreshed true e settled = record {
        history = update_ingress refreshed ∷ get_ingress ingress_name ∷ h;
        ran = rw (honest.reads_ingress h, e, honest.accepts _ (update_ingress refreshed)) refl;
        created = refl;
        settled = (refreshed, settled);
      }
      by_update refreshed false e settled = record {
        history = get_ingress ingress_name ∷ h;
        ran = rw (honest.reads_ingress h, e) refl;
        created = refl;
        settled = (refreshed, e);
      }

  -- With nothing to create or to refresh, a run only reads.
  quiet_run :
      (name : Bytes) (m : ServicesMap) (h : List Call) (updated : Ingress)
      → services_by_name (services ++ created_in h) ≡ m
      → All (λ p. has_service m p.name ≡ true) pods
      → refresh_ingress (latest ingress h) m ≡ some (updated, false)
      → reconcile (record { namespace = namespace; name = name }) s h
        ≡ (ok tt, only_read namespace h)
  unfolding reconcile reconcile_ingress created_in latest
  quiet_run name m h updated same covered settled =
      rw (honest.lists_pods h, honest.lists_services (list_pods namespace ∷ h), same)
        (rw
          (spawn_services-idle namespace pods m s
            (list_services namespace ∷ list_pods namespace ∷ h) covered)
          (rw (honest.reads_ingress (list_services namespace ∷ list_pods namespace ∷ h), settled)
            refl))

  -- What the first run finds and leaves.
  pub record Converges (request : NamespacedName) (h : List Call) : Type 0 where
    history : List Call
    ran : reconcile request s h ≡ (ok tt, history)
    again : reconcile request s history ≡ (ok tt, only_read namespace history)

  covered_by :
      {m : ServicesMap} {h : List Call} (w : Spawned namespace pods m s h)
      → All (λ p. has_service (services_by_name_from m w.news) p.name ≡ true) pods
  covered_by {m} {h} w =
      let (m', e, c) =
        spawn_services-Covered namespace s (λ p svc. (_, (honest.owns p svc).1))
          (λ h c. inl (honest.accepts h c)) pods m h in
      subst (λ x. All (λ p. has_service x p.name ≡ true) pods)
        (ok_injective (sym e ∙ ap (λ r. r.0) w.ran)) c.covered

  -- If only the network controller writes in the cluster, which answers with what is there and
  -- accepts every write, no pod's name has a slash, every service is regular, and the ingress has
  -- an HTTP part whose paths name pods, a run succeeds, and a second run after it succeeds and
  -- only reads.
  pub reconcile-Converges :
      (name : Bytes) (h : List Call) {ps : List IngressPath}
      → All (λ p. Lacks b'/' p.name) pods
      → All IsRegular (services_by_name (services ++ created_in h))
      → http_paths (latest ingress h) ≡ some ps
      → All NamesPod ps
      → Converges (record { namespace = namespace; name = name }) h
  unfolding reconcile created_in latest
  reconcile-Converges name h lacks rs on_ingress named =
      let m = services_by_name (services ++ created_in h) in
      let h0 = list_services namespace ∷ list_pods namespace ∷ h in
      let w = spawn_services-Spawned honest pods m h0 lacks rs in
      let m' = services_by_name_from m w.news in
      let r =
        reconcile_ingress-IngressRun m' w.history w.regular
          (ap http_paths (w.untouched ingress) ∙ on_ingress) named in
      let stored =
        ap (λ xs. services_by_name (services ++ xs)) (r.created ∙ w.created)
        ∙ ap services_by_name (sym (append_assoc services (created_in h) w.news))
        ∙ services_by_name-append (services ++ created_in h) w.news in
      record {
        history = r.history;
        ran =
            rw (honest.lists_pods h, honest.lists_services (list_pods namespace ∷ h))
              (rw w.ran r.ran);
        again = quiet_run name m' r.history r.settled.0 stored (covered_by w) r.settled.1;
      }
