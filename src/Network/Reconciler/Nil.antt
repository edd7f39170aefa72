-- ===== src/Network/Reconciler/Nil.antt =====
-- network_controller.go and ingress.go: a run in which a pod's service exists, but is not among the
-- services that are listed.
use xr_telepresence_k8s.Base.{
  ◌≡◌, ◌≢◌, refl, sym, ap, ◌∙◌, inl, inr, true, false, Bool, Option, none, some, List, [], ◌∷◌,
  ◌++◌, All, bytes_eq, ◌==◌, contains, Option-cases, Bool-cases, ==-cases, subst,
}
use xr_telepresence_k8s.Base.Panic.{◌>>=◌, some_injective}
use xr_telepresence_k8s.Base.Dict.{lookup, insert, lookup-insert, lookup-insert_self}
use xr_telepresence_k8s.Base.Text.{Bytes}
use xr_telepresence_k8s.Resources.Core.{NamespacedName, Pod, Service, Ingress, IngressPath}
use xr_telepresence_k8s.Effect.{Error, ok, panic, Settles, is_already_exists}
use xr_telepresence_k8s.Cluster.{
  Server, Call, create_service, telepresence, list_pods, list_services,
}
use xr_telepresence_k8s.Network.Services.{
  ServicesMap, service_name, service_for, spawn_service, after_spawn, spawn_services,
  services_by_name, services_by_name_from,
}
use xr_telepresence_k8s.Network.Services.Coverage.{round}
use xr_telepresence_k8s.Network.Publishing.{
  Collected, session_manager_path, pod_of_path, has_service, collect_path, collect_or_skip,
  collect_paths, new_paths, all_new_paths, pod_of_service, http_paths, ingress_garbage_collection,
  publish_to_ingress, refresh_ingress,
}
use xr_telepresence_k8s.Network.Publishing.Names.{pod_of_service-service_name}
use xr_telepresence_k8s.Network.Reconciler.{ingress_name, reconcile_ingress, reconcile}

differ : (a b : Bytes) → a ≢ b → (a == b) ≡ false
differ a b n = elim (==-cases a b) [ inl (same, _) ↦ absurd (n same) | inr b ↦ b ]

service_name_injective : (a b : Bytes) → service_name a ≡ service_name b → a ≡ b
service_name_injective a b e =
    some_injective
      (sym (pod_of_service-service_name a) ∙ ap pod_of_service e ∙ pod_of_service-service_name b)

-- A service that is not listed has no entry.
unlisted :
    (name : Bytes) (m : ServicesMap) (services : List Service)
    → All (λ (svc : Service). svc.name ≢ name) services
    → lookup name m ≡ none
    → lookup name (services_by_name_from m services) ≡ none
unfolding services_by_name_from
unlisted name m [] _ e = e
unlisted name m (svc ∷ services) (n, ns) e =
    unlisted name (insert svc.name (some svc) m) services ns (
      lookup-insert name svc.name (some svc) m ∙ rw (differ name svc.name (λ same. n (sym same))) e)

module _ (pod : Bytes) where
  new_paths-nil :
      (pods : List Bytes)
      → contains pods pod ≡ false
      → new_paths pods (service_name pod) none ≡ none
  unfolding new_paths
  new_paths-nil pods absent = rw (pod_of_service-service_name pod, ◌>>=◌) (rw absent)

  >>=-none :
      (m : Option (List IngressPath)) → ◌≡◌ {A = Option (List IngressPath)} (m >>= λ _. none) none
  >>=-none none = refl
  >>=-none (some _) = refl

  -- Publishing a nil service of a pod that the ingress does not name.
  nil_service :
      (pods : List Bytes) (m : ServicesMap)
      → contains pods pod ≡ false
      → lookup (service_name pod) m ≡ some none
      → all_new_paths pods m ≡ none
  unfolding all_new_paths new_paths lookup
  nil_service pods [] absent e = cc
  nil_service pods ((k, v) ∷ m) absent e = elim (==-cases (service_name pod) k) [
    | inl (same, b) ↦
        rw (sym same) (rw (some_injective (rw b at e), new_paths-nil pods absent, ◌>>=◌))
    | inr b ↦ rw (nil_service pods m absent (rw b at e), ◌>>=◌) (>>=-none (new_paths pods k v))
  ]

  collect_path-lacks :
      (m : ServicesMap) (x : IngressPath) (p : Bytes) (rest : Collected)
      → p ≢ pod
      → contains rest.pods pod ≡ false
      → contains (collect_path m x p rest).pods pod ≡ false
  unfolding collect_path
  collect_path-lacks m x p rest n absent = elim (Bool-cases (has_service m p)) [
    | inl b ↦ rw b (rw (differ pod p (λ same. n (sym same))) absent)
    | inr b ↦ rw b (rw (differ pod p (λ same. n (sym same))) absent)
  ]

  collect_or_skip-lacks :
      (m : ServicesMap) (x : IngressPath) (rest : Collected) {c : Collected}
      → pod_of_path x.path ≢ some pod
      → contains rest.pods pod ≡ false
      → collect_or_skip m x rest ≡ some c
      → contains c.pods pod ≡ false
  unfolding collect_or_skip
  collect_or_skip-lacks m x rest {c} n absent e =
      elim (Bool-cases (x.path == session_manager_path)) [
        | inl b ↦ subst LacksIt (some_injective (rw b at e)) absent
        | inr b ↦ elim (Option-cases (pod_of_path x.path)) [
          | inl none_read ↦ cc (rw (none_read, ◌>>=◌) at (rw b at e))
          | inr (p, read) ↦
              subst LacksIt (some_injective (rw (read, ◌>>=◌) at (rw b at e)))
                (collect_path-lacks m x p rest (λ same. n (read ∙ ap some same)) absent)
        ]
      ]
    where
      LacksIt : Collected → Type 0
      LacksIt c = contains c.pods pod ≡ false

  -- The pods collected are those of the paths.
  collect_paths-lacks :
      (m : ServicesMap) (paths : List IngressPath) {c : Collected}
      → All (λ (x : IngressPath). pod_of_path x.path ≢ some pod) paths
      → collect_paths m paths ≡ some c
      → contains c.pods pod ≡ false
  unfolding collect_paths
  collect_paths-lacks m [] {c} _ e =
      subst (λ (c : Collected). contains c.pods pod ≡ false) (some_injective e) refl
  collect_paths-lacks m (x ∷ paths) (n, ns) e = elim (Option-cases (collect_paths m paths)) [
    | inl stuck ↦ cc (rw (stuck, ◌>>=◌) at e)
    | inr (rest, collected) ↦
        collect_or_skip-lacks m x rest n (collect_paths-lacks m paths ns collected)
          (rw (collected, ◌>>=◌) at e)
  ]

  refresh_ingress-nil :
      (ingress : Ingress) (m : ServicesMap) {paths : List IngressPath}
      → http_paths ingress ≡ some paths
      → All (λ (x : IngressPath). pod_of_path x.path ≢ some pod) paths
      → lookup (service_name pod) m ≡ some none
      → refresh_ingress ingress m ≡ none
  unfolding refresh_ingress ingress_garbage_collection publish_to_ingress
  refresh_ingress-nil ingress m {paths} on_ingress unnamed e =
      elim (Option-cases (collect_paths m paths)) [
        | inl stuck ↦ rw (on_ingress, ◌>>=◌) (rw (stuck, ◌>>=◌))
        | inr (c, collected) ↦
            rw (on_ingress, ◌>>=◌)
              (rw (collected, ◌>>=◌)
                (rw (nil_service c.pods m (collect_paths-lacks m paths unnamed collected) e, ◌>>=◌)
                  (by_paths _ _)))
      ]
    where
      by_paths :
          (o : Option (List IngressPath)) (f : Ingress × Bool → Option (Ingress × Bool))
          → ((o >>= λ _. none) >>= f) ≡ none
      by_paths none f = refl
      by_paths (some _) f = refl

module _ (namespace : Bytes) (s : Server)
    (owns : (p : Pod) (svc : Service) → (owned : Service) × (s.own_service p svc ≡ ok owned))
    (settles : (h : List Call) (c : Call) → Settles is_already_exists (s.write h c))
    (name : Bytes) where
  -- The pods before it leave its entry out.
  before_it :
      (before rest : List Pod) (m : ServicesMap) (h : List Call)
      → All (λ (q : Pod). q.name ≢ name) before
      → lookup (service_name name) m ≡ none
      → (m' : ServicesMap) × (h' : List Call) × (spawn_services namespace (before ++ rest) m s h
          ≡ spawn_services namespace rest m' s h')
        × (lookup (service_name name) m' ≡ none)
  unfolding spawn_services
  before_it [] rest m h _ e = (m, h, refl, e)
  before_it (q ∷ before) rest m h (n, ns) e = elim (Option-cases (lookup (service_name q.name) m)) [
    | inr (svc, there) ↦
        let (m', h', ran, e') = before_it before rest m h ns e in
        (m', h', rw (there, spawn_services) ran, e')
    | inl missing ↦
        let (r, svc, h', made, went_on, left) = round namespace s owns settles q h in
        let other =
          differ (service_name name) (service_name q.name)
            (λ same. n (sym (service_name_injective name q.name same))) in
        let (m', h'', ran, e') =
          before_it before rest (insert (service_name q.name) svc m) h' ns
            (lookup-insert (service_name name) (service_name q.name) svc m ∙ rw other e) in
        (m', h'', rw (missing, spawn_services) (rw made (rw went_on (rw left ran))), e')
  ]

  -- The pods after it keep its entry.
  after_it :
      (after : List Pod) (m : ServicesMap) (h : List Call)
      → lookup (service_name name) m ≡ some none
      → (m' : ServicesMap) × ((spawn_services namespace after m s h).0 ≡ ok m')
        × (lookup (service_name name) m' ≡ some none)
  unfolding spawn_services
  after_it [] m h e = (m, refl, e)
  after_it (q ∷ after) m h e = elim (Option-cases (lookup (service_name q.name) m)) [
    | inr (svc, there) ↦
        let (m', ran, e') = after_it after m h e in (m', rw (there, spawn_services) ran, e')
    | inl missing ↦
        let (r, svc, h', made, went_on, left) = round namespace s owns settles q h in
        let other = differ (service_name name) (service_name q.name) (λ same. cc) in
        let (m', ran, e') =
          after_it after (insert (service_name q.name) svc m) h'
            (lookup-insert (service_name name) (service_name q.name) svc m ∙ rw other e) in
        (m', rw (missing, spawn_services) (rw made (rw went_on (rw left ran))), e')
  ]

  -- Its own creation leaves a nil service.
  at_it :
      (p : Pod) (after : List Pod) (m : ServicesMap) (h : List Call) {e : Error}
      → is_already_exists e ≡ true
      → ((h : List Call) (svc : Service)
          → s.own_service p (service_for namespace p) ≡ ok svc
          → s.write h (create_service svc) ≡ some e)
      → lookup (service_name p.name) m ≡ none
      → (h' : List Call) × (spawn_services namespace (p ∷ after) m s h
          ≡ spawn_services namespace after (insert (service_name p.name) none m) s h')
  unfolding spawn_services spawn_service after_spawn
  at_it p after m h exists refused missing =
      let (svc, owned) = owns p (service_for namespace p) in
      (
        create_service svc ∷ h,
        rw (missing, spawn_services) (rw (owned, refused h svc owned) (rw exists refl)),
      )

reconcile_ingress-panics :
    (m : ServicesMap) (s : Server) (h : List Call) {ingress : Ingress}
    → s.ingress h ingress_name ≡ ok ingress
    → refresh_ingress ingress m ≡ none
    → (reconcile_ingress m s h).0 ≡ panic
unfolding reconcile_ingress
reconcile_ingress-panics m s h here stuck = rw here (rw stuck refl)

module _ (request : NamespacedName) (s : Server) (h : List Call) (before : List Pod) (p : Pod)
    (after : List Pod) {e : Error} {services : List Service} {ingress : Ingress}
    {paths : List IngressPath} where
  -- If the services that are listed lack the one of a listed pod, the first of its name, the
  -- server refuses its creation as already existing, the ingress can be read and no path of it
  -- names the pod, every other write is accepted or refused as already existing, and owner
  -- references can be set, a run of the network controller panics, whatever the other pods and
  -- services are.
  pub reconcile-panics_on_nil :
      ((h : List Call) → s.pods h request.namespace telepresence ≡ ok (before ++ p ∷ after))
      → All (λ (q : Pod). q.name ≢ p.name) before
      → ((h : List Call) → s.services h request.namespace telepresence ≡ ok services)
      → All (λ (svc : Service). svc.name ≢ service_name p.name) services
      → ((h : List Call) → s.ingress h ingress_name ≡ ok ingress)
      → http_paths ingress ≡ some paths
      → All (λ (x : IngressPath). pod_of_path x.path ≢ some p.name) paths
      → ((q : Pod) (svc : Service) → (owned : Service) × (s.own_service q svc ≡ ok owned))
      → ((h : List Call) (c : Call) → Settles is_already_exists (s.write h c))
      → is_already_exists e ≡ true
      → ((h : List Call) (svc : Service)
          → s.own_service p (service_for request.namespace p) ≡ ok svc
          → s.write h (create_service svc) ≡ some e)
      → (reconcile request s h).0 ≡ panic
  unfolding reconcile services_by_name lookup
  reconcile-panics_on_nil pods first listed absent here on_ingress unnamed owns settles exists
        refused =
      let (m, h', ran, missing) =
        before_it request.namespace s owns settles p.name before (p ∷ after)
          (services_by_name services)
          (list_services request.namespace ∷ list_pods request.namespace ∷ h) first
          (unlisted _ [] services absent refl) in
      let (h'', went_on) =
        at_it request.namespace s owns settles p.name p after m h' exists refused missing in
      let (m', ran', kept) =
        after_it request.namespace s owns settles p.name after (insert (service_name p.name) none m)
          h'' (lookup-insert_self (service_name p.name) none m) in
      rw (pods h, listed _, ran, went_on, ran')
        (reconcile_ingress-panics m' s _ (here _)
          (refresh_ingress-nil p.name ingress m' on_ingress unnamed kept))
