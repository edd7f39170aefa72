-- ===== src/Session/Reconciler/Soundness.antt =====
-- client_pods.go: the client part of a run on a sound status.
use xr_telepresence_k8s.Base.{
  ℕ, ◌≡◌, refl, sym, ap, ◌∙◌, inl, inr, All-append, Option-cases, subst, Option, some, List, [],
  ◌∷◌, bytes_eq, All,
}
use xr_telepresence_k8s.Base.Dict.{Dict, keys, Every-keys, lookup}
use xr_telepresence_k8s.Base.Text.{Bytes, text}
use xr_telepresence_k8s.Resources.Core.{Pod}
use xr_telepresence_k8s.Resources.Session.{Session, ClientStatus}
use xr_telepresence_k8s.Resources.Registration.{GcRegistration}
use xr_telepresence_k8s.Effect.Ensures.{
  Ensures, Returns, bind-Ensures, attempt-Ensures, or_panic_then, pure-Ensures,
}
use xr_telepresence_k8s.Cluster.{Server, Call, owned_pods, pods_in}
use xr_telepresence_k8s.Session.Clients.{
  is_connected, clean_expired_clients_from_status, handle_client_changes, remove_departed_clients,
}
use xr_telepresence_k8s.Session.Clients.Keeps.{lifecycle-Keeps}
use xr_telepresence_k8s.Session.Allocation.{
  inner, PodClient, AllocationMap, TemplatePodMap, build_allocation_map, init_allocation_map,
  AllocationValue, ServingPod,
}
use xr_telepresence_k8s.Session.Allocation.Named.{
  HasTemplate, AllNamed, KeysNamed, init-AllNamed, build_allocation_map_from_total,
  template_pod_mapping_total, IsNamed,
}
use xr_telepresence_k8s.Session.Placement.Sorted.{sort_allocation_map_total}
use xr_telepresence_k8s.Session.Placement.Totality.{allocate_clients_sound}
use xr_telepresence_k8s.Session.Readiness.{reconcile_pods}
use xr_telepresence_k8s.Session.Readiness.Totality.{reconcile_pods_total}
use xr_telepresence_k8s.Session.Registrations.Calm.{manage_gc_registrations-Calm}
use xr_telepresence_k8s.Session.Soundness.{IsSound, SoundPods, SoundPod}
use xr_telepresence_k8s.Session.Reconciler.{
  Placed, build_from_status, place_new_clients, place_clients, reconcile_client_pods,
}
use xr_telepresence_k8s.Session.Readiness.Reports.{all_missing, reconcile_pods-spawned, missing}

abbrev State : Type 0
State = AllocationMap × TemplatePodMap

build_from_status_total :
    (clients : Dict Bytes ClientStatus) (s : State)
    → IsSound clients
    → AllNamed s.0
    → KeysNamed s.1
    → (s' : State) × (build_from_status clients s ≡ some s') × AllNamed s'.0 × KeysNamed s'.1
unfolding build_from_status build_allocation_map
build_from_status_total [] s _ is js = (s, refl, is, js)
build_from_status_total ((id, status) ∷ clients) s (c, cs) is js =
    let client : PodClient = record { id = id; connected = is_connected status.last_seen_at } in
    let (s', e, is', js') =
      build_allocation_map_from_total client (keys status.pod_status) s
        (Every-keys {P = SoundPod} {Q = HasTemplate} status.pod_status (λ name st sound. sound.0) c)
        is js in
    let (s'', f, is'', js'') = build_from_status_total clients s' cs is' js' in
    (s'', rw (build_from_status, build_allocation_map, e) f, is'', js'')

-- The pods that are listed have names with a template.
abbrev pub ListsNamed : Server → Bytes → Bytes → Type 0
ListsNamed s namespace name =
    (h : List Call)
    → Returns (All (λ (p : Pod). HasTemplate p.name))
        (s.pods h namespace (owned_pods name (text "client")))

abbrev pub KeepsSound : Session × List Pod → Type 0
KeepsSound (x, spawned) = IsSound x.status.clients × All (λ (p : Pod). HasTemplate p.name) spawned

sound_of :
    (r : List Pod × Dict Bytes ClientStatus) {t : List Pod × Dict Bytes ClientStatus}
    → r ≡ t
    → IsSound t.1
    → IsSound r.1
sound_of r e cs = subst (λ (z : List Pod × Dict Bytes ClientStatus). IsSound z.1) (sym e) cs

all_missing-named :
    (m : AllocationMap) (found : TemplatePodMap)
    → AllNamed m
    → All (λ (p : Pod). HasTemplate p.name) (all_missing m found)
all_missing-named [] found _ = tt
all_missing-named ((t, v) ∷ m) found (i, is) =
    All-append _ (missing v (inner (lookup v.pod_template.name found)) v.pods) (all_missing m found)
      (of_template v (inner (lookup v.pod_template.name found)) v.pods i)
      (all_missing-named m found is)
  where
    of_template :
        (v : AllocationValue) (found : Dict Bytes Pod) (ps : List ServingPod)
        → All IsNamed ps
        → All (λ (p : Pod). HasTemplate p.name) (missing v found ps)
    of_template v found [] _ = tt
    of_template v found (p ∷ ps) (d, ds) = elim (Option-cases (lookup p.name found)) [
      | inl e ↦ rw (missing, e) (d, of_template v found ps ds)
      | inr (q, e) ↦ rw (missing, e) (of_template v found ps ds)
    ]

-- The pods to spawn have names with a template.
named_of :
    (m : AllocationMap) (clients : Dict Bytes ClientStatus) (found : TemplatePodMap)
    (ip : Option Bytes) (r : List Pod × Dict Bytes ClientStatus)
    → reconcile_pods m clients found ip ≡ some r
    → AllNamed m
    → All (λ (p : Pod). HasTemplate p.name) r.0
named_of m clients found ip r e is =
    rw (reconcile_pods-spawned m clients found ip e) (all_missing-named m found is)

lists_named :
    {s : Server} {namespace name : Bytes}
    → ListsNamed s namespace name
    → Ensures s
        (All (λ (p : Pod). HasTemplate p.name))
        (pods_in namespace (owned_pods name (text "client")))
lists_named lists = record { at = lists }

module _ (uuid : ℕ → Bytes) where
  place_new_clients_total :
      (name : Bytes) (new : List Bytes) (s : State) (clients : Dict Bytes ClientStatus)
      → IsSound clients
      → AllNamed s.0
      → KeysNamed s.1
      → (placed : Placed) × (place_new_clients uuid name new s clients ≡ some placed)
        × IsSound placed.clients
        × AllNamed placed.allocations
  unfolding place_new_clients
  place_new_clients_total name [] (m, r) clients cs is js = (_, refl, cs, is)
  place_new_clients_total name (id ∷ ids) (m, r) clients cs is js =
      let (sorted, e, is') = sort_allocation_map_total m is in
      let (m', pool, clients', f, is'', _, cs') =
        allocate_clients_sound uuid name (id ∷ ids) sorted (record { reutilize = r; fresh = 0 })
          clients is' js cs in
      (
        record { allocations = m'; reutilize = pool.reutilize; clients = clients' },
        rw (place_new_clients, e, f) refl,
        cs',
        is'',
      )

  -- On a sound status the clients are placed, and the new status is sound.
  pub place_clients_total :
      (now : ℕ) (session : Session) (pods : TemplatePodMap)
      → IsSound session.status.clients
      → KeysNamed pods
      → (placed : Placed) × (place_clients uuid now session pods ≡ some placed)
        × IsSound placed.clients
        × AllNamed placed.allocations
  unfolding place_clients
  place_clients_total now session pods cs js =
      let live =
        clean_expired_clients_from_status now session.status.clients session.spec.timeout_seconds in
      let (new, changed) = handle_client_changes now session.spec.clients live in
      let present = remove_departed_clients session.spec.clients changed in
      let sound =
        lifecycle-Keeps (λ v. SoundPods v.pod_status) (λ v n p. p) now session.spec.timeout_seconds
          session.spec.clients session.status.clients cs in
      let (s, e, is', js') =
        build_from_status_total present
          (init_allocation_map session.spec.client_pod_templates, pods) sound
          (init-AllNamed session.spec.client_pod_templates) js in
      let (placed, f, cs', is'') =
        place_new_clients_total session.name new s present sound is' js' in
      (placed, rw (place_clients, e) f, cs', is'')

  -- If every pod of the status has a name with a template and paths that can be given an address,
  -- and the server lists pods whose names have a template, reconciling the client pods does not
  -- panic; if it succeeds, the new status is of this kind too, and the pods to spawn have names
  -- with a template.
  pub reconcile_client_pods-Sound :
      {s : Server} (now : ℕ) (namespace : Bytes) (session : Session)
      (registrations : List GcRegistration) (ip : Option Bytes)
      → IsSound session.status.clients
      → ListsNamed s namespace session.name
      → Ensures s KeepsSound (reconcile_client_pods uuid now namespace session registrations ip)
  unfolding reconcile_client_pods
  reconcile_client_pods-Sound {s} now namespace session registrations ip cs lists =
      bind-Ensures (lists_named {s = s} {namespace = namespace} {name = session.name} lists)
        λ pods named.
          let (mapped, e, js) = template_pod_mapping_total pods named in
          or_panic_then e λ mapped' q.
            let (placed, f, cs', is) = place_clients_total now session mapped' cs (rw q js) in
            or_panic_then f λ placed' q'.
              bind-Ensures
                (attempt-Ensures (
                  manage_gc_registrations-Calm session placed'.allocations placed'.reutilize
                    registrations))
                λ _ _.
                  let (spawned, clients, g, cs'') =
                    reconcile_pods_total placed'.allocations placed'.clients mapped' ip
                      (rw q' cs') in
                  or_panic_then g λ r q''. pure-Ensures (
                    sound_of r q'' cs'',
                    named_of placed'.allocations placed'.clients mapped' ip r
                        (g ∙ ap some (sym q'')) (rw q' is),
                  )
