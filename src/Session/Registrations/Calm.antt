-- ===== src/Session/Registrations/Calm.antt =====
-- client_pods.go and session_pods.go: managing the registrations returns.
use xr_telepresence_k8s.Base.{
  Bool, true, Option, none, some, List, [], ◌∷◌, nat_eq, bytes_eq, ◌==◌, ℕ,
}
use xr_telepresence_k8s.Base.Dict.{Dict, lookup}
use xr_telepresence_k8s.Base.Text.{Bytes}
use xr_telepresence_k8s.Resources.Core.{Pod}
use xr_telepresence_k8s.Resources.Session.{Session}
use xr_telepresence_k8s.Resources.Registration.{GcRegistration}
use xr_telepresence_k8s.Effect.{is_already_exists, is_not_found}
use xr_telepresence_k8s.Effect.Ensures.{Calm, pure-Ensures, seq-Ensures, ignoring-Calm, if-Ensures}
use xr_telepresence_k8s.Cluster.{Server}
use xr_telepresence_k8s.Cluster.Answers.{write-Calm}
use xr_telepresence_k8s.Session.Allocation.{ServingPod, AllocationMap, TemplatePodMap}
use xr_telepresence_k8s.Session.Registrations.{
  Registered, create_gc_registration, delete_gc_registration, settle, register_pods,
  register_reutilizable, settle_serving, settle_allocations, registrations_by_name,
  manage_gc_registrations, settle_found, manage_gc_registrations_for_session_pods, pod_is_empty,
}

module _ {s : Server} (session : Session) where
  settle-Calm :
      (name : Bytes) (idle : Bool) (registered : Option GcRegistration)
      → Calm s (settle session name idle registered)
  unfolding settle create_gc_registration delete_gc_registration
  settle-Calm name idle none =
      if-Ensures idle
        (seq-Ensures (ignoring-Calm is_already_exists (write-Calm _))
          (ignoring-Calm is_already_exists (write-Calm _)))
        (pure-Ensures tt)
  settle-Calm name idle (some r) =
      if-Ensures idle (pure-Ensures tt) (ignoring-Calm is_not_found (write-Calm _))

  register_pods-Calm :
      (registered : Registered) (pods : Dict Bytes Pod)
      → Calm s (register_pods session registered pods)
  unfolding register_pods
  register_pods-Calm registered [] = pure-Ensures tt
  register_pods-Calm registered ((_, p) ∷ pods) =
      seq-Ensures (settle-Calm p.name true (lookup p.name registered))
        (register_pods-Calm registered pods)

  register_reutilizable-Calm :
      (registered : Registered) (m : TemplatePodMap)
      → Calm s (register_reutilizable session registered m)
  unfolding register_reutilizable
  register_reutilizable-Calm registered [] = pure-Ensures tt
  register_reutilizable-Calm registered ((_, pods) ∷ m) =
      seq-Ensures (register_pods-Calm registered pods) (register_reutilizable-Calm registered m)

  settle_serving-Calm :
      (registered : Registered) (ps : List ServingPod)
      → Calm s (settle_serving session registered ps)
  unfolding settle_serving
  settle_serving-Calm registered [] = pure-Ensures tt
  settle_serving-Calm registered (p ∷ ps) =
      seq-Ensures (settle-Calm p.name (pod_is_empty p.clients) (lookup p.name registered))
        (settle_serving-Calm registered ps)

  settle_allocations-Calm :
      (registered : Registered) (m : AllocationMap)
      → Calm s (settle_allocations session registered m)
  unfolding settle_allocations
  settle_allocations-Calm registered [] = pure-Ensures tt
  settle_allocations-Calm registered ((_, v) ∷ m) =
      seq-Ensures (settle_serving-Calm registered v.pods) (settle_allocations-Calm registered m)

  pub manage_gc_registrations-Calm :
      (m : AllocationMap) (reutilize : TemplatePodMap) (registrations : List GcRegistration)
      → Calm s (manage_gc_registrations session m reutilize registrations)
  unfolding manage_gc_registrations
  manage_gc_registrations-Calm m reutilize registrations =
      seq-Ensures (register_reutilizable-Calm (registrations_by_name registrations) reutilize)
        (settle_allocations-Calm (registrations_by_name registrations) m)

  settle_found-Calm :
      (registered : Registered) (idle : Bool) (ps : List Pod)
      → Calm s (settle_found session registered idle ps)
  unfolding settle_found
  settle_found-Calm registered idle [] = pure-Ensures tt
  settle_found-Calm registered idle (p ∷ ps) =
      seq-Ensures (settle-Calm p.name idle (lookup p.name registered))
        (settle_found-Calm registered idle ps)

  pub manage_for_session_pods-Calm :
      (connected : ℕ) (found : List Pod) (registrations : List GcRegistration)
      → Calm s (manage_gc_registrations_for_session_pods session connected found registrations)
  unfolding manage_gc_registrations_for_session_pods
  manage_for_session_pods-Calm connected found registrations =
      settle_found-Calm (registrations_by_name registrations) (connected == 0) found
