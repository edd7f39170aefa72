-- ===== src/Session/Registrations/Discipline.antt =====
-- client_pods.go and session_pods.go: which pods are registered, and which are taken back.
use xr_telepresence_k8s.Base.{
  ◌≡◌, refl, Bool, true, false, Option, none, some, List, [], ◌∷◌, nat_eq, Memᴰ, All, bytes_eq,
}
use xr_telepresence_k8s.Base.Dict.{Dict, lookup}
use xr_telepresence_k8s.Base.Text.{Bytes, text}
use xr_telepresence_k8s.Session.Registrations.Listed.{Unregistered}
use xr_telepresence_k8s.Resources.Core.{Pod}
use xr_telepresence_k8s.Resources.Session.{Session}
use xr_telepresence_k8s.Resources.Registration.{GcRegistration}
use xr_telepresence_k8s.Cluster.{Call, create_namespace, create_registration, delete_registration}
use xr_telepresence_k8s.Effect.{is_already_exists, is_not_found}
use xr_telepresence_k8s.Effect.Emits.{Emits, pure-Emits, ignoring-Emits, if-Emits, seq-Emits}
use xr_telepresence_k8s.Session.Allocation.{
  PodClient, ServingPod, AllocationValue, AllocationMap, TemplatePodMap,
}
use xr_telepresence_k8s.Session.Registrations.{
  gc_namespace, Registered, registration_for, create_gc_registration, delete_gc_registration,
  pod_is_empty, settle, register_pods, register_reutilizable, settle_serving, settle_allocations,
  settle_found,
}
use xr_telepresence_k8s.Cluster.Calls.{write-Emits}

-- What one round of each loop may do to the pod in hand.
abbrev pub Allowed {κ} : (Call → Type κ) → Session → Registered → Bytes → Bool → Type κ
Allowed P session registered name idle =
    (idle ≡ true
      → lookup name registered ≡ none
      → P (create_registration (registration_for name session)))
    × ((r : GcRegistration)
        → idle ≡ false
        → lookup name registered ≡ some r
        → P (delete_registration r))

module _ {κ} {P : Call → Type κ} where
  module _ (namespaced : P (create_namespace gc_namespace)) (session : Session) where
    settle-Emits :
        (name : Bytes) (idle : Bool) (registered : Option GcRegistration)
        → (idle ≡ true
            → registered ≡ none
            → P (create_registration (registration_for name session)))
        → ((r : GcRegistration) → idle ≡ false → registered ≡ some r → P (delete_registration r))
        → Emits P (settle session name idle registered)
    unfolding settle create_gc_registration delete_gc_registration
    settle-Emits name idle none create delete =
        if-Emits idle
          (λ b.
            seq-Emits (ignoring-Emits is_already_exists (write-Emits _ namespaced))
              (ignoring-Emits is_already_exists (write-Emits _ (create b refl))))
          (λ b. pure-Emits)
    settle-Emits name idle (some r) create delete =
        if-Emits idle (λ b. pure-Emits)
          (λ b. ignoring-Emits is_not_found (write-Emits _ (delete r b refl)))

    settle_of :
        (registered : Registered) (name : Bytes) (idle : Bool)
        → Allowed P session registered name idle
        → Emits P (settle session name idle (lookup name registered))
    settle_of registered name idle (create, delete) =
        settle-Emits name idle (lookup name registered) create delete

    register_pods-Emits :
        (registered : Registered) (pods : Dict Bytes Pod)
        → All (λ (e : Bytes × Pod). Allowed P session registered e.1.name true) pods
        → Emits P (register_pods session registered pods)
    unfolding register_pods
    register_pods-Emits registered [] h = pure-Emits
    register_pods-Emits registered ((_, p) ∷ pods) (a, h) =
        seq-Emits (settle_of registered p.name true a) (register_pods-Emits registered pods h)

    pub register_reutilizable-Emits :
        (registered : Registered) (m : TemplatePodMap)
        → All
            (λ (e : Bytes × Dict Bytes Pod).
              All (λ (f : Bytes × Pod). Allowed P session registered f.1.name true) e.1)
            m
        → Emits P (register_reutilizable session registered m)
    unfolding register_reutilizable
    register_reutilizable-Emits registered [] h = pure-Emits
    register_reutilizable-Emits registered ((_, pods) ∷ m) (a, h) =
        seq-Emits (register_pods-Emits registered pods a)
          (register_reutilizable-Emits registered m h)

    settle_serving-Emits :
        (registered : Registered) (ps : List ServingPod)
        → All (λ p. Allowed P session registered p.name (pod_is_empty p.clients)) ps
        → Emits P (settle_serving session registered ps)
    unfolding settle_serving
    settle_serving-Emits registered [] h = pure-Emits
    settle_serving-Emits registered (p ∷ ps) (a, h) =
        seq-Emits (settle_of registered p.name (pod_is_empty p.clients) a)
          (settle_serving-Emits registered ps h)

    pub settle_allocations-Emits :
        (registered : Registered) (m : AllocationMap)
        → All
            (λ (e : Bytes × AllocationValue).
              All (λ p. Allowed P session registered p.name (pod_is_empty p.clients)) e.1.pods)
            m
        → Emits P (settle_allocations session registered m)
    unfolding settle_allocations
    settle_allocations-Emits registered [] h = pure-Emits
    settle_allocations-Emits registered ((_, v) ∷ m) (a, h) =
        seq-Emits (settle_serving-Emits registered v.pods a)
          (settle_allocations-Emits registered m h)

    pub settle_found-Emits :
        (registered : Registered) (idle : Bool) (ps : List Pod)
        → All (λ p. Allowed P session registered p.name idle) ps
        → Emits P (settle_found session registered idle ps)
    unfolding settle_found
    settle_found-Emits registered idle [] h = pure-Emits
    settle_found-Emits registered idle (p ∷ ps) (a, h) =
        seq-Emits (settle_of registered p.name idle a) (settle_found-Emits registered idle ps h)

-- No client of the list is connected.
abbrev pub NoneConnected : List PodClient → Type 0
NoneConnected = All (λ (c : PodClient). c.connected ≡ false)

-- Some client of the list is.
abbrev pub SomeConnected : List PodClient → Type 0
SomeConnected cs = (c : PodClient) × Memᴰ c cs × (c.connected ≡ true)

-- A pod that nobody has, or that only lost clients are on; and a pod with a connected client.
pub data IsIdle (m : AllocationMap) (reutilize : TemplatePodMap) : Bytes → Type 0 where
  unused :
      (t k : Bytes) (pods : Dict Bytes Pod) (p : Pod)
      → Memᴰ (t, pods) reutilize
      → Memᴰ (k, p) pods
      → IsIdle m reutilize p.name
  deserted :
      (t : Bytes) (v : AllocationValue) (p : ServingPod)
      → Memᴰ (t, v) m
      → Memᴰ p v.pods
      → NoneConnected p.clients
      → IsIdle m reutilize p.name

pub data IsInUse (m : AllocationMap) : Bytes → Type 0 where
  in_use :
      (t : Bytes) (v : AllocationValue) (p : ServingPod)
      → Memᴰ (t, v) m
      → Memᴰ p v.pods
      → SomeConnected p.clients
      → IsInUse m p.name

-- A registration of the pod for the session, in its first period.
abbrev pub first_registration : Bytes → Session → GcRegistration
first_registration name x = record {
  name = name;
  namespace = text "mr-telepresence-gc";
  creation_timestamp = 0;
  spec = record {
    session = record { namespace = x.namespace; name = x.name };
    kind = text "Timeout";
  };
}

-- What `manageGCRegistrations` may send: the collector's namespace, a registration of an idle pod
-- that has none, and the deletion of a registration that was listed, of a pod in use.
pub data IsProper (session : Session) (m : AllocationMap) (reutilize : TemplatePodMap)
    (registrations : List GcRegistration) : Call → Type 0 where
  namespace :
      IsProper session m reutilize registrations (create_namespace (text "mr-telepresence-gc"))
  register :
      (name : Bytes)
      → IsIdle m reutilize name
      → Unregistered registrations name
      → IsProper session m reutilize registrations
          (create_registration (first_registration name session))
  take_back :
      (name : Bytes) (r : GcRegistration)
      → IsInUse m name
      → Memᴰ r registrations
      → r.name ≡ name
      → IsProper session m reutilize registrations (delete_registration r)
