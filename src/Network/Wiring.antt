-- ===== src/Network/Wiring.antt =====
-- network_controller.go: `SetupWithManager`, which events of which objects wake the controller.
use xr_telepresence_k8s.Base.{
  Bool, true, false, some, List, [], ◌∷◌, bytes_eq, if◌then◌else◌, ◌≡◌, ◌↔◌, ◌⊎◌, arith,
}
use xr_telepresence_k8s.Base.Dict.{Dict, lookup}
use xr_telepresence_k8s.Base.Text.{Bytes, text}
use xr_telepresence_k8s.Resources.Core.{NamespacedName}
use xr_telepresence_k8s.Network.Services.{handle_event}

pub data Kind : Type 0 where
  service_kind pod_kind : Kind

pub data Event : Type 0 where
  created deleted updated generic : Event

-- The predicates of the two watches.
unfoldable pub passes : Kind → Event → Bool
passes service_kind deleted = true
passes service_kind _ = false
passes pod_kind created = true
passes pod_kind _ = false

-- The requests that an event of an object with these labels leads to.
unfoldable pub requests_for : Kind → Event → Dict Bytes Bytes → NamespacedName → List NamespacedName
unfolding passes handle_event
requests_for kind event labels name = if passes kind event then handle_event labels name else []

-- A pod came or a service went, of the framework.
abbrev pub Matters : Kind → Event → Dict Bytes Bytes → Type 0
Matters kind event labels =
    (((kind ≡ pod_kind) × (event ≡ created)) ⊎ ((kind ≡ service_kind) × (event ≡ deleted)))
    × (lookup (text "telepresence") labels ≡ some (text "true"))

-- An event makes the network controller run for the object exactly when a pod was created or a
-- service was deleted and its label telepresence is true.
pub requests_for_iff :
    (kind : Kind) (event : Event) (labels : Dict Bytes Bytes) (name : NamespacedName)
    → (requests_for kind event labels name ≡ name ∷ []) ↔ Matters kind event labels
unfolding requests_for
requests_for_iff service_kind created labels name = ground arith
requests_for_iff service_kind deleted labels name = ground arith
requests_for_iff service_kind updated labels name = ground arith
requests_for_iff service_kind generic labels name = ground arith
requests_for_iff pod_kind created labels name = ground arith
requests_for_iff pod_kind deleted labels name = ground arith
requests_for_iff pod_kind updated labels name = ground arith
requests_for_iff pod_kind generic labels name = ground arith
