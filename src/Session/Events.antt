-- ===== src/Session/Events.antt =====
-- utils/predicates.go and utils/indexing.go: which events wake the session controller, and the
-- fields by which it lists objects.
pub mod Wakes
use xr_telepresence_k8s.Base.{
  Bool, true, false, not, ◌||◌, Option, none, some, List, [], ◌∷◌, ◌==◌, nat_eq, bytes_eq, bool_eq,
  if◌then◌else◌, length,
}
use xr_telepresence_k8s.Base.Dict.{Dict, lookup}
use xr_telepresence_k8s.Base.Text.{Bytes, text}
use xr_telepresence_k8s.Resources.Core.{Pod}
use xr_telepresence_k8s.Resources.Session.{Session}
use xr_telepresence_k8s.Resources.Registration.{GcRegistration}
use xr_telepresence_k8s.Session.Readiness.{extract_ready_condition_status_from_pod}

-- One round of the loop: the client is new, or is connected where it was not, or the reverse.
unfoldable pub client_differs : Option Bool → Bool → Bool
client_differs none connected = true
client_differs (some v) connected = not (v == connected)

unfoldable pub some_client_differs : Dict Bytes Bool → Dict Bytes Bool → Bool
unfolding client_differs
some_client_differs old [] = false
some_client_differs old ((k, connected) ∷ new) =
    client_differs (lookup k old) connected || some_client_differs old new

unfoldable pub session_update_func : Session → Session → Bool
unfolding some_client_differs
session_update_func old new =
    if not (length old.spec.clients == length new.spec.clients)
    then true
    else some_client_differs old.spec.clients new.spec.clients

unfoldable pub pod_update_func : Pod → Pod → Bool
unfolding extract_ready_condition_status_from_pod
pod_update_func old new =
    not (extract_ready_condition_status_from_pod old == extract_ready_condition_status_from_pod new)

-- `GroupVersion.String()`
abbrev pub group_version : Bytes
group_version = text "core.mr.telepresence/v1alpha1"

unfoldable pub index_pod_by_owner : Pod → List Bytes
index_pod_by_owner p = elim p.controller [
  | none ↦ []
  | some owner ↦
      if not (owner.api_version == group_version) || not (owner.kind == text "Session")
      then []
      else owner.name ∷ []
]

unfoldable pub index_pod_by_type : Pod → List Bytes
index_pod_by_type p = elim (lookup (text "type") p.labels) [ none ↦ [] | some t ↦ t ∷ [] ]

unfoldable pub index_gc_registration_by_session : GcRegistration → List Bytes
index_gc_registration_by_session r = r.spec.session.name ∷ []

-- The predicates of `SetupWithManager`: events of the session, and of the pods that it owns.
pub data Event : Type 0 where
  created deleted : Event
  updated : Session → Session → Event

pub data PodEvent : Type 0 where
  pod_created pod_deleted : PodEvent
  pod_updated : Pod → Pod → PodEvent

unfoldable pub wakes_for_session : Event → Bool
unfolding session_update_func
wakes_for_session created = true
wakes_for_session deleted = false
wakes_for_session (updated old new) = session_update_func old new

unfoldable pub wakes_for_pod : PodEvent → Bool
unfolding pod_update_func
wakes_for_pod pod_created = false
wakes_for_pod pod_deleted = true
wakes_for_pod (pod_updated old new) = pod_update_func old new
