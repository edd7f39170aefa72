-- ===== src/Session/Reconciler/Placing.antt =====
-- client_pods.go: what the placement of a session's clients keeps.
use xr_telepresence_k8s.Base.{◌≡◌, inl, inr, some, [], ◌∷◌, bytes_eq, All, All-map, Option-cases}
use xr_telepresence_k8s.Base.Panic.{none_absurd, some_injective}
use xr_telepresence_k8s.Base.Dict.{Dict, keys}
use xr_telepresence_k8s.Base.Text.{Bytes}
use xr_telepresence_k8s.Resources.Session.{ClientStatus}
use xr_telepresence_k8s.Session.Clients.{is_connected}
use xr_telepresence_k8s.Session.Allocation.{PodClient, build_allocation_map}
use xr_telepresence_k8s.Session.Allocation.Serving.{
  State, Holds, Holds-build_from, build_from-Holds,
}
use xr_telepresence_k8s.Session.Reconciler.{build_from_status}

abbrev pub as_client : Bytes → ClientStatus → PodClient
as_client id status = record { id = id; connected = is_connected status.last_seen_at }

-- Every client of the status holds each pod that its status names.
abbrev pub AllHold : State → Dict Bytes ClientStatus → Type 0
AllHold s [] = Unit
AllHold s ((id, status) ∷ clients) =
    All (Holds (as_client id status) s) (keys status.pod_status) × AllHold s clients

Holds-build_from_status :
    (client : PodClient) (name : Bytes) (clients : Dict Bytes ClientStatus) (s : State) {s' : State}
    → build_from_status clients s ≡ some s'
    → Holds client s name
    → Holds client s' name
unfolding build_from_status build_allocation_map
Holds-build_from_status client name [] s h held = rw (← some_injective h) held
Holds-build_from_status client name ((id, status) ∷ clients) s h held =
    elim (Option-cases (build_allocation_map id status (is_connected status.last_seen_at) s)) [
      | inl x ↦ absurd (none_absurd (rw (x, build_from_status) at h))
      | inr (n, x) ↦
          Holds-build_from_status client name clients n (rw (x, build_from_status) at h)
            (Holds-build_from client _ name (keys status.pod_status) s x held)
    ]

-- When the allocation map is rebuilt from the status, every client of the status serves on each
-- pod that its status names, and none of these pods is left in the map of pods to reuse.
pub build_from_status-AllHold :
    (clients : Dict Bytes ClientStatus) (s : State) {s' : State}
    → build_from_status clients s ≡ some s'
    → AllHold s' clients
unfolding build_from_status build_allocation_map
build_from_status-AllHold [] s h = tt
build_from_status-AllHold ((id, status) ∷ clients) s h =
    elim (Option-cases (build_allocation_map id status (is_connected status.last_seen_at) s)) [
      | inl x ↦ absurd (none_absurd (rw (x, build_from_status) at h))
      | inr (n, x) ↦
          let rest = rw (x, build_from_status) at h in
          (
            All-map (λ name held. Holds-build_from_status _ name clients n rest held)
                (keys status.pod_status) (build_from-Holds _ (keys status.pod_status) s x),
            build_from_status-AllHold clients n rest,
          )
    ]
