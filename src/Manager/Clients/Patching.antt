-- ===== src/Manager/Clients/Patching.antt =====
-- handlers/clients.go: which cluster a client is found in, and what is sent there.
use xr_telepresence_k8s.Base.{Option, none, some, List, [], ◌∷◌, bytes_eq}
use xr_telepresence_k8s.Base.Dict.{lookup}
use xr_telepresence_k8s.Base.Text.{Bytes}
use xr_telepresence_k8s.Effect.{Result, ok, err, api_error, not_found}
use xr_telepresence_k8s.Resources.Session.{Session}
use xr_telepresence_k8s.Manager.Sessions.{session_not_found}

abbrev pub answer : Option Session → Result Session
answer none = err (api_error not_found [])
answer (some x) = ok x

abbrev pub holder_of :
    Bytes → Bytes → Option Session → Option (Bytes × Session) → Option (Bytes × Session)
holder_of client_id cluster none rest = rest
holder_of client_id cluster (some x) rest = elim (lookup client_id x.spec.clients) [
  | none ↦ rest
  | some _ ↦ some (cluster, x)
]

-- The first cluster whose session has the client.
abbrev pub holder : (Bytes → Option Session) → Bytes → List Bytes → Option (Bytes × Session)
holder of client_id [] = none
holder of client_id (cluster ∷ clusters) =
    holder_of client_id cluster (of cluster) (holder of client_id clusters)

abbrev pub found_at : Option (Bytes × Session) → Result (Bytes × Session)
found_at none = err session_not_found
found_at (some at) = ok at
