-- ===== src/Manager/Clusters.antt =====
-- The clusters behind the session manager, by the calls of k8s-client/methods.go, and the replies
-- that its handlers send.
use xr_telepresence_k8s.Base.{ℕ, Bool, Option, none, some, List, ◌∷◌}
use xr_telepresence_k8s.Base.Dict.{Dict}
use xr_telepresence_k8s.Base.Text.{Bytes}
use xr_telepresence_k8s.Resources.Core.{Service}
use xr_telepresence_k8s.Resources.Session.{ClientStatus, Session}
use xr_telepresence_k8s.Effect.{Result, ok, err, Error}
use xr_telepresence_k8s.Effect

-- The body of a merge patch: the clients set, or one client taken out by a null.
pub data Patch : Type 0 where
  set_clients : Dict Bytes Bool → Patch
  remove_client : Bytes → Patch

-- The name of the cluster stands first. All calls are in the namespace `default`.
pub data Request : Type 0 where
  list_sessions : Bytes → Request
  get_session : Bytes → Bytes → Request
  create_session : Bytes → Session → Request
  patch_session : Bytes → Bytes → Patch → Request
  delete_session : Bytes → Bytes → Request
  get_ping_service : Bytes → Request

pub record Clusters : Type 0 where
  pub sessions : List Request → Bytes → Result (List Session)
  pub session : List Request → Bytes → Bytes → Result Session
  pub ping : List Request → Bytes → Result Service
  pub write : List Request → Request → Option Error

abbrev pub Exec {ℓ} : Type ℓ → Type ℓ
Exec A = Effect.Exec Clusters Request A

abbrev pub written : Option Error → Result (Unit {0})
written none = ok tt
written (some e) = err e

abbrev pub send : Request → Exec (Unit {0})
send r s h = (written (s.write h r), r ∷ h)

abbrev pub list : Bytes → Exec (List Session)
list cluster s h = (s.sessions h cluster, list_sessions cluster ∷ h)

abbrev pub get : Bytes → Bytes → Exec Session
get cluster name s h = (s.session h cluster name, get_session cluster name ∷ h)

abbrev pub get_ping : Bytes → Exec Service
get_ping cluster s h = (s.ping h cluster, get_ping_service cluster ∷ h)

abbrev pub create : Bytes → Session → Exec (Unit {0})
create cluster session = send (create_session cluster session)

abbrev pub delete : Bytes → Bytes → Exec (Unit {0})
delete cluster name = send (delete_session cluster name)

abbrev pub or_clients : Option Patch → Session → Patch
or_clients none session = set_clients session.spec.clients
or_clients (some p) session = p

-- `PatchClients`: without a patch it sends the clients of the session.
unfoldable pub patch_clients : Bytes → Bytes → Session → Option Patch → Exec (Unit {0})
patch_clients cluster name session patch =
    send (patch_session cluster name (or_clients patch session))

-- A JSON body of a reply.
pub data Body : Type 0 where
  null : Body
  failure : Bytes → Body
  session : Session → Body
  client : Bool → ClientStatus → Body
  locations : List (Bytes × Bytes) → Body
  addresses : Dict Bytes Bytes → Body

pub record Reply : Type 0 where
  pub status : ℕ
  pub location : Option Bytes
  pub body : Body

abbrev pub reply : ℕ → Body → Reply
reply status body = record { status = status; location = none; body = body }

-- `net/http`
abbrev pub status_ok : ℕ
status_ok = 200

abbrev pub status_created : ℕ
status_created = 201

abbrev pub status_bad_request : ℕ
status_bad_request = 400

abbrev pub status_not_found : ℕ
status_not_found = 404

abbrev pub status_conflict : ℕ
status_conflict = 409

abbrev pub status_bad_gateway : ℕ
status_bad_gateway = 502
