-- ===== src/Manager/Routes.antt =====
-- session-manager/main.go: the routes of the session manager, and the handler of each. Which route
-- gin takes for a request is a parameter.
pub mod Uris
pub mod Creation
pub mod Locations
use xr_telepresence_k8s.Base.{Option, none, some, List, [], ◌∷◌, ◌++◌, bytes_eq}
use xr_telepresence_k8s.Base.Dict.{Dict, lookup_or}
use xr_telepresence_k8s.Base.Text.{Bytes, text}
use xr_telepresence_k8s.Effect.{Result, pure}
use xr_telepresence_k8s.Manager.Clusters.{Exec, Reply, reply, failure, status_not_found}
use xr_telepresence_k8s.Manager.Sessions.{Handler, RegisterSessionBody}
use xr_telepresence_k8s.Manager.Clients.{CreateClientBody, UpdateClientBody}
use xr_telepresence_k8s.Manager.Sessions
use xr_telepresence_k8s.Manager.Clients
use xr_telepresence_k8s.Manager.Ping

pub data Method : Type 0 where
  post get patch delete : Method

-- A segment of a pattern: itself, or a parameter of that name.
pub data Segment : Type 0 where
  fixed param : Bytes → Segment

pub data Endpoint : Type 0 where
  creates_session gets_sessions gets_session deletes_session : Endpoint
  creates_client gets_clients gets_client updates_client deletes_client : Endpoint
  gets_ping_servers : Endpoint

pub record Route : Type 0 where
  pub method : Method
  pub pattern : List Segment
  pub endpoint : Endpoint

abbrev pub v1 : Method → List Segment → Endpoint → Route
v1 method pattern endpoint = record {
  method = method;
  pattern = fixed (text "v1") ∷ pattern;
  endpoint = endpoint;
}

abbrev pub sessions_pattern : List Segment
sessions_pattern = fixed (text "session") ∷ []

abbrev pub session_pattern : List Segment
session_pattern = fixed (text "session") ∷ param (text "sessionId") ∷ []

abbrev pub clients_pattern : List Segment
clients_pattern = session_pattern ++ fixed (text "client") ∷ []

abbrev pub client_pattern : List Segment
client_pattern = clients_pattern ++ param (text "clientId") ∷ []

-- The slash that the last `DELETE` lacks is put in by the group.
unfoldable pub routes : List Route
routes =
    v1 post sessions_pattern creates_session
    ∷ v1 get sessions_pattern gets_sessions
    ∷ v1 get session_pattern gets_session
    ∷ v1 delete session_pattern deletes_session
    ∷ v1 post clients_pattern creates_client
    ∷ v1 get clients_pattern gets_clients
    ∷ v1 get client_pattern gets_client
    ∷ v1 patch client_pattern updates_client
    ∷ v1 delete client_pattern deletes_client
    ∷ v1 get (fixed (text "ping") ∷ []) gets_ping_servers
    ∷ []

abbrev pub Params : Type 0
Params = Dict Bytes Bytes

-- The handler of a request's method and path among the routes, and the values of its parameters.
abbrev pub Router : Type 0
Router = List Route → Method → Bytes → Option (Endpoint × Params)

-- A request, with the next UUID and what `ShouldBindJSON` makes of its body for each handler that
-- reads one.
pub record HttpRequest : Type 0 where
  pub method : Method
  pub path : Bytes
  pub uuid : Bytes
  pub registration : Result RegisterSessionBody
  pub new_client : Result CreateClientBody
  pub connection : Result UpdateClientBody

abbrev pub session_id : Params → Bytes
session_id ps = lookup_or [] (text "sessionId") ps

abbrev pub client_id : Params → Bytes
client_id ps = lookup_or [] (text "clientId") ps

unfoldable pub handle : Handler → HttpRequest → Endpoint → Params → Exec Reply
handle h r creates_session ps = Sessions.create_session h r.path r.uuid r.registration
handle h r gets_sessions ps = Sessions.get_sessions h r.path
handle h r gets_session ps = Sessions.get_session h (session_id ps)
handle h r deletes_session ps = Sessions.delete_session h (session_id ps)
handle h r creates_client ps = Clients.create_client h (session_id ps) r.new_client
handle h r gets_clients ps = Clients.get_clients h r.path (session_id ps)
handle h r gets_client ps = Clients.get_client h (session_id ps) (client_id ps)
handle h r updates_client ps = Clients.update_client h (session_id ps) (client_id ps) r.connection
handle h r deletes_client ps = Clients.delete_client h (session_id ps) (client_id ps)
handle h r gets_ping_servers ps = Ping.get_ping_servers h

-- gin replies to a request without a route itself.
unfoldable pub serve : Router → Handler → HttpRequest → Exec Reply
unfolding routes handle
serve router h r = elim (router routes r.method r.path) [
  | none ↦ pure (reply status_not_found (failure (text "404 page not found")))
  | some (endpoint, ps) ↦ handle h r endpoint ps
]
