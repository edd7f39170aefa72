-- ===== src/Tests/Routing.antt =====
-- The locations that the session manager hands out on the fixtures.
use xr_telepresence_k8s.Effect.Emits.{Emits}
use xr_telepresence_k8s.Manager.Rest.{rest_of}
use xr_telepresence_k8s.Manager.Rest.Methods.{Sends, handle-Sends}
use xr_telepresence_k8s.Manager.Routes.{updates_client, handle, HttpRequest, get, routes, serve}
use xr_telepresence_k8s.Base.{◌≡◌, some, refl, [], ◌∷◌, ◌++◌, bytes_eq, nat_eq, All}
use xr_telepresence_k8s.Base.Text.{text, split}
use xr_telepresence_k8s.Effect.{ok}
use xr_telepresence_k8s.Manager.Clusters.{Clusters}
use xr_telepresence_k8s.Manager.Routes.Creation.{create_session-Leads}
use xr_telepresence_k8s.Manager.Routes.Locations.{
  LeadsToClient, LeadsToSession, sessions_path, clients_path, get_clients-Leads, get_sessions-Leads,
  Leads,
}
use xr_telepresence_k8s.Manager.Sessions.{
  find_session, find_session_from, add_session, copy_into, session_locations, create_from,
  create_with_pods, create_in_all, create_everywhere,
}
use xr_telepresence_k8s.Manager.Sessions.Everywhere.{created_reply}
use xr_telepresence_k8s.Base.Dict.{lookup, lookup_or, insert}
use xr_telepresence_k8s.Manager.Clients.{client_locations}
use xr_telepresence_k8s.Tests.Managing.{
  two_clusters, handler, demo_id, disconnected, registration_body,
}
use xr_telepresence_k8s.Tests.Keeping.{dave}
use xr_telepresence_k8s.Tests.Fixtures.{demo}
use xr_telepresence_k8s.Tests.Router.{match, same_method, first, after_root, in_order, in_order-Gin}
use xr_telepresence_k8s.Manager.Routes.Uris.{
  All-every, IsName, is_unreserved, url_path, decode, role, hex_digit,
}
use xr_telepresence_k8s.Manager.Sessions
use xr_telepresence_k8s.Manager.Clients

abbrev request : HttpRequest
request = record {
  method = get;
  path = [];
  uuid = text "1a2b";
  registration = ok registration_body;
  new_client = ok dave;
  connection = ok disconnected;
}

demo_id-IsName : IsName demo_id
unfolding is_unreserved nat_eq
demo_id-IsName = (All-every is_unreserved demo_id refl, λ e. cc, λ e. cc, λ e. cc)

get_clients-Leads_example :
    All
      (LeadsToClient in_order handler request demo_id)
      (client_locations (clients_path demo_id) demo.spec.clients)
unfolding serve handle routes first match same_method after_root split nat_eq bytes_eq lookup
    lookup_or insert Clients.get_clients find_session find_session_from add_session copy_into
    client_locations
get_clients-Leads_example =
    get_clients-Leads in_order-Gin handler request demo_id demo_id-IsName two_clusters [] refl

abbrev listing : Clusters
listing = record two_clusters { sessions = λ h cluster. ok (demo ∷ []) }

get_sessions-Leads_example :
    All (LeadsToSession in_order handler request) (session_locations sessions_path (demo ∷ []))
unfolding serve handle routes first match same_method after_root split nat_eq bytes_eq lookup
    lookup_or insert Sessions.get_sessions session_locations
get_sessions-Leads_example = get_sessions-Leads in_order-Gin handler request listing [] refl

create_session-Leads_example :
    Leads in_order handler request
      (sessions_path ++ text "/" ++ demo_id)
      (Sessions.get_session handler demo_id)
unfolding serve handle routes first match same_method after_root split nat_eq bytes_eq lookup
    lookup_or insert Sessions.create_session create_from create_with_pods create_in_all
    create_everywhere
create_session-Leads_example =
    create_session-Leads in_order-Gin handler request refl demo_id-IsName two_clusters []
      {created = created_reply sessions_path demo_id} {uri = sessions_path ++ text "/" ++ demo_id}
      refl refl

-- A client's name with a query or an escape in it is read as another path.
query_cut :
    url_path (text "/v1/session/demo-1a2b/client/a?b")
    ≡ some (text "/v1/session/demo-1a2b/client/a")
unfolding decode role nat_eq
query_cut = refl

escape_read :
    url_path (text "/v1/session/demo-1a2b/client/a%2Fb")
    ≡ some (text "/v1/session/demo-1a2b/client/a/b")
unfolding decode role hex_digit nat_eq
escape_read = refl

handle-Sends_example :
    Emits (λ c. Sends updates_client (rest_of c).method) (handle handler request updates_client [])
handle-Sends_example = handle-Sends handler request updates_client []
