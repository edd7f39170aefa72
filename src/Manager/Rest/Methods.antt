-- ===== src/Manager/Rest/Methods.antt =====
-- The methods of the REST requests that each handler sends.
use xr_telepresence_k8s.Base.{◌≡◌, ◌⊎◌, refl, inl, inr, List, [], ◌∷◌, bytes_eq}
use xr_telepresence_k8s.Base.Text.{Bytes}
use xr_telepresence_k8s.Base.Dict.{Dict, insert}
use xr_telepresence_k8s.Effect.Emits.{Emits, bind-Emits, attempt-Emits, pure-Emits}
use xr_telepresence_k8s.Manager.Clusters.{Exec, Clusters, Request, list_sessions, get_ping_service}
use xr_telepresence_k8s.Manager.Sessions.{Handler, bad_gateway}
use xr_telepresence_k8s.Manager.Rest.{rest_of}
use xr_telepresence_k8s.Manager.Rest.Reads.{
  create_client-Emits, delete_client-Emits, get_client-Emits, get_clients-Emits, get_session-Emits,
  or_reply-Emits, update_client-Emits,
}
use xr_telepresence_k8s.Manager.Ping.{ping_servers, ping_address}
use xr_telepresence_k8s.Manager.Routes.{
  session_id, client_id, Method, post, get, patch, delete, Endpoint, creates_session, gets_sessions,
  gets_session, deletes_session, creates_client, gets_clients, gets_client, updates_client,
  deletes_client, gets_ping_servers, HttpRequest, Params, handle,
}
use xr_telepresence_k8s.Manager.Rest.Writes.{create_session-Emits, delete_session-Emits}
use xr_telepresence_k8s.Manager.Clusters as Api
use xr_telepresence_k8s.Manager.Sessions
use xr_telepresence_k8s.Manager.Ping

-- Creating and deleting sessions, changing clients, and reading.
abbrev pub Sends : Endpoint → Method → Type 0
Sends creates_session m = m ≡ post
Sends deletes_session m = m ≡ delete
Sends creates_client m = (m ≡ get) ⊎ (m ≡ patch)
Sends updates_client m = (m ≡ get) ⊎ (m ≡ patch)
Sends deletes_client m = (m ≡ get) ⊎ (m ≡ patch)
Sends _ m = m ≡ get

module _ {P : Request → Type 0} where
  get_sessions-Emits :
      ((cluster : Bytes) → P (list_sessions cluster))
      → (h : Handler) (url : Bytes) → Emits P (Sessions.get_sessions h url)
  unfolding Sessions.get_sessions
  get_sessions-Emits lists h url = by_clusters h.clusters
    where
      list-Emits : (cluster : Bytes) → Emits P (Api.list cluster)
      list-Emits cluster = record { at = λ s h a. (lists cluster, a) }

      by_clusters :
          (cs : List Bytes) → Emits P (Sessions.get_sessions (record h { clusters = cs }) url)
      by_clusters [] = pure-Emits
      by_clusters (cluster ∷ cs) =
          bind-Emits (attempt-Emits (list-Emits cluster))
            λ r. or_reply-Emits bad_gateway r (λ _. pure-Emits)

  ping_servers-Emits :
      ((cluster : Bytes) → P (get_ping_service cluster))
      → (m : Dict Bytes Bytes) (clusters : List Bytes) → Emits P (ping_servers m clusters)
  unfolding ping_servers
  ping_servers-Emits pings m [] = pure-Emits
  ping_servers-Emits pings m (cluster ∷ clusters) =
      bind-Emits (attempt-Emits ping-Emits)
        λ r. ping_servers-Emits pings (insert cluster (ping_address r) m) clusters
    where
      ping-Emits : Emits P (Api.get_ping cluster)
      ping-Emits = record { at = λ s h a. (pings cluster, a) }

-- Whatever the clusters answer, the handlers that get something send only GET requests, creating a
-- session sends only POST, deleting one only DELETE, and the handlers that change clients only GET
-- and PATCH.
pub handle-Sends :
    (h : Handler) (r : HttpRequest) (e : Endpoint) (ps : Params)
    → Emits (λ c. Sends e (rest_of c).method) (handle h r e ps)
unfolding handle rest_of Ping.get_ping_servers
handle-Sends h r creates_session ps =
    create_session-Emits (λ cluster x. refl) h r.path r.uuid r.registration
handle-Sends h r gets_sessions ps = get_sessions-Emits (λ cluster. refl) h r.path
handle-Sends h r gets_session ps = get_session-Emits (λ cluster id. refl) h (session_id ps)
handle-Sends h r deletes_session ps = delete_session-Emits (λ cluster id. refl) h (session_id ps)
handle-Sends h r creates_client ps =
    create_client-Emits (λ cluster id. inl refl) (λ cluster id p. inr refl) h (session_id ps)
      r.new_client
handle-Sends h r gets_clients ps = get_clients-Emits (λ cluster id. refl) h r.path (session_id ps)
handle-Sends h r gets_client ps =
    get_client-Emits (λ cluster id. refl) h (session_id ps) (client_id ps)
handle-Sends h r updates_client ps =
    update_client-Emits (λ cluster id. inl refl) (λ cluster id p. inr refl) h (session_id ps)
      (client_id ps) r.connection
handle-Sends h r deletes_client ps =
    delete_client-Emits (λ cluster id. inl refl) (λ cluster id p. inr refl) h (session_id ps)
      (client_id ps)
handle-Sends h r gets_ping_servers ps =
    bind-Emits (ping_servers-Emits (λ cluster. refl) [] h.clusters) (λ m. pure-Emits)
