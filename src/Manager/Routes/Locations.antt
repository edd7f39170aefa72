-- ===== src/Manager/Routes/Locations.antt =====
-- The locations that the session manager hands out, and the routes that they lead to.
use mathlib.Core.List.{append_assoc, append-nil}
use xr_telepresence_k8s.Base.{
  ◌≡◌, ◌≢◌, refl, ◌∙◌, ap, some, List, [], ◌∷◌, ◌++◌, bytes_eq, All, nat_eq, sym, subst, Bool, inl,
  inr, Bool-cases,
}
use xr_telepresence_k8s.Base.Dict.{Dict, lookup, lookup_or}
use xr_telepresence_k8s.Base.Text.{Bytes, text, Lacks}
use xr_telepresence_k8s.Resources.Session.{Session}
use xr_telepresence_k8s.Effect.{Result, ok, err, panic, Error, pure, caught, and_then}
use xr_telepresence_k8s.Manager.Clusters.{
  Exec, Clusters, Request, Reply, Body, reply, locations, status_ok,
}
use xr_telepresence_k8s.Manager.Sessions.{
  Handler, find_session, failed_lookup, bad_gateway, or_reply, session_locations,
  error_is_session_not_found,
}
use xr_telepresence_k8s.Manager.Clients.{client_locations}
use xr_telepresence_k8s.Manager.Routes.{
  Router, HttpRequest, Params, Segment, fixed, param, get, Route, Endpoint, routes, serve, handle,
  sessions_pattern, session_pattern, clients_pattern, client_pattern,
}
use xr_telepresence_k8s.Manager.Routes.Uris.{
  Stands, url_path, IsName, every-Stands, is_unreserved, url_path-Stands, Stands-append,
  IsName-Stands, IsName-Lacks,
}
use xr_telepresence_k8s.Manager.Sessions
use xr_telepresence_k8s.Manager.Clients

-- What can stand for a parameter: a segment of a path.
abbrev pub IsSegment : Bytes → Type 0
IsSegment v = (v ≢ []) × Lacks b'/' v

-- The path of a pattern, with values for its parameters.
abbrev pub fill : List Segment → List Bytes → Bytes
fill [] vs = []
fill (fixed s ∷ p) vs = b'/' ∷ s ++ fill p vs
fill (param n ∷ p) [] = b'/' ∷ fill p []
fill (param n ∷ p) (v ∷ vs) = b'/' ∷ v ++ fill p vs

abbrev pub bind : List Segment → List Bytes → Params
bind [] vs = []
bind (fixed s ∷ p) vs = bind p vs
bind (param n ∷ p) [] = []
bind (param n ∷ p) (v ∷ vs) = (n, v) ∷ bind p vs

-- There is one value for each parameter.
abbrev pub Fills : List Segment → List Bytes → Type 0
Fills [] [] = Unit
Fills [] (v ∷ vs) = ⊥
Fills (fixed s ∷ p) vs = Fills p vs
Fills (param n ∷ p) [] = ⊥
Fills (param n ∷ p) (v ∷ vs) = IsSegment v × Fills p vs

-- gin takes the route for each path of its pattern.
abbrev pub Takes : Router → Route → Type 0
Takes router r =
    (vs : List Bytes)
    → Fills r.pattern vs
    → router routes r.method (fill r.pattern vs) ≡ some (r.endpoint, bind r.pattern vs)

-- As gin documents it: a parameter matches one segment, and none of these routes hides another.
pub record Gin (router : Router) : Type 0 where
  pub takes : All (Takes router) routes

-- The locations in a reply.
abbrev listed : Result Reply → List (Bytes × Bytes)
listed (ok r) = in_body r.body
  where
    in_body : Body → List (Bytes × Bytes)
    in_body (locations ls) = ls
    in_body _ = []
listed _ = []

-- An error of a lookup has no locations.
failed_lookup-lists : (e : Error) → listed (ok (failed_lookup e)) ≡ []
failed_lookup-lists e = elim (Bool-cases (error_is_session_not_found e)) [
  | inl b ↦ rw b refl
  | inr b ↦ rw b refl
]

abbrev pub getting : HttpRequest → Bytes → HttpRequest
getting r path = record r { method = get; path = path }

-- The path of the sessions, and that of the clients of one.
abbrev pub sessions_path : Bytes
sessions_path = fill (fixed (text "v1") ∷ sessions_pattern) []

abbrev pub clients_path : Bytes → Bytes
clients_path id = fill (fixed (text "v1") ∷ clients_pattern) (id ∷ [])

IsName-IsSegment : (v : Bytes) → IsName v → IsSegment v
IsName-IsSegment v named = (named.1, IsName-Lacks v named)

clients_path-Stands : (id : Bytes) → IsName id → Stands (clients_path id)
unfolding nat_eq is_unreserved
clients_path-Stands id named =
    Stands-append (text "/v1/session/") (id ++ text "/client")
      (every-Stands (text "/v1/session/") refl)
      (Stands-append id (text "/client") (IsName-Stands id named)
        (every-Stands (text "/client") refl))

-- A name put behind a path is read as it is.
url_path-joined :
    (a k : Bytes) → Stands a → IsName k → url_path (a ++ text "/" ++ k) ≡ some (a ++ text "/" ++ k)
unfolding nat_eq is_unreserved
url_path-joined a k there named = url_path-Stands (a ++ text "/" ++ k) (
    Stands-append (a ++ text "/") k
      (Stands-append a (text "/") there (every-Stands (text "/") refl)) (IsName-Stands k named))

module _ (router : Router) (h : Handler) where
  abbrev pub Served : HttpRequest → Exec Reply → Type 0
  Served r run = serve router h r ≡ run

  -- The URI is read as a path, and a request for that path is served by this run.
  abbrev pub Leads : HttpRequest → Bytes → Exec Reply → Type 0
  Leads r uri run = (path : Bytes) × (url_path uri ≡ some path) × Served (getting r path) run

  -- Where a client of the session is served, if its name is one that a URI carries as it is.
  abbrev pub LeadsToClient : HttpRequest → Bytes → Bytes × Bytes → Type 0
  LeadsToClient r id (k, uri) = IsName k → Leads r uri (Clients.get_client h id k)

  -- Where a session is served, if its name is one that a URI carries as it is.
  abbrev pub LeadsToSession : HttpRequest → Bytes × Bytes → Type 0
  LeadsToSession r (id, uri) = IsName id → Leads r uri (Sessions.get_session h id)

module _ {router : Router} (gin : Gin router) (h : Handler) where
  pub routed :
      (r : HttpRequest) {e : Endpoint} {ps : Params}
      → router routes r.method r.path ≡ some (e, ps)
      → Served router h r (handle h r e ps)
  unfolding serve
  routed r {e} {ps} taken = rw (taken, serve) refl

  pub session-Served :
      (r : HttpRequest) (id : Bytes)
      → IsSegment id
      → Served router h (getting r (sessions_path ++ text "/" ++ id)) (Sessions.get_session h id)
  unfolding handle routes lookup_or lookup bytes_eq
  session-Served r id segment =
      let e : sessions_path ++ text "/" ++ id
          ≡ fill (fixed (text "v1") ∷ session_pattern) (id ∷ []) =
        ap (λ (x : Bytes). sessions_path ++ text "/" ++ x) (sym (append-nil id)) in
      routed (getting r (sessions_path ++ text "/" ++ id))
        (ap (router routes get) e ∙ gin.takes.1.1.0 (id ∷ []) (segment, tt))

  pub session-Leads :
      (r : HttpRequest) (id : Bytes)
      → IsName id
      → Leads router h r (sessions_path ++ text "/" ++ id) (Sessions.get_session h id)
  unfolding nat_eq is_unreserved
  session-Leads r id named = (
    sessions_path ++ text "/" ++ id,
    url_path-joined sessions_path id (every-Stands sessions_path refl) named,
    session-Served r id (IsName-IsSegment id named),
  )

  clients-Served :
      (r : HttpRequest) (id : Bytes)
      → IsSegment id
      → Served router h (getting r (clients_path id)) (Clients.get_clients h (clients_path id) id)
  unfolding handle routes lookup_or lookup bytes_eq
  clients-Served r id segment =
      routed (getting r (clients_path id)) (gin.takes.1.1.1.1.1.0 (id ∷ []) (segment, tt))

  client-Served :
      (r : HttpRequest) (id k : Bytes)
      → IsSegment id
      → IsSegment k
      → Served router h (getting r (clients_path id ++ text "/" ++ k)) (Clients.get_client h id k)
  unfolding handle routes lookup_or lookup bytes_eq
  client-Served r id k segment segment' =
      let e : clients_path id ++ text "/" ++ k
          ≡ fill (fixed (text "v1") ∷ client_pattern) (id ∷ k ∷ []) =
        simp (append_assoc, append-nil) in
      routed (getting r (clients_path id ++ text "/" ++ k))
        (ap (router routes get) e ∙ gin.takes.1.1.1.1.1.1.0 (id ∷ k ∷ []) (segment, (segment', tt)))

  client-Leads :
      (r : HttpRequest) (id k : Bytes)
      → IsName id
      → IsName k
      → Leads router h r (clients_path id ++ text "/" ++ k) (Clients.get_client h id k)
  client-Leads r id k named named' = (
    clients_path id ++ text "/" ++ k,
    url_path-joined (clients_path id) k (clients_path-Stands id named) named',
    client-Served r id k (IsName-IsSegment id named) (IsName-IsSegment k named'),
  )

  client_locations-Leads :
      (r : HttpRequest) (id : Bytes)
      → IsName id
      → (m : Dict Bytes Bool)
      → All (LeadsToClient router h r id) (client_locations (clients_path id) m)
  unfolding client_locations
  client_locations-Leads r id named [] = tt
  client_locations-Leads r id named ((k, _) ∷ m) =
      (client-Leads r id k named, client_locations-Leads r id named m)

  -- If the session's name is of the characters that a URI carries as they are, then, with gin
  -- choosing among the routes as documented, whenever getting its clients is replied to with a
  -- list of locations, the location listed for a client with such a name is a URI of a path, and
  -- getting that path runs the handler that gets this client of this session.
  pub get_clients-Leads :
      (r : HttpRequest) (id : Bytes)
      → IsName id
      → (s : Clusters) (history : List Request) {ls : List (Bytes × Bytes)}
      → (serve router h (getting r (clients_path id)) s history).0
        ≡ ok (reply status_ok (locations ls))
      → All (LeadsToClient router h r id) ls
  unfolding Clients.get_clients
  get_clients-Leads r id named s history {ls} e =
      subst (All (LeadsToClient router h r id))
        (ap listed (
          sym (
            ap (λ (run : Exec Reply). (run s history).0)
              (clients-Served r id (IsName-IsSegment id named)))
          ∙ e))
        (by_answer (find_session id h.clusters s history).0
          (find_session id h.clusters s history).1)
    where
      by_answer :
          (x : Result Session) (history' : List Request)
          → All (LeadsToClient router h r id) (
              listed
                (and_then
                  (or_reply failed_lookup (λ (x : Session). pure (
                    reply status_ok
                      (locations (client_locations (clients_path id) x.spec.clients)))))
                  s
                  (caught x)
                  history').0)
      by_answer (ok x) _ = client_locations-Leads r id named x.spec.clients
      by_answer (err e) _ = rw (failed_lookup-lists e) tt
      by_answer panic _ = tt

  session_locations-Leads :
      (r : HttpRequest) (xs : List Session)
      → All (LeadsToSession router h r) (session_locations sessions_path xs)
  unfolding session_locations
  session_locations-Leads r [] = tt
  session_locations-Leads r (x ∷ xs) = (session-Leads r x.name, session_locations-Leads r xs)

  sessions-Served :
      (r : HttpRequest)
      → Served router h (getting r sessions_path) (Sessions.get_sessions h sessions_path)
  unfolding handle routes
  sessions-Served r = routed (getting r sessions_path) (gin.takes.1.0 [] tt)

  -- With gin choosing among the routes as documented, whenever getting the sessions is replied to
  -- with a list of locations, the location listed for a session whose name is of the characters
  -- that a URI carries as they are is a URI of a path, and getting that path runs the handler that
  -- gets this session.
  pub get_sessions-Leads :
      (r : HttpRequest) (s : Clusters) (history : List Request) {ls : List (Bytes × Bytes)}
      → (serve router h (getting r sessions_path) s history).0 ≡ ok (reply status_ok (locations ls))
      → All (LeadsToSession router h r) ls
  unfolding Sessions.get_sessions
  get_sessions-Leads r s history {ls} e =
      subst (All (LeadsToSession router h r))
        (ap listed (sym (ap (λ (run : Exec Reply). (run s history).0) (sessions-Served r)) ∙ e))
        (by_clusters h.clusters)
    where
      by_answer :
          (x : Result (List Session)) (history' : List Request)
          → All (LeadsToSession router h r) (
              listed
                (and_then
                  (or_reply bad_gateway (λ (xs : List Session).
                    pure (reply status_ok (locations (session_locations sessions_path xs)))))
                  s
                  (caught x)
                  history').0)
      by_answer (ok xs) _ = session_locations-Leads r xs
      by_answer (err e) _ = tt
      by_answer panic _ = tt

      by_clusters :
          (cs : List Bytes)
          → All (LeadsToSession router h r) (
              listed (Sessions.get_sessions (record h { clusters = cs }) sessions_path s history).0)
      by_clusters [] = tt
      by_clusters (cluster ∷ cs) = by_answer (s.sessions history cluster) _
