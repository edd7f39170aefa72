-- ===== src/Tests/Router.antt =====
-- A router that takes the first route that matches, for the routes of the session manager.
use xr_telepresence_k8s.Base.{
  ◌≡◌, ◌∙◌, ◌==◌, refl, sym, ap, Bool, true, false, Option, none, some, List, [], ◌∷◌, ◌++◌,
  bytes_eq, nat_eq, if◌then◌else◌,
}
use xr_telepresence_k8s.Base.Text.{Bytes, text, Lacks, split, split-Lacks, split-append}
use xr_telepresence_k8s.Manager.Routes.Locations.{Gin, Takes, Fills, fill, bind}
use xr_telepresence_k8s.Manager.Routes.{
  Router, Params, Segment, fixed, param, Method, post, get, patch, delete, Route, Endpoint, routes,
  sessions_pattern, session_pattern, clients_pattern, client_pattern, creates_session,
  gets_sessions, gets_session, deletes_session, creates_client, gets_clients, gets_client,
  updates_client, deletes_client, gets_ping_servers,
}
use xr_telepresence_k8s.Tests.Fixtures.{contains-Lacks}
use mathlib.Core.List.{append-nil}

unfoldable pub match : List Segment → List Bytes → Option Params
match [] [] = some []
match [] (_ ∷ _) = none
match (_ ∷ _) [] = none
match (fixed s ∷ p) (w ∷ ws) = let rest = match p ws in if s == w then rest else none
match (param n ∷ p) (w ∷ ws) = elim (match p ws) [ none ↦ none | some ps ↦ some ((n, w) ∷ ps) ]

unfoldable pub same_method : Method → Method → Bool
same_method post post = true
same_method get get = true
same_method patch patch = true
same_method delete delete = true
same_method _ _ = false

-- The first route of the method that matches.
unfoldable pub first : List Route → Method → List Bytes → Option (Endpoint × Params)
unfolding match same_method
first [] m ws = none
first (r ∷ rs) m ws =
    let rest = first rs m ws in
    if same_method r.method m
    then elim (match r.pattern ws) [ none ↦ rest | some ps ↦ some (r.endpoint, ps) ]
    else rest

unfoldable pub after_root : List Bytes → List Bytes
after_root [] = []
after_root (_ ∷ ws) = ws

abbrev pub in_order : Router
in_order rs m path = first rs m (after_root (split b'/' path))

segments : List Segment → List Bytes → List Bytes
segments [] vs = []
segments (fixed s ∷ p) vs = s ∷ segments p vs
segments (param n ∷ p) [] = [] ∷ segments p []
segments (param n ∷ p) (v ∷ vs) = v ∷ segments p vs

-- No fixed segment has a slash.
abbrev Whole : List Segment → Type 0
Whole [] = Unit
Whole (fixed s ∷ p) = Lacks b'/' s × Whole p
Whole (param n ∷ p) = Whole p

alone : (s : Bytes) → Lacks b'/' s → ◌≡◌ {A = List Bytes} ([] ∷ split b'/' (s ++ [])) ([] ∷ s ∷ [])
alone s l =
    ap (λ (ws : List Bytes). [] ∷ ws) (ap (split b'/') (append-nil s) ∙ split-Lacks b'/' s l)

before :
    (s t u : Bytes) (ws : List Bytes)
    → Lacks b'/' s
    → t ≡ b'/' ∷ u
    → split b'/' t ≡ [] ∷ ws
    → ◌≡◌ {A = List Bytes} ([] ∷ split b'/' (s ++ t)) ([] ∷ s ∷ ws)
unfolding split nat_eq after_root
before s t u ws l e h =
    ap (λ (ws : List Bytes). [] ∷ ws)
      (ap (λ (x : Bytes). split b'/' (s ++ x)) e
        ∙ split-append b'/' s u l
        ∙ ap (λ (ws : List Bytes). s ∷ after_root ws) (sym (ap (split b'/') e) ∙ h))

slash :
    (q : Segment) (p : List Segment) (vs : List Bytes)
    → Fills (q ∷ p) vs
    → (u : Bytes) × (fill (q ∷ p) vs ≡ b'/' ∷ u)
slash (fixed s) p vs _ = (_, refl)
slash (param n) p [] f = absurd f
slash (param n) p (v ∷ vs) _ = (_, refl)

split-fill :
    (p : List Segment) (vs : List Bytes)
    → Whole p
    → Fills p vs
    → split b'/' (fill p vs) ≡ [] ∷ segments p vs
unfolding split segments nat_eq
split-fill [] vs _ _ = refl
split-fill (fixed s ∷ []) vs (l, w) f = alone s l
split-fill (fixed s ∷ q ∷ p) vs (l, w) f =
    let (u, e) = slash q p vs f in before s (fill (q ∷ p) vs) u _ l e (split-fill (q ∷ p) vs w f)
split-fill (param n ∷ p) [] w f = absurd f
split-fill (param n ∷ []) (v ∷ vs) w (l, f) = alone v l.1
split-fill (param n ∷ q ∷ p) (v ∷ vs) w (l, f) =
    let (u, e) = slash q p vs f in before v (fill (q ∷ p) vs) u _ l.1 e (split-fill (q ∷ p) vs w f)

-- The route is found by the segments of a path of its pattern.
found :
    (r : Route)
    → Whole r.pattern
    → ((vs : List Bytes)
        → Fills r.pattern vs
        → first routes r.method (segments r.pattern vs) ≡ some (r.endpoint, bind r.pattern vs))
    → Takes in_order r
unfolding after_root
found r w e vs f =
    ap (λ (ws : List Bytes). first routes r.method (after_root ws)) (split-fill r.pattern vs w f)
    ∙ e vs f

abbrev Found : Method → List Segment → Endpoint → Type 0
Found m p e =
    (vs : List Bytes)
    → Fills (fixed (text "v1") ∷ p) vs
    → first routes m (segments (fixed (text "v1") ∷ p) vs)
      ≡ some (e, bind (fixed (text "v1") ∷ p) vs)

creates_session-Found : Found post sessions_pattern creates_session
unfolding first match same_method segments routes bytes_eq
creates_session-Found [] _ = refl
creates_session-Found (_ ∷ _) f = absurd f

gets_sessions-Found : Found get sessions_pattern gets_sessions
unfolding first match same_method segments routes bytes_eq
gets_sessions-Found [] _ = refl
gets_sessions-Found (_ ∷ _) f = absurd f

gets_session-Found : Found get session_pattern gets_session
unfolding first match same_method segments routes bytes_eq
gets_session-Found [] f = absurd f
gets_session-Found (id ∷ []) f = refl
gets_session-Found (id ∷ _ ∷ _) f = absurd f.1

deletes_session-Found : Found delete session_pattern deletes_session
unfolding first match same_method segments routes bytes_eq
deletes_session-Found [] f = absurd f
deletes_session-Found (id ∷ []) f = refl
deletes_session-Found (id ∷ _ ∷ _) f = absurd f.1

creates_client-Found : Found post clients_pattern creates_client
unfolding first match same_method segments routes bytes_eq
creates_client-Found [] f = absurd f
creates_client-Found (id ∷ []) f = refl
creates_client-Found (id ∷ _ ∷ _) f = absurd f.1

gets_clients-Found : Found get clients_pattern gets_clients
unfolding first match same_method segments routes bytes_eq
gets_clients-Found [] f = absurd f
gets_clients-Found (id ∷ []) f = refl
gets_clients-Found (id ∷ _ ∷ _) f = absurd f.1

gets_client-Found : Found get client_pattern gets_client
unfolding first match same_method segments routes bytes_eq
gets_client-Found [] f = absurd f
gets_client-Found (id ∷ []) f = absurd f.1
gets_client-Found (id ∷ k ∷ []) f = refl
gets_client-Found (id ∷ k ∷ _ ∷ _) f = absurd f.1.1

updates_client-Found : Found patch client_pattern updates_client
unfolding first match same_method segments routes bytes_eq
updates_client-Found [] f = absurd f
updates_client-Found (id ∷ []) f = absurd f.1
updates_client-Found (id ∷ k ∷ []) f = refl
updates_client-Found (id ∷ k ∷ _ ∷ _) f = absurd f.1.1

deletes_client-Found : Found delete client_pattern deletes_client
unfolding first match same_method segments routes bytes_eq
deletes_client-Found [] f = absurd f
deletes_client-Found (id ∷ []) f = absurd f.1
deletes_client-Found (id ∷ k ∷ []) f = refl
deletes_client-Found (id ∷ k ∷ _ ∷ _) f = absurd f.1.1

gets_ping_servers-Found : Found get (fixed (text "ping") ∷ []) gets_ping_servers
unfolding first match same_method segments routes bytes_eq
gets_ping_servers-Found [] _ = refl
gets_ping_servers-Found (_ ∷ _) f = absurd f

v1-Lacks : Lacks b'/' (text "v1")
unfolding nat_eq
v1-Lacks = contains-Lacks b'/' (text "v1") refl

session-Lacks : Lacks b'/' (text "session")
unfolding nat_eq
session-Lacks = contains-Lacks b'/' (text "session") refl

client-Lacks : Lacks b'/' (text "client")
unfolding nat_eq
client-Lacks = contains-Lacks b'/' (text "client") refl

ping-Lacks : Lacks b'/' (text "ping")
unfolding nat_eq
ping-Lacks = contains-Lacks b'/' (text "ping") refl

pub in_order-Gin : Gin in_order
unfolding routes
in_order-Gin = record {
  takes = (
    found _ (v1-Lacks, (session-Lacks, tt)) creates_session-Found,
    (
      found _ (v1-Lacks, (session-Lacks, tt)) gets_sessions-Found,
      (
        found _ (v1-Lacks, (session-Lacks, tt)) gets_session-Found,
        (
          found _ (v1-Lacks, (session-Lacks, tt)) deletes_session-Found,
          (
            found _ (v1-Lacks, (session-Lacks, (client-Lacks, tt))) creates_client-Found,
            (
              found _ (v1-Lacks, (session-Lacks, (client-Lacks, tt))) gets_clients-Found,
              (
                found _ (v1-Lacks, (session-Lacks, (client-Lacks, tt))) gets_client-Found,
                (
                  found _ (v1-Lacks, (session-Lacks, (client-Lacks, tt))) updates_client-Found,
                  (
                    found _ (v1-Lacks, (session-Lacks, (client-Lacks, tt))) deletes_client-Found,
                    (found _ (v1-Lacks, (ping-Lacks, tt)) gets_ping_servers-Found, tt),
                  ),
                ),
              ),
            ),
          ),
        ),
      ),
    ),
  );
}
