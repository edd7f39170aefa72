-- ===== src/Manager/Routes/Creation.antt =====
-- handlers/session.go: the location of a session that was created, and the route that it leads to.
use xr_telepresence_k8s.Base.{
  ◌≡◌, ◌⊎◌, refl, ◌∙◌, ap, Option, none, some, List, [], ◌∷◌, ◌++◌, bytes_eq, sym, subst, inl, inr,
  contains,
}
use xr_telepresence_k8s.Base.Dict.{lookup}
use xr_telepresence_k8s.Base.Text.{Bytes, text}
use xr_telepresence_k8s.Resources.Core.{PodTemplate}
use xr_telepresence_k8s.Resources.Session.{Session}
use xr_telepresence_k8s.Effect.{Result, ok, err, panic, Error, pure, is_already_exists}
use xr_telepresence_k8s.Effect.Ensures.{
  Ensures, Calm, Returns, bind-Ensures, seq-Ensures, pure-Ensures, attempt-Ensures, if-Ensures,
  ignoring-Calm,
}
use xr_telepresence_k8s.Base.Panic.{some_injective, none_absurd}
use xr_telepresence_k8s.Manager.Clusters.{
  create_session, Exec, Clusters, Request, Reply, reply, create, written, failure,
  status_bad_request,
}
use xr_telepresence_k8s.Manager.Sessions.{
  Handler, RegisterSessionBody, SessionTemplate, or_reply, bad_gateway, create_everywhere,
  create_in_all, create_with_pods, create_from, new_session, without_session_pods,
}
use xr_telepresence_k8s.Manager.Routes.{Router, HttpRequest, post, routes, serve, handle}
use xr_telepresence_k8s.Manager.Routes.Locations.{
  Gin, Leads, Served, sessions_path, session-Leads, routed,
}
use xr_telepresence_k8s.Manager.Routes.Uris.{IsName}
use xr_telepresence_k8s.Manager.Sessions

-- A reply that names no other location.
abbrev Locates : Bytes → Reply → Type 0
Locates uri r = (r.location ≡ none) ⊎ (r.location ≡ some uri)

module _ {s : Clusters} where
  create-Calm : (cluster : Bytes) (x : Session) → Calm s (create cluster x)
  create-Calm cluster x = record { at = λ h. go (s.write h (create_session cluster x)) }
    where
      go : (o : Option Error) → Returns (λ _. Unit) (written o)
      go none = tt
      go (some e) = tt

  create_everywhere-Calm :
      (clusters : List Bytes) (x : Session) → Calm s (create_everywhere clusters x)
  unfolding create_everywhere
  create_everywhere-Calm [] x = pure-Ensures tt
  create_everywhere-Calm (cluster ∷ clusters) x =
      seq-Ensures (ignoring-Calm is_already_exists (create-Calm cluster x))
        (create_everywhere-Calm clusters x)

  or_gateway-Ensures :
      {uri : Bytes} (k : Unit {0} → Exec Reply) (r : Result (Unit {0}))
      → Returns (λ _. Unit) r
      → Ensures s (Locates uri) (k tt)
      → Ensures s (Locates uri) (or_reply bad_gateway k r)
  or_gateway-Ensures k (ok _) _ e = e
  or_gateway-Ensures k (err e) _ _ = pure-Ensures (inl refl)
  or_gateway-Ensures k panic a _ = absurd a

  create_in_all-Locates :
      (h : Handler) (url : Bytes) (x : Session)
      → Ensures s (Locates (url ++ text "/" ++ x.name)) (create_in_all h url x)
  unfolding create_in_all
  create_in_all-Locates h url x =
      bind-Ensures (attempt-Ensures (create_everywhere-Calm h.clusters (without_session_pods x)))
        λ r a. or_gateway-Ensures _ r a (pure-Ensures (inr refl))

  create_with_pods-Locates :
      (h : Handler) (url cluster : Bytes) (x : Session)
      → Ensures s (Locates (url ++ text "/" ++ x.name)) (create_with_pods h url cluster x)
  unfolding create_with_pods
  create_with_pods-Locates h url cluster x =
      if-Ensures (contains h.clusters cluster)
        (bind-Ensures (attempt-Ensures (ignoring-Calm is_already_exists (create-Calm cluster x)))
          λ r a. or_gateway-Ensures _ r a (create_in_all-Locates h url x))
        (pure-Ensures (inl refl))

  create_from-Locates :
      (h : Handler) (url name cluster : Bytes) (t : SessionTemplate)
      → Ensures s (Locates (url ++ text "/" ++ name)) (create_from h url name cluster t)
  unfolding create_from
  create_from-Locates h url name cluster t = by_pods t.session_pod_templates
    where
      by_pods :
          (ts : List PodTemplate)
          → Ensures {C = Request} {A = Reply} s (Locates (url ++ text "/" ++ name)) (elim ts [
            | [] ↦ create_in_all h url (new_session name t)
            | _ ∷ _ ↦ create_with_pods h url cluster (new_session name t)
          ])
      by_pods [] = create_in_all-Locates h url (new_session name t)
      by_pods (_ ∷ _) = create_with_pods-Locates h url cluster (new_session name t)

  create_session-Locates :
      (h : Handler) (url uuid : Bytes) (body : RegisterSessionBody)
      → Ensures s
          (Locates (url ++ text "/" ++ (body.template_name ++ text "-" ++ uuid)))
          (Sessions.create_session h url uuid (ok body))
  unfolding Sessions.create_session
  create_session-Locates h url uuid body =
      by_template (lookup body.template_name h.session_templates)
    where
      name : Bytes
      name = body.template_name ++ text "-" ++ uuid

      by_template :
          (o : Option SessionTemplate)
          → Ensures {C = Request} {A = Reply} s (Locates (url ++ text "/" ++ name)) (elim o [
            | none ↦ pure (reply status_bad_request (failure (text "template name not configured")))
            | some t ↦ create_from h url name body.session_pods_cluster t
          ])
      by_template none = pure-Ensures (inl refl)
      by_template (some t) = create_from-Locates h url name body.session_pods_cluster t

module _ {router : Router} (gin : Gin router) (h : Handler) where
  abbrev pub posting : HttpRequest → HttpRequest
  posting r = record r { method = post; path = sessions_path }

  sessions-Created :
      (r : HttpRequest)
      → Served router h (posting r) (Sessions.create_session h sessions_path r.uuid r.registration)
  unfolding handle routes
  sessions-Created r = routed gin h (posting r) (gin.takes.0 [] tt)

  -- If the request's body is read, and the new session's name is of the characters that a URI
  -- carries as they are, then, with gin choosing among the routes as documented, whenever posting
  -- it to the sessions is replied to with a location, the location is a URI of a path, and getting
  -- that path runs the handler that gets this very session.
  pub create_session-Leads :
      (r : HttpRequest) {body : RegisterSessionBody}
      → r.registration ≡ ok body
      → IsName (body.template_name ++ text "-" ++ r.uuid)
      → (s : Clusters) (history : List Request) {created : Reply} {uri : Bytes}
      → (serve router h (posting r) s history).0 ≡ ok created
      → created.location ≡ some uri
      → Leads router h r uri (Sessions.get_session h (body.template_name ++ text "-" ++ r.uuid))
  create_session-Leads r {body} parsed named s history {created} {uri} e located =
      elim (subst (Returns (Locates (sessions_path ++ text "/" ++ name))) replied
        ((create_session-Locates {s = s} h sessions_path r.uuid body).at history)) [
          | inl n ↦ absurd (none_absurd (sym n ∙ located))
          | inr q ↦
              subst (λ (x : Bytes). Leads router h r x (Sessions.get_session h name))
                (some_injective (sym q ∙ located)) (session-Leads gin h r name named)
        ]
    where
      name : Bytes
      name = body.template_name ++ text "-" ++ r.uuid

      replied : (Sessions.create_session h sessions_path r.uuid (ok body) s history).0 ≡ ok created
      replied =
          ap
            (λ (x : Result RegisterSessionBody).
              (Sessions.create_session h sessions_path r.uuid x s history).0)
            (sym parsed)
          ∙ sym (ap (λ (run : Exec Reply). (run s history).0) (sessions-Created r))
          ∙ e
