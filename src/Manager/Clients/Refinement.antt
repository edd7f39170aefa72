-- ===== src/Manager/Clients/Refinement.antt =====
-- handlers/clients.go: what the handlers that change clients make of the members of the sessions.
use xr_telepresence_k8s.Base.{
  ◌≡◌, refl, sym, ap, ◌∙◌, subst, inl, inr, true, Option, none, some, List, [], ◌∷◌, ◌==◌, bytes_eq,
  if◌then◌else◌, contains, Option-cases, ==-cases,
}
use xr_telepresence_k8s.Base.Panic.{some_injective, none_absurd}
use xr_telepresence_k8s.Base.Dict.{lookup, insert, lookup-erase, NodupKeys}
use xr_telepresence_k8s.Base.Text.{Bytes}
use xr_telepresence_k8s.Resources.Session.{Session}
use xr_telepresence_k8s.Effect.{ok}
use xr_telepresence_k8s.Manager.Clusters.{
  Clusters, Request, Patch, set_clients, remove_client, patch_session, get_session, reply, null,
  status_ok, patch_clients, or_clients,
}
use xr_telepresence_k8s.Manager.Sessions.{Handler}
use xr_telepresence_k8s.Manager.Clients.{
  create_client, add_new_client, update_client, delete_client, CreateClientBody, UpdateClientBody,
  find_session_by_client_id, match_client,
}
use xr_telepresence_k8s.Manager.Clients.Patching.{holder, holder_of, found_at}
use xr_telepresence_k8s.Manager.Clients.Members.{
  Members, set_member, drop_member, merge, clients_after, clients_after-NodupKeys, merge-set, kept,
  current, members_of, members, Keeping, members-patched,
}
use xr_telepresence_k8s.Manager.Clients

holder-at :
    (of : Bytes → Option Session) (k : Bytes) (clusters : List Bytes) {cluster : Bytes}
    {x : Session}
    → holder of k clusters ≡ some (cluster, x)
    → of cluster ≡ some x
holder-at of k [] h = absurd (none_absurd h)
holder-at of k (c ∷ cs) {cluster} {x} h = elim (Option-cases (of c)) [
  | inl e ↦ holder-at of k cs (rw (e, holder_of) at h)
  | inr (y, e) ↦ elim (Option-cases (lookup k y.spec.clients)) [
    | inl f ↦ holder-at of k cs (rw (e, holder_of, f) at h)
    | inr (_, f) ↦ here y e (some_injective (rw (e, holder_of, f) at h))
  ]
]
  where
    here :
        (y : Session)
        → of c ≡ some y
        → ◌≡◌ {A = Bytes × Session} (c, y) (cluster, x)
        → of cluster ≡ some x
    here y e q = subst (λ (p : Bytes × Session). of p.0 ≡ some p.1) q e

module _ (id : Bytes) (of : Bytes → Option Session) {s : Clusters} (keeping : Keeping id of s) where
  abbrev at : List Request → Bytes → Option Session
  at = current id of

  asking_changes_nothing :
      (c : Bytes) (h : List Request) (o : Option Session) (d n : Bytes)
      → kept id of c (get_session d n ∷ h) o ≡ kept id of c h o
  unfolding clients_after
  asking_changes_nothing c h none d n = refl
  asking_changes_nothing c h (some x) d n = refl

  at-asked : (h : List Request) (d n : Bytes) → at (get_session d n ∷ h) ≡ at h
  at-asked h d n = λ i c. asking_changes_nothing c h (of c) d n i

  -- The search leaves every session as it is.
  find_kept :
      (k : Bytes) (clusters : List Bytes) (h : List Request)
      → (h' : List Request) × (find_session_by_client_id clusters id k s h
          ≡ (found_at (holder (at h) k clusters), h'))
        × (at h' ≡ at h)
  unfolding find_session_by_client_id match_client
  find_kept k [] h = (h, refl, refl)
  find_kept k (c ∷ cs) h =
      let (h', e, same) = find_kept k cs (get_session c id ∷ h) in
      let asked = at-asked h c id in
      let e' =
        subst
          (λ (o : Bytes → Option Session).
            find_session_by_client_id cs id k s (get_session c id ∷ h)
            ≡ (found_at (holder o k cs), h'))
          asked e in
      elim (Option-cases (at h c)) [
        | inl f ↦ (h', rw (keeping.answers h c, f) e', same ∙ asked)
        | inr (x, f) ↦ elim (Option-cases (lookup k x.spec.clients)) [
          | inl g ↦
              (h', rw (keeping.answers h c, f) (rw (g, match_client, holder_of) e'), same ∙ asked)
          | inr (_, g) ↦ (
            get_session c id ∷ h,
            rw (keeping.answers h c, f) (rw (g, match_client, holder_of) refl),
            asked,
          )
        ]
      ]

  -- What a patch of the session of a cluster does to the members.
  patched :
      (h h' : List Request)
      → at h' ≡ at h
      → (cluster c : Bytes) (p : Patch) {y : Session} → at h cluster ≡ some y
      → (j : Bytes)
      → members id of (patch_session cluster y.name p ∷ h') c j
        ≡ (if c == cluster then lookup j (merge p y.spec.clients) else members id of h c j)
  patched h h' same cluster c p {y} e j = elim (Option-cases (of cluster)) [
    | inl f ↦ absurd (none_absurd (rw f at e))
    | inr (x, f) ↦
        subst
          (λ (z : Session).
            members id of (patch_session cluster z.name p ∷ h') c j
            ≡ (if c == cluster then lookup j (merge p z.spec.clients) else members id of h c j))
          (some_injective (rw f at ((λ i. same i cluster) ∙ e))) (there x f)
  ]
    where
      there :
          (x : Session)
          → of cluster ≡ some x
          → members id of (patch_session cluster x.name p ∷ h') c j ≡ (
              if c == cluster
              then lookup j (merge p (clients_after cluster id x.spec.clients h'))
              else members id of h c j)
      there x f = rw (keeping.named cluster f) (
          members-patched id of keeping h' cluster c p x f j
          ∙ ap
              (λ (a : Bytes → Option Session).
                if c == cluster
                then lookup j (merge p (clients_after cluster id x.spec.clients h'))
                else members_of id of (a c) j)
              same)

  sent :
      (x : Session) (cluster : Bytes) (patch : Option Patch) (h : List Request)
      → Clients.patch_session x cluster patch s h
        ≡ (ok (reply status_ok null), patch_session cluster x.name (or_clients patch x) ∷ h)
  unfolding Clients.patch_session patch_clients
  sent x cluster patch h =
      rw (keeping.accepts h (patch_session cluster x.name (or_clients patch x))) refl

  -- The members of each cluster after an operation on those of one of them.
  abbrev pub Becomes : List Request → List Request → Bytes → (Members → Members) → Type 0
  Becomes h h' cluster f =
      (c j : Bytes)
      → members id of h' c j
        ≡ (if c == cluster then f (members id of h c) j else members id of h c j)

  becomes :
      (h h' : List Request)
      → at h' ≡ at h
      → (cluster : Bytes) (p : Patch) (f : Members → Members) {y : Session} → at h cluster ≡ some y
      → ((j : Bytes) → lookup j (merge p y.spec.clients) ≡ f (λ j. lookup j y.spec.clients) j)
      → Becomes h (patch_session cluster y.name p ∷ h') cluster f
  becomes h h' same cluster p f {y} e merged c j =
      patched h h' same cluster c p e j ∙ elim (==-cases c cluster) [
        | inl (q, b) ↦
            rw b (
              merged j
              ∙ ap (λ (o : Option Session). f (members_of id of o) j) (sym (rw (← q) at e)))
        | inr b ↦ rw b refl
      ]

  unique_now :
      (h : List Request) (cluster : Bytes) {y : Session}
      → at h cluster ≡ some y
      → NodupKeys y.spec.clients
  unique_now h cluster {y} e = elim (Option-cases (of cluster)) [
    | inl f ↦ absurd (none_absurd (rw f at e))
    | inr (x, f) ↦
        subst (λ (z : Session). NodupKeys z.spec.clients) (some_injective (rw f at e))
          (clients_after-NodupKeys cluster id x.spec.clients h (keeping.unique cluster f))
  ]

  -- If every cluster answers with its session as the patches so far have left it, and accepts
  -- every patch, and some cluster's session has the client, updating the client succeeds, sets the
  -- client's connection in the first such cluster, and changes no other client in any cluster.
  pub update_client-Refines :
      (handler : Handler) (k : Bytes) (body : UpdateClientBody) (h : List Request) {cluster : Bytes}
      {y : Session}
      → holder (at h) k handler.clusters ≡ some (cluster, y)
      → (h' : List Request) × (update_client handler id k (ok body) s h
          ≡ (ok (reply status_ok null), h'))
        × Becomes h h' cluster (set_member k body.connected)
  unfolding update_client
  update_client-Refines handler k body h {cluster} {y} held =
      let (h', found, same) = find_kept k handler.clusters h in
      let e = holder-at (at h) k handler.clusters held in
      (
        _,
        rw (found, held) (sent (Clients.with_client k body.connected y) cluster none h'),
        becomes h h' same cluster _ (set_member k body.connected) e
            (λ j. merge-set k j body.connected y.spec.clients (unique_now h cluster e)),
      )

  -- If every cluster answers with its session as the patches so far have left it, and accepts
  -- every patch, and some cluster's session has the client, deleting the client succeeds, takes
  -- the client out of the first such cluster's session, and changes no other client in any
  -- cluster.
  pub delete_client-Refines :
      (handler : Handler) (k : Bytes) (h : List Request) {cluster : Bytes} {y : Session}
      → holder (at h) k handler.clusters ≡ some (cluster, y)
      → (h' : List Request) × (delete_client handler id k s h ≡ (ok (reply status_ok null), h'))
        × Becomes h h' cluster (drop_member k)
  unfolding delete_client merge
  delete_client-Refines handler k h {cluster} {y} held =
      let (h', found, same) = find_kept k handler.clusters h in
      let e = holder-at (at h) k handler.clusters held in
      (
        patch_session cluster y.name (remove_client k) ∷ h',
        rw (found, held) (sent y cluster (some (remove_client k)) h'),
        becomes h h' same cluster _ (drop_member k) e (λ j. lookup-erase j k y.spec.clients),
      )

  -- If every cluster answers with its session as the patches so far have left it, and accepts
  -- every patch, and the cluster of the body is configured and its session lacks the client,
  -- creating the client succeeds, adds it to that cluster's session as connected, and changes no
  -- other client in any cluster.
  pub create_client-Refines :
      (handler : Handler) (body : CreateClientBody) (h : List Request) {y : Session}
      → contains handler.clusters body.cluster ≡ true
      → at h body.cluster ≡ some y
      → lookup body.client_id y.spec.clients ≡ none
      → (h' : List Request) × (create_client handler id (ok body) s h
          ≡ (ok (reply status_ok null), h'))
        × Becomes h h' body.cluster (set_member body.client_id true)
  unfolding create_client add_new_client
  create_client-Refines handler body h {y} configured e new =
      let asked = get_session body.cluster id ∷ h in
      (
        patch_session body.cluster y.name (set_clients (insert body.client_id true y.spec.clients))
            ∷ asked,
        rw (configured, keeping.answers h body.cluster, e)
            (rw (new, add_new_client)
              (sent (Clients.with_client body.client_id true y) body.cluster none asked)),
        becomes h asked (at-asked h body.cluster id) body.cluster _ (set_member body.client_id true)
            e (λ j. merge-set body.client_id j true y.spec.clients (unique_now h body.cluster e)),
      )
