-- ===== src/Manager/Sessions/Sum.antt =====
-- handlers/session.go: the session that findSession sums up.
use xr_telepresence_k8s.Base.{
  ◌≡◌, refl, ◌∙◌, ap, Option, none, some, List, [], ◌∷◌, arith, bytes_eq, Bool,
}
use xr_telepresence_k8s.Base.Dict.{
  Dict, lookup, insert, NodupKeys, lookup-insert, lookup-cons, lookup-nil,
}
use xr_telepresence_k8s.Base.Text.{Bytes}
use xr_telepresence_k8s.Manager.Sessions.{
  copy_into, add_session, find_session_from, find_session, empty_session,
}
use xr_telepresence_k8s.Resources.Session.{Session}
use xr_telepresence_k8s.Manager.Clusters.{Clusters, Request}
use xr_telepresence_k8s.Effect.{ok}

abbrev pub over {ℓ} : {V : Type ℓ} → Option V → Option V → Option V
over none old = old
over (some v) old = some v

pub lookup-copy_into {ℓ} :
    {V : Type ℓ} (k : Bytes) (to from : Dict Bytes V)
    → NodupKeys from
    → lookup k (copy_into to from) ≡ over (lookup k from) (lookup k to)
unfolding copy_into
lookup-copy_into k to [] u = rw (lookup-nil k)
lookup-copy_into k to ((j, v) ∷ from) (fresh, u) = ground (
  arith,
  fresh,
  lookup-copy_into k (insert j v to) from u,
  lookup-insert k j v to,
  lookup-cons k j v from,
)

module _ (of : Bytes → Session) where
  -- The client's entry in the last cluster that has one.
  abbrev pub last_entry : Bytes → List Bytes → Option Bool → Option Bool
  last_entry k [] found = found
  last_entry k (cluster ∷ clusters) found =
      last_entry k clusters (over (lookup k (of cluster).spec.clients) found)

  abbrev sum_from : Session → List Bytes → Session
  sum_from sum [] = sum
  sum_from sum (cluster ∷ clusters) = sum_from (add_session sum (of cluster)) clusters

  find_session_from-sum :
      (id : Bytes) (clusters : List Bytes) (sum : Session) (s : Clusters) (h : List Request)
      → ((h : List Request) (cluster : Bytes) → s.session h cluster id ≡ ok (of cluster))
      → (find_session_from id sum clusters s h).0 ≡ ok (sum_from sum clusters)
  unfolding find_session_from
  find_session_from-sum id [] sum s h answers = refl
  find_session_from-sum id (cluster ∷ clusters) sum s h answers =
      rw (answers h cluster) (find_session_from-sum id clusters _ s _ answers)

  lookup-sum_from :
      (k : Bytes) (sum : Session) (clusters : List Bytes)
      → ((cluster : Bytes) → NodupKeys (of cluster).spec.clients)
      → lookup k (sum_from sum clusters).spec.clients
        ≡ last_entry k clusters (lookup k sum.spec.clients)
  unfolding add_session
  lookup-sum_from k sum [] u = refl
  lookup-sum_from k sum (cluster ∷ clusters) u =
      lookup-sum_from k (add_session sum (of cluster)) clusters u
      ∙ ap (last_entry k clusters)
          (lookup-copy_into k sum.spec.clients (of cluster).spec.clients (u cluster))

  -- If every cluster answers with its session, always the same and without repeated clients, the
  -- session is found, and the entry of each client in it is the one of the last cluster that has
  -- the client.
  pub find_session-clients :
      (id : Bytes) (clusters : List Bytes) (s : Clusters) (h : List Request)
      → ((h : List Request) (cluster : Bytes) → s.session h cluster id ≡ ok (of cluster))
      → ((cluster : Bytes) → NodupKeys (of cluster).spec.clients)
      → (sum : Session) × ((find_session id clusters s h).0 ≡ ok sum)
        × ((client : Bytes) → lookup client sum.spec.clients ≡ last_entry client clusters none)
  unfolding find_session
  find_session-clients id clusters s h answers u = (
    sum_from (empty_session id) clusters,
    find_session_from-sum id clusters (empty_session id) s h answers,
    λ client.
        lookup-sum_from client (empty_session id) clusters u
        ∙ ap (last_entry client clusters) (lookup-nil client),
  )
