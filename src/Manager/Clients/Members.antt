-- ===== src/Manager/Clients/Members.antt =====
-- handlers/clients.go against a cluster that keeps what it is sent: a session's clients as a
-- function of their names, and the handlers as operations on it.
use xr_telepresence_k8s.Base.{
  ◌≡◌, refl, sym, ◌∙◌, inl, inr, Bool, true, false, Option, none, some, List, [], ◌∷◌, ◌==◌, ◌&&◌,
  bytes_eq, if◌then◌else◌, Bool-cases, ==-cases, ==-self, ==-comm,
}
use xr_telepresence_k8s.Base.Dict.{
  Dict, lookup, insert, erase, lookup-insert, NodupKeys, insert-NodupKeys, erase-NodupKeys,
}
use xr_telepresence_k8s.Base.Text.{Bytes}
use xr_telepresence_k8s.Resources.Session.{Session}
use xr_telepresence_k8s.Manager.Clusters.{
  Clusters, Request, Patch, set_clients, remove_client, patch_session, get_session, list_sessions,
  create_session, delete_session, get_ping_service,
}
use xr_telepresence_k8s.Manager.Sessions.{copy_into}
use xr_telepresence_k8s.Manager.Clients.Patching.{answer}
use xr_telepresence_k8s.Manager.Sessions.Sum.{over, lookup-copy_into}

-- Which clients a session has, and whether each is connected.
abbrev pub Members : Type 0
Members = Bytes → Option Bool

abbrev pub set_member : Bytes → Bool → Members → Members
set_member k connected m j = if j == k then some connected else m j

abbrev pub drop_member : Bytes → Members → Members
drop_member k m j = if j == k then none else m j

-- A merge patch keeps the keys that it does not name.
unfoldable pub merge : Patch → Dict Bytes Bool → Dict Bytes Bool
unfolding copy_into
merge (set_clients new) clients = copy_into clients new
merge (remove_client k) clients = erase k clients

-- The clients of a session in a cluster, after the requests.
unfoldable pub clients_after : Bytes → Bytes → Dict Bytes Bool → List Request → Dict Bytes Bool
unfolding merge
clients_after cluster id clients [] = clients
clients_after cluster id clients (patch_session c name patch ∷ h) =
    if c == cluster && name == id
    then merge patch (clients_after cluster id clients h)
    else clients_after cluster id clients h
clients_after cluster id clients (_ ∷ h) = clients_after cluster id clients h

copy_into-NodupKeys : (to from : Dict Bytes Bool) → NodupKeys to → NodupKeys (copy_into to from)
unfolding copy_into
copy_into-NodupKeys to [] u = u
copy_into-NodupKeys to ((k, v) ∷ from) u =
    copy_into-NodupKeys (insert k v to) from (insert-NodupKeys k v to u)

merge-NodupKeys :
    (p : Patch) (clients : Dict Bytes Bool) → NodupKeys clients → NodupKeys (merge p clients)
unfolding merge
merge-NodupKeys (set_clients new) clients u = copy_into-NodupKeys clients new u
merge-NodupKeys (remove_client k) clients u = erase-NodupKeys k clients u

pub clients_after-NodupKeys :
    (cluster id : Bytes) (clients : Dict Bytes Bool) (h : List Request)
    → NodupKeys clients
    → NodupKeys (clients_after cluster id clients h)
unfolding clients_after
clients_after-NodupKeys cluster id clients [] u = u
clients_after-NodupKeys cluster id clients (patch_session c name p ∷ h) u =
    elim (Bool-cases (c == cluster && name == id)) [
      | inl b ↦ rw b (merge-NodupKeys p _ (clients_after-NodupKeys cluster id clients h u))
      | inr b ↦ rw b (clients_after-NodupKeys cluster id clients h u)
    ]
clients_after-NodupKeys cluster id clients (list_sessions _ ∷ h) u =
    clients_after-NodupKeys cluster id clients h u
clients_after-NodupKeys cluster id clients (get_session _ _ ∷ h) u =
    clients_after-NodupKeys cluster id clients h u
clients_after-NodupKeys cluster id clients (create_session _ _ ∷ h) u =
    clients_after-NodupKeys cluster id clients h u
clients_after-NodupKeys cluster id clients (delete_session _ _ ∷ h) u =
    clients_after-NodupKeys cluster id clients h u
clients_after-NodupKeys cluster id clients (get_ping_service _ ∷ h) u =
    clients_after-NodupKeys cluster id clients h u

-- Sending all clients with one changed changes that one.
pub merge-set :
    (k j : Bytes) (connected : Bool) (clients : Dict Bytes Bool)
    → NodupKeys clients
    → lookup j (merge (set_clients (insert k connected clients)) clients)
      ≡ set_member k connected (λ j. lookup j clients) j
unfolding merge
merge-set k j connected clients u =
    lookup-copy_into j clients (insert k connected clients) (insert-NodupKeys k connected clients u)
    ∙ rw (lookup-insert j k connected clients) (by_name (j == k))
  where
    overwritten : (o : Option Bool) → over o o ≡ o
    overwritten none = refl
    overwritten (some b) = refl

    by_name :
        (b : Bool)
        → over (if b then some connected else lookup j clients) (lookup j clients)
          ≡ (if b then some connected else lookup j clients)
    by_name true = refl
    by_name false = overwritten (lookup j clients)

module _ (id : Bytes) (of : Bytes → Option Session) where
  abbrev pub now_at : Bytes → List Request → Session → Session
  now_at cluster h x = record x {
    spec = record spec_ { clients = clients_after cluster id x.spec.clients h };
  }
    where
      open x use {spec as spec_}

  abbrev pub kept : Bytes → List Request → Option Session → Option Session
  kept cluster h none = none
  kept cluster h (some x) = some (now_at cluster h x)

  -- The session in a cluster, after the requests.
  abbrev pub current : List Request → Bytes → Option Session
  current h cluster = kept cluster h (of cluster)

  abbrev pub members_of : Option Session → Members
  members_of none k = none
  members_of (some x) k = lookup k x.spec.clients

  abbrev pub members : List Request → Bytes → Members
  members h cluster = members_of (current h cluster)

  -- Every cluster answers with its session as the requests have left it.
  pub record Keeping (s : Clusters) : Type 0 where
    pub answers :
        (h : List Request) (cluster : Bytes) → s.session h cluster id ≡ answer (current h cluster)
    pub accepts : (h : List Request) (r : Request) → s.write h r ≡ none
    pub named : (cluster : Bytes) {x : Session} → of cluster ≡ some x → x.name ≡ id
    pub unique : (cluster : Bytes) {x : Session} → of cluster ≡ some x → NodupKeys x.spec.clients

  -- A patch of the session of that name.
  pub members-patched :
      {s : Clusters} (keeping : Keeping s) (h : List Request) (cluster c : Bytes) (p : Patch)
      (x : Session)
      → of cluster ≡ some x
      → (j : Bytes)
      → members (patch_session cluster id p ∷ h) c j ≡ (
          if c == cluster
          then lookup j (merge p (clients_after cluster id x.spec.clients h))
          else members h c j)
  unfolding clients_after
  members-patched keeping h cluster c p x e j = elim (==-cases c cluster) [
    | inl (same, b) ↦ rw (b, same) (rw e (rw (==-self cluster, ==-self id) refl))
    | inr b ↦ rw b (elsewhere (sym (==-comm c cluster) ∙ b) (of c))
  ]
    where
      elsewhere :
          (cluster == c) ≡ false
          → (o : Option Session)
          → members_of (kept c (patch_session cluster id p ∷ h) o) j ≡ members_of (kept c h o) j
      elsewhere d none = refl
      elsewhere d (some y) = rw d refl
