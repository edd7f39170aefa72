-- ===== src/Session/Clients/Keeps.antt =====
-- client_pods.go: the rounds over the status keep what does not depend on when a client was seen.
use xr_telepresence_k8s.Base.{
  ℕ, ◌≡◌, refl, inl, inr, Bool, true, false, Option, none, some, List, [], ◌∷◌, bytes_eq,
  Bool-cases, Option-cases,
}
use xr_telepresence_k8s.Base.Dict.{Dict, lookup, Every, Every-insert, Every-lookup}
use xr_telepresence_k8s.Base.Text.{Bytes}
use xr_telepresence_k8s.Resources.Session.{ClientStatus}
use xr_telepresence_k8s.Session.Clients.{
  client_has_expired, clean_expired_clients_from_status, client_change, write_change,
  handle_client_changes_from, handle_client_changes, remove_departed_clients, is_connected,
}

module _ (P : ClientStatus → Type 0)
    (seen : (v : ClientStatus) (n : ℕ) → P v → P (record v { last_seen_at = n })) where
  abbrev AllKeep : Dict Bytes ClientStatus → Type 0
  AllKeep = Every (λ _ v. P v)

  clean_expired-Keeps :
      (now n : ℕ) (m : Dict Bytes ClientStatus)
      → AllKeep m
      → AllKeep (clean_expired_clients_from_status now m n)
  unfolding clean_expired_clients_from_status
  clean_expired-Keeps now n [] _ = tt
  clean_expired-Keeps now n ((k, v) ∷ m) (p, ps) =
      elim (Bool-cases (client_has_expired now v.last_seen_at n)) [
        | inl b ↦ rw b (clean_expired-Keeps now n m ps)
        | inr b ↦ rw b (p, clean_expired-Keeps now n m ps)
      ]

  remove_departed-Keeps :
      (spec : Dict Bytes Bool) (m : Dict Bytes ClientStatus)
      → AllKeep m
      → AllKeep (remove_departed_clients spec m)
  unfolding remove_departed_clients
  remove_departed-Keeps spec [] _ = tt
  remove_departed-Keeps spec ((k, v) ∷ m) (p, ps) = elim (Option-cases (lookup k spec)) [
    | inl e ↦ rw (remove_departed_clients, e) (remove_departed-Keeps spec m ps)
    | inr (c, e) ↦ rw (remove_departed_clients, e) (p, remove_departed-Keeps spec m ps)
  ]

  abbrev KeepsChange : Option ClientStatus → Type 0
  KeepsChange none = Unit
  KeepsChange (some v) = P v

  client_change-Keeps :
      (now : ℕ) (connected : Bool) (status : Option ClientStatus)
      → KeepsChange status
      → KeepsChange (client_change now connected status).0
  unfolding client_change
  client_change-Keeps now connected none _ = tt
  client_change-Keeps now true (some v) p = seen v _ p
  client_change-Keeps now false (some v) p = elim (Bool-cases (is_connected v.last_seen_at)) [
    | inl b ↦ rw b (seen v _ p)
    | inr b ↦ rw b tt
  ]

  write_change-Keeps :
      (k : Bytes) (change : Option ClientStatus) (m : Dict Bytes ClientStatus)
      → KeepsChange change
      → AllKeep m
      → AllKeep (write_change k change m)
  write_change-Keeps k none m _ ps = ps
  write_change-Keeps k (some v) m p ps = Every-insert (λ _ v. P v) k v m p ps

  handle_client_changes_from-Keeps :
      (now : ℕ) (spec : Dict Bytes Bool) (m : Dict Bytes ClientStatus) (new : List Bytes)
      → AllKeep m
      → AllKeep (handle_client_changes_from now spec m new).1
  unfolding handle_client_changes_from
  handle_client_changes_from-Keeps now [] m new ps = ps
  handle_client_changes_from-Keeps now ((k, connected) ∷ spec) m new ps =
      handle_client_changes_from-Keeps now spec _ _ (
        write_change-Keeps k (client_change now connected (lookup k m)).0 m
          (client_change-Keeps now connected (lookup k m) (at (lookup k m) refl)) ps)
    where
      at : (o : Option ClientStatus) → lookup k m ≡ o → KeepsChange o
      at none e = tt
      at (some v) e = Every-lookup (λ _ v. P v) k m e ps

  -- What holds of every entry still does after the clients' changes.
  pub lifecycle-Keeps :
      (now n : ℕ) (spec : Dict Bytes Bool) (m : Dict Bytes ClientStatus)
      → AllKeep m
      → AllKeep (
          remove_departed_clients spec
            (handle_client_changes now spec (clean_expired_clients_from_status now m n)).1)
  unfolding handle_client_changes
  lifecycle-Keeps now n spec m ps = remove_departed-Keeps spec _ (
      handle_client_changes_from-Keeps now spec (clean_expired_clients_from_status now m n) []
        (clean_expired-Keeps now n m ps))
