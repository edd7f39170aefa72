-- ===== src/Session/Reconciler/Publication.antt =====
-- session_controller.go and utils/status.go: when a status is published.
use xr_telepresence_k8s.Base.{
  none, some, [], inl, inr, ◌∷◌, bytes_eq, refl, ap, ℕ, List, [], ◌≡◌, none, arith, ◌==◌, false,
}
use xr_telepresence_k8s.Session.Allocation.Building.{bytes_cases}
use xr_telepresence_k8s.Base.Dict.{lookup-insert_self, lookup_or}
use xr_telepresence_k8s.Cluster.{update_session, Server, Call, update_session_status}
use xr_telepresence_k8s.Resources.Session.{Session, SessionStatus}
use xr_telepresence_k8s.Base.Text.{Bytes, text}
use xr_telepresence_k8s.Session.Reconciler.{
  publish_status, status_has_changed, set_status_hash_annotation,
}
use xr_telepresence_k8s.Effect.{ok}

-- The status hash that the session carries.

abbrev pub hash_of : Session → Bytes
hash_of session = lookup_or [] (text "statusHash") session.annotations

-- The server accepts the calls, and stores what it is sent.
pub record IsFaithful (s : Server) : Type 0 where
  pub accepts : (h : List Call) (c : Call) → s.write h c ≡ none
  pub keeps : (h : List Call) (x : Session) → s.stored h x ≡ x

hash_of-set_status_hash_annotation :
    (hash : Bytes) (session : Session) → hash_of (set_status_hash_annotation hash session) ≡ hash
unfolding set_status_hash_annotation lookup_or
hash_of-set_status_hash_annotation hash session =
    ap (λ found. elim found [ none ↦ [] | some v ↦ v ])
      (lookup-insert_self (text "statusHash") hash session.annotations)

module _ (uuid : ℕ → Bytes) (hash_status : SessionStatus → Bytes) where
  unchanged :
      (session : Session) (s : Server) (h : List Call)
      → hash_of session ≡ hash_status session.status
      → publish_status uuid hash_status session s h ≡ (ok session, h)
  unfolding publish_status status_has_changed
  unchanged session s h e = rw e (ground arith)

  changed :
      (session : Session) (s : Server) (h : List Call)
      → IsFaithful s
      → (hash_of session == hash_status session.status) ≡ false
      → (publish_status uuid hash_status session s h).0
        ≡ ok (set_status_hash_annotation (hash_status session.status) session)
  unfolding publish_status status_has_changed set_status_hash_annotation
  changed session s h f e =
      let tagged = set_status_hash_annotation (hash_status session.status) session in
      let sent = update_session_status session ∷ h in
      rw (e, f.accepts h (update_session_status session), f.keeps h session)
        (rw (f.accepts sent (update_session tagged), f.keeps sent tagged))

  -- If the server accepts the calls and stores what it is sent, publishing a status succeeds,
  -- leaves the status as it is and the session with the hash of its status, and publishing the
  -- result again makes no call.
  pub publish_status_again :
      (session : Session) (s : Server) (h : List Call)
      → IsFaithful s
      → (published : Session) × ((publish_status uuid hash_status session s h).0 ≡ ok published)
        × (published.status ≡ session.status)
        × (hash_of published ≡ hash_status session.status)
        × ((later : List Call)
            → publish_status uuid hash_status published s later ≡ (ok published, later))
  unfolding set_status_hash_annotation
  publish_status_again session s h f =
      let hash = hash_status session.status in
      let tagged = set_status_hash_annotation hash session in
      let e = hash_of-set_status_hash_annotation hash session in
      elim (bytes_cases (hash_of session) hash) [
        | inl (same, _) ↦ (
          session,
          ap (λ x. x.0) (unchanged session s h same),
          refl,
          same,
          λ later. unchanged session s later same,
        )
        | inr b ↦ (tagged, changed session s h f b, refl, e, λ later. unchanged tagged s later e)
      ]
