-- ===== src/Session/Events/Wakes.antt =====
-- utils/predicates.go: the updates of a session that wake the controller.
use xr_telepresence_k8s.Base.{
  suc, ◌≡◌, refl, ◌↔◌, Bool, false, Option, none, some, [], ◌∷◌, arith, bytes_eq, nat_eq, bool_eq,
  length, ◌∙◌, ◌||◌,
}
use xr_telepresence_k8s.Base.Dict.{
  Dict, lookup, erase, NodupKeys, lookup-cons, lookup-erase, erase-NodupKeys,
}
use xr_telepresence_k8s.Base.Text.{Bytes}
use xr_telepresence_k8s.Resources.Session.{Session}
use xr_telepresence_k8s.Session.Events.{client_differs, some_client_differs, session_update_func}

length-erase_absent :
    (k : Bytes) (d : Dict Bytes Bool) → lookup k d ≡ none → length (erase k d) ≡ length d
unfolding erase lookup
length-erase_absent k [] h = refl
length-erase_absent k ((j, w) ∷ d) h = ground (arith, length-erase_absent k d)

length-erase :
    (k : Bytes) (d : Dict Bytes Bool) {v : Bool}
    → NodupKeys d
    → lookup k d ≡ some v
    → length d ≡ suc (length (erase k d))
unfolding erase lookup
length-erase k [] u h = cc
length-erase k ((j, w) ∷ d) {v} (fresh, u) h =
    ground (arith, fresh, length-erase_absent j d fresh, length-erase k d {v = v} u)

client_differs_iff :
    (v : Option Bool) (connected : Bool)
    → (client_differs v connected ≡ false) ↔ (v ≡ some connected)
unfolding client_differs
client_differs_iff none connected = ground arith
client_differs_iff (some v) connected = ground arith

differs-erase :
    (k : Bytes) (old new : Dict Bytes Bool)
    → lookup k new ≡ none
    → some_client_differs old new ≡ false
    → some_client_differs (erase k old) new ≡ false
unfolding some_client_differs lookup
differs-erase k old [] absent h = refl
differs-erase k old ((j, w) ∷ new) absent h =
    ground (arith, absent, h, lookup-erase j k old, differs-erase k old new)

some_client_differs-same :
    (old new : Dict Bytes Bool)
    → NodupKeys old
    → NodupKeys new
    → length old ≡ length new
    → some_client_differs old new ≡ false
    → (j : Bytes) → lookup j old ≡ lookup j new
unfolding some_client_differs
some_client_differs-same [] [] u w l h j = refl
some_client_differs-same (_ ∷ old) [] u w l h j = absurd (omega arith)
some_client_differs-same old ((k, v) ∷ new) u (fresh, w) l h j =
    let at_k : lookup k old ≡ some v =
      (client_differs_iff (lookup k old) v).0 (both (client_differs (lookup k old) v) _ h).0 in
    let rest = (both (client_differs (lookup k old) v) _ h).1 in
    let more =
      some_client_differs-same (erase k old) new (erase-NodupKeys k old u) w
        (omega (arith, l, length-erase k old {v = v} u at_k)) (differs-erase k old new fresh rest)
        j in
    ground (arith, at_k, more, lookup-erase j k old, lookup-cons j k v new)
  where
    both : (a b : Bool) → (a || b) ≡ false → (a ≡ false) × (b ≡ false)
    both a b h = ground arith

differs_nowhere :
    (old new : Dict Bytes Bool)
    → NodupKeys new
    → ((id : Bytes) → (v : Bool) → lookup id new ≡ some v → lookup id old ≡ some v)
    → some_client_differs old new ≡ false
unfolding some_client_differs
differs_nowhere old [] w same = refl
differs_nowhere old ((k, v) ∷ new) (fresh, w) same =
    let at_k =
      (client_differs_iff (lookup k old) v).1 (same k v (lookup-cons k k v new ∙ ground arith)) in
    rw at_k (
      differs_nowhere old new w
        λ id x e. same id x (lookup-cons id k v new ∙ ground (arith, fresh, e)))

-- The two specs list the same clients, with the same connections.
abbrev pub SameClients : Session → Session → Type 0
SameClients old new =
    (length old.spec.clients ≡ length new.spec.clients)
    × ((id : Bytes) → lookup id old.spec.clients ≡ lookup id new.spec.clients)

-- For two specs without repeated keys, an update of a session does not wake the controller exactly
-- when the specs list the same number of clients and every client is in both with the same
-- connection or in neither.
pub session_update_func_iff :
    (old new : Session)
    → NodupKeys old.spec.clients
    → NodupKeys new.spec.clients
    → (session_update_func old new ≡ false) ↔ SameClients old new
unfolding session_update_func nat_eq
session_update_func_iff old new u w = (asleep, awake)
  where
    asleep : session_update_func old new ≡ false → SameClients old new
    asleep h =
        let l : length old.spec.clients ≡ length new.spec.clients = ground arith in
        (l, some_client_differs-same old.spec.clients new.spec.clients u w l (ground (arith, h)))

    awake : SameClients old new → session_update_func old new ≡ false
    awake (l, same) =
        rw (differs_nowhere old.spec.clients new.spec.clients w (λ id v e. same id ∙ e))
          (ground arith)
