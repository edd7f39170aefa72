-- ===== src/Session/Clients/Lifecycle.antt =====
-- client_pods.go: what one client goes through in the status, whatever the order of the loops.
use xr_telepresence_k8s.Base.{
  ℕ, ◌+◌, ◌*◌, ◌<◌, ◌≤◌, ◌^◌, ◌≡◌, refl, ◌↔◌, true, false, Option, none, some, [], ◌∷◌, nat_eq,
  bytes_eq, if◌then◌else◌, arith, Bool, List, ◌==◌, contains, ◌++◌, ◌||◌, ◌&&◌, not, ltb, leb, ◌/◌,
  ◌%◌,
}
use xr_telepresence_k8s.Base.Dict.{Dict, lookup, NodupKeys, lookup-nil, lookup-insert, lookup-cons}
use xr_telepresence_k8s.Base.Text.{Bytes}
use xr_telepresence_k8s.Resources.Session.{ClientStatus, nanos_per_second, default_time}
use xr_telepresence_k8s.Session.Clients.{
  is_connected, client_has_expired, clean_expired_clients_from_status, client_change,
  handle_client_changes_from, write_change, handle_client_changes, remove_departed_clients,
}

-- If the grace period fits 63 bits and the client is not connected, the client has expired exactly
-- when the period since it was seen is over.
pub client_has_expired_iff :
    (now last_seen n : ℕ)
    → n * nanos_per_second < 2 ^ 63
    → is_connected last_seen ≡ false
    → (client_has_expired now last_seen n ≡ true) ↔ (last_seen + n * nanos_per_second ≤ now)
unfolding client_has_expired nat_eq
client_has_expired_iff now last_seen n h lost = ground arith

-- The second that marks a connected client: one hour, one minute and one second into the year 1.
abbrev pub is_marked : ℕ → Bool
is_marked last_seen = last_seen / 1000000000 == 3661

-- A period of `n` seconds since then is over, at its last instant too. The period in nanoseconds
-- is what 64 bits hold of it, and is negative from half of them on.
abbrev pub period_is_over : ℕ → ℕ → ℕ → Bool
period_is_over now last_seen n =
    let period = n * 1000000000 % 2 ^ 64 in
    if ltb period (2 ^ 63)
    then leb (last_seen + period) now
    else leb (last_seen + period) (now + 2 ^ 64)

abbrev pub is_gone : ℕ → ℕ → ℕ → Bool
is_gone now last_seen n = not (is_marked last_seen) && period_is_over now last_seen n

client_has_expired-is_gone :
    (now last_seen n : ℕ) → client_has_expired now last_seen n ≡ is_gone now last_seen n
unfolding client_has_expired nat_eq
client_has_expired-is_gone now last_seen n = ground arith

abbrev pub unexpired : ℕ → ℕ → Option ClientStatus → Option ClientStatus
unexpired now n none = none
unexpired now n (some v) = if is_gone now v.last_seen_at n then none else some v

clean_absent :
    (now n : ℕ) (k : Bytes) (m : Dict Bytes ClientStatus)
    → lookup k m ≡ none
    → lookup k (clean_expired_clients_from_status now m n) ≡ none
unfolding clean_expired_clients_from_status lookup
clean_absent now n k [] h = refl
clean_absent now n k ((j, v) ∷ m) h = ground (arith, clean_absent now n k m)

-- If the status has no repeated keys, cleaning takes out the entries that have expired and leaves
-- the others as they are.
pub lookup-clean_expired :
    (now n : ℕ) (k : Bytes) (m : Dict Bytes ClientStatus)
    → NodupKeys m
    → lookup k (clean_expired_clients_from_status now m n) ≡ unexpired now n (lookup k m)
unfolding clean_expired_clients_from_status lookup
lookup-clean_expired now n k [] u = refl
lookup-clean_expired now n k ((j, v) ∷ m) (fresh, u) = ground (
  arith,
  client_has_expired-is_gone now v.last_seen_at n,
  lookup-clean_expired now n k m u,
  clean_absent now n j m fresh,
)

-- What the spec's entry of a client makes of its entry in the status.
abbrev changed : ℕ → Option Bool → Option ClientStatus → Option ClientStatus
changed now none status = status
changed now (some connected) none = none
changed now (some true) (some v) = some (record v { last_seen_at = default_time })
changed now (some false) (some v) =
    if is_connected v.last_seen_at then some (record v { last_seen_at = now }) else some v

abbrev pub joins : Option Bool → Option ClientStatus → Bool
joins (some true) none = true
joins _ _ = false

write_change-changed_at :
    (now : ℕ) (j k : Bytes) (connected : Bool) (m : Dict Bytes ClientStatus)
    (match : Option ClientStatus)
    → lookup k m ≡ match
    → lookup j (write_change k (client_change now connected match).0 m)
      ≡ (if j == k then changed now (some connected) match else lookup j m)
unfolding client_change
write_change-changed_at now j k connected m none e = ground arith
write_change-changed_at now j k true m (some v) e =
    ground (arith, lookup-insert j k (record v { last_seen_at = default_time }) m)
write_change-changed_at now j k false m (some v) e =
    ground (arith, lookup-insert j k (record v { last_seen_at = now }) m)

write_change-changed :
    (now : ℕ) (j k : Bytes) (connected : Bool) (m : Dict Bytes ClientStatus)
    → lookup j (write_change k (client_change now connected (lookup k m)).0 m)
      ≡ (if j == k then changed now (some connected) (lookup k m) else lookup j m)
write_change-changed now j k connected m = write_change-changed_at now j k connected m _ refl

lookup-handle_client_changes_from :
    (now : ℕ) (k : Bytes) (spec : Dict Bytes Bool) (m : Dict Bytes ClientStatus) (new : List Bytes)
    → NodupKeys spec
    → lookup k (handle_client_changes_from now spec m new).1
      ≡ changed now (lookup k spec) (lookup k m)
unfolding handle_client_changes_from
lookup-handle_client_changes_from now k [] m new u = rw lookup-nil
lookup-handle_client_changes_from now k ((j, connected) ∷ spec) m new (fresh, u) =
    rw
      (
        lookup-handle_client_changes_from now k spec _ _ u,
        write_change-changed now k j connected m,
        lookup-cons k j connected spec,
      )
      (ground (arith, fresh))

contains-append_one :
    (k j : Bytes) (xs : List Bytes) → contains (xs ++ j ∷ []) k ≡ (contains xs k || k == j)
contains-append_one k j [] = ground arith
contains-append_one k j (x ∷ xs) = ground (arith, contains-append_one k j xs)

contains-when_new :
    (k j : Bytes) (is_new : Bool) (xs : List Bytes)
    → contains (if is_new then xs ++ j ∷ [] else xs) k ≡ (contains xs k || (is_new && k == j))
contains-when_new k j true xs = contains-append_one k j xs
contains-when_new k j false xs = ground arith

client_change-joins :
    (now : ℕ) (connected : Bool) (status : Option ClientStatus)
    → (client_change now connected status).1 ≡ joins (some connected) status
unfolding client_change
client_change-joins now true none = refl
client_change-joins now false none = refl
client_change-joins now true (some v) = ground arith
client_change-joins now false (some v) = ground arith

contains-handle_client_changes_from :
    (now : ℕ) (k : Bytes) (spec : Dict Bytes Bool) (m : Dict Bytes ClientStatus) (new : List Bytes)
    → NodupKeys spec
    → contains (handle_client_changes_from now spec m new).0 k
      ≡ (contains new k || joins (lookup k spec) (lookup k m))
unfolding handle_client_changes_from
contains-handle_client_changes_from now k [] m new u = rw lookup-nil (ground arith)
contains-handle_client_changes_from now k ((j, connected) ∷ spec) m new (fresh, u) =
    rw
      (
        contains-handle_client_changes_from now k spec _ _ u,
        write_change-changed now k j connected m,
        lookup-cons k j connected spec,
        contains-when_new k j (client_change now connected (lookup j m)).1 new,
        client_change-joins now connected (lookup j m),
      )
      (ground (arith, fresh))

-- If the spec has no repeated keys, a client is reported as new exactly when the spec has it
-- connected and the status lacks it.
pub contains-handle_client_changes :
    (now : ℕ) (k : Bytes) (spec : Dict Bytes Bool) (m : Dict Bytes ClientStatus)
    → NodupKeys spec
    → (contains (handle_client_changes now spec m).0 k ≡ true)
      ↔ ((lookup k spec ≡ some true) × (lookup k m ≡ none))
unfolding handle_client_changes
contains-handle_client_changes now k spec m u =
    ground (arith, contains-handle_client_changes_from now k spec m [] u)

abbrev stays : Option Bool → Option ClientStatus → Option ClientStatus
stays none status = none
stays (some _) status = status

lookup-remove_departed :
    (k : Bytes) (spec : Dict Bytes Bool) (m : Dict Bytes ClientStatus)
    → lookup k (remove_departed_clients spec m) ≡ stays (lookup k spec) (lookup k m)
unfolding remove_departed_clients lookup
lookup-remove_departed k spec [] = ground arith
lookup-remove_departed k spec ((j, v) ∷ m) = ground (arith, lookup-remove_departed k spec m)

-- The life of a client: absent from the spec it leaves; a grace period that is over ends it; a
-- connection puts the clock back; a lost connection starts it, once.
abbrev pub next_status : ℕ → ℕ → Option Bool → Option ClientStatus → Option ClientStatus
next_status now n none status = none
next_status now n (some connected) none = none
next_status now n (some connected) (some v) =
    if is_gone now v.last_seen_at n
    then none
    else some (record v {
      last_seen_at =
          if connected
          then 3661000000001
          else if is_marked v.last_seen_at
          then now
          else v.last_seen_at;
    })

lifecycle_step :
    (now n : ℕ) (spec : Option Bool) (status : Option ClientStatus)
    → stays spec (changed now spec (unexpired now n status)) ≡ next_status now n spec status
lifecycle_step now n none status = refl
lifecycle_step now n (some true) none = refl
lifecycle_step now n (some false) none = refl
lifecycle_step now n (some true) (some v) = ground arith
lifecycle_step now n (some false) (some v) = ground arith

-- For maps without repeated keys, cleaning, the client changes and the removal of the departed
-- together take each client's entry to the next one of an independent description of its life: a
-- client that the spec lacks has none; an entry without the mark of a connected client whose
-- period is over goes; a connection marks the entry, and a lost one takes the mark for the present
-- time.
pub lookup-lifecycle :
    (now n : ℕ) (k : Bytes) (spec : Dict Bytes Bool) (m : Dict Bytes ClientStatus)
    → NodupKeys spec
    → NodupKeys m
    → lookup k (
        remove_departed_clients spec
          (handle_client_changes now spec (clean_expired_clients_from_status now m n)).1)
      ≡ next_status now n (lookup k spec) (lookup k m)
unfolding handle_client_changes
lookup-lifecycle now n k spec m u w =
    rw
      (
        lookup-remove_departed k spec _,
        lookup-handle_client_changes_from now k spec (clean_expired_clients_from_status now m n) []
            u,
        lookup-clean_expired now n k m w,
      )
      (lifecycle_step now n (lookup k spec) (lookup k m))
