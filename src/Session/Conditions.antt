-- ===== src/Session/Conditions.antt =====
-- utils/conditions.go: the Ready condition of the session pods.
pub mod Uniqueness
use xr_telepresence_k8s.Base.{
  ℕ, zero, suc, Option, none, some, List, [], ◌∷◌, ◌++◌, ◌==◌, bytes_eq, if◌then◌else◌,
}
use xr_telepresence_k8s.Base.Text.{Bytes, text}
use xr_telepresence_k8s.Resources.Session.{Condition, Session}

abbrev pub type_ready : Bytes
type_ready = text "Ready"

-- The reasons and messages that the reconciler sets.
abbrev pub get_pods_failed : Bytes × Bytes
get_pods_failed = (text "FailedGetSessionPods", text "Failed to get the session pods")

abbrev pub pods_ready : Bytes × Bytes
pods_ready =
    (text "SessionPodsReady", text "All the session pods present the ready contidion set to true")

abbrev pub pods_not_ready : Bytes × Bytes
pods_not_ready = (
  text "SessionPodsNotReady",
  text "At least one session pod presents the ready contidion set to false",
)

abbrev pub pods_reconciled : Bytes × Bytes
pods_reconciled = (text "PodsHaveBeenReconciled", text "Pods have been reconciled successfully")

-- The loop of `containsCondition`: it goes on to the end, so the last index counts. `none` is -1.
unfoldable pub contains_condition_from : Bytes → ℕ → Option ℕ → List Condition → Option ℕ
contains_condition_from kind i index [] = index
contains_condition_from kind i index (c ∷ cs) =
    contains_condition_from kind (suc i) (if c.kind == kind then some i else index) cs

unfoldable pub contains_condition : Bytes → List Condition → Option ℕ
unfolding contains_condition_from
contains_condition kind = contains_condition_from kind 0 none

-- `append(conditions[:i], conditions[i+1:]...)`
unfoldable pub remove_condition_at_index : ℕ → List Condition → List Condition
remove_condition_at_index i [] = []
remove_condition_at_index zero (c ∷ cs) = cs
remove_condition_at_index (suc i) (c ∷ cs) = c ∷ remove_condition_at_index i cs

unfoldable pub append_condition :
    ℕ → Bytes → Bytes → Bytes × Bytes → List Condition → List Condition
append_condition now kind status (reason, message) cs =
    cs
    ++ record {
      kind = kind;
      status = status;
      reason = reason;
      message = message;
      last_transition_time = now;
    }
      ∷ []

unfoldable pub set_ready : ℕ → Bytes → Bytes × Bytes → List Condition → List Condition
unfolding contains_condition remove_condition_at_index append_condition
set_ready now status why cs = elim (contains_condition type_ready cs) [
  | none ↦ append_condition now type_ready status why cs
  | some i ↦ append_condition now type_ready status why (remove_condition_at_index i cs)
]

-- `now` is the clock when the condition is written.
unfoldable pub set_ready_condition : ℕ → Bytes → Bytes × Bytes → Session → Session
unfolding set_ready
set_ready_condition now status why session = record session {
  status = record status_ {
    session_pods = record pods_ { conditions = set_ready now status why pods_.conditions };
  };
}
  where
    open session use {status as status_}
    open session.status use {session_pods as pods_}
