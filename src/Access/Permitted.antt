-- ===== src/Access/Permitted.antt =====
-- session_controller.go, gc_controller.go and network_controller.go: the calls of a run against
-- the rules of its controller.
use xr_telepresence_k8s.Base.{ℕ, ◌≡◌, refl, true, List, bytes_eq, nat_eq}
use xr_telepresence_k8s.Base.Text.{Bytes, split}
use xr_telepresence_k8s.Resources.Core.{NamespacedName}
use xr_telepresence_k8s.Resources.Session.{SessionStatus}
use xr_telepresence_k8s.Effect.Emits.{Emits}
use xr_telepresence_k8s.Cluster.{Call}
use xr_telepresence_k8s.Session.Reconciler as SessionController
use xr_telepresence_k8s.Session.Reconciler.Calls as SessionRun
use xr_telepresence_k8s.Gc.Reconciler as Collector
use xr_telepresence_k8s.Gc.Reconciler.Calls as CollectorRun
use xr_telepresence_k8s.Network.Reconciler as Publisher
use xr_telepresence_k8s.Network.Reconciler.Calls as PublisherRun
use xr_telepresence_k8s.Access.{Rule, session_rules, gc_rules, network_rules, permits}

-- The rules grant the call.
abbrev pub Granted : List Rule → Call → Type 0
Granted rules c = permits rules c ≡ true

session_calls : SessionRun.SessionCalls (Granted session_rules)
unfolding permits session_rules bytes_eq split nat_eq
session_calls = record {
  gets_session = λ n. refl;
  gets_service = λ n. refl;
  lists_registrations = λ n. refl;
  lists_pods = λ n. refl;
  creates_namespace = λ n. refl;
  registers = λ r. refl;
  takes_back = λ r. refl;
  creates_pod = λ p. refl;
  updates_status = λ x. refl;
  updates = λ x. refl;
}

gc_calls : CollectorRun.GcCalls (Granted gc_rules)
unfolding permits gc_rules bytes_eq split nat_eq
gc_calls = record {
  gets_session = λ n. refl;
  gets_pod = λ n. refl;
  lists_registrations = λ n. refl;
  deletes_registration = λ r. refl;
  updates_registration = λ r. refl;
  deletes_pod = λ p. refl;
}

network_calls : PublisherRun.NetworkCalls (Granted network_rules)
unfolding permits network_rules bytes_eq split nat_eq
network_calls = record {
  lists_pods = λ n. refl;
  lists_services = λ n. refl;
  creates_service = λ s. refl;
  gets_ingress = λ n. refl;
  updates_ingress = λ i. refl;
}

-- Whatever the servers answer, every call of a run of each of the three controllers is allowed by
-- the access rules that stand above its code, reads through the manager's cache included.
pub reconcile-Granted :
    (uuid : ℕ → Bytes) (hash_status : SessionStatus → Bytes) (now : ℕ) (clock : List Call → ℕ)
    (request : NamespacedName)
    → Emits (Granted session_rules) (SessionController.reconcile uuid hash_status now request)
      × Emits (Granted gc_rules) (Collector.reconcile clock)
      × Emits (Granted network_rules) (Publisher.reconcile request)
reconcile-Granted uuid hash_status now clock request = (
  SessionRun.reconcile-Emits session_calls uuid hash_status now request,
  CollectorRun.reconcile-Emits gc_calls clock,
  PublisherRun.reconcile-Emits network_calls request,
)
