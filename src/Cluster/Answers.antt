-- ===== src/Cluster/Answers.antt =====
-- A server that answers each call with a value or an error, as the client of Kubernetes does.
use xr_telepresence_k8s.Base.{Option, none, some, List}
use xr_telepresence_k8s.Base.Text.{Bytes}
use xr_telepresence_k8s.Resources.Core.{NamespacedName, Pod}
use xr_telepresence_k8s.Resources.Session.{Session}
use xr_telepresence_k8s.Effect.{Error, Result}
use xr_telepresence_k8s.Effect.Ensures.{Returns, Calm}
use xr_telepresence_k8s.Cluster.{
  Server, Call, Selector, written, write, stored_or, save, get_session_of, get_pod_of,
  get_service_of, registrations_in,
}

-- No panic.
abbrev pub Answered {ℓ} : {A : Type ℓ} → Result A → Type 0
Answered = Returns (λ _. Unit)

pub record Answers (s : Server) : Type 0 where
  pub session : (h : List Call) (n : NamespacedName) → Answered (s.session h n)
  pub pod : (h : List Call) (n : NamespacedName) → Answered (s.pod h n)
  pub service : (h : List Call) (n : NamespacedName) → Answered (s.service h n)
  pub registrations : (h : List Call) (n : Bytes) (q : Selector) → Answered (s.registrations h n q)
  pub own_pod : (x : Session) (p : Pod) → Answered (s.own_pod x p)

module _ {s : Server} where
  pub write-Calm : (c : Call) → Calm s (write c)
  write-Calm c = record { at = λ h. go (s.write h c) }
    where
      go : (o : Option Error) → Answered (written o)
      go none = tt
      go (some e) = tt

  pub save-Calm : (c : Session → Call) (x : Session) → Calm s (save c x)
  save-Calm c x = record { at = λ h. go (s.write h (c x)) (s.stored h x) }
    where
      go : (o : Option Error) (y : Session) → Answered (stored_or o y)
      go none y = tt
      go (some e) y = tt

module _ {s : Server} (answers : Answers s) where
  pub get_session_of-Calm : (n : NamespacedName) → Calm s (get_session_of n)
  get_session_of-Calm n = record { at = λ h. answers.session h n }

  pub get_pod_of-Calm : (n : NamespacedName) → Calm s (get_pod_of n)
  get_pod_of-Calm n = record { at = λ h. answers.pod h n }

  pub get_service_of-Calm : (n : NamespacedName) → Calm s (get_service_of n)
  get_service_of-Calm n = record { at = λ h. answers.service h n }

  pub registrations_in-Calm : (n : Bytes) (q : Selector) → Calm s (registrations_in n q)
  registrations_in-Calm n q = record { at = λ h. answers.registrations h n q }
