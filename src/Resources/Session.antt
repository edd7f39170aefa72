-- ===== src/Resources/Session.antt =====
-- controllers/session/api/v1alpha1/session_types.go. An `int` is its 64-bit pattern, a time the
-- nanoseconds since the first of January of the year 1.
use xr_telepresence_k8s.Base.{
  ℕ, ◌*◌, ◌+◌, ◌-◌, ◌/◌, ◌%◌, ◌^◌, Bool, List, if◌then◌else◌, ltb, leb, ◌==◌, nat_eq,
}
use xr_telepresence_k8s.Base.Dict.{Dict}
use xr_telepresence_k8s.Base.Text.{Bytes}
use xr_telepresence_k8s.Resources.Core.{PodTemplate}

pub record ClientPodTemplate : Type 0 where
  pub max_clients : ℕ
  pub template : PodTemplate
  pub open template use *

pub record SessionSpec : Type 0 where
  pub session_pod_templates : List PodTemplate
  pub client_pod_templates : List ClientPodTemplate
  pub timeout_seconds : ℕ
  pub reutilize_timeout_seconds : ℕ
  pub clients : Dict Bytes Bool

pub record PodStatus : Type 0 where
  pub paths : List Bytes
  pub ready : Bool

pub record ClientStatus : Type 0 where
  pub last_seen_at : ℕ
  pub ready : Bool
  pub pod_status : Dict Bytes PodStatus

pub record Condition : Type 0 where
  pub kind : Bytes
  pub status : Bytes
  pub reason : Bytes
  pub message : Bytes
  pub last_transition_time : ℕ

pub record SessionPodsStatus : Type 0 where
  pub conditions : List Condition
  pub pods_status : Dict Bytes PodStatus

pub record SessionStatus : Type 0 where
  pub session_pods : SessionPodsStatus
  pub clients : Dict Bytes ClientStatus

pub record Session : Type 0 where
  pub name : Bytes
  pub namespace : Bytes
  pub annotations : Dict Bytes Bytes
  pub spec : SessionSpec
  pub status : SessionStatus

abbrev pub nanos_per_second : ℕ
nanos_per_second = 1000000000

-- `time.Date(1, 1, 1, 1, 1, 1, 1, time.UTC)`
abbrev pub default_time : ℕ
default_time = 3661 * nanos_per_second + 1

-- `t.Unix()`, up to the constant by which the year 1970 is later than the year 1
abbrev pub unix : ℕ → ℕ
unix t = t / nanos_per_second

-- `time.Second * time.Duration(n)`, with the overflow of `int64`
abbrev pub seconds : ℕ → ℕ
seconds n = n * nanos_per_second % 2 ^ 64

-- `t.Add(d).Before(now)` and `t.Add(d).Equal(now)`, for `d` negative too
abbrev pub add_before : ℕ → ℕ → ℕ → Bool
add_before t d now = if leb (2 ^ 63) d then ltb t (now + (2 ^ 64 - d)) else ltb (t + d) now

abbrev pub add_equal : ℕ → ℕ → ℕ → Bool
add_equal t d now = if leb (2 ^ 63) d then t == now + (2 ^ 64 - d) else t + d == now
