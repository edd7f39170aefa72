-- ===== src/Resources/Registration.antt =====
-- controllers/gc/api/v1alpha1/gcregistration_types.go
use xr_telepresence_k8s.Base.{ℕ}
use xr_telepresence_k8s.Base.Text.{Bytes, text}
use xr_telepresence_k8s.Resources.Core.{NamespacedName}

-- `RegistrationType` is a string; an object in the cluster may hold any.
abbrev pub RegistrationType : Type 0
RegistrationType = Bytes

abbrev pub timeout : RegistrationType
timeout = text "Timeout"

abbrev pub reutilize_timeout : RegistrationType
reutilize_timeout = text "ReutilizeTimeout"

pub record GcRegistrationSpec : Type 0 where
  pub session : NamespacedName
  pub kind : RegistrationType

pub record GcRegistration : Type 0 where
  pub name : Bytes
  pub namespace : Bytes
  pub creation_timestamp : ℕ
  pub spec : GcRegistrationSpec
