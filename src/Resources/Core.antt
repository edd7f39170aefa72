-- ===== src/Resources/Core.antt =====
-- The parts of Kubernetes' own objects that the code reads and writes: pods, services, ingresses.
use xr_telepresence_k8s.Base.{ℕ, Option, List}
use xr_telepresence_k8s.Base.Dict.{Dict}
use xr_telepresence_k8s.Base.Text.{Bytes}

pub record NamespacedName : Type 0 where
  pub namespace : Bytes
  pub name : Bytes

pub record ContainerPort : Type 0 where
  pub name : Bytes
  pub container_port : ℕ
  pub protocol : Bytes

pub record Container : Type 0 where
  pub name : Bytes
  pub ports : List ContainerPort

pub record PodSpec : Type 0 where
  pub containers : List Container

pub record PodTemplate : Type 0 where
  pub name : Bytes
  pub spec : PodSpec

pub record PodCondition : Type 0 where
  pub kind : Bytes
  pub status : Bytes

pub record OwnerReference : Type 0 where
  pub api_version : Bytes
  pub kind : Bytes
  pub name : Bytes

-- `controller` is the owner reference that is marked as the controller's.
pub record Pod : Type 0 where
  pub name : Bytes
  pub namespace : Bytes
  pub labels : Dict Bytes Bytes
  pub controller : Option OwnerReference
  pub spec : PodSpec
  pub conditions : List PodCondition

pub record ServicePort : Type 0 where
  pub name : Bytes
  pub port : ℕ
  pub protocol : Bytes

pub record Service : Type 0 where
  pub name : Bytes
  pub namespace : Bytes
  pub labels : Dict Bytes Bytes
  pub controller : Option OwnerReference
  pub ports : List ServicePort
  pub selector : Dict Bytes Bytes
  pub load_balancer : List Bytes

pub record IngressPath : Type 0 where
  pub path : Bytes
  pub service_name : Bytes
  pub service_port : ℕ

-- The paths of each rule, if it has an HTTP part.
pub record Ingress : Type 0 where
  pub rules : List (Option (List IngressPath))
