-- ===== src/Network/Services.antt =====
-- network_controller.go: a service for each pod of the framework.
pub mod Recording
pub mod Coverage
use xr_telepresence_k8s.Base.{
  Option, none, some, List, [], ◌∷◌, ◌++◌, ◌==◌, bytes_eq, if◌then◌else◌,
}
use xr_telepresence_k8s.Base.Dict.{Dict, lookup, insert}
use xr_telepresence_k8s.Base.Text.{Bytes, text}
use xr_telepresence_k8s.Resources.Core.{
  ContainerPort, Container, Pod, ServicePort, Service, NamespacedName,
}
use xr_telepresence_k8s.Effect.{
  Result, ok, err, panic, pure, raise, result, attempt, is_already_exists, ◌>>=◌, ◌>>◌,
}
use xr_telepresence_k8s.Cluster.{Exec, write, create_service}

-- The values are pointers, and may be nil.
abbrev pub ServicesMap : Type 0
ServicesMap = Dict Bytes (Option Service)

unfoldable pub services_by_name_from : ServicesMap → List Service → ServicesMap
services_by_name_from m [] = m
services_by_name_from m (s ∷ ss) = services_by_name_from (insert s.name (some s) m) ss

unfoldable pub services_by_name : List Service → ServicesMap
unfolding services_by_name_from
services_by_name = services_by_name_from []

abbrev pub service_name : Bytes → Bytes
service_name pod_name = pod_name ++ text "-svc"

unfoldable pub ports_of : List ContainerPort → List ServicePort
ports_of [] = []
ports_of (p ∷ ps) =
    record { name = p.name; port = p.container_port; protocol = p.protocol } ∷ ports_of ps

unfoldable pub container_ports : List Container → List ServicePort
unfolding ports_of
container_ports [] = []
container_ports (c ∷ cs) = ports_of c.ports ++ container_ports cs

abbrev pub default_port : ServicePort
default_port = record { name = text "default"; port = 8080; protocol = text "TCP" }

-- A service needs a port.
abbrev pub or_default : List ServicePort → List ServicePort
or_default [] = default_port ∷ []
or_default (p ∷ ps) = p ∷ ps

unfoldable pub service_for : Bytes → Pod → Service
unfolding container_ports
service_for namespace p = record {
  name = service_name p.name;
  namespace = namespace;
  labels = (text "telepresence", text "true") ∷ [];
  controller = none;
  ports = or_default (container_ports p.spec.containers);
  selector = (text "svc", p.name) ∷ [];
  load_balancer = [];
}

-- `ctrl.SetControllerReference` is the server's `own_service`.
abbrev pub owned : Pod → Service → Exec Service
owned p svc s h = result (s.own_service p svc) s h

unfoldable pub spawn_service : Bytes → Pod → Exec Service
unfolding service_for
spawn_service namespace p = do
  svc ← owned p (service_for namespace p)
  write (create_service svc)
  pure svc

-- What one round leaves under the key: a service that existed already leaves a nil pointer.
unfoldable pub after_spawn : Result Service → Exec (Option Service)
after_spawn (ok svc) = pure (some svc)
after_spawn (err e) = if is_already_exists e then pure none else raise e
after_spawn panic = result panic

unfoldable pub spawn_services : Bytes → List Pod → ServicesMap → Exec ServicesMap
unfolding spawn_service after_spawn
spawn_services namespace [] m = pure m
spawn_services namespace (p ∷ ps) m = elim (lookup (service_name p.name) m) [
  | some _ ↦ spawn_services namespace ps m
  | none ↦ do
    r ← attempt (spawn_service namespace p)
    svc ← after_spawn r
    spawn_services namespace ps (insert (service_name p.name) svc m)
]

unfoldable pub handle_event : Dict Bytes Bytes → NamespacedName → List NamespacedName
handle_event labels request = elim (lookup (text "telepresence") labels) [
  | none ↦ []
  | some v ↦ if v == text "true" then request ∷ [] else []
]
