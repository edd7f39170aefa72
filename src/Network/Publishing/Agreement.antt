-- ===== src/Network/Publishing/Agreement.antt =====
-- ingress.go and client_pods.go: the paths published, and the paths that a client is told.
use xr_telepresence_k8s.Base.{◌≡◌, refl, ap, List, [], ◌∷◌, ◌++◌}
use xr_telepresence_k8s.Base.Text.{Bytes}
use xr_telepresence_k8s.Resources.Core.{
  ContainerPort, Container, Pod, ServicePort, Service, IngressPath,
}
use xr_telepresence_k8s.Network.Services.{ports_of, container_ports, or_default, service_for}
use xr_telepresence_k8s.Network.Publishing.{path_for, paths_for, path_suffix}
use xr_telepresence_k8s.Session.Placement.{port_paths, container_paths, build_pod_status}
use mathlib.Core.List.{append_assoc}

abbrev pub routes : List IngressPath → List Bytes
routes [] = []
routes (p ∷ ps) = p.path ∷ routes ps

abbrev pub suffixed : List Bytes → List Bytes
suffixed [] = []
suffixed (path ∷ paths) = (path ++ path_suffix) ∷ suffixed paths

routes-ports_of :
    (pod : Bytes) (svc : Service) (ports : List ContainerPort)
    → routes (paths_for pod svc (ports_of ports)) ≡ suffixed (port_paths pod ports)
unfolding ports_of paths_for port_paths
routes-ports_of pod svc [] = refl
routes-ports_of pod svc (port ∷ ports) = rw (routes-ports_of pod svc ports) (simp append_assoc)

routes-append : (ps qs : List IngressPath) → routes (ps ++ qs) ≡ routes ps ++ routes qs
routes-append [] qs = refl
routes-append (p ∷ ps) qs = ap (◌∷◌ p.path) (routes-append ps qs)

suffixed-append : (ps qs : List Bytes) → suffixed (ps ++ qs) ≡ suffixed ps ++ suffixed qs
suffixed-append [] qs = refl
suffixed-append (p ∷ ps) qs = ap (◌∷◌ (p ++ path_suffix)) (suffixed-append ps qs)

paths_for-append :
    (pod : Bytes) (svc : Service) (ps qs : List ServicePort)
    → paths_for pod svc (ps ++ qs) ≡ paths_for pod svc ps ++ paths_for pod svc qs
unfolding paths_for
paths_for-append pod svc [] qs = refl
paths_for-append pod svc (p ∷ ps) qs =
    ap (◌∷◌ (path_for pod svc p)) (paths_for-append pod svc ps qs)

routes-container_ports :
    (pod : Bytes) (svc : Service) (cs : List Container)
    → routes (paths_for pod svc (container_ports cs)) ≡ suffixed (container_paths pod cs)
unfolding container_ports container_paths paths_for
routes-container_ports pod svc [] = refl
routes-container_ports pod svc (c ∷ cs) = rw (
  paths_for-append pod svc (ports_of c.ports) (container_ports cs),
  routes-append (paths_for pod svc (ports_of c.ports)) (paths_for pod svc (container_ports cs)),
  routes-ports_of pod svc c.ports,
  routes-container_ports pod svc cs,
  suffixed-append (port_paths pod c.ports) (container_paths pod cs),
)

or_default-cons :
    (ports : List ServicePort) (first : ServicePort) (more : List ServicePort)
    → ports ≡ first ∷ more
    → or_default ports ≡ ports
or_default-cons ports first more e = rw e

-- If the pod's containers have a port, the paths that the ingress gets for the pod's service are
-- the paths that its clients are told, in order, each with the suffix of the ingress.
pub routes-service_for :
    (namespace : Bytes) (p : Pod) {first : ServicePort} {more : List ServicePort}
    → container_ports p.spec.containers ≡ first ∷ more
    → let svc = service_for namespace p in
      routes (paths_for p.name svc svc.ports) ≡ suffixed (build_pod_status p.name p.spec).paths
unfolding service_for build_pod_status paths_for
routes-service_for namespace p {first} {more} e =
    rw (or_default-cons (container_ports p.spec.containers) first more e)
      (routes-container_ports p.name (service_for namespace p) p.spec.containers)
