-- ===== src/Session/Soundness.antt =====
-- client_pods.go: the entries of the status that the controller can work with.
use xr_telepresence_k8s.Base.{◌≡◌, ◌⊎◌, refl, inl, List, [], ◌∷◌, ◌++◌, All, All-append}
use xr_telepresence_k8s.Base.Dict.{Dict, Every}
use xr_telepresence_k8s.Base.Text.{Bytes}
use xr_telepresence_k8s.Resources.Core.{ContainerPort, Container, PodSpec}
use xr_telepresence_k8s.Resources.Session.{PodStatus, ClientStatus}
use xr_telepresence_k8s.Session.Allocation.Named.{HasTemplate}
use xr_telepresence_k8s.Session.Readiness.{scheme}
use xr_telepresence_k8s.Session.Placement.{port_paths, container_paths, build_pod_status}

-- A path on the ingress, or an address: the scheme, a host and a path.
abbrev pub IsServable : Bytes → Type 0
IsServable p =
    ((rest : Bytes) × (p ≡ b'/' ∷ rest))
    ⊎ ((host : Bytes) × (rest : Bytes) × (p ≡ scheme ++ host ++ b'/' ∷ rest))

-- The pod's name has a template, and its paths can be given an address.
abbrev pub SoundPod : Bytes → PodStatus → Type 0
SoundPod name status = HasTemplate name × All IsServable status.paths

abbrev pub SoundPods : Dict Bytes PodStatus → Type 0
SoundPods = Every SoundPod

abbrev pub SoundEntry : Bytes → ClientStatus → Type 0
SoundEntry _ status = SoundPods status.pod_status

abbrev pub IsSound : Dict Bytes ClientStatus → Type 0
IsSound = Every SoundEntry

port_paths-IsServable :
    (name : Bytes) (ports : List ContainerPort) → All IsServable (port_paths name ports)
unfolding port_paths
port_paths-IsServable name [] = tt
port_paths-IsServable name (p ∷ ps) = (inl (_, refl), port_paths-IsServable name ps)

pub container_paths-IsServable :
    (name : Bytes) (cs : List Container) → All IsServable (container_paths name cs)
unfolding container_paths
container_paths-IsServable name [] = tt
container_paths-IsServable name (c ∷ cs) =
    All-append IsServable (port_paths name c.ports) (container_paths name cs)
      (port_paths-IsServable name c.ports) (container_paths-IsServable name cs)

-- The entry that a new client gets for a pod.
pub build_pod_status-SoundPod :
    (name : Bytes) (spec : PodSpec) → HasTemplate name → SoundPod name (build_pod_status name spec)
unfolding build_pod_status
build_pod_status-SoundPod name spec h = (h, container_paths-IsServable name spec.containers)
