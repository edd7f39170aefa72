-- ===== src/Tests/Fixtures.antt =====
-- A small deployment: a session with a template for two clients, and a server that answers.
use xr_telepresence_k8s.Base.Dict.{NodupKeys, lookup}
use xr_telepresence_k8s.Base.{
  refl, bytes_eq, nat_eq, ℕ, ◌*◌, List, [], contains, ◌∷◌, false, ◌≡◌, none, map, true, arith,
}
use xr_telepresence_k8s.Base.Text.{Bytes, text, Lacks}
use xr_telepresence_k8s.Resources.Core.{PodSpec, Ingress, Pod}
use xr_telepresence_k8s.Resources.Session.{
  ClientPodTemplate, PodStatus, Session, ClientStatus, nanos_per_second, default_time,
}
use xr_telepresence_k8s.Resources.Registration.{RegistrationType, GcRegistration}
use xr_telepresence_k8s.Cluster.{Server}
use xr_telepresence_k8s.Effect.{ok, err, api_error, not_found}
use xr_telepresence_k8s.Session.Allocation.{ServingPod}

abbrev pub minute : ℕ
minute = 60 * nanos_per_second

abbrev pub alice : Bytes
alice = text "alice"

abbrev pub bob : Bytes
bob = text "bob"

abbrev pub carol : Bytes
carol = text "carol"

abbrev pub vr : Bytes
vr = text "vr"

abbrev pub pod_spec : PodSpec
pod_spec = record {
  containers =
      record {
        name = text "renderer";
        ports = record { name = text "web"; container_port = 80; protocol = text "TCP" } ∷ [];
      }
      ∷ [];
}

abbrev pub vr_template : ClientPodTemplate
vr_template = record { max_clients = 2; template = record { name = vr; spec = pod_spec } }

abbrev pub first_pod_name : Bytes
first_pod_name = text "demo-1a2b-vr-0001"

abbrev pub second_pod_name : Bytes
second_pod_name = text "demo-1a2b-vr-0002"

abbrev pub pod_named : Bytes → Pod
pod_named name = record {
  name = name;
  namespace = text "default";
  labels = (text "type", text "client") ∷ [];
  controller = none;
  spec = pod_spec;
  conditions = record { kind = text "Ready"; status = text "True" } ∷ [];
}

abbrev pub serving : Bytes → List Bytes → ServingPod
serving name ids = record {
  name = name;
  clients = map (λ id. record { id = id; connected = true }) ids;
}

abbrev pub not_ready : PodStatus
not_ready = record { paths = (text "/demo-1a2b-vr-0001/web") ∷ []; ready = false }

abbrev pub on_first_pod : ℕ → ClientStatus
on_first_pod last_seen = record {
  last_seen_at = last_seen;
  ready = false;
  pod_status = (first_pod_name, not_ready) ∷ [];
}

abbrev pub demo : Session
demo = record {
  name = text "demo-1a2b";
  namespace = text "default";
  annotations = [];
  spec = record {
    session_pod_templates = [];
    client_pod_templates = vr_template ∷ [];
    timeout_seconds = 60;
    reutilize_timeout_seconds = 60;
    clients = (alice, true) ∷ (bob, false) ∷ (carol, true) ∷ [];
  };
  status = record {
    session_pods = record { conditions = []; pods_status = [] };
    clients = (alice, on_first_pod default_time) ∷ (bob, on_first_pod default_time) ∷ [];
  };
}

abbrev pub registration : RegistrationType → ℕ → GcRegistration
registration kind created = record {
  name = first_pod_name;
  namespace = text "mr-telepresence-gc";
  creation_timestamp = created;
  spec = record {
    session = record { namespace = text "default"; name = text "demo-1a2b" };
    kind = kind;
  };
}

abbrev pub no_ingress : Ingress
no_ingress = record { rules = [] }

-- Every object is found, and every write is accepted.
abbrev pub willing : Server
willing = record {
  session = λ h n. ok demo;
  pod = λ h n. ok (pod_named n.name);
  service = λ h n. err (api_error not_found []);
  ingress = λ h n. ok no_ingress;
  registrations = λ h n q. ok [];
  pods = λ h n q. ok (pod_named first_pod_name ∷ []);
  services = λ h n q. ok [];
  write = λ h c. none;
  stored = λ h s. s;
  own_pod = λ session p. ok p;
  own_service = λ p svc. ok svc;
}

pub contains-Lacks : (sep : ℕ) (s : Bytes) → contains s sep ≡ false → Lacks sep s
contains-Lacks sep [] h = tt
contains-Lacks sep (c ∷ s) h =
    ((λ e. ground (arith, h, e)), contains-Lacks sep s (ground (arith, h)))

pub demo-NodupKeys : NodupKeys demo.status.clients
unfolding bytes_eq lookup
demo-NodupKeys = (refl, (refl, tt))

pub spec-NodupKeys : NodupKeys demo.spec.clients
unfolding bytes_eq lookup
spec-NodupKeys = (refl, (refl, (refl, tt)))
