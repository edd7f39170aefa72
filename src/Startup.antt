-- ===== src/Startup.antt =====
-- controllers/*/cmd/main.go: how the three controller programs start. Their texts differ in the
-- schemes that they register, the controller that they set up and the name of the leader's lease.
-- What controller-runtime answers to each step is the parameter of `Exec`; an error ends the
-- program with status 1.
pub mod Plan
pub mod Protocols
use xr_telepresence_k8s.Base.{
  Bool, true, false, Option, none, some, List, [], ◌∷◌, ◌++◌, ◌==◌, bytes_eq, if◌then◌else◌,
}
use xr_telepresence_k8s.Base.Text.{Bytes, text}
use xr_telepresence_k8s.Effect.{Result, ok, err, panic, Error, pure, result, attempt, ◌>>=◌, ◌>>◌}
use xr_telepresence_k8s.Effect

-- The values of the flags.
pub record Flags : Type 0 where
  pub metrics_addr : Bytes
  pub metrics_cert_path : Bytes
  pub metrics_cert_name : Bytes
  pub metrics_cert_key : Bytes
  pub webhook_cert_path : Bytes
  pub webhook_cert_name : Bytes
  pub webhook_cert_key : Bytes
  pub enable_leader_election : Bool
  pub probe_addr : Bytes
  pub secure_metrics : Bool
  pub enable_http2 : Bool

unfoldable pub default_flags : Flags
default_flags = record {
  metrics_addr = text "0";
  metrics_cert_path = [];
  metrics_cert_name = text "tls.crt";
  metrics_cert_key = text "tls.key";
  webhook_cert_path = [];
  webhook_cert_name = text "tls.crt";
  webhook_cert_key = text "tls.key";
  enable_leader_election = false;
  probe_addr = text ":8081";
  secure_metrics = true;
  enable_http2 = false;
}

-- A certificate watcher, by the directory and the names of the files that it watches.
pub record CertWatcher : Type 0 where
  pub path : Bytes
  pub cert_name : Bytes
  pub cert_key : Bytes

-- The part of `tls.Config` that the program touches.
pub record TlsConfig : Type 0 where
  pub next_protos : List Bytes
  pub get_certificate : Option CertWatcher

-- The functions that the program puts into `TLSOpts`.
pub data TlsOpt : Type 0 where
  disable_http2 : TlsOpt
  certificate_of : CertWatcher → TlsOpt

unfoldable pub apply_opt : TlsOpt → TlsConfig → TlsConfig
apply_opt disable_http2 c = record c { next_protos = text "http/1.1" ∷ [] }
apply_opt (certificate_of w) c = record c { get_certificate = some w }

pub record MetricsOptions : Type 0 where
  pub bind_address : Bytes
  pub secure_serving : Bool
  pub tls_opts : List TlsOpt
  pub filtered : Bool

pub record ManagerOptions : Type 0 where
  pub metrics : MetricsOptions
  pub webhook_tls_opts : List TlsOpt
  pub health_probe_bind_address : Bytes
  pub leader_election : Bool
  pub leader_election_id : Bytes

-- What distinguishes the programs.
pub record Program : Type 0 where
  pub schemes : List Bytes
  pub controller : Bytes
  pub leader_election_id : Bytes

-- The calls of the libraries that may fail.
pub data Step : Type 0 where
  add_to_scheme : Bytes → Step
  new_cert_watcher : CertWatcher → Step
  get_config : Step
  new_manager : ManagerOptions → Step
  setup_with_manager : Bytes → Step
  add_watcher : CertWatcher → Step
  add_healthz_check add_readyz_check start : Step

abbrev pub Libraries : Type 0
Libraries = List Step → Step → Option Error

abbrev pub Exec {ℓ} : Type ℓ → Type ℓ
Exec A = Effect.Exec Libraries Step A

abbrev pub done : Option Error → Result (Unit {0})
done none = ok tt
done (some e) = err e

-- An error is logged and the program exits.
abbrev pub step : Step → Exec (Unit {0})
step c libraries h = (done (libraries h c), c ∷ h)

abbrev pub or_die : Result (Unit {0}) → Exec (Unit {0})
or_die (ok _) = pure tt
or_die (err e) = result panic
or_die panic = result panic

-- `utilruntime.Must(…)` panics.
unfoldable pub init : List Bytes → Exec (Unit {0})
init [] = pure tt
init (s ∷ ss) = do r ← attempt (step (add_to_scheme s)); or_die r; init ss

abbrev pub initial_tls_opts : Flags → List TlsOpt
initial_tls_opts flags = if flags.enable_http2 then [] else disable_http2 ∷ []

-- The certificate watcher of a server, if its directory is given.
unfoldable pub cert_watcher : CertWatcher → Exec (Option CertWatcher)
cert_watcher w = elim w.path [
  | [] ↦ pure none
  | _ ∷ _ ↦ do step (new_cert_watcher w); pure (some w)
]

abbrev pub with_certificate : List TlsOpt → Option CertWatcher → List TlsOpt
with_certificate opts none = opts
with_certificate opts (some w) = opts ++ certificate_of w ∷ []

abbrev pub webhook_cert : Flags → CertWatcher
webhook_cert flags = record {
  path = flags.webhook_cert_path;
  cert_name = flags.webhook_cert_name;
  cert_key = flags.webhook_cert_key;
}

abbrev pub metrics_cert : Flags → CertWatcher
metrics_cert flags = record {
  path = flags.metrics_cert_path;
  cert_name = flags.metrics_cert_name;
  cert_key = flags.metrics_cert_key;
}

unfoldable pub metrics_server_options : Flags → Option CertWatcher → MetricsOptions
metrics_server_options flags watcher = record {
  bind_address = flags.metrics_addr;
  secure_serving = flags.secure_metrics;
  tls_opts = with_certificate (initial_tls_opts flags) watcher;
  filtered = flags.secure_metrics;
}

unfoldable pub manager_options :
    Flags → Program → Option CertWatcher → Option CertWatcher → ManagerOptions
unfolding metrics_server_options
manager_options flags program webhook metrics = record {
  metrics = metrics_server_options flags metrics;
  webhook_tls_opts = with_certificate (initial_tls_opts flags) webhook;
  health_probe_bind_address = flags.probe_addr;
  leader_election = flags.enable_leader_election;
  leader_election_id = program.leader_election_id;
}

-- `if watcher != nil { … mgr.Add(watcher) … }`
abbrev pub add : Option CertWatcher → Exec (Unit {0})
add none = pure tt
add (some w) = step (add_watcher w)

-- `main`, after `init` and the parsing of the flags.
unfoldable pub main : Flags → Program → Exec (Unit {0})
unfolding init cert_watcher manager_options
main flags program = do
  init program.schemes
  webhook ← cert_watcher (webhook_cert flags)
  metrics ← cert_watcher (metrics_cert flags)
  step get_config
  step (new_manager (manager_options flags program webhook metrics))
  step (setup_with_manager program.controller)
  add metrics
  add webhook
  step add_healthz_check
  step add_readyz_check
  step start

unfoldable pub session_program : Program
session_program = record {
  schemes = text "clientgo" ∷ text "core.mr.telepresence" ∷ text "gc.mr.telepresence" ∷ [];
  controller = text "Session";
  leader_election_id = text "ee3dbf1a.mr.telepresence";
}

unfoldable pub gc_program : Program
gc_program = record {
  schemes = text "clientgo" ∷ text "gc.mr.telepresence" ∷ text "core.mr.telepresence" ∷ [];
  controller = text "Garbage Collector";
  leader_election_id = text "1da58e50.mr.telepresence";
}

unfoldable pub network_program : Program
network_program = record {
  schemes = text "clientgo" ∷ [];
  controller = text "Network";
  leader_election_id = text "6543bbe4.mr.telepresence";
}

-- The three programs.
unfoldable pub session_main : Flags → Exec (Unit {0})
unfolding main session_program
session_main flags = main flags session_program

unfoldable pub gc_main : Flags → Exec (Unit {0})
unfolding main gc_program
gc_main flags = main flags gc_program

unfoldable pub network_main : Flags → Exec (Unit {0})
unfolding main network_program
network_main flags = main flags network_program
