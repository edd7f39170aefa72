-- ===== src/Tests/Starting.antt =====
-- Programs that start: the session controller, and the configuration of a session manager.
use xr_telepresence_k8s.Base.{◌≡◌, List, ◌++◌, none, Bool, [], some, bytes_eq, ◌∷◌, true, refl}
use xr_telepresence_k8s.Startup.Plan.{AllWent, taken, preparation, schemes_of, main-starts}
use xr_telepresence_k8s.Base.Dict.{erase, insert, lookup}
use xr_telepresence_k8s.Manager.Config.Served.{Leads, wanted, config_handler-Leads}
use xr_telepresence_k8s.Base.Text.{Bytes, text, Bytes, text}
use xr_telepresence_k8s.Startup.{
  Step, Libraries, main, default_flags, init, cert_watcher, session_program, start,
}
use xr_telepresence_k8s.Manager.Config.{
  Kube, config_handler, config_main, config_contexts, add_cluster, Configured,
}
use xr_telepresence_k8s.Effect.Emits.{Emits}
use xr_telepresence_k8s.Startup.Protocols.{Guarded, main-Guarded}
use xr_telepresence_k8s.Effect.{ok}

abbrev all_succeed : Libraries
all_succeed h c = none

abbrev steps_before : List Step
steps_before = schemes_of session_program.schemes ++ preparation default_flags session_program

main-starts_example :
    ((main default_flags session_program all_succeed []).1 ≡ start ∷ taken steps_before [])
    × AllWent all_succeed steps_before []
unfolding main init cert_watcher default_flags session_program
main-starts_example = main-starts default_flags session_program all_succeed [] refl refl

main-Guarded_example : Emits Guarded (main default_flags session_program)
unfolding default_flags
main-Guarded_example = main-Guarded default_flags session_program refl

-- A kubeconfig with a context that has the name of the cluster in which the program runs.
abbrev kube : Kube Bytes Bool Bytes Bytes
kube = record {
  api_config = ok (some ((text "main", true) ∷ (text "north", true) ∷ []));
  in_cluster_config = ok (text "here");
  config_with_context = λ name. ok name;
  new_client = λ cfg. ok cfg;
  new_clientset = λ cfg. ok cfg;
  session_templates = ok [];
}

abbrev configured : Configured Bytes Bytes
configured = record {
  maps = record {
    clients = (text "main", text "here") ∷ (text "north", text "north") ∷ [];
    clientsets = (text "main", text "here") ∷ (text "north", text "north") ∷ [];
  };
  session_templates = [];
}

config_handler-Leads_example :
    Leads kube
      (wanted kube
        ((text "main", true) ∷ (text "north", true) ∷ [])
        (ok (text "here"))
        (text "main"))
      (lookup (text "main") configured.maps.clients)
unfolding config_handler config_main config_contexts add_cluster bytes_eq insert erase
config_handler-Leads_example =
    config_handler-Leads kube {contexts = (text "main", true) ∷ (text "north", true) ∷ []}
      {configured = configured} (text "main") refl refl
