-- ===== src/Manager/Config.antt =====
-- handlers/handler.go: the clients of the clusters, and the templates of the configuration.
pub mod Served
use xr_telepresence_k8s.Base.{Option, none, some, List, [], ◌∷◌, bytes_eq}
use xr_telepresence_k8s.Base.Dict.{Dict, insert, erase, keys}
use xr_telepresence_k8s.Base.Text.{Bytes, text}
use xr_telepresence_k8s.Effect.{Result, ok, err, panic, Error, api_error, other}
use xr_telepresence_k8s.Manager.Sessions.{SessionTemplate, Handler}

-- `if err != nil { return nil, err }`
infixl 5 ◌>>=◌
abbrev pub ◌>>=◌ : {A B : Type 0} → Result A → (A → Result B) → Result B
◌>>=◌ answer rest = elim answer [ panic ↦ panic | ok value ↦ rest value | err e ↦ err e ]

unfoldable pub templates_by_name_from :
    Dict Bytes SessionTemplate → List SessionTemplate → Dict Bytes SessionTemplate
templates_by_name_from m [] = m
templates_by_name_from m (t ∷ ts) = templates_by_name_from (insert t.name t m) ts

-- `readTemplates`, from the list that the YAML file holds.
unfoldable pub read_templates : List SessionTemplate → Dict Bytes SessionTemplate
unfolding templates_by_name_from
read_templates = templates_by_name_from []

-- What client-go and the files answer: the contexts of the kubeconfig, whose absence ends the
-- program, the configurations, the clients made of them, and the list in the file of templates.
pub record Kube (Config Context Client Clientset : Type 0) : Type 0 where
  pub api_config : Result (Option (Dict Bytes Context))
  pub in_cluster_config : Result Config
  pub config_with_context : Bytes → Result Config
  pub new_client : Config → Result Client
  pub new_clientset : Config → Result Clientset
  pub session_templates : Result (List SessionTemplate)

-- The two maps of a handler.
pub record Maps (Client Clientset : Type 0) : Type 0 where
  pub clients : Dict Bytes Client
  pub clientsets : Dict Bytes Clientset

pub record Configured (Client Clientset : Type 0) : Type 0 where
  pub maps : Maps Client Clientset
  pub session_templates : Dict Bytes SessionTemplate

abbrev pub no_maps : {Client Clientset : Type 0} → Maps Client Clientset
no_maps = record { clients = []; clientsets = [] }

abbrev pub main_cluster : Bytes
main_cluster = text "main"

module _ {Config Context Client Clientset : Type 0}
    (kube : Kube Config Context Client Clientset) where
  -- A client and a clientset of a configuration, under a name.
  unfoldable pub add_cluster :
      Bytes → Config → Maps Client Clientset → Result (Maps Client Clientset)
  add_cluster name cfg maps = do
    c ← kube.new_client cfg
    cs ← kube.new_clientset cfg
    ok (record {
      clients = insert name c maps.clients;
      clientsets = insert name cs maps.clientsets;
    })

  -- In a cluster, the cluster itself is the one called main; the kubeconfig's context of that name
  -- is dropped then.
  unfoldable pub config_main :
      Dict Bytes Context → Result Config → Result (Maps Client Clientset × Dict Bytes Context)
  unfolding add_cluster
  config_main contexts (ok cfg) = do
    maps ← add_cluster main_cluster cfg no_maps
    ok (maps, erase main_cluster contexts)
  config_main contexts (err e) = ok (no_maps, contexts)
  config_main contexts panic = panic

  unfoldable pub config_contexts :
      Dict Bytes Context → Maps Client Clientset → Result (Maps Client Clientset)
  unfolding add_cluster
  config_contexts [] maps = ok maps
  config_contexts ((name, _) ∷ contexts) maps = do
    cfg ← kube.config_with_context name
    maps' ← add_cluster name cfg maps
    config_contexts contexts maps'

  abbrev pub or_missing : Option (Dict Bytes Context) → Result (Dict Bytes Context)
  or_missing none = err (api_error other (text "could not read config from file"))
  or_missing (some contexts) = ok contexts

  unfoldable pub config_handler : Result (Configured Client Clientset)
  unfolding config_main config_contexts read_templates
  config_handler = do
    file ← kube.api_config
    contexts ← or_missing file
    (maps, contexts') ← config_main contexts kube.in_cluster_config
    maps' ← config_contexts contexts' maps
    templates ← kube.session_templates
    ok (record { maps = maps'; session_templates = read_templates templates })

-- What the handlers of requests use of it.
abbrev pub handler_of : {Client Clientset : Type 0} → Configured Client Clientset → Handler
handler_of c = record { clusters = keys c.maps.clients; session_templates = c.session_templates }
