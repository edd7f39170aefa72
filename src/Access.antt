-- ===== src/Access.antt =====
-- The `+kubebuilder:rbac` markers of the controllers, from which their cluster roles are generated.
pub mod Permitted
use xr_telepresence_k8s.Base.{
  Bool, ◌&&◌, ◌||◌, false, true, List, [], ◌∷◌, ◌==◌, bytes_eq, contains,
}
use xr_telepresence_k8s.Base.Text.{Bytes, text, split}
use xr_telepresence_k8s.Cluster.{
  Call, get_session, get_pod, get_service, get_ingress, list_registrations, list_pods,
  list_services, create_namespace, create_registration, delete_registration, update_registration,
  create_pod, delete_pod, create_service, update_ingress, update_session_status, update_session,
}

-- One marker.
pub record Rule : Type 0 where
  pub group : Bytes
  pub resource : Bytes
  pub verbs : List Bytes

abbrev pub verbs : Bytes → List Bytes
verbs s = split b';' s

abbrev pub every_verb : List Bytes
every_verb = verbs (text "get;list;watch;create;update;patch;delete")

abbrev pub sessions_group : Bytes
sessions_group = text "core.mr.telepresence"

abbrev pub registrations_group : Bytes
registrations_group = text "gc.mr.telepresence"

abbrev pub core : Bytes
core = text "core"

abbrev pub networking : Bytes
networking = text "networking.k8s.io"

abbrev pub rule : Bytes → Bytes → List Bytes → Rule
rule g r v = record { group = g; resource = r; verbs = v }

unfoldable pub session_rules : List Rule
session_rules =
    rule sessions_group (text "sessions") every_verb
    ∷ rule sessions_group (text "sessions/status") (verbs (text "get;update;patch"))
    ∷ rule sessions_group (text "sessions/finalizers") (verbs (text "update"))
    ∷ rule registrations_group (text "gcregistrations") every_verb
    ∷ rule core (text "pods") every_verb
    ∷ rule core (text "services") every_verb
    ∷ rule core (text "namespaces") every_verb
    ∷ []

unfoldable pub gc_rules : List Rule
gc_rules =
    rule registrations_group (text "gcregistrations") every_verb
    ∷ rule sessions_group (text "sessions") (verbs (text "get;list;watch"))
    ∷ rule core (text "pods") (verbs (text "get;list;watch;delete"))
    ∷ []

unfoldable pub network_rules : List Rule
network_rules =
    rule core (text "services") (verbs (text "get;list;watch;create"))
    ∷ rule core (text "pods") (verbs (text "get;list;watch"))
    ∷ rule networking (text "ingresses") (verbs (text "get;list;watch;create;update"))
    ∷ []

-- What Kubernetes demands for a call. The client of a manager reads through a cache, which lists
-- and watches the resource; a write goes to the API alone.
pub record Demand : Type 0 where
  pub group : Bytes
  pub resource : Bytes
  pub verbs : List Bytes

abbrev pub to : Bytes → Bytes → Bytes → Demand
to g r v = record { group = g; resource = r; verbs = v ∷ [] }

abbrev pub to_read : Bytes → Bytes → Demand
to_read g r = record {
  group = g;
  resource = r;
  verbs = text "get" ∷ text "list" ∷ text "watch" ∷ [];
}

unfoldable pub demand : Call → Demand
demand (get_session _) = to_read sessions_group (text "sessions")
demand (get_pod _) = to_read core (text "pods")
demand (get_service _) = to_read core (text "services")
demand (get_ingress _) = to_read networking (text "ingresses")
demand (list_registrations _) = to_read registrations_group (text "gcregistrations")
demand (list_pods _) = to_read core (text "pods")
demand (list_services _) = to_read core (text "services")
demand (create_namespace _) = to core (text "namespaces") (text "create")
demand (create_registration _) = to registrations_group (text "gcregistrations") (text "create")
demand (delete_registration _) = to registrations_group (text "gcregistrations") (text "delete")
demand (update_registration _) = to registrations_group (text "gcregistrations") (text "update")
demand (create_pod _) = to core (text "pods") (text "create")
demand (delete_pod _) = to core (text "pods") (text "delete")
demand (create_service _) = to core (text "services") (text "create")
demand (update_ingress _) = to networking (text "ingresses") (text "update")
demand (update_session_status _) = to sessions_group (text "sessions/status") (text "update")
demand (update_session _) = to sessions_group (text "sessions") (text "update")

abbrev pub all_in : List Bytes → List Bytes → Bool
all_in [] vs = true
all_in (w ∷ ws) vs = contains vs w && all_in ws vs

-- Some rule is for the resource and has all the verbs.
unfoldable pub meets : List Rule → Demand → Bool
meets [] d = false
meets (r ∷ rs) d =
    (r.group == d.group && (r.resource == d.resource && all_in d.verbs r.verbs)) || meets rs d

unfoldable pub permits : List Rule → Call → Bool
unfolding meets demand
permits rules c = meets rules (demand c)
