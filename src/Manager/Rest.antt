-- ===== src/Manager/Rest.antt =====
-- k8s-client/methods.go: the REST request of each call of the session manager.
pub mod Writes
pub mod Reads
pub mod Methods
use xr_telepresence_k8s.Base.{Option, none, some}
use xr_telepresence_k8s.Base.Text.{Bytes, text}
use xr_telepresence_k8s.Resources.Session.{Session}
use xr_telepresence_k8s.Manager.Clusters.{
  Request, Patch, list_sessions, get_session, create_session, patch_session, delete_session,
  get_ping_service,
}
use xr_telepresence_k8s.Manager.Routes.{Method, post, get, patch, delete}

-- A patch is a merge patch.
pub data Content : Type 0 where
  no_content : Content
  a_session : Session → Content
  a_merge_patch : Patch → Content

pub record RestRequest : Type 0 where
  pub method : Method
  pub namespace : Bytes
  pub resource : Bytes
  pub name : Option Bytes
  pub content : Content

-- `c.Sessions("default")`
abbrev pub to_sessions : Method → Option Bytes → Content → RestRequest
to_sessions method name content = record {
  method = method;
  namespace = text "default";
  resource = text "sessions";
  name = name;
  content = content;
}

unfoldable pub rest_of : Request → RestRequest
rest_of (list_sessions _) = to_sessions get none no_content
rest_of (get_session _ name) = to_sessions get (some name) no_content
rest_of (create_session _ s) = to_sessions post none (a_session s)
rest_of (patch_session _ name p) = to_sessions patch (some name) (a_merge_patch p)
rest_of (delete_session _ name) = to_sessions delete (some name) no_content
rest_of (get_ping_service _) = record {
  method = get;
  namespace = text "default";
  resource = text "services";
  name = some (text "udp-ping");
  content = no_content;
}
