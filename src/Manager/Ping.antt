-- ===== src/Manager/Ping.antt =====
-- handlers/ping.go: the addresses of the ping servers, by cluster.
use xr_telepresence_k8s.Base.{◌++◌, bytes_eq, [], ◌∷◌, List}
use xr_telepresence_k8s.Effect.{◌>>=◌, pure, attempt, Result, ok}
use xr_telepresence_k8s.Manager.Clusters.{Exec, Reply, reply, addresses, get_ping, status_ok}
use xr_telepresence_k8s.Manager.Sessions.{Handler}
use xr_telepresence_k8s.Base.Text.{Bytes, text}
use xr_telepresence_k8s.Resources.Core.{Service}
use xr_telepresence_k8s.Base.Dict.{Dict, insert}

abbrev pub problem : Bytes
problem = text "problem getting ip"

-- `fmt.Sprintf("udp://%s:%d", ip, 8080)`, if the service of the cluster has an address
unfoldable pub ping_address : Result Service → Bytes
ping_address (ok svc) = elim svc.load_balancer [
  | [] ↦ problem
  | ip ∷ _ ↦ text "udp://" ++ ip ++ text ":8080"
]
ping_address _ = problem

unfoldable pub ping_servers : Dict Bytes Bytes → List Bytes → Exec (Dict Bytes Bytes)
unfolding ping_address
ping_servers m [] = pure m
ping_servers m (cluster ∷ clusters) = do
  r ← attempt (get_ping cluster)
  ping_servers (insert cluster (ping_address r) m) clusters

unfoldable pub get_ping_servers : Handler → Exec Reply
unfolding ping_servers
get_ping_servers h = do m ← ping_servers [] h.clusters; pure (reply status_ok (addresses m))
