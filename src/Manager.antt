-- ===== src/Manager.antt =====
-- The session manager: session-manager/handlers and session-manager/k8s-client.
pub mod Rest
pub mod Routes
pub mod Clusters
pub mod Sessions
pub mod Ping
pub mod Clients
pub mod Config
