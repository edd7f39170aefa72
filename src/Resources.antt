-- ===== src/Resources.antt =====
-- The objects that the controllers and the session manager keep in the cluster.
pub mod Core
pub mod Session
pub mod Registration
