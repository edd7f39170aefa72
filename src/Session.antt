-- ===== src/Session.antt =====
-- The session controller: controllers/session/internal/controller.
pub mod Soundness
pub mod Clients
pub mod Allocation
pub mod Placement
pub mod Readiness
pub mod Conditions
pub mod Registrations
pub mod Pods
pub mod Reconciler
pub mod Events
