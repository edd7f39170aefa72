-- ===== src/Network.antt =====
-- The network controller: controllers/network/internal/controller.
pub mod Wiring
pub mod Honest
pub mod Services
pub mod Publishing
pub mod Reconciler
