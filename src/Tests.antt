-- ===== src/Tests.antt =====
-- The theorems applied to a small deployment, on which every definition is run.
mod Router
mod Routing
mod Keeping
mod Starting
mod Running
mod Converging
pub mod Fixtures
mod Clients
mod Placing
mod Naming
mod Reporting
mod Collecting
mod Publishing
mod Serving
mod Refusing
mod Managing
