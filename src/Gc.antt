-- ===== src/Gc.antt =====
-- The garbage collector: controllers/gc/internal/controller/gc_controller.go.
pub mod Reconciler
