-- ===== src/NodeAssignments/Reconcile.antt =====
-- `Reconcile` against the plan that it carries out, with an API server that accepts every write.
pub mod Views
pub mod Steps
pub mod Placing
pub mod Rounds
pub mod Loop
pub mod Satisfied
