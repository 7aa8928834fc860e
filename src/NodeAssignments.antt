-- ===== src/NodeAssignments.antt =====
-- pkg/controller/nodeassignment: the controller that assigns nodes to the assignments of a group.
pub mod WriterContext
pub mod Plan
pub mod Reconcile
pub mod Sets
pub mod Reconciled
pub mod Manager
pub mod Deletion
