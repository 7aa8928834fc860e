-- ===== src/Assignments.antt =====
-- pkg/apis/assignments/v1alpha1: the custom resources and their helper methods.
pub mod Types
pub mod Taints
pub mod Groups
