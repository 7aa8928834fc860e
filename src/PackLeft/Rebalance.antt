-- ===== src/PackLeft/Rebalance.antt =====
-- RebalanceNag, CleanAllNodes and CleanUnassignedNodes of
-- pkg/controller/scheduling/packleft/manager.go, over the lists that the node and pod stores return.
-- `visit` is the order in which `range` visits the node groups.
use kube_valet.Prelude.{
  String, Bool, not, ◌&&◌, ◌||◌, none, some, List, [], ◌∷◌, if◌then◌else◌, Map,
}
use kube_valet.Outcome.{ok, Run, then_run, on_err}
use kube_valet.Kube.Objects.{Node}
use kube_valet.Kube.Pods.{Pod}
use kube_valet.Kube.Cluster.{Cluster}
use kube_valet.Kube.Sending.{send_difference}
use kube_valet.Assignments.Types.{NodeAssignmentGroup}
use kube_valet.Finalizers.{ensure_finalizer}
use kube_valet.PackLeft.{
  get_label_key, get_assignment_by_name, get_pack_left_node_groups, node_has_pack_left_assignment,
  node_has_pack_left_attributes, node_can_be_balanced, unassign_node,
}
use kube_valet.PackLeft.Fullness.{Floats}
use kube_valet.PackLeft.Balance.{balance_nodes}

-- The node is in no pack-left assignment of the group and has a label or a taint of it.
unfoldable pub is_stale : NodeAssignmentGroup → Node → Bool
is_stale nag node =
    not (node_has_pack_left_assignment node nag) && node_has_pack_left_attributes node nag

module _ (cluster : Cluster) where
  open cluster use {World}

  abbrev pub clear_node : NodeAssignmentGroup → Node → Run World (Unit {0})
  clear_node nag node = send_difference cluster node (unassign_node node (get_label_key nag.name))

  -- The first error ends the loop.
  unfoldable pub clean_all_nodes : NodeAssignmentGroup → List Node → Run World (Unit {0})
  unfolding is_stale
  clean_all_nodes nag [] w = (ok tt, w)
  clean_all_nodes nag (node ∷ rest) w =
      let next = λ (v : World). clean_all_nodes nag rest v in
      if is_stale nag node || not (node_can_be_balanced node)
      then then_run (clear_node nag node) (λ _. next) w
      else next w

  -- Errors are dropped.
  unfoldable pub clean_unassigned_nodes : NodeAssignmentGroup → List Node → Run World (Unit {0})
  unfolding is_stale
  clean_unassigned_nodes nag [] w = (ok tt, w)
  clean_unassigned_nodes nag (node ∷ rest) w =
      let next = λ (v : World). clean_unassigned_nodes nag rest v in
      if is_stale nag node then on_err (clear_node nag node) (λ _. next) (λ _. next) w else next w

  module _ (floats : Floats) where
    -- An assignment that the group does not have is passed over, as is a group without nodes.
    abbrev pub rebalance_group :
        NodeAssignmentGroup → List Pod → String → List Node → Run World (Unit {0})
    rebalance_group nag pods name [] w = (ok tt, w)
    rebalance_group nag pods name (node ∷ nodes) w = elim (get_assignment_by_name name nag) [
      | none ↦ (ok tt, w)
      | some a ↦
          balance_nodes floats cluster pods (node ∷ nodes) (get_label_key nag.name) a.pack_left w
    ]

    abbrev pub rebalance_groups :
        NodeAssignmentGroup → List Pod → Map (List Node) → Run World (Unit {0})
    rebalance_groups nag pods [] w = (ok tt, w)
    rebalance_groups nag pods ((name, nodes) ∷ rest) w =
        then_run (rebalance_group nag pods name nodes) (λ _. rebalance_groups nag pods rest) w

    -- The error of `ensureFinalizer` is dropped.
    unfoldable pub rebalance_nag :
        NodeAssignmentGroup
        → (Map (List Node) → Map (List Node))
        → List Node
        → List Pod
        → Run World (Unit {0})
    rebalance_nag nag visit nodes pods =
        let groups = rebalance_groups nag pods (visit (get_pack_left_node_groups nag nodes)) in
        on_err (ensure_finalizer cluster nag) (λ _. groups) (λ _. groups)
