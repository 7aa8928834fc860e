-- ===== src/Controllers/Nags.antt =====
-- The event handlers of pkg/controller/nodeassignment/controller.go.
use kube_valet.Prelude.{String, not, ◌||◌, ◌==◌, List, [], ◌∷◌, if◌then◌else◌}
use kube_valet.Kube.Objects.{Node}
use kube_valet.Kube.Cluster.{Reply}
use kube_valet.Assignments.Types.{NodeAssignmentGroup}
use kube_valet.Assignments.Groups.{targets_node}
use kube_valet.Utils.{node_targeting_has_changed}
use kube_valet.Queues.{RateLimiting}
use kube_valet.Controllers.{queue_nag, queue_nags}

unfoldable pub get_node_nags : Node → List NodeAssignmentGroup → List NodeAssignmentGroup
get_node_nags node [] = []
get_node_nags node (nag ∷ rest) =
    let more = get_node_nags node rest in if targets_node nag node then nag ∷ more else more

module _ (queues : RateLimiting) (key_of : NodeAssignmentGroup → Reply String) where
  open queues use {Queue}

  unfoldable pub on_add_node : List NodeAssignmentGroup → Node → Queue → Queue
  on_add_node nags node q = queue_nags queues key_of nags q

  -- Only a change of what groups can target counts.
  unfoldable pub on_update_node : List NodeAssignmentGroup → Node → Node → Queue → Queue
  on_update_node nags old new q =
      if node_targeting_has_changed old new then queue_nags queues key_of nags q else q

  unfoldable pub on_delete_node : List NodeAssignmentGroup → Node → Queue → Queue
  unfolding get_node_nags
  on_delete_node nags node q = queue_nags queues key_of (get_node_nags node nags) q

  unfoldable pub on_add_nag : NodeAssignmentGroup → Queue → Queue
  on_add_nag nag q = queue_nag queues key_of nag q

  unfoldable pub on_update_nag : NodeAssignmentGroup → NodeAssignmentGroup → Queue → Queue
  on_update_nag old new q =
      if not (old.resource_version == new.resource_version) || not (old.uid == new.uid)
      then queue_nag queues key_of new q
      else q

  unfoldable pub on_delete_nag : NodeAssignmentGroup → Queue → Queue
  on_delete_nag nag q = queue_nag queues key_of nag q
