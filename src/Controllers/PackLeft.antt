-- ===== src/Controllers/PackLeft.antt =====
-- The event handlers and the processing function of pkg/controller/scheduling/packleft/controller.go.
use kube_valet.Prelude.{
  String, Bool, true, false, not, ◌&&◌, ◌||◌, ◌==◌, Option, none, some, List, [], ◌∷◌,
  if◌then◌else◌, Map,
}
use kube_valet.Outcome.{Run, then_run}
use kube_valet.Kube.Objects.{Node}
use kube_valet.Kube.Pods.{Pod}
use kube_valet.Kube.Cluster.{Cluster, Reply}
use kube_valet.Assignments.Types.{NodeAssignmentGroup}
use kube_valet.Assignments.Groups.{targets_node}
use kube_valet.Utils.{node_targeting_has_changed}
use kube_valet.Finalizers.{remove_pack_left_finalizer}
use kube_valet.PackLeft.{node_can_be_balanced, node_has_pack_left_assignment}
use kube_valet.PackLeft.Fullness.{Floats}
use kube_valet.PackLeft.Rebalance.{clean_all_nodes, clean_unassigned_nodes, rebalance_nag}
use kube_valet.Queues.{RateLimiting}
use kube_valet.Controllers.{queue_nag, queue_nags}

unfoldable pub get_pack_left_nags : Node → List NodeAssignmentGroup → List NodeAssignmentGroup
get_pack_left_nags node [] = []
get_pack_left_nags node (nag ∷ rest) =
    let more = get_pack_left_nags node rest in
    if targets_node nag node && node_has_pack_left_assignment node nag then nag ∷ more else more

unfoldable pub get_node_hosting_pod : Pod → List Node → Option Node
get_node_hosting_pod pod [] = none
get_node_hosting_pod pod (node ∷ rest) =
    if node.name == pod.node_name then some node else get_node_hosting_pod pod rest

abbrev pub differ : Bool → Bool → Bool
differ true b = not b
differ false b = b

module _ (queues : RateLimiting) (key_of : NodeAssignmentGroup → Reply String) where
  open queues use {Queue}

  unfoldable pub on_add_node : List NodeAssignmentGroup → Node → Queue → Queue
  on_add_node nags node q = queue_nags queues key_of nags q

  unfoldable pub on_update_node : List NodeAssignmentGroup → Node → Node → Queue → Queue
  on_update_node nags old new q =
      if node_targeting_has_changed old new
        || differ (node_can_be_balanced old) (node_can_be_balanced new)
      then queue_nags queues key_of nags q
      else q

  unfoldable pub process_pack_left_nags_for_node : List NodeAssignmentGroup → Node → Queue → Queue
  unfolding get_pack_left_nags
  process_pack_left_nags_for_node nags node q =
      queue_nags queues key_of (get_pack_left_nags node nags) q

  unfoldable pub on_delete_node : List NodeAssignmentGroup → Node → Queue → Queue
  unfolding process_pack_left_nags_for_node
  on_delete_node nags node q = process_pack_left_nags_for_node nags node q

  unfoldable pub on_add_nag : NodeAssignmentGroup → Queue → Queue
  on_add_nag nag q = queue_nag queues key_of nag q

  unfoldable pub on_update_nag : NodeAssignmentGroup → NodeAssignmentGroup → Queue → Queue
  on_update_nag old new q = queue_nag queues key_of new q

  unfoldable pub on_delete_nag : NodeAssignmentGroup → Queue → Queue
  on_delete_nag nag q = queue_nag queues key_of nag q

  unfoldable pub process_pod_nags : List NodeAssignmentGroup → List Node → Pod → Queue → Queue
  unfolding get_node_hosting_pod process_pack_left_nags_for_node
  process_pod_nags nags nodes pod q = elim (get_node_hosting_pod pod nodes) [
    | none ↦ q
    | some node ↦ process_pack_left_nags_for_node nags node q
  ]

  unfoldable pub on_add_pod : List NodeAssignmentGroup → List Node → Pod → Queue → Queue
  unfolding process_pod_nags
  on_add_pod nags nodes pod q = process_pod_nags nags nodes pod q

  unfoldable pub on_update_pod : List NodeAssignmentGroup → List Node → Pod → Pod → Queue → Queue
  unfolding get_node_hosting_pod on_add_node
  on_update_pod nags nodes old new q =
      if old.node_name == new.node_name
      then q
      else elim (get_node_hosting_pod new nodes) [ none ↦ q | some node ↦ on_add_node nags node q ]

  unfoldable pub on_delete_pod : List NodeAssignmentGroup → List Node → Pod → Queue → Queue
  unfolding process_pod_nags
  on_delete_pod nags nodes pod q = process_pod_nags nags nodes pod q

-- The function that Run gives to the queue. An error of a rebalancing is not returned.
module _ (cluster : Cluster) (floats : Floats) where
  unfoldable pub process_nag :
      (Map (List Node) → Map (List Node))
      → List Node
      → List Pod
      → NodeAssignmentGroup
      → Run cluster.World (Unit {0})
  process_nag visit nodes pods nag =
      if nag.deleting
      then then_run (clean_all_nodes cluster nag nodes)
          (λ _. remove_pack_left_finalizer cluster nag)
      else then_run (rebalance_nag cluster floats nag visit nodes pods)
          (λ _. clean_unassigned_nodes cluster nag nodes)
