-- ===== src/Controllers/Queueing.antt =====
-- Which groups the events queue.
use kube_valet.Prelude.{
  String, ◌≡◌, refl, ap, ◌∙◌, Bool, false, ◌&&◌, ◌||◌, ◌==◌, Option, none, some, List, [], ◌∷◌,
  arith, any, Bool-cases, inl, inr,
}
use kube_valet.Kube.Objects.{Node}
use kube_valet.Kube.Pods.{Pod}
use kube_valet.Kube.Cluster.{Reply, reply}
use kube_valet.Assignments.Types.{NodeAssignmentGroup}
use kube_valet.Assignments.Groups.{targets_node}
use kube_valet.Utils.{node_targeting_has_changed}
use kube_valet.PackLeft.{node_has_pack_left_assignment}
use kube_valet.Queues.{RateLimiting, add_item}
use kube_valet.Controllers.{queue_nag, queue_nags}
use kube_valet.Controllers.Nags.{get_node_nags, on_update_node, on_delete_node}
use kube_valet.Controllers.PackLeft.{
  get_pack_left_nags, get_node_hosting_pod, process_pack_left_nags_for_node, process_pod_nags,
  on_delete_pod,
}

-- A queue holds what was added to it.
pub record HoldsAdded (queues : RateLimiting) : Type 0 where
  pub is_queued : String → queues.Queue → Bool
  pub added :
      (k j : String) (q : queues.Queue) → is_queued j (queues.add k q) ≡ k == j || is_queued j q

-- The key of a group, which has no namespace, is its name.
abbrev pub KeysAreNames : (NodeAssignmentGroup → Reply String) → Type 0
KeysAreNames key_of = (nag : NodeAssignmentGroup) → key_of nag ≡ reply nag.name

module _ (queues : RateLimiting) (held : HoldsAdded queues)
    (key_of : NodeAssignmentGroup → Reply String) (keys : KeysAreNames key_of) where
  open held use {is_queued}

  is_queued-queue_nag :
      (nag : NodeAssignmentGroup) (j : String) (q : queues.Queue)
      → is_queued j (queue_nag queues key_of nag q) ≡ nag.name == j || is_queued j q
  unfolding add_item
  is_queued-queue_nag nag j q = rw (keys nag) (held.added nag.name j q)

  is_queued-queue_nags :
      (nags : List NodeAssignmentGroup) (j : String) (q : queues.Queue)
      → is_queued j (queue_nags queues key_of nags q) ≡ any (λ g. g.name == j) nags || is_queued j q
  unfolding queue_nags
  is_queued-queue_nags [] j q = refl
  is_queued-queue_nags (nag ∷ nags) j q = ground (
    arith,
    is_queued-queue_nags nags j (queue_nag queues key_of nag q),
    is_queued-queue_nag nag j q,
  )

  any-get_node_nags :
      (node : Node) (nags : List NodeAssignmentGroup) (j : String)
      → any (λ g. g.name == j) (get_node_nags node nags)
        ≡ any (λ g. targets_node g node && (g.name == j)) nags
  unfolding get_node_nags
  any-get_node_nags node [] j = refl
  any-get_node_nags node (nag ∷ nags) j = ground (arith, any-get_node_nags node nags j)

  any-get_pack_left_nags :
      (node : Node) (nags : List NodeAssignmentGroup) (j : String)
      → any (λ g. g.name == j) (get_pack_left_nags node nags)
        ≡ any
            (λ g. targets_node g node && node_has_pack_left_assignment node g && (g.name == j))
            nags
  unfolding get_pack_left_nags
  any-get_pack_left_nags node [] j = refl
  any-get_pack_left_nags node (nag ∷ nags) j = ground (arith, any-get_pack_left_nags node nags j)

  -- If a queue holds what is added and the keys of groups are their names, then after the node assignment
  -- controller has handled an update of a node, what was queued is queued still, and besides it all groups
  -- if the targetable labels of the node have changed, and none otherwise.
  pub is_queued-on_update_node :
      (nags : List NodeAssignmentGroup) (old new : Node) (j : String) (q : queues.Queue)
      → is_queued j (on_update_node queues key_of nags old new q)
        ≡ node_targeting_has_changed old new && any (λ g. g.name == j) nags || is_queued j q
  unfolding on_update_node
  is_queued-on_update_node nags old new j q =
      elim (Bool-cases (node_targeting_has_changed old new)) [
        | inl e ↦ rw e (is_queued-queue_nags nags j q)
        | inr e ↦ rw e refl
      ]

  -- Under the same conditions, the deletion of a node queues the groups that targeted it, and no others.
  pub is_queued-on_delete_node :
      (nags : List NodeAssignmentGroup) (node : Node) (j : String) (q : queues.Queue)
      → is_queued j (on_delete_node queues key_of nags node q)
        ≡ any (λ g. targets_node g node && (g.name == j)) nags || is_queued j q
  unfolding on_delete_node
  is_queued-on_delete_node nags node j q =
      is_queued-queue_nags (get_node_nags node nags) j q
      ∙ ap (λ b. b || is_queued j q) (any-get_node_nags node nags j)

  -- Whether a group is queued for a pod on the node that is found.
  abbrev pub packs_host : Option Node → List NodeAssignmentGroup → String → Bool
  packs_host none nags j = false
  packs_host (some node) nags j =
      any (λ g. targets_node g node && node_has_pack_left_assignment node g && (g.name == j)) nags

  -- Under the same conditions, the deletion of a pod queues for packing the groups that target the node
  -- that hosted it and in which this node has a pack-left assignment; none if the store has no such node.
  pub is_queued-on_delete_pod :
      (nags : List NodeAssignmentGroup) (nodes : List Node) (pod : Pod) (j : String)
      (q : queues.Queue)
      → is_queued j (on_delete_pod queues key_of nags nodes pod q)
        ≡ packs_host (get_node_hosting_pod pod nodes) nags j || is_queued j q
  unfolding on_delete_pod process_pod_nags process_pack_left_nags_for_node
  is_queued-on_delete_pod nags nodes pod j q = go (get_node_hosting_pod pod nodes)
    where
      go :
          (o : Option Node)
          → is_queued j (elim o [
            | none ↦ q
            | some node ↦ process_pack_left_nags_for_node queues key_of nags node q
          ])
            ≡ packs_host o nags j || is_queued j q
      go none = refl
      go (some node) =
          is_queued-queue_nags (get_pack_left_nags node nags) j q
          ∙ ap (λ b. b || is_queued j q) (any-get_pack_left_nags node nags j)
