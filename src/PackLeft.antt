-- ===== src/PackLeft.antt =====
-- pkg/controller/scheduling/packleft/manager.go: what the manager reads of groups and nodes, and how
-- it marks a node. Metrics and log messages are left out.

pub mod Groups
pub mod Marks
pub mod Fullness
pub mod Balance
pub mod Rebalance
pub mod Clearing
pub mod Rebalanced
use Prim.Native.String
use kube_valet.Prelude.{
  String, Bool, true, false, Option, none, some, List, [], ◌∷◌, ◌++◌, ◌==◌, ◌&&◌, not,
  if◌then◌else◌, any, filter, Map, slice_at, append_at,
}
use kube_valet.Outcome.{Outcome, ok, ◌>>=◌}
use kube_valet.Kube.Objects.{LabelMap, Taint, NodeCondition, Node, no_schedule, prefer_no_schedule}
use kube_valet.Kube.Labels.{get_label, put_label, delete_label}
use kube_valet.Assignments.Types.{NodeAssignment, NodeAssignmentGroup, scheduling_pack_left}
use kube_valet.Assignments.Groups.{get_assignment, targets_node}

pub data NodePackLeftState : Type 0 where
  node_use : NodePackLeftState
  node_avoid : NodePackLeftState
  node_deny : NodePackLeftState

abbrev pub state_text : NodePackLeftState → String
state_text node_use = "Use"
state_text node_avoid = "Avoid"
state_text node_deny = "Deny"

unfoldable pub get_label_key : String → String
get_label_key nag = Prim.Native.String.◌++◌ "nag.packleft.scheduling.kube-valet.io/" nag

abbrev pub get_all_assignments : NodeAssignmentGroup → List NodeAssignment
get_all_assignments nag = elim nag.default_assignment [
  | none ↦ nag.assignments
  | some d ↦ nag.assignments ++ d ∷ []
]

abbrev pub find_named : String → List NodeAssignment → Option NodeAssignment
find_named name [] = none
find_named name (a ∷ rest) = if a.name == name then some a else find_named name rest

unfoldable pub get_assignment_by_name : String → NodeAssignmentGroup → Option NodeAssignment
get_assignment_by_name name nag = find_named name (get_all_assignments nag)

-- Nothing calls it.
unfoldable pub get_pack_left_node_assignment : NodeAssignmentGroup → List NodeAssignment
get_pack_left_node_assignment nag =
    filter (λ a. a.scheduling_mode == scheduling_pack_left) (get_all_assignments nag)

unfoldable pub get_targeted_nodes : NodeAssignmentGroup → List Node → List Node
get_targeted_nodes nag [] = []
get_targeted_nodes nag (node ∷ rest) =
    let more = get_targeted_nodes nag rest in if targets_node nag node then node ∷ more else more

-- The name of the node's assignment, if the group has it and packs its nodes left.
unfoldable pub pack_left_assignment : NodeAssignmentGroup → Node → Option String
unfolding get_assignment_by_name
pack_left_assignment nag node = elim (get_assignment nag node) [
  | none ↦ none
  | some name ↦ elim (get_assignment_by_name name nag) [
    | none ↦ none
    | some a ↦ if a.scheduling_mode == scheduling_pack_left then some name else none
  ]
]

abbrev pub group_nodes : NodeAssignmentGroup → List Node → Map (List Node) → Map (List Node)
group_nodes nag [] groups = groups
group_nodes nag (node ∷ rest) groups = group_nodes nag rest (elim (pack_left_assignment nag node) [
  | none ↦ groups
  | some name ↦ append_at name node groups
])

unfoldable pub get_pack_left_node_groups : NodeAssignmentGroup → List Node → Map (List Node)
unfolding get_targeted_nodes pack_left_assignment
get_pack_left_node_groups nag nodes = group_nodes nag (get_targeted_nodes nag nodes) []

abbrev pub is_ready : List NodeCondition → Bool
is_ready [] = false
is_ready (c ∷ rest) = if c.kind == "Ready" then c.status == "True" else is_ready rest

unfoldable pub node_can_be_balanced : Node → Bool
node_can_be_balanced node = not node.unschedulable && is_ready node.conditions

unfoldable pub node_has_pack_left_attributes : Node → NodeAssignmentGroup → Bool
unfolding get_label_key
node_has_pack_left_attributes node nag =
    let lk = get_label_key nag.name in
    elim (get_label lk node.labels) [ some _ ↦ true | none ↦ any (λ t. t.key == lk) node.taints ]

unfoldable pub node_has_pack_left_assignment : Node → NodeAssignmentGroup → Bool
node_has_pack_left_assignment node nag = elim (get_assignment nag node) [
  | none ↦ false
  | some na ↦
      any (λ a. na == a.name && (a.scheduling_mode == scheduling_pack_left))
        (get_all_assignments nag)
]

-- The first taint with the key is taken out.
unfoldable pub remove_taint : String → List Taint → List Taint
remove_taint key [] = []
remove_taint key (t ∷ rest) =
    let others = remove_taint key rest in if t.key == key then rest else t ∷ others

unfoldable pub unassign_node : Node → String → Node
unfolding remove_taint
unassign_node node key = record node {
  labels = delete_label key node.labels;
  taints = remove_taint key node.taints;
}

abbrev pub state_taint : String → NodePackLeftState → List Taint
state_taint key node_use = []
state_taint key node_avoid = record { key = key; value = "Avoid"; effect = prefer_no_schedule } ∷ []
state_taint key node_deny = record { key = key; value = "Deny"; effect = no_schedule } ∷ []

-- The write of the label panics where the node has no label map.
unfoldable pub assign_node : Node → NodePackLeftState → String → Outcome Node
unfolding remove_taint
assign_node node state key = do
  labels ← put_label key (state_text state) node.labels
  ok (record node {
    labels = labels;
    taints = remove_taint key node.taints ++ state_taint key state;
  })
