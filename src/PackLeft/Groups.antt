-- ===== src/PackLeft/Groups.antt =====
-- Which nodes a group packs left, by assignment.
use mathlib.Core.List.{append-nil}
use kube_valet.Prelude.{
  String, ◌≡◌, refl, sym, ap, ◌∙◌, Bool, ◌&&◌, Option, none, some, List, [], ◌∷◌, ◌++◌,
  if◌then◌else◌, any, ◌==◌, arith, filter, filter-filter, Map, lookup, slice_at, append_at,
  slice_at-append_at,
}
use kube_valet.Kube.Objects.{Node}
use kube_valet.Assignments.Types.{NodeAssignment, NodeAssignmentGroup, scheduling_pack_left}
use kube_valet.Assignments.Groups.{targets_node, get_assignment}
use kube_valet.NodeAssignments.WriterContext.Changes.{holds}
use kube_valet.PackLeft.{
  get_all_assignments, node_has_pack_left_assignment, get_pack_left_node_assignment,
  pack_left_assignment, group_nodes, get_targeted_nodes, get_pack_left_node_groups,
}

get_targeted_nodes-eq_filter :
    (nag : NodeAssignmentGroup) (nodes : List Node)
    → get_targeted_nodes nag nodes ≡ filter (targets_node nag) nodes
unfolding get_targeted_nodes
get_targeted_nodes-eq_filter nag [] = refl
get_targeted_nodes-eq_filter nag (node ∷ nodes) =
    ap (λ rest. if targets_node nag node then node ∷ rest else rest)
      (get_targeted_nodes-eq_filter nag nodes)

module _ (nag : NodeAssignmentGroup) (a : String) where
  abbrev pub is_packed : Node → Bool
  is_packed node = holds a (pack_left_assignment nag node)

  abbrev grouped : Node → Option String → Map (List Node) → Map (List Node)
  grouped node o groups = elim o [ none ↦ groups | some name ↦ append_at name node groups ]

  slice_at-grouped :
      (node : Node) (o : Option String) (groups : Map (List Node)) (rest : List Node)
      → slice_at a (grouped node o groups) ++ rest
        ≡ slice_at a groups ++ (if holds a o then node ∷ rest else rest)
  slice_at-grouped node none groups rest = refl
  slice_at-grouped node (some name) groups rest = slice_at-append_at name a node groups rest

  slice_at-group_nodes :
      (nodes : List Node) (groups : Map (List Node))
      → slice_at a (group_nodes nag nodes groups) ≡ slice_at a groups ++ filter is_packed nodes
  slice_at-group_nodes [] groups = sym (append-nil _)
  slice_at-group_nodes (node ∷ nodes) groups =
      slice_at-group_nodes nodes (grouped node (pack_left_assignment nag node) groups)
      ∙ slice_at-grouped node (pack_left_assignment nag node) groups (filter is_packed nodes)

  -- The group of an assignment is made of the nodes, in the order of the store, that the group
  -- targets and that have this assignment, if the nag has it and packs its nodes left.
  pub get_pack_left_node_groups_lem :
      (nodes : List Node)
      → slice_at a (get_pack_left_node_groups nag nodes)
        ≡ filter (λ n. targets_node nag n && is_packed n) nodes
  unfolding get_pack_left_node_groups lookup
  get_pack_left_node_groups_lem nodes =
      slice_at-group_nodes (get_targeted_nodes nag nodes) []
      ∙ ap (filter is_packed) (get_targeted_nodes-eq_filter nag nodes)
      ∙ filter-filter is_packed (targets_node nag) nodes

any-packing :
    (name : String) (l : List NodeAssignment)
    → any (λ a. name == a.name && (a.scheduling_mode == scheduling_pack_left)) l
      ≡ any (λ a. name == a.name) (filter (λ a. a.scheduling_mode == scheduling_pack_left) l)
any-packing name [] = refl
any-packing name (a ∷ l) = ground (arith, any-packing name l)

-- A node has a pack-left assignment exactly when its assignment is one of those that the group packs left.
pub node_has_pack_left_assignment-listed :
    (nag : NodeAssignmentGroup) (node : Node) (name : String)
    → get_assignment nag node ≡ some name
    → node_has_pack_left_assignment node nag
      ≡ any (λ a. name == a.name) (get_pack_left_node_assignment nag)
unfolding node_has_pack_left_assignment get_pack_left_node_assignment
node_has_pack_left_assignment-listed nag node name e =
    rw (e, node_has_pack_left_assignment) (any-packing name (get_all_assignments nag))
