-- ===== src/NodeAssignments/Plan.antt =====
-- What a reconciliation is to do, without the API server: from the assignment that each targeted
-- node has, and the needed changes, the assignment that each node is to have.
pub mod Balance
pub mod Signs
pub mod Totals
pub mod Convergence
use kube_valet.Prelude.{
  String, Bool, true, false, Option, none, some, List, [], ◌∷◌, if◌then◌else◌, ℤ, pos, negsuc,
  ltb_ℤ, Map,
}
use kube_valet.Assignments.Types.{NodeAssignment, NodeAssignmentGroup}
use kube_valet.NodeAssignments.WriterContext.{get_int, change_by, may_leave}

-- The first assignment of the list that still needs nodes.
unfoldable pub first_needing : List NodeAssignment → Map ℤ → Option NodeAssignment
first_needing [] m = none
first_needing (a ∷ rest) m =
    if ltb_ℤ (pos 0) (get_int a.name m) then some a else first_needing rest m

abbrev pub name_of : Option NodeAssignment → Option String
name_of none = none
name_of (some d) = some d.name

-- A node without an assignment goes to the first that needs nodes, or else to the default.
abbrev pub enter : NodeAssignmentGroup → Map ℤ → Option NodeAssignment → Option String × Map ℤ
enter nag m none = (name_of nag.default_assignment, m)
enter nag m (some a) = (some a.name, change_by (negsuc 0) a.name m)

unfoldable pub plan_place : NodeAssignmentGroup → Map ℤ → Option String × Map ℤ
unfolding first_needing
plan_place nag m = enter nag m (first_needing nag.assignments m)

unfoldable pub plan_node : NodeAssignmentGroup → Map ℤ → Option String → Option String × Map ℤ
unfolding plan_place
plan_node nag m none = plan_place nag m
plan_node nag m (some c) =
    if may_leave nag m c then plan_place nag (change_by (pos 1) c m) else (some c, m)

unfoldable pub plan :
    NodeAssignmentGroup → Map ℤ → List (Option String) → List (Option String) × Map ℤ
unfolding plan_node
plan nag m [] = ([], m)
plan nag m (c ∷ cs) =
    let (c', m') = plan_node nag m c in let (cs', m'') = plan nag m' cs in (c' ∷ cs', m'')
