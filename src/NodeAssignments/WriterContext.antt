-- ===== src/NodeAssignments/WriterContext.antt =====
-- pkg/controller/nodeassignment/writer_context.go: its state and the computation of the changes
-- that are needed. `UntargetedNodes` is never read or written and is left out, as are log messages.
pub mod Changes
pub mod Needed
pub mod Steps
use kube_valet.Prelude.{
  ℕ, suc, ◌+◌, ◌*◌, ◌/◌, String, Bool, true, false, Option, none, some, List, [], ◌∷◌, ◌++◌, ◌==◌,
  if◌then◌else◌, length, ℤ, pos, negsuc, ◌+ℤ◌, ◌-ℤ◌, ltb_ℤ, eqb_ℤ, quot, mul_ℕ, Map, lookup, insert,
  remove,
}
use kube_valet.Kube.Objects.{Node}
use kube_valet.Assignments.Types.{NodeAssignment, NodeAssignmentGroup}
use kube_valet.Assignments.Groups.{get_assignment}

-- A Go `map[string]struct{}`
abbrev pub Names : Type 0
Names = Map (Unit {0})

pub record WriterContext : Type 0 where
  pub nag : NodeAssignmentGroup
  pub known_assignments : Names
  pub targeted_nodes : List Node
  pub current_assignments : Map ℤ
  pub assignment_changes : Map ℤ
  pub unassigned_node_names : Names

unfoldable pub add_names : List NodeAssignment → Names → Names
add_names [] names = names
add_names (a ∷ rest) names = add_names rest (insert a.name tt names)

abbrev pub is_default : NodeAssignmentGroup → String → Bool
is_default nag name = elim nag.default_assignment [ none ↦ false | some d ↦ name == d.name ]

unfoldable pub update_known_assignments : WriterContext → WriterContext
unfolding add_names
update_known_assignments wc = record wc {
  known_assignments =
      let names = add_names wc.nag.assignments [] in
      elim wc.nag.default_assignment [ none ↦ names | some d ↦ insert d.name tt names ];
}

-- `m[k]` of a `map[string]int`: 0 where the key is missing.
unfoldable pub get_int : String → Map ℤ → ℤ
get_int k m = elim (lookup k m) [ none ↦ pos 0 | some d ↦ d ]

-- One round of the loop of `updateCurrentAssignments`, for the assignment that a node has.
unfoldable pub tally : NodeAssignmentGroup → Option String → Map ℤ → Map ℤ
tally nag none counts = counts
tally nag (some a) counts =
    if is_default nag a then counts else insert a (get_int a counts +ℤ pos 1) counts

unfoldable pub count_current : NodeAssignmentGroup → List Node → Map ℤ → Map ℤ
unfolding tally
count_current nag [] counts = counts
count_current nag (node ∷ rest) counts =
    count_current nag rest (tally nag (get_assignment nag node) counts)

unfoldable pub update_current_assignments : WriterContext → WriterContext
unfolding count_current
update_current_assignments wc = record wc {
  current_assignments = count_current wc.nag wc.targeted_nodes [];
}

-- The number of nodes that an assignment should have, out of `targeted`. The code computes
-- int(float32(targeted) * float32(percent) / 100.0), which is the exact quotient while the product
-- is below 2 ^ 24.
unfoldable pub desired : ℕ → NodeAssignment → ℤ
desired targeted a =
    let share = quot (mul_ℕ targeted a.percent_desired) 100 in
    let least = if eqb_ℤ share (pos 0) then pos 1 else share in
    if ltb_ℤ least a.num_desired then a.num_desired else least

unfoldable pub needed_changes : ℕ → Map ℤ → List NodeAssignment → Map ℤ → Map ℤ
unfolding desired
needed_changes targeted current [] changes = changes
needed_changes targeted current (a ∷ rest) changes =
    let d = desired targeted a -ℤ get_int a.name current in
    needed_changes targeted current rest
      (if eqb_ℤ d (pos 0) then changes else insert a.name d changes)

unfoldable pub update_assignment_changes : WriterContext → WriterContext
unfolding needed_changes
update_assignment_changes wc = record wc {
  assignment_changes =
      needed_changes (length wc.targeted_nodes) wc.current_assignments wc.nag.assignments [];
}

-- `m[k] += d`, and the entry goes when it becomes 0.
unfoldable pub change_by : ℤ → String → Map ℤ → Map ℤ
change_by d k changes =
    let n = get_int k changes +ℤ d in
    if eqb_ℤ n (pos 0) then remove k (insert k n changes) else insert k n changes

-- Whether a node may leave its assignment: it has too many nodes, or is the default.
unfoldable pub may_leave : NodeAssignmentGroup → Map ℤ → String → Bool
may_leave nag changes ca = elim (lookup ca changes) [
  | none ↦ is_default nag ca
  | some d ↦ if ltb_ℤ d (pos 0) then true else is_default nag ca
]
