-- ===== src/Assignments/Groups.antt =====
pub mod Keys
pub mod Targeting
pub mod Unassign
pub mod Assign
-- The NodeAssignmentGroup methods of pkg/apis/assignments/v1alpha1/helpers.go.
use Prim.Native.String.{◌++◌}
use kube_valet.Prelude.{
  String, Bool, true, false, Option, none, some, List, [], ◌∷◌, ◌==◌, ◌&&◌, if◌then◌else◌, Map,
}
use mathlib.Core.List
use kube_valet.Outcome.{Outcome, ok, ◌>>=◌}
use kube_valet.Kube.Objects.{LabelMap, Taint, Node, no_schedule, prefer_no_schedule, no_execute}
use kube_valet.Kube.Labels.{get_label, put_label, delete_label}
use kube_valet.Assignments.Types.{
  NodeAssignment, NodeAssignmentGroup, mode_label_only, mode_label_and_taint, mode_default,
  mode_undefined, taint_effect_default, taint_effect_not_specified,
}
use kube_valet.Assignments.Taints.{delete_taints}

abbrev pub protected_node_label_key : String
protected_node_label_key = "nags.kube-valet.io/protected"

abbrev pub protected_label_value : String
protected_label_value = "true"

-- "nag." + GroupName + "/" + the group's name
unfoldable pub assignment_key : NodeAssignmentGroup → String
assignment_key nag = "nag.assignments.kube-valet.io/" ++ nag.name

-- "nag.packleft.scheduling." + Domain + "/" + the group's name
unfoldable pub pack_left_key : NodeAssignmentGroup → String
pack_left_key nag = "nag.packleft.scheduling.kube-valet.io/" ++ nag.name

-- The loop over the target labels, which stops at the first that the labels do not match.
unfoldable pub match_labels : Map String → LabelMap → Bool
match_labels [] labels = true
match_labels ((k, v) ∷ rest) labels = elim (get_label k labels) [
  | none ↦ false
  | some val ↦ if v == val then match_labels rest labels else false
]

unfoldable pub is_protected : LabelMap → Bool
is_protected labels = elim (get_label protected_node_label_key labels) [
  | none ↦ false
  | some val ↦ val == protected_label_value
]

unfoldable pub targets_node : NodeAssignmentGroup → Node → Bool
unfolding is_protected match_labels
targets_node nag node =
    if is_protected node.labels then false else match_labels nag.target_labels node.labels

-- The value of the group's label, and whether it is there.
unfoldable pub get_assignment : NodeAssignmentGroup → Node → Option String
get_assignment nag node = get_label (assignment_key nag) node.labels

unfoldable pub set_label : NodeAssignmentGroup → Node → NodeAssignment → Outcome Node
set_label nag node na = do
  labels ← put_label (assignment_key nag) na.name node.labels
  ok (record node { labels = labels })

unfoldable pub remove_label : NodeAssignmentGroup → Node → Node
remove_label nag node = record node {
  labels = delete_label (pack_left_key nag) (delete_label (assignment_key nag) node.labels);
}

abbrev pub taint_of : String → String → Taint
taint_of key effect = record { key = key; value = ""; effect = effect }

-- All taints that the group can have put on a node.
unfoldable pub group_taints : NodeAssignmentGroup → List Taint
group_taints nag =
    let k = assignment_key nag in
    let plk = pack_left_key nag in
    taint_of k no_schedule
    ∷ taint_of k prefer_no_schedule
    ∷ taint_of k no_execute
    ∷ taint_of plk no_schedule
    ∷ taint_of plk prefer_no_schedule
    ∷ taint_of plk no_execute
    ∷ []

-- The code sets the default effect in the assignment itself, so that comes back too.
unfoldable pub set_taint : NodeAssignmentGroup → Node → NodeAssignment → Node × NodeAssignment
set_taint nag node na =
    let effect =
      if na.taint_effect == taint_effect_not_specified
      then taint_effect_default
      else na.taint_effect in
    let taint : Taint = record { key = assignment_key nag; value = na.name; effect = effect } in
    (
      record node { taints = List.◌++◌ node.taints (taint ∷ []) },
      record na { taint_effect = effect },
    )

-- The switch on the mode: a mode that it does not know changes nothing.
unfoldable pub apply_mode :
    NodeAssignmentGroup → Node → NodeAssignment → Outcome (Node × NodeAssignment)
unfolding set_label set_taint
apply_mode nag node na =
    if na.mode == mode_label_and_taint
    then (do labelled ← set_label nag node na; ok (set_taint nag labelled na))
    else if na.mode == mode_label_only
    then (do labelled ← set_label nag node na; ok (labelled, na))
    else ok (node, na)

-- The code sets the default mode in the assignment itself, so that comes back too.
unfoldable pub assign :
    NodeAssignmentGroup → Node → NodeAssignment → Outcome (Node × NodeAssignment)
unfolding apply_mode
assign nag node na =
    apply_mode nag node
      (record na { mode = if na.mode == mode_undefined then mode_default else na.mode })

module _ (match_taint : Taint → Taint → Bool) where
  -- The node, and the taints to remove that were not found.
  unfoldable pub remove_taint : NodeAssignmentGroup → Node → Node × List Taint
  unfolding group_taints delete_taints
  remove_taint nag node =
      let (left, missing) = delete_taints match_taint (group_taints nag) node.taints in
      (record node { taints = left }, missing)

  -- Every caller drops the errors of `Unassign`.
  unfoldable pub unassign : NodeAssignmentGroup → Node → Node
  unfolding remove_label remove_taint
  unassign nag node = (remove_taint nag (remove_label nag node)).0
