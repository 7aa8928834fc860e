-- ===== src/CommandLine/Groups.antt =====
-- groupCreate of bin/valetctl.go.
pub mod Arguments
pub mod Ranges
use Prim.Native.String.{◌++◌}
use mathlib.Core.List
use kube_valet.Prelude.{
  String, Bool, true, false, Option, none, some, List, [], ◌∷◌, ◌==◌, if◌then◌else◌, Map, ℤ, pos,
}
use kube_valet.Outcome.{Outcome, ok, err, panic, exit, Run, ◌>>=◌}
use kube_valet.Kube.Cluster.{Reply, reply, failed}
use kube_valet.Assignments.Types.{NodeAssignment, NodeAssignmentGroup, mode_label_only}
use kube_valet.CommandLine.Strings.{split_n, cut_suffix, is_number, parse_int}
use kube_valet.CommandLine.Tool.{
  Flags, Tool, nag_document, nag_kind, api_version, output_object, report_created,
}

abbrev pub default_number : String
default_number = "DEFAULT"

-- The name, the number and the mode of an argument, by the number of its parts.
unfoldable pub argument_fields : List String → Outcome (String × String × String)
argument_fields (name ∷ []) = ok (name, default_number, mode_label_only)
argument_fields (name ∷ num ∷ []) = ok (name, num, mode_label_only)
argument_fields (name ∷ num ∷ mode ∷ []) = ok (name, num, mode)
argument_fields _ = exit

abbrev pub new_assignment : String → String → ℤ → ℤ → NodeAssignment
new_assignment name mode num percent = record {
  name = name;
  mode = mode;
  taint_effect = "";
  num_desired = num;
  percent_desired = percent;
  scheduling_mode = "";
  pack_left = none;
}

abbrev pub add_assignment : NodeAssignment → NodeAssignmentGroup → NodeAssignmentGroup
add_assignment a nag = record nag { assignments = List.◌++◌ nag.assignments (a ∷ []) }

-- An error of strconv ends the program.
abbrev pub or_exit {ℓ} : {A : Type ℓ} → Reply A → Outcome A
or_exit (reply a) = ok a
or_exit (failed e) = exit

abbrev pub trim_percent : String → String
trim_percent s = elim (cut_suffix s "%") [ none ↦ s | some t ↦ t ]

-- The three forms of a number, in the order in which the code tries them.
unfoldable pub add_argument :
    String → String → String → NodeAssignmentGroup → Outcome NodeAssignmentGroup
add_argument name num mode nag =
    if num == default_number
    then ok (record nag { default_assignment = some (new_assignment name mode (pos 0) (pos 0)) })
    else elim (cut_suffix num "%") [
      | some t ↦ do
        percent ← or_exit (parse_int t)
        ok (add_assignment (new_assignment name mode (pos 0) percent) nag)
      | none ↦
          if is_number num
          then (do
            n ← or_exit (parse_int (trim_percent num))
            ok (add_assignment (new_assignment name mode n (pos 0)) nag))
          else exit
    ]

unfoldable pub read_argument : String → NodeAssignmentGroup → Outcome NodeAssignmentGroup
unfolding argument_fields add_argument
read_argument assign nag = do
  (name, num, mode) ← argument_fields (split_n b':' 3 assign)
  add_argument name num mode nag

-- The loop over the arguments.
unfoldable pub read_arguments : List String → NodeAssignmentGroup → Outcome NodeAssignmentGroup
unfolding read_argument
read_arguments [] nag = ok nag
read_arguments (assign ∷ rest) nag = do nag' ← read_argument assign nag; read_arguments rest nag'

abbrev pub new_group : String → Map String → NodeAssignmentGroup
new_group name labels = record {
  name = name;
  uid = "";
  resource_version = "";
  deleting = false;
  finalizers = [];
  target_labels = labels;
  default_assignment = none;
  assignments = [];
}

module _ (tool : Tool) where
  open tool use {World, selector_to_labels, create_nag}

  -- The group that the flags describe.
  unfoldable pub described_group : Flags → Outcome NodeAssignmentGroup
  unfolding read_arguments
  described_group flags = do
    labels ← or_exit (selector_to_labels flags.group_target_labels)
    read_arguments flags.group_assignments (new_group flags.group_name labels)

  abbrev pub submit_group : Flags → Outcome NodeAssignmentGroup → Run World (Unit {0})
  submit_group flags (ok nag) w =
      if flags.dry_run
      then output_object tool flags.output (nag_document nag_kind api_version nag) w
      else report_created tool ("NodeAssignmentGroup " ++ (flags.group_name ++ " created\n"))
          (create_nag nag w)
  submit_group flags (err e) w = (err e, w)
  submit_group flags panic w = (panic, w)
  submit_group flags exit w = (exit, w)

  unfoldable pub group_create : Flags → Run World (Unit {0})
  unfolding described_group
  group_create flags w = submit_group flags (described_group flags) w
