-- ===== src/CommandLine/Tool.antt =====
-- bin/valetctl.go: its flags, the objects that it makes, and what it calls and does not implement.
use Prim.Native.String.{◌++◌}
use kube_valet.Prelude.{String, Bool, Option, none, some, List, ◌==◌, if◌then◌else◌, Map}
use kube_valet.Outcome.{Outcome, ok, exit, Run}
use kube_valet.Kube.Objects.{Node}
use kube_valet.Kube.Cluster.{Reply, reply, failed}
use kube_valet.Kube.Scheduling.{Affinity, Toleration}
use kube_valet.Assignments.Types.{NodeAssignmentGroup}
use kube_valet.PodAssignments.{PodAssignmentRuleSpec}

abbrev pub RuleSpec : Type 0
RuleSpec = PodAssignmentRuleSpec Affinity Toleration

-- The values of the flags and arguments, as kingpin leaves them.
pub record Flags : Type 0 where
  pub kubeconfig : String
  pub dry_run : Bool
  pub output : String
  pub group_target_labels : String
  pub group_name : String
  pub group_assignments : List String
  pub reported_nags : List String
  pub reported_nodes : List String
  pub namespace : String
  pub rule_target_labels : String
  pub rule_node_selector : String
  pub rule_node_affinity : String
  pub rule_assignment : String
  pub rule_topology_key : String
  pub rule_name : String
  pub rule_mode : String

pub record PodAssignmentRule : Type 0 where
  pub name : String
  pub namespace : String
  pub spec : RuleSpec

pub record ClusterPodAssignmentRule : Type 0 where
  pub name : String
  pub spec : RuleSpec

-- An object with its kind and API version, for output.
pub data Document : Type 0 where
  nag_document : String → String → NodeAssignmentGroup → Document
  par_document : String → String → PodAssignmentRule → Document
  cpar_document : String → String → ClusterPodAssignmentRule → Document

-- pkg/apis/assignments/v1alpha1/register.go
abbrev pub nag_kind : String
nag_kind = "NodeAssignmentGroup"

abbrev pub par_kind : String
par_kind = "PodAssignmentRule"

abbrev pub cpar_kind : String
cpar_kind = "ClusterPodAssignmentRule"

abbrev pub group_name : String
group_name = "assignments.kube-valet.io"

abbrev pub version : String
version = "v1alpha1"

unfoldable pub api_version : String
api_version = group_name ++ ("/" ++ version)

-- `parse` is kingpin's reading of the command line, which answers the command that was chosen and the
-- flags; `print` writes to the standard output and `print_error` to the standard error. The clients
-- are made by `new_clients` from a configuration that is read from a path; `tabulate` is text/tabwriter.
pub record Tool : Type 1 where
  pub World : Type 0
  pub Config : Type 0
  pub parse : List String → Reply (String × Flags)
  pub getenv : String → String
  pub home_dir : String
  pub join_path : String → String
  pub build_config : String → Reply Config
  pub new_clients : Config → Reply (Unit {0})
  pub selector_to_labels : String → Reply (Map String)
  pub marshal_json : Document → Reply String
  pub marshal_yaml : Document → Reply String
  pub tabulate : String → String
  pub print : String → World → World
  pub print_error : String → World → World
  pub create_nag : NodeAssignmentGroup → World → Option String × World
  pub create_par : PodAssignmentRule → World → Option String × World
  pub create_cpar : ClusterPodAssignmentRule → World → Option String × World
  pub list_nags : World → Reply (List NodeAssignmentGroup) × World
  pub get_nag : String → World → Reply NodeAssignmentGroup × World
  pub list_nodes : World → Reply (List Node) × World
  pub get_node : String → World → Reply Node × World

module _ (tool : Tool) where
  open tool use {World, marshal_json, marshal_yaml, print}

  abbrev pub print_marshalled : Reply String → String → Run World (Unit {0})
  print_marshalled (failed e) end w = (exit, w)
  print_marshalled (reply text) end w = (ok tt, print (text ++ end) w)

  -- kingpin allows no format but these two.
  unfoldable pub output_object : String → Document → Run World (Unit {0})
  output_object format o w =
      if format == "json"
      then print_marshalled (marshal_json o) "\n" w
      else if format == "yaml"
      then print_marshalled (marshal_yaml o) "" w
      else (ok tt, w)

  -- What follows a call that creates an object: a line on success, the end on an error.
  unfoldable pub report_created : String → Option String × World → Outcome (Unit {0}) × World
  report_created line (none, w) = (ok tt, print line w)
  report_created line (some e, w) = (exit, w)
