-- ===== src/CommandLine/Rules.antt =====
-- assignmentCreate and applyTermToSpec of bin/valetctl.go. `visit` is the order in which `range` visits
-- the target labels.
pub mod Matching
pub mod Admits
pub mod Overridden
use Prim.Native.String.{◌++◌}
use mathlib.Core.List
use kube_valet.Prelude.{
  String, Bool, true, false, ◌&&◌, ◌||◌, not, Option, none, some, List, [], ◌∷◌, map, ◌==◌,
  if◌then◌else◌, Map, ℤ, pos,
}
use kube_valet.Outcome.{Outcome, ok, err, panic, exit, Run, ◌>>=◌}
use kube_valet.Kube.Objects.{LabelMap}
use kube_valet.Kube.Scheduling.{
  Requirement, NodeSelectorTerm, PreferredSchedulingTerm, NodeAffinity, PodAffinityTerm,
  WeightedPodAffinityTerm, PodAffinity, Affinity, Toleration,
}
use kube_valet.PodAssignments.{
  PodAssignmentRuleScheduling, PodAssignmentRuleSpec, merge_strategy_default,
}
use kube_valet.CommandLine.Strings.{split}
use kube_valet.CommandLine.Tool.{
  RuleSpec, Flags, Tool, PodAssignmentRule, ClusterPodAssignmentRule, par_document, cpar_document,
  par_kind, cpar_kind, api_version, output_object, report_created,
}
use kube_valet.CommandLine.Groups.{or_exit}

abbrev pub op_in : String
op_in = "In"

abbrev pub op_exists : String
op_exists = "Exists"

abbrev pub toleration_equal : String
toleration_equal = "Equal"

abbrev pub toleration_exists : String
toleration_exists = "Exists"

-- The label of the assignments of a group.
unfoldable pub nag_label : String → String
nag_label group = "nag.assignments.kube-valet.io/" ++ group

abbrev pub no_affinity : Affinity
no_affinity = record { node_affinity = none; pod_affinity = none; pod_anti_affinity = none }

abbrev pub requiring : NodeSelectorTerm → Affinity
requiring term = record no_affinity {
  node_affinity = some (record { required = some (term ∷ []); preferred = [] });
}

abbrev pub preferring : NodeSelectorTerm → Affinity
preferring term = record no_affinity {
  node_affinity =
      some (record {
        required = none;
        preferred = record { weight = pos 100; preference = term } ∷ [];
      });
}

abbrev pub with_affinity : Affinity → RuleSpec → RuleSpec
with_affinity a spec = record spec {
  scheduling = record spec.scheduling { affinity_rule = some a };
}

abbrev pub with_tolerations : List Toleration → RuleSpec → RuleSpec
with_tolerations l spec = record spec {
  scheduling = record spec.scheduling { toleration_rules = l };
}

-- The affinity of the specification is replaced.
unfoldable pub apply_term_to_spec : String → NodeSelectorTerm → RuleSpec → Outcome RuleSpec
apply_term_to_spec mode term spec =
    if mode == "require"
    then ok (with_affinity (requiring term) spec)
    else if mode == "prefer"
    then ok (with_affinity (preferring term) spec)
    else exit

abbrev pub requirement : String → String → List String → NodeSelectorTerm
requirement key op values = record {
  match_expressions = record { key = key; operator = op; values = values } ∷ [];
}

-- No effect is given, so that all effects are matched.
abbrev pub tolerate : String → String → String → Toleration
tolerate key op v = record { key = key; operator = op; value = v; effect = "" }

-- The term and the tolerations for GROUP or GROUP/ASSIGNMENT,ASSIGNMENT...
unfoldable pub assignment_term : List String → Outcome (NodeSelectorTerm × List Toleration)
assignment_term (group ∷ []) = ok (
  requirement (nag_label group) op_exists [],
  tolerate (nag_label group) toleration_exists "" ∷ [],
)
assignment_term (group ∷ names ∷ []) = ok (
  requirement (nag_label group) op_in (split b',' names),
  map (tolerate (nag_label group) toleration_equal) (split b',' names),
)
assignment_term _ = exit

-- The term for KEY or KEY=VALUE,VALUE...
unfoldable pub affinity_term : List String → Outcome NodeSelectorTerm
affinity_term (key ∷ []) = ok (requirement key op_exists [])
affinity_term (key ∷ vs ∷ []) = ok (requirement key op_in (split b',' vs))
affinity_term _ = exit

abbrev pub targets_nodes : String → Bool
targets_nodes mode = mode == "prefer" || mode == "require"

unfoldable pub add_node_assignment : Flags → RuleSpec → Outcome RuleSpec
unfolding assignment_term apply_term_to_spec
add_node_assignment flags spec =
    if targets_nodes flags.rule_mode && not (flags.rule_assignment == "")
    then (do
      (term, tolerations) ← assignment_term (split b'/' flags.rule_assignment)
      apply_term_to_spec flags.rule_mode term (with_tolerations tolerations spec))
    else ok spec

unfoldable pub add_node_affinity : Flags → RuleSpec → Outcome RuleSpec
unfolding affinity_term apply_term_to_spec
add_node_affinity flags spec =
    if targets_nodes flags.rule_mode && not (flags.rule_node_affinity == "")
    then (do
      term ← affinity_term (split b'=' flags.rule_node_affinity)
      apply_term_to_spec flags.rule_mode term spec)
    else ok spec

abbrev pub targets_others : String → Bool
targets_others mode =
    mode == "prefer-others"
    || (mode == "require-others" || (mode == "avoid-others" || mode == "deny-others"))

abbrev pub needed_pods : PodAffinityTerm → PodAffinity
needed_pods term = record { required = term ∷ []; preferred = [] }

abbrev pub liked_pods : PodAffinityTerm → PodAffinity
liked_pods term = record {
  required = [];
  preferred = record { weight = pos 100; term = term } ∷ [];
}

-- Each of the four modes fills one place of the affinity.
unfoldable pub others_affinity : String → PodAffinityTerm → Affinity
others_affinity mode term =
    if mode == "prefer-others"
    then record no_affinity { pod_affinity = some (liked_pods term) }
    else if mode == "require-others"
    then record no_affinity { pod_affinity = some (needed_pods term) }
    else if mode == "avoid-others"
    then record no_affinity { pod_anti_affinity = some (liked_pods term) }
    else if mode == "deny-others"
    then record no_affinity { pod_anti_affinity = some (needed_pods term) }
    else no_affinity

unfoldable pub add_others : (Map String → Map String) → Flags → Map String → RuleSpec → RuleSpec
unfolding others_affinity
add_others visit flags labels spec =
    if targets_others flags.rule_mode
    then with_affinity
        (others_affinity flags.rule_mode (record {
          label_selector =
              map (λ e. record { key = e.0; operator = op_in; values = e.1 ∷ [] }) (visit labels);
          topology_key = flags.rule_topology_key;
        }))
        spec
    else spec

abbrev pub new_spec : Map String → RuleSpec
new_spec labels = record {
  target_pod_labels = labels;
  scheduling = record {
    merge_strategy = merge_strategy_default;
    selector = none;
    affinity_rule = none;
    toleration_rules = [];
  };
}

abbrev pub with_selector : Map String → RuleSpec → RuleSpec
with_selector l spec = record spec { scheduling = record spec.scheduling { selector = some l } }

module _ (tool : Tool) (visit : Map String → Map String) where
  open tool use {World, selector_to_labels, create_par, create_cpar}

  unfoldable pub add_node_selector : Flags → RuleSpec → Outcome RuleSpec
  add_node_selector flags spec =
      if flags.rule_mode == "nodes" && not (flags.rule_node_selector == "")
      then (do l ← or_exit (selector_to_labels flags.rule_node_selector); ok (with_selector l spec))
      else ok spec

  -- The specification that the flags describe.
  unfoldable pub described_rule : Flags → Outcome RuleSpec
  unfolding add_node_assignment add_node_affinity add_node_selector add_others
  described_rule flags = do
    labels ← or_exit (selector_to_labels flags.rule_target_labels)
    assigned ← add_node_assignment flags (new_spec labels)
    attracted ← add_node_affinity flags assigned
    selecting ← add_node_selector flags attracted
    ok (add_others visit flags labels selecting)

  -- With a namespace a rule for it is made, and a rule for the cluster without. The line that reports
  -- success has the name of a group, which is empty here.
  abbrev pub submit_rule : Flags → Outcome RuleSpec → Run World (Unit {0})
  submit_rule flags (ok spec) w =
      if not (flags.namespace == "")
      then (let rule : PodAssignmentRule = record {
        name = flags.rule_name;
        namespace = flags.namespace;
        spec = spec;
      } in
          if flags.dry_run
          then output_object tool flags.output (par_document par_kind api_version rule) w
          else report_created tool
              ("PodAssignmentRule "
                ++ (flags.group_name ++ (" created in " ++ (flags.namespace ++ "\n"))))
              (create_par rule w))
      else (let rule : ClusterPodAssignmentRule = record { name = flags.rule_name; spec = spec } in
          if flags.dry_run
          then output_object tool flags.output (cpar_document cpar_kind api_version rule) w
          else report_created tool
              ("ClusterPodAssignmentRule " ++ (flags.group_name ++ " created\n"))
              (create_cpar rule w))
  submit_rule flags (err e) w = (err e, w)
  submit_rule flags panic w = (panic, w)
  submit_rule flags exit w = (exit, w)

  unfoldable pub assignment_create : Flags → Run World (Unit {0})
  unfolding described_rule
  assignment_create flags w = submit_rule flags (described_rule flags) w
