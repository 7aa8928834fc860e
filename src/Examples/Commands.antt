-- ===== src/Examples/Commands.antt =====
-- valetctl with flags that ask for a group and for rules, before a machine that records what it prints
-- and sends.
use Prim.Native.String.{◌++◌}
use mathlib.Core.List
use kube_valet.CommandLine.Strings.Numbers.{show_nat}
use kube_valet.Prelude.{
  if◌then◌else◌, ℕ, ◌≤◌, String, ◌≡◌, refl, Bool, true, not, none, some, List, [], ◌∷◌, arith, elem,
  filter, map, length, lookup, All,
}
use kube_valet.Outcome.{ok}
use kube_valet.Kube.Objects.{Node}
use kube_valet.Kube.Labels.{get_label}
use kube_valet.Kube.Cluster.{reply, failed}
use kube_valet.Assignments.Types.{NodeAssignment, NodeAssignmentGroup}
use kube_valet.Assignments.Groups.{get_assignment, assign}
use kube_valet.Assignments.Groups.Assign.{is_known_mode}
use kube_valet.CommandLine.Strings.{split, split_n, split_n, cut_suffix, is_number, parse_int}
use kube_valet.CommandLine.Tool.{RuleSpec, Flags, Tool, report_created}
use kube_valet.CommandLine.Groups.{
  new_group, described_group, read_arguments, read_argument, argument_fields, add_argument,
  group_create,
}
use kube_valet.CommandLine.Groups.Arguments.{
  Argument, by_default, by_count, by_percent, written, meant, group_create-written,
}
use kube_valet.CommandLine.Groups.Ranges.{InRange, described_group-InRange}
use kube_valet.CommandLine.Rules.{
  described_rule, add_node_assignment, add_node_affinity, add_node_selector, add_others,
  assignment_term, affinity_term, apply_term_to_spec, with_affinity, with_tolerations, requiring,
  requirement, new_spec,
}
use kube_valet.CommandLine.Rules.Matching.{admits, is_tolerated, is_meant, term_of, tolerations_of}
use kube_valet.CommandLine.Rules.Admits.{described_rule-admits}
use kube_valet.CommandLine.Rules.Overridden.{described_rule-overridden}
use kube_valet.CommandLine.Reports.{nag_columns, nag_table, node_entries, protected_entry}
use kube_valet.CommandLine.Reports.Members.{nodes_with}
use kube_valet.PodAssignments.{entries_of}
use kube_valet.CommandLine.Reports.Rows.{grid}
use kube_valet.CommandLine.Reports.Table.{nag_table_lem}
use kube_valet.CommandLine.Reports.Entries.{listed_labels, listed_taints, node_entries_lem}
use kube_valet.CommandLine.Main.{unread_flags, main}
use kube_valet.CommandLine.Main.Offline.{elsewhere, main-offline}
use kube_valet.Examples.Fixture.{pool, first, nodes}

abbrev three_arguments : List Argument
three_arguments =
    record { name = "web"; share = by_percent 50; mode = "LabelAndTaint" }
    ∷ record { name = "batch"; share = by_count 1; mode = "" }
    ∷ record { name = "spare"; share = by_default; mode = "LabelOnly" }
    ∷ []

abbrev asked : Flags
asked = record unread_flags {
  group_target_labels = "role=worker";
  group_name = "pool";
  group_assignments = map written three_arguments;
}

abbrev ruled : Flags
ruled = record unread_flags {
  rule_target_labels = "role=worker";
  rule_name = "on-web";
  rule_mode = "require";
  rule_assignment = "pool/web,batch";
}

abbrev rivalled : Flags
rivalled = record ruled { rule_node_affinity = "disk=ssd,nvme" }

-- A machine whose state is what was printed, with a configuration for the clients or without one.
abbrev machine : Bool → Flags → Tool
machine configured flags = record {
  World = List String;
  Config = Unit;
  parse = λ args. reply ("group create", flags);
  getenv = λ name. "";
  home_dir = "/home/valet";
  join_path = λ home. home ++ "/.kube/config";
  build_config = λ path. if configured then reply tt else failed "no configuration";
  new_clients = λ config. reply tt;
  selector_to_labels = λ s. reply (("role", "worker") ∷ []);
  marshal_json = λ o. reply "{}";
  marshal_yaml = λ o. reply "{}";
  tabulate = λ s. s;
  print = λ s w. s ∷ w;
  print_error = λ s w. s ∷ w;
  create_nag = λ nag w. (none, nag.name ∷ w);
  create_par = λ rule w. (none, rule.name ∷ w);
  create_cpar = λ rule w. (none, rule.name ∷ w);
  list_nags = λ w. (reply [], w);
  get_nag = λ name w. (reply pool, w);
  list_nodes = λ w. (reply nodes, w);
  get_node = λ name w. (reply first, w);
}

group_create-written_example :
    group_create (machine true asked) asked []
    ≡ (ok tt, "NodeAssignmentGroup pool created\n" ∷ "pool" ∷ [])
unfolding report_created
group_create-written_example =
    group_create-written (machine true asked) asked three_arguments (("role", "worker") ∷ []) []
      refl refl refl ((refl, omega arith), ((refl, omega arith), ((refl, tt), tt)))

abbrev asked_group : NodeAssignmentGroup
asked_group = meant three_arguments (new_group "pool" (("role", "worker") ∷ []))

described_group-InRange_example : All InRange asked_group.assignments
unfolding described_group read_arguments read_argument argument_fields add_argument split_n
    cut_suffix is_number parse_int show_nat
described_group-InRange_example =
    described_group-InRange (machine true asked) asked asked_group refl

described_rule-admits_example :
    (t : RuleSpec) × (described_rule (machine true ruled) (λ m. m) ruled ≡ ok t)
    × ((node : Node) → admits t node ≡ is_meant (some "web,batch") (get_assignment pool node))
    × ((node node' : Node) (na na' : NodeAssignment)
        → is_known_mode na.mode ≡ true
        → assign pool node na ≡ ok (node', na')
        → is_meant (some "web,batch") (some na.name) ≡ true
        → (admits t node' ≡ true)
          × (filter (λ x. not (is_tolerated t x)) node'.taints
              ≡ filter (λ x. not (is_tolerated t x)) node.taints))
described_rule-admits_example =
    described_rule-admits (machine true ruled) (λ m. m) ruled (("role", "worker") ∷ []) refl "pool"
      (some "web,batch") (refl, refl) refl refl refl pool refl

abbrev rivalled_spec : RuleSpec
rivalled_spec = with_affinity (requiring (requirement "disk" "In" ("ssd" ∷ "nvme" ∷ []))) (
    with_affinity (requiring (term_of "pool" (some "web,batch"))) (
      with_tolerations (tolerations_of "pool" (some "web,batch"))
        (new_spec (("role", "worker") ∷ []))))

described_rule-overridden_example :
    admits rivalled_spec first ≡ is_meant (some "ssd,nvme") (get_label "disk" first.labels)
unfolding described_rule add_node_assignment add_node_affinity add_node_selector add_others
    assignment_term affinity_term apply_term_to_spec split
described_rule-overridden_example =
    described_rule-overridden (machine true rivalled) (λ m. m) rivalled (("role", "worker") ∷ [])
      refl "disk" "ssd,nvme" refl refl refl refl rivalled_spec refl first

nag_table_lem_example :
    let columns = nag_columns (machine true asked) (λ l. l) pool nodes in
    All (λ n. (a : String) → get_assignment pool n ≡ some a → elem a columns ≡ true) nodes
    × ((n : ℕ) × (nag_table (machine true asked) (λ l. l) pool nodes
          ≡ grid 0 n columns (λ a. nodes_with pool a nodes))
        × ((a : String) → length (nodes_with pool a nodes) ≤ n))
unfolding lookup
nag_table_lem_example =
    nag_table_lem (machine true asked) (λ l. l) (λ l j h. h) (λ l h. h) pool nodes
      ((refl, (refl, tt)), ((refl, tt), ((refl, (refl, tt)), tt)))

node_entries_lem_example :
    (node_entries first
      ≡ ok (
        List.◌++◌ (protected_entry first) (listed_labels (entries_of first.labels)),
        List.◌++◌ (protected_entry first) (listed_taints first.taints),
      ))
    × ((nag : NodeAssignmentGroup) (a : String)
        → get_assignment nag first ≡ some a
        → elem
            (nag.name ++ ("/" ++ a))
            (List.◌++◌ (protected_entry first) (listed_labels (entries_of first.labels)))
          ≡ true)
node_entries_lem_example = node_entries_lem first

main-offline_example :
    let dry = record asked { dry_run = true; output = "json" } in
    let tool = machine true dry in
    main
      (elsewhere tool
        (λ nag w. (some "forbidden", w))
        (λ rule w. (some "forbidden", w))
        (λ rule w. (some "forbidden", w))
        (λ w. (failed "forbidden", w))
        (λ name w. (failed "forbidden", w))
        (λ w. (failed "forbidden", w))
        (λ name w. (failed "forbidden", w)))
      (λ l. l)
      (λ m. m)
      []
      []
    ≡ main tool (λ l. l) (λ m. m) [] []
main-offline_example =
    main-offline (machine true (record asked { dry_run = true; output = "json" }))
      (λ nag w. (some "forbidden", w)) (λ rule w. (some "forbidden", w))
      (λ rule w. (some "forbidden", w)) (λ w. (failed "forbidden", w))
      (λ name w. (failed "forbidden", w)) (λ w. (failed "forbidden", w))
      (λ name w. (failed "forbidden", w)) (record asked { dry_run = true; output = "json" }) refl []
      (λ l. l) (λ m. m) [] "group create" refl
