-- ===== src/CommandLine/Main/Offline.antt =====
-- What a dry run of valetctl calls.
use kube_valet.Prelude.{
  String, ◌≡◌, refl, Bool, true, false, Option, List, ◌==◌, if◌then◌else◌, Map,
}
use kube_valet.Outcome.{Outcome, ok, err, panic, exit}
use kube_valet.Kube.Objects.{Node}
use kube_valet.Kube.Cluster.{Reply, reply}
use kube_valet.Assignments.Types.{NodeAssignmentGroup}
use kube_valet.CommandLine.Tool.{
  RuleSpec, Flags, Tool, PodAssignmentRule, ClusterPodAssignmentRule, output_object,
}
use kube_valet.CommandLine.Groups.{submit_group, described_group, group_create}
use kube_valet.CommandLine.Rules.{submit_rule, described_rule, assignment_create, add_node_selector}
use kube_valet.CommandLine.Main.{
  unread_flags, config_path, get_config, configure_clients, run_command, after_clients, main,
}

if-congr {ℓ} :
    {A : Type ℓ} (c : Bool) {x y u v : A}
    → x ≡ u
    → y ≡ v
    → (if c then x else y) ≡ (if c then u else v)
if-congr true p q = p
if-congr false p q = q

module _ (tool : Tool) (create_nag : NodeAssignmentGroup → tool.World → Option String × tool.World)
    (create_par : PodAssignmentRule → tool.World → Option String × tool.World)
    (create_cpar : ClusterPodAssignmentRule → tool.World → Option String × tool.World)
    (list_nags : tool.World → Reply (List NodeAssignmentGroup) × tool.World)
    (get_nag : String → tool.World → Reply NodeAssignmentGroup × tool.World)
    (list_nodes : tool.World → Reply (List Node) × tool.World)
    (get_node : String → tool.World → Reply Node × tool.World) where
  -- The same program before another API server.
  abbrev pub elsewhere : Tool
  elsewhere = record tool {
    create_nag = create_nag;
    create_par = create_par;
    create_cpar = create_cpar;
    list_nags = list_nags;
    get_nag = get_nag;
    list_nodes = list_nodes;
    get_node = get_node;
  }

  module _ (flags : Flags) (dry : flags.dry_run ≡ true) (w : tool.World) where
    skipped :
        (x y : Outcome (Unit {0}) × tool.World)
        → (if flags.dry_run then (exit, w) else x) ≡ (if flags.dry_run then (exit, w) else y)
    skipped x y = rw dry refl

    submit_group-same :
        (o : Outcome NodeAssignmentGroup)
        → submit_group elsewhere flags o w ≡ submit_group tool flags o w
    unfolding output_object
    submit_group-same (ok nag) = rw dry refl
    submit_group-same (err e) = refl
    submit_group-same panic = refl
    submit_group-same exit = refl

    module _ (visit : List String → List String) (visit_labels : Map String → Map String) where
      submit_rule-same :
          (o : Outcome RuleSpec)
          → submit_rule elsewhere visit_labels flags o w ≡ submit_rule tool visit_labels flags o w
      unfolding output_object
      submit_rule-same (ok spec) = rw dry refl
      submit_rule-same (err e) = refl
      submit_rule-same panic = refl
      submit_rule-same exit = refl

      run_command-same :
          (command : String)
          → run_command elsewhere visit visit_labels command flags w
            ≡ run_command tool visit visit_labels command flags w
      unfolding run_command group_create assignment_create described_group described_rule
          add_node_selector
      run_command-same command =
          if-congr (command == "group create") (submit_group-same (described_group tool flags)) (
            if-congr (command == "group report nags") (skipped _ _) (
              if-congr (command == "group report nodes") (skipped _ _) (
                if-congr (command == "assignment create")
                  (submit_rule-same (described_rule tool visit_labels flags)) refl)))

      -- A dry run does not depend on the API server: with any other operations of the API in the place
      -- of those of the tool, a command line that is read with --dry-run does and prints the same.
      pub main-offline :
          (args : List String) (command : String)
          → tool.parse args ≡ reply (command, flags)
          → main elsewhere visit visit_labels args w ≡ main tool visit visit_labels args w
      unfolding main configure_clients get_config config_path
      main-offline args command h = go (configure_clients tool visit visit_labels unread_flags)
        where
          go :
              (o : Outcome (Unit {0}))
              → after_clients elsewhere visit visit_labels o args w
                ≡ after_clients tool visit visit_labels o args w
          go (ok _) = rw h (run_command-same command)
          go (err e) = refl
          go panic = refl
          go exit = refl
