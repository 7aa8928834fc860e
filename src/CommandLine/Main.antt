-- ===== src/CommandLine/Main.antt =====
-- main, configureClients and getConfig of bin/valetctl.go.
pub mod Offline
use kube_valet.Prelude.{String, Bool, true, false, not, List, [], ◌∷◌, ◌==◌, if◌then◌else◌, Map}
use kube_valet.Outcome.{Outcome, ok, err, panic, exit, Run, ◌>>=◌}
use kube_valet.Kube.Cluster.{Reply, reply, failed}
use kube_valet.CommandLine.Tool.{Flags, Tool}
use kube_valet.CommandLine.Groups.{or_exit, group_create}
use kube_valet.CommandLine.Rules.{assignment_create}
use kube_valet.CommandLine.Reports.{group_report_by_nag, group_report_by_node}

-- What the flags hold before the command line is read.
abbrev pub unread_flags : Flags
unread_flags = record {
  kubeconfig = "";
  dry_run = false;
  output = "";
  group_target_labels = "";
  group_name = "";
  group_assignments = [];
  reported_nags = [];
  reported_nodes = [];
  namespace = "";
  rule_target_labels = "";
  rule_node_selector = "";
  rule_node_affinity = "";
  rule_assignment = "";
  rule_topology_key = "";
  rule_name = "";
  rule_mode = "";
}

-- `visit` and `visit_labels` are the orders in which `range` visits maps.
module _ (tool : Tool) (visit : List String → List String)
    (visit_labels : Map String → Map String) where
  open tool use {World, Config, parse, getenv, home_dir, join_path, build_config, new_clients}

  -- The flag, the environment and the home directory, in this order.
  unfoldable pub config_path : Flags → String
  config_path flags =
      if flags.kubeconfig == ""
      then (if getenv "KUBECONFIG" == ""
          then (if home_dir == "" then "" else join_path home_dir)
          else getenv "KUBECONFIG")
      else flags.kubeconfig

  unfoldable pub get_config : Flags → Outcome Config
  unfolding config_path
  get_config flags = or_exit (build_config (config_path flags))

  unfoldable pub configure_clients : Flags → Outcome (Unit {0})
  unfolding get_config
  configure_clients flags = do config ← get_config flags; or_exit (new_clients config)

  -- The reports do not run in dry-run mode; a command that the switch does not name does nothing.
  unfoldable pub run_command : String → Flags → Run World (Unit {0})
  run_command command flags w =
      if command == "group create"
      then group_create tool flags w
      else if command == "group report nags"
      then (if flags.dry_run then (exit, w) else group_report_by_nag tool visit flags w)
      else if command == "group report nodes"
      then (if flags.dry_run then (exit, w) else group_report_by_node tool visit flags w)
      else if command == "assignment create"
      then assignment_create tool visit_labels flags w
      else (ok tt, w)

  abbrev pub run_parsed : Reply (String × Flags) → Run World (Unit {0})
  run_parsed (reply (command, flags)) w = run_command command flags w
  run_parsed (failed e) w = (exit, w)

  abbrev pub after_clients : Outcome (Unit {0}) → List String → Run World (Unit {0})
  after_clients (ok _) args w = run_parsed (parse args) w
  after_clients (err e) args w = (err e, w)
  after_clients panic args w = (panic, w)
  after_clients exit args w = (exit, w)

  -- The clients are made before the command line is read.
  unfoldable pub main : List String → Run World (Unit {0})
  unfolding configure_clients run_command
  main args w =
      after_clients (if not unread_flags.dry_run then configure_clients unread_flags else ok tt)
        args w
