-- ===== src/Process.antt =====
-- main.go and controller.go: how the process starts, and which parts of it run from then on.
pub mod Started
use kube_valet.Prelude.{
  String, Bool, Option, none, some, List, [], ◌∷◌, ◌==◌, if◌then◌else◌, ℤ, pos,
}
use kube_valet.Outcome.{Outcome, ok, err, panic, exit, Run, then_run, resume}
use kube_valet.Kube.Cluster.{Reply, reply, failed}
use kube_valet.Controllers.Watching.{
  ValetConfig, ResourceWatcher, idle, start_elected_components, stop_elected_components,
}
use kube_valet.Controllers.Startup.{
  Informer, Action, serves_metrics, serves_webhook, resyncs_nodes, quits, Trace, run_watcher,
}

-- The values of the flags, as kingpin leaves them. The durations are in seconds.
pub record ValetFlags : Type 0 where
  pub log_level : String
  pub in_cluster : Bool
  pub kubeconfig : String
  pub node_assignment : Bool
  pub pack_left : Bool
  pub pod_assignment : Bool
  pub num_pod_threads : ℤ
  pub leader_election : Bool
  pub elect_duration : ℤ
  pub elect_deadline : ℤ
  pub elect_resource : String
  pub elect_retry : ℤ
  pub elect_name : String
  pub elect_id : String
  pub elect_namespace : String
  pub listen : String
  pub tls_cert_path : String
  pub tls_key_path : String

-- The watcher of the process, and what the process has done.
pub record ProcessState : Type 0 where
  pub watcher : ResourceWatcher
  pub trace : Trace

-- What RunOrDie is given.
pub record LeaderElectionConfig : Type 0 where
  pub identity : String
  pub lease_duration : ℤ
  pub renew_deadline : ℤ
  pub retry_period : ℤ
  pub on_started_leading : ProcessState → ProcessState
  pub on_stopped_leading : ProcessState → ProcessState

-- `synced` is what the caches answer, and `new_lock` the error of a lock with this resource, namespace,
-- name and identity, if there is one. `run_or_die` is the election of k8s.io/client-go.
pub record Host : Type 1 where
  pub Config : Type 0
  pub parse : List String → Reply ValetFlags
  pub hostname : String
  pub is_log_level : String → Bool
  pub in_cluster_config : Reply Config
  pub build_config : String → Reply Config
  pub new_kube_client : Config → Reply (Unit {0})
  pub new_valet_client : Config → Reply (Unit {0})
  pub synced : Informer → Bool
  pub new_lock : String → String → String → String → Option String
  pub run_or_die : LeaderElectionConfig → Run ProcessState (Unit {0})

-- How a call of Run ends: it waits for ever, or it returns and so ends the process.
pub data End : Type 0 where
  waits : End
  returns : End

-- The threads of the controllers of nodes are one each.
unfoldable pub config_of : ValetFlags → ValetConfig
config_of flags = record {
  run_par = flags.pod_assignment;
  run_nag = flags.node_assignment;
  run_pl = flags.pack_left;
  par_threads = flags.num_pod_threads;
  nag_threads = pos 1;
  pl_threads = pos 1;
}

unfoldable pub new_state : ValetConfig → ProcessState
new_state config = record { watcher = idle config; trace = [] }

abbrev pub note : Action → ProcessState → ProcessState
note a kd = record kd { trace = a ∷ kd.trace }

-- `os.Exit`, and `log.Fatalf`, whose code is 1.
abbrev pub leave : {A : Type 0} → ℤ → Run ProcessState A
leave code kd = (exit, note (quits code) kd)

abbrev pub start_elected : ProcessState → ProcessState
start_elected kd = note resyncs_nodes (record kd { watcher = start_elected_components kd.watcher })

abbrev pub stop_elected : ProcessState → ProcessState
stop_elected kd = record kd { watcher = stop_elected_components kd.watcher }

module _ (host : Host) where
  open host use {
    Config, parse, hostname, is_log_level, in_cluster_config, build_config, new_kube_client,
    new_valet_client, synced, new_lock, run_or_die,
  }

  abbrev pub identity_of : ValetFlags → String
  identity_of flags = if flags.elect_id == "" then hostname else flags.elect_id

  unfoldable pub leader_election_config : ValetFlags → LeaderElectionConfig
  unfolding start_elected_components stop_elected_components
  leader_election_config flags = record {
    identity = identity_of flags;
    lease_duration = flags.elect_duration;
    renew_deadline = flags.elect_deadline;
    retry_period = flags.elect_retry;
    on_started_leading = start_elected;
    on_stopped_leading = stop_elected;
  }

  unfoldable pub run_elected : ValetFlags → Run ProcessState End
  unfolding leader_election_config
  run_elected flags kd =
      if flags.leader_election
      then elim (new_lock flags.elect_resource flags.elect_namespace flags.elect_name
          (identity_of flags)) [
            | some e ↦ leave (pos 1) kd
            | none ↦
                then_run (run_or_die (leader_election_config flags)) (λ _ s. (ok returns, s)) kd
          ]
      else (ok waits, start_elected kd)

  abbrev pub after_watcher :
      ValetFlags → ProcessState → Outcome (Unit {0}) × Trace → Outcome End × ProcessState
  after_watcher flags kd (r, trace) =
      resume r
        (λ _ s.
          run_elected flags
            (note (serves_webhook flags.listen flags.tls_cert_path flags.tls_key_path) s))
        (record kd { trace = trace })

  unfoldable pub run : ValetFlags → Run ProcessState End
  unfolding run_elected
  run flags kd = after_watcher flags kd (run_watcher synced kd.watcher.config kd.trace)

  -- An error ends the process with a code.
  abbrev pub or_leave : {A : Type 0} → ℤ → Reply A → Run ProcessState A
  or_leave code (reply a) kd = (ok a, kd)
  or_leave code (failed e) kd = leave code kd

  abbrev pub get_config : ValetFlags → Run ProcessState Config
  get_config flags =
      or_leave (pos 1)
        (if flags.in_cluster then in_cluster_config else build_config flags.kubeconfig)

  unfoldable pub start : ValetFlags → Run ProcessState End
  unfolding run
  start flags kd =
      if is_log_level flags.log_level
      then then_run (get_config flags)
          (λ config. then_run (or_leave (pos 2) (new_kube_client config)) (λ _.
            then_run (or_leave (pos 2) (new_valet_client config))
              (λ _ s. run flags (note serves_metrics s))))
          kd
      else leave (pos 1) kd

  -- kingpin ends the process where it cannot read the command line.
  unfoldable pub main : List String → Outcome End × Option ProcessState
  unfolding start config_of new_state
  main args = elim (parse args) [
    | failed e ↦ (exit, none)
    | reply flags ↦ let (r, kd) = start flags (new_state (config_of flags)) in (r, some kd)
  ]
