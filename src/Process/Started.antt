-- ===== src/Process/Started.antt =====
-- What main of main.go has started where a cache does not get in step.
use kube_valet.Prelude.{
  String, ◌≡◌, refl, subst, false, some, List, [], ◌∷◌, if◌then◌else◌, Bool-cases, inl, inr, pos,
}
use kube_valet.Outcome.{Run, then_run}
use kube_valet.Kube.Cluster.{Reply, reply, failed}
use kube_valet.Controllers.Watching.{ValetConfig, idle}
use kube_valet.Controllers.Startup.{serves_metrics}
use kube_valet.Controllers.Startup.Synced.{all_synced, processes, run_watcher_lem}
use kube_valet.Process.{
  ValetFlags, ProcessState, Host, End, config_of, new_state, note, run, or_leave, start, main,
}

module _ (host : Host) (flags : ValetFlags) where
  abbrev config : ValetConfig
  config = config_of flags

  -- No queue is processed, and no controller gets events.
  abbrev Quiet : ProcessState → Type 0
  Quiet kd = (processes kd.trace ≡ false) × (kd.watcher ≡ idle (config_of flags))

  module _ (unsynced : all_synced host.synced (config_of flags) ≡ false) where
    abbrev fresh : ProcessState
    fresh = new_state (config_of flags)

    run-Quiet : Quiet (run host flags (note serves_metrics fresh)).1
    unfolding run new_state
    run-Quiet =
        rw (run_watcher_lem host.synced (config_of flags) (serves_metrics ∷ []))
          (rw unsynced (refl, refl))

    abbrev serve : Run ProcessState End
    serve s = run host flags (note serves_metrics s)

    abbrev with_clients : host.Config → Run ProcessState End
    with_clients c =
        then_run (or_leave host (pos 2) (host.new_kube_client c))
          (λ _. then_run (or_leave host (pos 2) (host.new_valet_client c)) (λ _. serve))

    valet-Quiet :
        (r : Reply (Unit {0})) → Quiet (then_run (or_leave host (pos 2) r) (λ _. serve) fresh).1
    unfolding new_state
    valet-Quiet (reply _) = run-Quiet
    valet-Quiet (failed e) = (refl, refl)

    kube-Quiet :
        (c : host.Config) (r : Reply (Unit {0}))
        → Quiet
            (then_run
              (or_leave host (pos 2) r)
              (λ _. then_run (or_leave host (pos 2) (host.new_valet_client c)) (λ _. serve))
              fresh).1
    unfolding new_state
    kube-Quiet c (reply _) = valet-Quiet (host.new_valet_client c)
    kube-Quiet c (failed e) = (refl, refl)

    config-Quiet :
        (r : Reply host.Config) → Quiet (then_run (or_leave host (pos 1) r) with_clients fresh).1
    unfolding new_state
    config-Quiet (reply c) = kube-Quiet c (host.new_kube_client c)
    config-Quiet (failed e) = (refl, refl)

    start-Quiet : Quiet (start host flags fresh).1
    unfolding start new_state
    start-Quiet = elim (Bool-cases (host.is_log_level flags.log_level)) [
      | inl e ↦
          rw (e, start)
            (config-Quiet (
              if flags.in_cluster
              then host.in_cluster_config
              else host.build_config flags.kubeconfig))
      | inr e ↦ rw (e, start) (refl, refl)
    ]

  -- Where a cache does not get in step, no queue is processed and no controller gets events, whatever the
  -- command line and the clients are like.
  pub main-unsynced :
      (args : List String) (kd : ProcessState)
      → host.parse args ≡ reply flags
      → all_synced host.synced (config_of flags) ≡ false
      → (main host args).1 ≡ some kd
      → (processes kd.trace ≡ false) × (kd.watcher ≡ idle (config_of flags))
  unfolding main
  main-unsynced args kd read unsynced e =
      let same : (start host flags (fresh unsynced)).1 ≡ kd = cc (rw (read, main) at e) in
      subst Quiet same (start-Quiet unsynced)
