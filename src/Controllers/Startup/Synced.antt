-- ===== src/Controllers/Startup/Synced.antt =====
-- What the watcher has started when Run ends.
use kube_valet.Prelude.{arith, ◌≡◌, Bool, true, false, ◌&&◌, [], ◌∷◌, ◌++◌, if◌then◌else◌}
use kube_valet.Outcome.{ok, panic}
use kube_valet.Controllers.Watching.{par_controller, nag_controller, pl_controller, ValetConfig}
use kube_valet.Controllers.Startup.{
  Informer, pod_informer, node_informer, nag_informer, par_informer, cpar_informer, runs_controller,
  makes_informer, makes_controller, runs_informer, Trace, in_order, wait_for_cache_sync,
  run_watcher,
}

-- Whether a queue is processed.
abbrev pub processes : Trace → Bool
processes [] = false
processes (runs_controller c ∷ rest) = true
processes (_ ∷ rest) = processes rest

module _ (synced : Informer → Bool) (config : ValetConfig) where
  abbrev pub all_synced : Bool
  all_synced =
      synced pod_informer
      && (synced node_informer
          && (synced nag_informer && (synced par_informer && synced cpar_informer)))

  -- The informers and controllers are made, then the informers run.
  abbrev pub prepared : Trace → Trace
  prepared t =
      runs_informer cpar_informer
      ∷ runs_informer par_informer
      ∷ runs_informer nag_informer
      ∷ runs_informer node_informer
      ∷ runs_informer pod_informer
      ∷ makes_controller pl_controller config.pl_threads
      ∷ makes_controller nag_controller config.nag_threads
      ∷ makes_controller par_controller config.par_threads
      ∷ makes_informer cpar_informer
      ∷ makes_informer par_informer
      ∷ makes_informer nag_informer
      ∷ makes_informer node_informer
      ∷ makes_informer pod_informer
      ∷ t

  -- Then the queues of the controllers that are to run are processed.
  abbrev pub working : Trace → Trace
  working t =
      (if config.run_pl then runs_controller pl_controller ∷ [] else [])
      ++ (if config.run_nag then runs_controller nag_controller ∷ [] else [])
      ++ t

  pub run_watcher_lem :
      (t : Trace)
      → run_watcher synced config t
        ≡ (if all_synced then (ok tt, working (prepared t)) else (panic, prepared t))
  unfolding run_watcher in_order wait_for_cache_sync
  run_watcher_lem t = ground arith
