-- ===== src/Controllers/Startup.antt =====
-- Run and waitForCacheSync of pkg/controller/resource_watcher.go, and what the process starts. A goroutine
-- that is started, and each call that makes or serves something, is an action in a list; what the caches
-- answer is a parameter.
pub mod Synced
use kube_valet.Prelude.{String, Bool, List, [], ◌∷◌, ◌++◌, if◌then◌else◌, ℤ}
use kube_valet.Outcome.{Outcome, ok, err, panic, exit, Run, then_run}
use kube_valet.Controllers.Watching.{
  Controller, par_controller, nag_controller, pl_controller, ValetConfig,
}

-- The informers, by the fields of the watcher that hold them.
pub data Informer : Type 0 where
  pod_informer : Informer
  node_informer : Informer
  nag_informer : Informer
  par_informer : Informer
  cpar_informer : Informer

pub data Action : Type 0 where
  makes_informer : Informer → Action
  makes_controller : Controller → ℤ → Action
  runs_informer : Informer → Action
  runs_controller : Controller → Action
  serves_metrics : Action
  serves_webhook : String → String → String → Action
  resyncs_nodes : Action
  quits : ℤ → Action

-- The actions so far, the last one first.
abbrev pub Trace : Type 0
Trace = List Action

abbrev pub act : Action → Run Trace (Unit {0})
act a trace = (ok tt, a ∷ trace)

-- One step after the other, while they return without an error.
unfoldable pub in_order : List (Run Trace (Unit {0})) → Run Trace (Unit {0})
in_order [] trace = (ok tt, trace)
in_order (step ∷ rest) trace = then_run step (λ _. in_order rest) trace

module _ (synced : Informer → Bool) where
  unfoldable pub wait_for_cache_sync : Informer → Run Trace (Unit {0})
  wait_for_cache_sync informer trace = if synced informer then (ok tt, trace) else (panic, trace)

  abbrev pub run_if : Bool → Controller → Run Trace (Unit {0})
  run_if should_run c trace = if should_run then act (runs_controller c) trace else (ok tt, trace)

  -- The pod assignment controller is not run.
  unfoldable pub run_watcher : ValetConfig → Run Trace (Unit {0})
  unfolding in_order wait_for_cache_sync
  run_watcher config = in_order (
      act (makes_informer pod_informer)
      ∷ act (makes_informer node_informer)
      ∷ act (makes_informer nag_informer)
      ∷ act (makes_informer par_informer)
      ∷ act (makes_informer cpar_informer)
      ∷ act (makes_controller par_controller config.par_threads)
      ∷ act (makes_controller nag_controller config.nag_threads)
      ∷ act (makes_controller pl_controller config.pl_threads)
      ∷ act (runs_informer pod_informer)
      ∷ act (runs_informer node_informer)
      ∷ act (runs_informer nag_informer)
      ∷ act (runs_informer par_informer)
      ∷ act (runs_informer cpar_informer)
      ∷ wait_for_cache_sync pod_informer
      ∷ wait_for_cache_sync node_informer
      ∷ wait_for_cache_sync nag_informer
      ∷ wait_for_cache_sync par_informer
      ∷ wait_for_cache_sync cpar_informer
      ∷ run_if config.run_nag nag_controller
      ∷ run_if config.run_pl pl_controller
      ∷ [])
