-- ===== src/Examples/Reconciled.antt =====
-- ReconcileNag at the group of the fixture and an API server that stores labels.
use kube_valet.Prelude.{◌≤◌, ◌≡◌, refl, [], ◌∷◌, arith, lookup, All}
use kube_valet.Outcome.{ok}
use kube_valet.Kube.Labels.{get_label}
use kube_valet.Assignments.Types.{NodeAssignmentGroup}
use kube_valet.Assignments.Groups.{assignment_key, targets_node, get_assignment}
use kube_valet.Finalizers.{nag_finalizer}
use kube_valet.NodeAssignments.WriterContext.{desired}
use kube_valet.NodeAssignments.WriterContext.Steps.{State}
use kube_valet.NodeAssignments.Manager.{reconcile_nag}
use kube_valet.NodeAssignments.Reconcile.Satisfied.{WellFormed}
use kube_valet.NodeAssignments.Sets.{kept, targeted}
use kube_valet.NodeAssignments.Reconciled.{
  wanted, holders, Bare, reconcile_nag-within, reconcile_nag-exact,
}
use kube_valet.NodeAssignments.Reconciled.Context.{Writable}
use kube_valet.Examples.Fixture.{web, batch, pool}
use kube_valet.Examples.Store.{Stored, store, store-Cooperates, store-ServesNodes, stored_start}

abbrev finalized_pool : NodeAssignmentGroup
finalized_pool = record pool { finalizers = nag_finalizer ∷ [] }

finalized_pool-WellFormed : WellFormed finalized_pool
finalized_pool-WellFormed = record {
  distinct = (refl, (refl, tt));
  apart = (refl, (refl, tt));
  percents = (omega arith, (omega arith, tt));
  modes = ((refl, (refl, tt)), λ d e. cc e);
}

stored_start-Writable :
    All
      (Writable store store-Cooperates store-ServesNodes finalized_pool stored_start)
      (store-ServesNodes.nodes_at stored_start)
stored_start-Writable = ((_, refl), ((_, refl), ((_, refl), tt)))

reconcile_nag-within_example :
    (t : State Stored) × (reconcile_nag store finalized_pool (λ names. names) stored_start
      ≡ (ok tt, t))
    × All
        (λ a.
          holders store store-Cooperates store-ServesNodes finalized_pool stored_start t.world a
          ≤ wanted store store-Cooperates store-ServesNodes finalized_pool stored_start a)
        (web ∷ batch ∷ [])
    × Bare store store-Cooperates store-ServesNodes finalized_pool stored_start t.world
reconcile_nag-within_example =
    reconcile_nag-within store store-Cooperates store-ServesNodes finalized_pool stored_start
      (λ names. names) (λ l j h. h) refl refl finalized_pool-WellFormed stored_start-Writable

reconcile_nag-exact_example :
    (t : State Stored) × (reconcile_nag store finalized_pool (λ names. names) stored_start
      ≡ (ok tt, t))
    × All
        (λ a.
          holders store store-Cooperates store-ServesNodes finalized_pool stored_start t.world a
          ≡ wanted store store-Cooperates store-ServesNodes finalized_pool stored_start a)
        (web ∷ batch ∷ [])
    × Bare store store-Cooperates store-ServesNodes finalized_pool stored_start t.world
unfolding desired targeted kept targets_node get_assignment assignment_key get_label lookup
reconcile_nag-exact_example =
    reconcile_nag-exact store store-Cooperates store-ServesNodes finalized_pool stored_start
      (λ names. names) (λ l j h. h) refl refl finalized_pool-WellFormed stored_start-Writable
      (omega arith)
