-- ===== src/NodeAssignments/Manager.antt =====
-- ReconcileNag of pkg/controller/nodeassignment/manager.go.
use kube_valet.Prelude.{String, Bool, List, [], if◌then◌else◌}
use kube_valet.Outcome.{Outcome, ok, Run, then_run, on_err}
use kube_valet.Kube.Cluster.{Cluster}
use kube_valet.Assignments.Types.{NodeAssignmentGroup}
use kube_valet.Finalizers.{add_finalizer, remove_finalizer}
use kube_valet.NodeAssignments.WriterContext.Steps.{
  State, new_writer_context, reconcile, unassign_all_nodes,
}

module _ (cluster : Cluster) where
  open cluster use {World}

  abbrev on_world : Run World Bool → Run (State World) Bool
  on_world m s = let (r, w) = m s.world in (r, record s { world = w })

  abbrev on_world_unit : Run World (Unit {0}) → Run (State World) (Unit {0})
  on_world_unit m s = let (r, w) = m s.world in (r, record s { world = w })

  abbrev done : Run (State World) (Unit {0})
  done s = (ok tt, s)

  -- The context is made first. An update that adds the finalizer reconciles nothing, since the event
  -- that it causes will; on a deletion both errors are dropped.
  unfoldable pub reconcile_nag :
      NodeAssignmentGroup → (List String → List String) → World → Outcome (Unit {0}) × State World
  reconcile_nag nag visit w =
      then_run (λ v. new_writer_context cluster nag v.world)
        (λ _.
          if nag.deleting
          then on_err (unassign_all_nodes cluster)
              (λ _. on_err (on_world_unit (remove_finalizer cluster nag)) (λ _. done) (λ _. done))
              (λ _. on_err (on_world_unit (remove_finalizer cluster nag)) (λ _. done) (λ _. done))
          else then_run (on_world (add_finalizer cluster nag))
              (λ added. if added then done else reconcile cluster visit))
        (empty_state w)
    where
      empty_state : World → State World
      empty_state v = record {
        wc = record {
          nag = nag;
          known_assignments = [];
          targeted_nodes = [];
          current_assignments = [];
          assignment_changes = [];
          unassigned_node_names = [];
        };
        world = v;
      }
