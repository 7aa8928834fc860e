-- ===== src/NodeAssignments/Deletion.antt =====
-- What ReconcileNag leaves of a group that is being deleted.
pub mod Calls
pub mod Cleared
use kube_valet.Prelude.{
  String, ◌≡◌, refl, ap, ◌∙◌, Bool, true, false, none, List, [], ◌∷◌, ◌==◌, elem, if◌then◌else◌,
  Bool-cases, Option-cases, inl, inr,
}
use kube_valet.Outcome.{Outcome, ok, err, panic, exit, Run, resume, handle_err}
use kube_valet.Kube.Objects.{Node}
use kube_valet.Kube.Cluster.{Cluster, Reply, reply, failed}
use kube_valet.Kube.Sending.{sent, send_patch, send_difference, diff_node}
use kube_valet.Utils.{is_empty_patch}
use kube_valet.Assignments.Types.{NodeAssignmentGroup}
use kube_valet.Assignments.Groups.{targets_node, get_assignment, unassign}
use kube_valet.Finalizers.{nag_finalizer, remove_finalizer}
use kube_valet.Finalizers.Kept.{StoresNags, remove_finalizer_lem}
use kube_valet.NodeAssignments.WriterContext.{
  WriterContext, update_known_assignments, update_current_assignments, update_assignment_changes,
}
use kube_valet.NodeAssignments.WriterContext.Steps.{
  State, edit, forget_sent, with_assignment, update_node_assignment, drop_unknown, sort_node,
  node_set_step, node_set_loop, update_node_sets, update, new_writer_context, unassign_each,
  unassign_all_nodes,
}
use kube_valet.NodeAssignments.Manager.{reconcile_nag}
use kube_valet.NodeAssignments.Deletion.Calls.{
  Keeps, KeepsGroups, Same, Calm, onward, update_node_sets-Calm, unassign_all_nodes-Calm,
}

module _ {β} (cluster : Cluster) (B : Type β) (view : cluster.World → String → B)
    (keeps : Keeps cluster B view) where
  ends :
      (w : cluster.World) (f : WriterContext → WriterContext)
      (r : Outcome (Unit {0}) × State cluster.World)
      → Calm cluster B view keeps w r
      → (t : State cluster.World) × (handle_err r.0 (λ _. edit f) (λ _. edit f) r.1 ≡ (ok tt, t))
        × Same cluster B view keeps w t.world
  ends w f (ok _, s) c = (_, refl, c.1)
  ends w f (err e, s) c = (_, refl, c.1)
  ends w f (panic, s) c = absurd (cc c.0)
  ends w f (exit, s) c = absurd (cc c.0)

  pub update_lem :
      (s : State cluster.World)
      → (t : State cluster.World) × (update cluster s ≡ (ok tt, t))
        × Same cluster B view keeps s.world t.world
  unfolding update
  update_lem s =
      let s' = record s { wc = update_known_assignments s.wc } in
      ends s.world (λ wc. update_assignment_changes (update_current_assignments wc))
        (update_node_sets cluster s') (update_node_sets-Calm cluster B view keeps s')

module _ (cluster : Cluster) (api : StoresNags cluster) (keeps : KeepsGroups cluster api) where
  open api use {nag_at}

  -- What the deletion is to reach: no finalizer of the manager, and everything else as it was.
  abbrev pub Released : NodeAssignmentGroup → cluster.World → cluster.World → Type 0
  Released nag w t =
      ((f : String)
        → elem f (nag_at t nag.name).finalizers
          ≡ (if nag_finalizer == f then false else elem f (nag_at w nag.name).finalizers))
      × ((j : String) → (nag.name == j) ≡ false → nag_at t j ≡ nag_at w j)

  abbrev Finish :
      NodeAssignmentGroup → cluster.World → Outcome (Unit {0}) × State cluster.World → Type 0
  Finish nag w r = (t : State cluster.World) × (r ≡ (ok tt, t)) × Released nag w t.world

  abbrev pub last : NodeAssignmentGroup → Run (State cluster.World) (Unit {0})
  last nag s =
      let (r, v) = remove_finalizer cluster nag s.world in
      handle_err r (λ _ u. (ok tt, u)) (λ _ u. (ok tt, u)) (record s { world = v })

  last_lem :
      (nag : NodeAssignmentGroup) (w : cluster.World) (s : State cluster.World)
      → Same cluster NodeAssignmentGroup nag_at keeps w s.world
      → Finish nag w (last nag s)
  last_lem nag w s h =
      let (v, p, fs, rest) = remove_finalizer_lem cluster api nag s.world in
      (
        record s { world = v },
        rw p refl,
        (
          λ f.
              fs f
              ∙ ap (λ g. if nag_finalizer == f then false else elem f g.finalizers) (h nag.name),
          λ j e. rest j e ∙ h j,
        ),
      )

  after_all :
      (nag : NodeAssignmentGroup) (w : cluster.World) (r : Outcome (Unit {0}) × State cluster.World)
      → Calm cluster NodeAssignmentGroup nag_at keeps w r
      → Finish nag w (handle_err r.0 (λ _. last nag) (λ _. last nag) r.1)
  after_all nag w (ok _, s) c = last_lem nag w s c.1
  after_all nag w (err e, s) c = last_lem nag w s c.1
  after_all nag w (panic, s) c = absurd (cc c.0)
  after_all nag w (exit, s) c = absurd (cc c.0)

  deleting_branch :
      (nag : NodeAssignmentGroup) (w : cluster.World) (b : Bool)
      (x y : Run (State cluster.World) (Unit {0})) (s : State cluster.World)
      → b ≡ true
      → Finish nag w (x s)
      → Finish nag w ((if b then x else y) s)
  deleting_branch nag w true x y s e f = f
  deleting_branch nag w false x y s e f = absurd (cc e)

  -- If the API server stores groups, and calls for nodes leave them alone and can list the nodes, then
  -- ReconcileNag of a group that is being deleted ends without an error, whichever writes of nodes fail,
  -- and every copy of the manager's finalizer, and no other, is gone from the stored group; the other
  -- groups are as they were.
  pub reconcile_nag-Released :
      (nag : NodeAssignmentGroup) (visit : List String → List String) (w : cluster.World)
      → nag.deleting ≡ true
      → (t : State cluster.World) × (reconcile_nag cluster nag visit w ≡ (ok tt, t))
        × Released nag w t.world
  unfolding reconcile_nag new_writer_context
  reconcile_nag-Released nag visit w d =
      let (s, e, h) = update_lem cluster NodeAssignmentGroup nag_at keeps (record {
        wc = record {
          nag = nag;
          known_assignments = [];
          targeted_nodes = [];
          current_assignments = [];
          assignment_changes = [];
          unassigned_node_names = [];
        };
        world = w;
      }) in
      rw (e, reconcile_nag)
        (deleting_branch nag w nag.deleting _ _ s d (
          after_all nag w (unassign_all_nodes cluster s) (
            onward cluster NodeAssignmentGroup nag_at keeps w s.world (unassign_all_nodes cluster s)
              h (unassign_all_nodes-Calm cluster NodeAssignmentGroup nag_at keeps s))))
