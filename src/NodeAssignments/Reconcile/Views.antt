-- ===== src/NodeAssignments/Reconcile/Views.antt =====
-- The assignment that a node has in effect, and what one write does to it.
use kube_valet.Prelude.{
  String, ◌≡◌, refl, ◌∙◌, true, Option, none, some, ◌==◌, arith, if◌then◌else◌, insert, Map,
}
use kube_valet.Outcome.{Outcome, ok, err, panic, exit}
use kube_valet.Kube.Objects.{Node}
use kube_valet.Kube.Labels.{put_label, get_label-insert}
use kube_valet.Kube.Cluster.{Cluster}
use kube_valet.Kube.Sending.{send_difference}
use kube_valet.Kube.Cooperation.{Cooperates, send_difference_lem}
use kube_valet.Assignments.Types.{NodeAssignment, NodeAssignmentGroup}
use kube_valet.Assignments.Groups.{assignment_key, get_assignment}
use kube_valet.Assignments.Groups.Assign.{is_known_mode, assign_known, assigned_taints}
use kube_valet.NodeAssignments.WriterContext.{WriterContext}
use kube_valet.NodeAssignments.WriterContext.Steps.{
  State, has_name, forget_sent, unmark_unassigned, with_assignment, update_node_assignment,
}

module _ (cluster : Cluster) (coop : Cooperates cluster) where
  open coop use {label_at}

  -- The assignment of a node when the names that are marked will have been unassigned.
  abbrev pub effective : State cluster.World → String → Option String
  effective s node =
      if has_name node s.wc.unassigned_node_names
      then none
      else label_at s.world node (assignment_key s.wc.nag)

  -- A node whose label map is not nil can be labelled.
  with_assignment_ok :
      (nag : NodeAssignmentGroup) (node : Node) (na : NodeAssignment) (m : Map String)
      → node.labels ≡ some m
      → is_known_mode na.mode ≡ true
      → with_assignment cluster nag node (some na)
        ≡ ok (record node {
          labels = some (insert (assignment_key nag) na.name m);
          taints = assigned_taints nag node na;
        })
  unfolding with_assignment
  with_assignment_ok nag node na m e k =
      rw
        (assign_known nag node na (some (insert (assignment_key nag) na.name m)) k
          (rw e (unfold put_label in refl)))
        refl

  pub forget_sent_ok :
      (node : Node) (r : Outcome (Unit {0}) × cluster.World) (wc : WriterContext)
      → r.0 ≡ ok tt
      → forget_sent cluster node r wc
        ≡ (ok tt, record { wc = unmark_unassigned node.name wc; world = r.1 })
  forget_sent_ok node (ok _, w) wc h = refl
  forget_sent_ok node (err e, w) wc h = absurd (cc h)
  forget_sent_ok node (panic, w) wc h = absurd (cc h)
  forget_sent_ok node (exit, w) wc h = absurd (cc h)

  -- An assignment of a node that has none in memory reaches the API server, and takes the mark off.
  pub assign_update :
      (node : Node) (na : NodeAssignment) (m : Map String) (s : State cluster.World)
      → node.labels ≡ some m
      → is_known_mode na.mode ≡ true
      → get_assignment s.wc.nag node ≡ none
      → (w : cluster.World) × (update_node_assignment cluster node (some na) s
          ≡ (ok tt, record { wc = unmark_unassigned node.name s.wc; world = w }))
        × ((j : String)
            → label_at w j (assignment_key s.wc.nag) ≡ (
                if node.name == j
                then some na.name
                else label_at s.world j (assignment_key s.wc.nag)))
  unfolding update_node_assignment get_assignment
  assign_update node na m s e k fresh =
      let new : Node = record node {
        labels = some (insert (assignment_key s.wc.nag) na.name m);
        taints = assigned_taints s.wc.nag node na;
      } in
      let sent = send_difference_lem cluster coop node new s.world in
      (
        (send_difference cluster node new s.world).1,
        rw (with_assignment_ok s.wc.nag node na m e k) (forget_sent_ok new _ s.wc sent.0),
        λ j.
            sent.1 j (assignment_key s.wc.nag)
            ∙ ground (arith, fresh, get_label-insert (assignment_key s.wc.nag) na.name m),
      )
