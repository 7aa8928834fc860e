-- ===== src/NodeAssignments/Reconciled.antt =====
-- ReconcileNag of pkg/controller/nodeassignment/manager.go for a group that is not being deleted.
pub mod Context
use kube_valet.Prelude.{
  ℕ, ◌≤◌, String, ◌≡◌, refl, sym, ap, ◌∙◌, subst, Bool, true, false, Option, none, some, List, [],
  ◌∷◌, ◌==◌, arith, eq_iff, if◌then◌else◌, elem, Visits, count, count-congr, length, map, lookup,
  Map, All, All-map, All-zip, Bool-cases, inl, inr, pos_part,
}
use kube_valet.Outcome.{Outcome, ok, Run, resume, handle_err}
use kube_valet.Kube.Objects.{Node}
use kube_valet.Kube.Cluster.{Cluster}
use kube_valet.Kube.Cooperation.{Cooperates}
use kube_valet.Assignments.Types.{NodeAssignment, NodeAssignmentGroup}
use kube_valet.Assignments.Groups.{assignment_key, get_assignment}
use kube_valet.Finalizers.{nag_finalizer, add_finalizer}
use kube_valet.NodeAssignments.WriterContext.{
  WriterContext, Names, desired, update_known_assignments, update_current_assignments,
  update_assignment_changes,
}
use kube_valet.NodeAssignments.WriterContext.Changes.{holds}
use kube_valet.NodeAssignments.WriterContext.Steps.{
  State, has_name, edit, node_set_loop, update_node_sets, update, new_writer_context,
  reconcile_nodes, reconcile,
}
use kube_valet.NodeAssignments.Manager.{reconcile_nag}
use kube_valet.NodeAssignments.Plan.Totals.{total}
use kube_valet.NodeAssignments.Plan.Convergence.{is_known}
use kube_valet.NodeAssignments.Reconcile.Views.{effective}
use kube_valet.NodeAssignments.Reconcile.Rounds.{Ready, unassigned_labels}
use kube_valet.NodeAssignments.Reconcile.Loop.{node_names, DistinctNodes, effects}
use kube_valet.NodeAssignments.Reconcile.Satisfied.{
  WellFormed, refreshed, target, start, planned, performed, planned_exact, planned_within,
}
use kube_valet.NodeAssignments.Sets.{
  has_name-nil, update_known_assignments-Knows, kept, kept_name, is_targeted, targeted,
  targeted-All, targeted-Known, targeted-Distinct, targeted-Apart, count-targeted,
}
use kube_valet.NodeAssignments.Sets.Listed.{Before, after_loop, Collects, node_set_loop_lem}
use kube_valet.NodeAssignments.Sets.Cleanup.{ServesNodes, unassign_names_lem}
use kube_valet.NodeAssignments.Reconciled.Context.{
  targeted_at, Writable, context_lem, reconcile_lem,
}

module _ (cluster : Cluster) (coop : Cooperates cluster) (api : ServesNodes cluster coop) where
  open coop use {label_at}

  module _ (nag : NodeAssignmentGroup) (w : cluster.World) where
    abbrev nodes : List Node
    nodes = api.nodes_at w

    finalized :
        (v : cluster.World)
        → elem nag_finalizer nag.finalizers ≡ true
        → add_finalizer cluster nag v ≡ (ok false, v)
    unfolding add_finalizer
    finalized v e = rw e refl

    live_branch :
        {b : Bool} (x y : Run (State cluster.World) (Unit {0})) (s : State cluster.World)
        → b ≡ false
        → (if b then x else y) s ≡ y s
    live_branch x y s e = ap (λ c. (if c then x else y) s) e

    goes_on :
        (visit : List String → List String) (s : State cluster.World)
        → nag.deleting ≡ false
        → elem nag_finalizer nag.finalizers ≡ true
        → new_writer_context cluster nag w ≡ (ok tt, s)
        → reconcile_nag cluster nag visit w ≡ reconcile cluster visit s
    unfolding reconcile_nag
    goes_on visit s d f p =
        rw (p, reconcile_nag)
          (live_branch _ _ s d
            ∙ ap
                (λ r.
                  resume r.0 (λ added. if added then (λ t. (ok tt, t)) else reconcile cluster visit)
                    (record s { world = r.1 }))
                (finalized s.world f))

    -- How many nodes an assignment is to have, of those that the group targets.
    abbrev pub wanted : NodeAssignment → ℕ
    wanted a = pos_part (desired (length (targeted_at cluster coop api nag nodes)) a)

    abbrev pub holders : cluster.World → NodeAssignment → ℕ
    holders v a = count (λ n. holds a.name (label_at v n.name (assignment_key nag))) nodes

    -- The nodes that the group does not target have no assignment in it.
    abbrev pub Bare : cluster.World → Type 0
    Bare v =
        All
          (λ n.
            is_targeted cluster.match_taint nag n ≡ false
            → label_at v n.name (assignment_key nag) ≡ none)
          nodes

    abbrev Reconciled :
        (List String → List String) → (cluster.World → NodeAssignment → Type 0) → Type 0
    Reconciled visit P =
        (t : State cluster.World) × (reconcile_nag cluster nag visit w ≡ (ok tt, t))
        × All (P t.world) nag.assignments
        × Bare t.world

    module _ (visit : List String → List String) (visits : Visits visit)
        (live : nag.deleting ≡ false) (kept_finalizer : elem nag_finalizer nag.finalizers ≡ true)
        (formed : WellFormed nag) (writable : All (Writable cluster coop api nag w) nodes) where
      counted :
          (P : ℕ → NodeAssignment → Type 0)
          → ((t : State cluster.World)
              → t.wc.nag ≡ nag
              → t.wc.targeted_nodes ≡ targeted_at cluster coop api nag nodes
              → All
                  (λ a. P (count (holds a.name) (planned cluster coop t.wc t.world)) a)
                  nag.assignments)
          → Reconciled visit (λ v a. P (holders v a) a)
      counted P h =
          let (t, p, g, c, o) = context_lem cluster coop api nag w in
          let (u, q, n, b) =
            reconcile_lem cluster coop api nag w t g c o visit visits formed writable in
          (
            u,
            goes_on visit _ live kept_finalizer p ∙ q,
            All-map nag.assignments (λ a r. subst (λ k. P k a) (sym (n a.name)) r) (h t g c),
            b,
          )

      abbrev Planned : (ℕ → NodeAssignment → Type 0) → State cluster.World → Type 0
      Planned P t =
          All (λ a. P (count (holds a.name) (planned cluster coop t.wc t.world)) a) nag.assignments

      from_context :
          (R : ℕ → ℕ → Type 0) (t : State cluster.World)
          → t.wc.nag ≡ nag
          → t.wc.targeted_nodes ≡ targeted_at cluster coop api nag nodes
          → All
              (λ a. R (count (holds a.name) (planned cluster coop t.wc t.world)) (target t.wc a))
              t.wc.nag.assignments
          → Planned (λ k a. R k (wanted a)) t
      from_context R t g c h =
          subst
            (λ l.
              All
                (λ a.
                  R (count (holds a.name) (planned cluster coop t.wc t.world))
                    (pos_part (desired (length l) a)))
                nag.assignments)
            c
            (subst
              (λ o.
                All
                  (λ a.
                    R (count (holds a.name) (planned cluster coop t.wc t.world)) (target t.wc a))
                  o.assignments)
              g h)

      -- With an API server that cooperates and serves its nodes, ReconcileNag of a well-formed group
      -- that has the finalizer and is not being deleted ends without an error, if every node can
      -- be labelled and `range` visits every key; then no assignment has more of the nodes than it
      -- should have of those that are targeted, and the nodes that are not targeted have none.
      pub reconcile_nag-within : Reconciled visit (λ v a. holders v a ≤ wanted a)
      reconcile_nag-within =
          counted (λ k a. k ≤ wanted a)
            (λ t g c.
              from_context (λ k n. k ≤ n) t g c
                (planned_within cluster coop t.wc t.world (subst WellFormed (sym g) formed)))

      -- If moreover there are at least as many targeted nodes as the assignments should have together,
      -- then every assignment has exactly the number of the nodes that it should have.
      pub reconcile_nag-exact :
          total wanted nag.assignments ≤ length (targeted_at cluster coop api nag nodes)
          → Reconciled visit (λ v a. holders v a ≡ wanted a)
      reconcile_nag-exact enough =
          counted (λ k a. k ≡ wanted a)
            (λ t g c.
              from_context (λ k n. k ≡ n) t g c
                (planned_exact cluster coop t.wc t.world (subst WellFormed (sym g) formed)
                  (subst
                    (λ o.
                      All (λ k. is_known o k ≡ true) (map (get_assignment o) t.wc.targeted_nodes))
                    (sym g)
                    (subst (λ l. All (λ k. is_known nag k ≡ true) (map (get_assignment nag) l))
                      (sym c) (targeted-Known cluster.match_taint nag nodes)))
                  (subst (λ o. total (target t.wc) o.assignments ≤ length t.wc.targeted_nodes)
                    (sym g)
                    (subst
                      (λ l. total (λ a. pos_part (desired (length l) a)) nag.assignments ≤ length l)
                      (sym c) enough))))
