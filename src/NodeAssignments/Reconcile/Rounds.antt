-- ===== src/NodeAssignments/Reconcile/Rounds.antt =====
-- The round for one node, and the whole loop of `Reconcile`, against the plan.
use kube_valet.Prelude.{
  String, ◌≡◌, refl, sym, ap, ◌∙◌, subst, true, false, Option, none, some, arith, eq_refl,
  if◌then◌else◌, Bool-cases, Option-cases, inl, inr, lookup-insert, Map, ℤ, pos,
}
use kube_valet.Outcome.{ok}
use kube_valet.Kube.Objects.{Node}
use kube_valet.Kube.Cluster.{Cluster}
use kube_valet.Kube.Cooperation.{Cooperates}
use kube_valet.Assignments.Types.{NodeAssignmentGroup}
use kube_valet.Assignments.Groups.{assignment_key, get_assignment, unassign, pack_left_key}
use kube_valet.NodeAssignments.WriterContext.{change_by, may_leave}
use kube_valet.NodeAssignments.WriterContext.Steps.{State, reconcile_node, release_node}
use kube_valet.NodeAssignments.Plan.{plan_place, plan_node}
use kube_valet.NodeAssignments.Reconcile.Views.{effective}
use kube_valet.NodeAssignments.Reconcile.Steps.{ModesKnown}
use kube_valet.Kube.Labels.{delete_label}
use kube_valet.Assignments.Groups.Assign.{unassign_eq}
use kube_valet.Assignments.Groups.Unassign.{get_assignment-unassign, unassign_rest}
use kube_valet.NodeAssignments.Reconcile.Placing.{Leads, place_node_lem}

module _ (cluster : Cluster) (coop : Cooperates cluster) where
  -- A node that can be written and whose assignment in memory is the one in effect.
  pub record Ready (s : State cluster.World) (node : Node) : Type 0 where
    pub writable : (m : Map String) × (node.labels ≡ some m)
    pub in_step : effective cluster coop s node.name ≡ get_assignment s.wc.nag node

  abbrev Goal : State cluster.World → Node → Option String → Map ℤ → Type 0
  Goal s node c m =
      (t : State cluster.World) × (reconcile_node cluster node s ≡ (ok tt, t))
      × Leads cluster coop s t node.name c m

  pub unassigned_labels :
      (nag : NodeAssignmentGroup) (node : Node) (m : Map String)
      → node.labels ≡ some m
      → (m' : Map String) × ((unassign cluster.match_taint nag node).labels ≡ some m')
  unfolding delete_label
  unassigned_labels nag node m e = (
    _,
    ap (λ n. n.labels) (unassign_eq cluster.match_taint nag node)
        ∙ ap (λ l. delete_label (pack_left_key nag) (delete_label (assignment_key nag) l)) e,
  )

  module _ (s : State cluster.World) (node : Node) (known : ModesKnown s.wc.nag)
      (ready : Ready s node) where
    enters :
        get_assignment s.wc.nag node ≡ none
        → Goal s node
            (plan_place s.wc.nag s.wc.assignment_changes).0
            (plan_place s.wc.nag s.wc.assignment_changes).1
    unfolding reconcile_node
    enters e =
        let (m, w) = ready.writable in
        let (t, p, l) = place_node_lem cluster coop node m s w e (ready.in_step ∙ e) known in
        (t, rw (e, reconcile_node) p, l)

    stays :
        (ca : String)
        → get_assignment s.wc.nag node ≡ some ca
        → may_leave s.wc.nag s.wc.assignment_changes ca ≡ false
        → Goal s node (some ca) s.wc.assignment_changes
    unfolding reconcile_node
    stays ca e h = (
      s,
      rw (e, reconcile_node) (rw h refl),
      record { group = refl; changes = refl; own = ready.in_step ∙ e; others = λ j q. refl },
    )

    abbrev released : String → State cluster.World
    released ca = record s { wc = release_node cluster node ca s.wc }

    abbrev bare : Node
    bare = unassign cluster.match_taint s.wc.nag node

    bare_name : bare.name ≡ node.name
    bare_name = (unassign_rest cluster.match_taint s.wc.nag node).0

    bare_fresh : get_assignment s.wc.nag bare ≡ none
    bare_fresh =
        get_assignment-unassign cluster.match_taint s.wc.nag s.wc.nag node
        ∙ ap (λ b. if b then none else get_assignment s.wc.nag node) (eq_refl s.wc.nag.name)

    bare_unplaced : (ca : String) → effective cluster coop (released ca) bare.name ≡ none
    bare_unplaced ca = rw bare_name (
        ground (
          arith,
          lookup-insert node.name node.name tt s.wc.unassigned_node_names,
          eq_refl node.name,
        ))

    from_released :
        (ca : String) (t : State cluster.World) (c : Option String) (m : Map ℤ)
        → Leads cluster coop (released ca) t bare.name c m
        → Leads cluster coop s t node.name c m
    from_released ca t c m l = record {
      group = l.group;
      changes = l.changes;
      own = rw bare_name at l.own;
      others = λ j e.
          l.others j (rw bare_name e)
          ∙ ground (arith, lookup-insert node.name j tt s.wc.unassigned_node_names);
    }

    leaves :
        (ca : String)
        → get_assignment s.wc.nag node ≡ some ca
        → may_leave s.wc.nag s.wc.assignment_changes ca ≡ true
        → let m' = change_by (pos 1) ca s.wc.assignment_changes in
          Goal s node (plan_place s.wc.nag m').0 (plan_place s.wc.nag m').1
    unfolding reconcile_node
    leaves ca e h =
        let (m, w) = ready.writable in
        let (m', w') = unassigned_labels s.wc.nag node m w in
        let (t, p, l) =
          place_node_lem cluster coop bare m' (released ca) w' bare_fresh (bare_unplaced ca)
            known in
        (t, rw (e, reconcile_node) (rw h p), from_released ca t _ _ l)

    leave_eq :
        (ca : String)
        → may_leave s.wc.nag s.wc.assignment_changes ca ≡ true
        → plan_node s.wc.nag s.wc.assignment_changes (some ca)
          ≡ plan_place s.wc.nag (change_by (pos 1) ca s.wc.assignment_changes)
    unfolding plan_node
    leave_eq ca h = rw h refl

    stay_eq :
        (ca : String)
        → may_leave s.wc.nag s.wc.assignment_changes ca ≡ false
        → plan_node s.wc.nag s.wc.assignment_changes (some ca) ≡ (some ca, s.wc.assignment_changes)
    unfolding plan_node
    stay_eq ca h = rw h refl

    -- One round of the loop does what the plan says for the node.
    pub reconcile_node_lem :
        Goal s node
          (plan_node s.wc.nag s.wc.assignment_changes (get_assignment s.wc.nag node)).0
          (plan_node s.wc.nag s.wc.assignment_changes (get_assignment s.wc.nag node)).1
    reconcile_node_lem = elim (Option-cases (get_assignment s.wc.nag node)) [
      | inl e ↦ subst (λ o. By o) (sym e) (unfold plan_node in enters e)
      | inr (ca, e) ↦
          subst (λ o. By o) (sym e)
            (elim (Bool-cases (may_leave s.wc.nag s.wc.assignment_changes ca)) [
              | inl h ↦ subst (λ r. Goal s node r.0 r.1) (sym (leave_eq ca h)) (leaves ca e h)
              | inr h ↦ subst (λ r. Goal s node r.0 r.1) (sym (stay_eq ca h)) (stays ca e h)
            ])
    ]
      where
        By : Option String → Type 0
        By o =
            Goal s node (plan_node s.wc.nag s.wc.assignment_changes o).0
              (plan_node s.wc.nag s.wc.assignment_changes o).1
