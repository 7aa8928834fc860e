-- ===== src/NodeAssignments/Reconcile/Placing.antt =====
-- Placing a node, and the whole round for one node, against the plan.
use kube_valet.Prelude.{
  String, ◌≡◌, refl, ap, ◌∙◌, true, false, Option, none, some, ◌==◌, arith, eq_refl, if◌then◌else◌,
  Option-cases, inl, inr, lookup-remove, Map, ℤ, negsuc,
}
use kube_valet.Outcome.{Outcome, ok}
use kube_valet.Kube.Objects.{Node}
use kube_valet.Kube.Cluster.{Cluster}
use kube_valet.Kube.Cooperation.{Cooperates}
use kube_valet.Assignments.Types.{NodeAssignment}
use kube_valet.Assignments.Groups.{assignment_key, get_assignment}
use kube_valet.Assignments.Groups.Assign.{is_known_mode}
use kube_valet.NodeAssignments.WriterContext.{change_by}
use kube_valet.NodeAssignments.WriterContext.Steps.{
  State, unmark_unassigned, update_node_assignment, assign_first, assign_node, assign_default,
  place_node,
}
use kube_valet.NodeAssignments.Plan.{first_needing, name_of, plan_place}
use kube_valet.NodeAssignments.Reconcile.Views.{effective, assign_update}
use kube_valet.NodeAssignments.Reconcile.Steps.{
  ModesKnown, take_it, assign_first-none, assign_first-some,
}

module _ (cluster : Cluster) (coop : Cooperates cluster) where
  -- From `s` to `t` the node `name` comes to have the assignment `c` in effect, the needed changes
  -- become `m`, and the other nodes keep their assignments.
  pub record Leads (s t : State cluster.World) (name : String) (c : Option String) (m : Map ℤ)
      : Type 0 where
    pub group : t.wc.nag ≡ s.wc.nag
    pub changes : t.wc.assignment_changes ≡ m
    pub own : effective cluster coop t name ≡ c
    pub others :
        (j : String) → (name == j) ≡ false → effective cluster coop t j ≡ effective cluster coop s j

  -- One write of an assignment for the node `name`, with the changes that go with it.
  wrote :
      (s : State cluster.World) (name c : String) (m : Map ℤ) (w : cluster.World)
      → ((j : String)
          → coop.label_at w j (assignment_key s.wc.nag)
            ≡ (if name == j then some c else coop.label_at s.world j (assignment_key s.wc.nag)))
      → Leads s
          (record {
            wc = record (unmark_unassigned name s.wc) { assignment_changes = m };
            world = w;
          })
          name
          (some c)
          m
  wrote s name c m w h = record {
    group = refl;
    changes = refl;
    own = ground (arith, h name, eq_refl name, lookup-remove name name s.wc.unassigned_node_names);
    others = λ j e. ground (arith, h j, lookup-remove name j s.wc.unassigned_node_names);
  }

  module _ (node : Node) (labels : Map String) (s : State cluster.World)
      (writable : node.labels ≡ some labels) (fresh : get_assignment s.wc.nag node ≡ none)
      (unplaced : effective cluster coop s node.name ≡ none) where
    abbrev Goal : Option String → Map ℤ → Type 0
    Goal c m =
        (t : State cluster.World) × (place_node cluster node s ≡ (ok tt, t))
        × Leads s t node.name c m

    abbrev by_default : Option NodeAssignment → Outcome (Unit {0}) × State cluster.World
    by_default d = elim d [
      | none ↦ (ok tt, s)
      | some x ↦ update_node_assignment cluster node (some x) s
    ]

    assign_default_eq : assign_default cluster node s ≡ by_default s.wc.nag.default_assignment
    unfolding assign_default
    assign_default_eq = rw (fresh, assign_default) refl

    assign_node_lem : assign_node cluster node s ≡ assign_first cluster s.wc.nag.assignments node s
    unfolding assign_node
    assign_node_lem = refl

    assign_default_lem :
        (d : Option NodeAssignment)
        → s.wc.nag.default_assignment ≡ d
        → ((x : NodeAssignment) → d ≡ some x → is_known_mode x.mode ≡ true)
        → (t : State cluster.World) × (assign_default cluster node s ≡ (ok tt, t))
          × Leads s t node.name (name_of d) s.wc.assignment_changes
    assign_default_lem none e k = (
      s,
      assign_default_eq ∙ ap by_default e,
      record { group = refl; changes = refl; own = unplaced; others = λ j h. refl },
    )
    assign_default_lem (some d) e k =
        let (w, u, l) = assign_update cluster coop node d labels s writable (k d refl) fresh in
        (
          record { wc = unmark_unassigned node.name s.wc; world = w },
          assign_default_eq ∙ ap by_default e ∙ u,
          wrote s node.name d.name s.wc.assignment_changes w l,
        )

    place_none :
        assign_node cluster node s ≡ (ok false, s)
        → place_node cluster node s ≡ assign_default cluster node s
    unfolding place_node
    place_none e = rw (e, place_node) refl

    place_some :
        (t : State cluster.World)
        → assign_node cluster node s ≡ (ok true, t)
        → place_node cluster node s ≡ (ok tt, t)
    unfolding place_node
    place_some t e = rw (e, place_node) refl

    place_none_lem :
        ModesKnown s.wc.nag
        → first_needing s.wc.nag.assignments s.wc.assignment_changes ≡ none
        → Goal (name_of s.wc.nag.default_assignment) s.wc.assignment_changes
    place_none_lem k e =
        let (t, u, l) = assign_default_lem s.wc.nag.default_assignment refl k.1 in
        let first = assign_node_lem ∙ assign_first-none cluster s.wc.nag.assignments node s e in
        (t, place_none first ∙ u, l)

    taken :
        (b : NodeAssignment) (w : cluster.World)
        → update_node_assignment cluster node (some b) s
          ≡ (ok tt, record { wc = unmark_unassigned node.name s.wc; world = w })
        → take_it cluster node b s ≡ (
          ok true,
          record {
            wc = record (unmark_unassigned node.name s.wc) {
              assignment_changes = change_by (negsuc 0) b.name s.wc.assignment_changes;
            };
            world = w;
          },
        )
    taken b w e = rw e refl

    place_some_lem :
        (b : NodeAssignment)
        → ModesKnown s.wc.nag
        → first_needing s.wc.nag.assignments s.wc.assignment_changes ≡ some b
        → Goal (some b.name) (change_by (negsuc 0) b.name s.wc.assignment_changes)
    place_some_lem b k e =
        let (mode, found) = assign_first-some cluster s.wc.nag.assignments node s b k.0 e in
        let (w, u, l) = assign_update cluster coop node b labels s writable mode fresh in
        let first = assign_node_lem ∙ found ∙ taken b w u in
        (_, place_some _ first, wrote s node.name b.name _ w l)

    -- `assignNode` and the default assignment together do what the plan says.
    pub place_node_lem :
        ModesKnown s.wc.nag
        → Goal
            (plan_place s.wc.nag s.wc.assignment_changes).0
            (plan_place s.wc.nag s.wc.assignment_changes).1
    unfolding plan_place
    place_node_lem k =
        elim (Option-cases (first_needing s.wc.nag.assignments s.wc.assignment_changes)) [
          | inl e ↦ rw (e, plan_place) (place_none_lem k e)
          | inr (b, e) ↦ rw (e, plan_place) (place_some_lem b k e)
        ]
