-- ===== src/NodeAssignments/Sets/Rounds.antt =====
-- One round of the loop of `updateNodeSets`, for one of the nodes that the API server lists.
use mathlib.Core.List.{append-nil}
use mathlib.Core.Bool.{false≢true}
use kube_valet.Prelude.{
  String, ◌≡◌, refl, sym, ap, ◌∙◌, Bool, true, false, Option, none, List, [], ◌∷◌, ◌++◌, ◌==◌,
  arith, eq_iff, eq_refl, if◌then◌else◌, lookup-insert, lookup-remove, Bool-cases, Option-cases,
  inl, inr,
}
use kube_valet.Outcome.{ok}
use kube_valet.Kube.Objects.{Node}
use kube_valet.Kube.Cluster.{Cluster}
use kube_valet.Kube.Sending.{send_difference}
use kube_valet.Kube.Cooperation.{Cooperates, send_difference_lem}
use kube_valet.Assignments.Types.{NodeAssignmentGroup}
use kube_valet.Assignments.Groups.{assignment_key, targets_node, get_assignment, unassign}
use kube_valet.Assignments.Groups.Unassign.{unassign_rest}
use kube_valet.NodeAssignments.WriterContext.{WriterContext}
use kube_valet.NodeAssignments.WriterContext.Steps.{
  State, has_name, mark_unassigned, unmark_unassigned, with_assignment, update_node_assignment,
  drop_unknown, sort_node, node_set_step,
}
use kube_valet.NodeAssignments.Plan.Convergence.{is_known}
use kube_valet.NodeAssignments.Reconcile.Views.{effective, forget_sent_ok}
use kube_valet.NodeAssignments.Sets.{Knows, kept, kept_unknown, is_targeted}

module _ (cluster : Cluster) (coop : Cooperates cluster) where
  open coop use {label_at}

  -- The copy of a node has the label of the group's assignments that the API server has.
  abbrev pub Shown : NodeAssignmentGroup → cluster.World → Node → Type 0
  Shown nag w n = label_at w n.name (assignment_key nag) ≡ get_assignment nag n

  -- Unassigning a node by a copy that shows the assignment it has reaches the API server, and takes
  -- the mark off.
  pub unassign_update :
      (node : Node) (s : State cluster.World)
      → Shown s.wc.nag s.world node
      → (w : cluster.World) × (update_node_assignment cluster node none s
          ≡ (ok tt, record { wc = unmark_unassigned node.name s.wc; world = w }))
        × ((j : String)
            → label_at w j (assignment_key s.wc.nag)
              ≡ (if node.name == j then none else label_at s.world j (assignment_key s.wc.nag)))
  unfolding update_node_assignment get_assignment with_assignment
  unassign_update node s shown =
      let new = unassign cluster.match_taint s.wc.nag node in
      let sent = send_difference_lem cluster coop node new s.world in
      (
        (send_difference cluster node new s.world).1,
        forget_sent_ok cluster coop new _ s.wc sent.0
            ∙ rw (unassign_rest cluster.match_taint s.wc.nag node).0 refl,
        λ j.
            sent.1 j (assignment_key s.wc.nag)
            ∙ ground (arith, kept_unknown cluster.match_taint s.wc.nag node, eq_iff node.name j),
      )

  abbrev pub marked : State cluster.World → String → Bool
  marked s j = has_name j s.wc.unassigned_node_names

  -- From `s` to `t` the node with this name is dealt with: the given nodes are added to the targeted
  -- ones, and its assignment in effect becomes `c`; nothing changes for other names.
  pub record Sorts (s t : State cluster.World) (name : String) (added : List Node)
      (c : Option String) : Type 0 where
    pub group : t.wc.nag ≡ s.wc.nag
    pub known : t.wc.known_assignments ≡ s.wc.known_assignments
    pub chosen : t.wc.targeted_nodes ≡ s.wc.targeted_nodes ++ added
    pub own : effective cluster coop t name ≡ c
    pub marks : (j : String) → (name == j) ≡ false → marked t j ≡ marked s j
    pub labels :
        (j : String)
        → (name == j) ≡ false
        → label_at t.world j (assignment_key s.wc.nag)
          ≡ label_at s.world j (assignment_key s.wc.nag)

  module _ (s : State cluster.World) (n : Node) (knows : Knows s.wc.nag s.wc.known_assignments)
      (shown : Shown s.wc.nag s.world n) (unmarked : marked s n.name ≡ false) where
    abbrev nag : NodeAssignmentGroup
    nag = s.wc.nag

    abbrev Step : Node → State cluster.World → Bool → Option String → Type 0
    Step m u b c =
        (t : State cluster.World) × (sort_node cluster m u ≡ (ok tt, t))
        × Sorts s t n.name (if b then m ∷ [] else []) c

    unplaced : get_assignment nag n ≡ none → effective cluster coop s n.name ≡ none
    unplaced e = ground (arith, unmarked, shown)

    -- A node whose assignment is known, or that has none.
    keeps_node :
        Step n s (targets_node nag n) (if targets_node nag n then get_assignment nag n else none)
    unfolding sort_node
    keeps_node = elim (Bool-cases (targets_node nag n)) [
      | inl h ↦ rw h (
        _,
        refl,
        record {
          group = refl;
          known = refl;
          chosen = refl;
          own = ground (arith, unmarked, shown);
          marks = λ j e. refl;
          labels = λ j e. refl;
        },
      )
      | inr h ↦ rw h (elim (Option-cases (get_assignment nag n)) [
        | inl e ↦ rw e (
          s,
          refl,
          record {
            group = refl;
            known = refl;
            chosen = sym (append-nil s.wc.targeted_nodes);
            own = unplaced e;
            marks = λ j e. refl;
            labels = λ j e. refl;
          },
        )
        | inr (a, e) ↦
            let (w, p, l) = unassign_update n s shown in
            rw e (
              _,
              p,
              record {
                group = refl;
                known = refl;
                chosen = sym (append-nil s.wc.targeted_nodes);
                own = ground (
                  arith,
                  l n.name,
                  eq_refl n.name,
                  lookup-remove n.name n.name s.wc.unassigned_node_names,
                );
                marks = λ j q. ground (arith, lookup-remove n.name j s.wc.unassigned_node_names);
                labels = λ j q. l j ∙ rw q refl;
              },
            )
      ])
    ]

    abbrev bare : Node
    bare = unassign cluster.match_taint nag n

    -- A node whose assignment is unknown loses it in memory and is marked.
    drops_node :
        Step bare (record s { wc = mark_unassigned n.name s.wc }) (targets_node nag bare) none
    unfolding sort_node
    drops_node = elim (Bool-cases (targets_node nag bare)) [
      | inl h ↦ rw h (_, refl, at_mark (s.wc.targeted_nodes ++ bare ∷ []) (bare ∷ []) refl)
      | inr h ↦ rw h (
          rw (kept_unknown cluster.match_taint nag n)
            (_, refl, at_mark s.wc.targeted_nodes [] (sym (append-nil s.wc.targeted_nodes))))
    ]
      where
        at_mark :
            (l added : List Node)
            → l ≡ s.wc.targeted_nodes ++ added
            → Sorts s
                (record s { wc = record (mark_unassigned n.name s.wc) { targeted_nodes = l } })
                n.name
                added
                none
        at_mark l added e = record {
          group = refl;
          known = refl;
          chosen = e;
          own =
              ground
                (arith, lookup-insert n.name n.name tt s.wc.unassigned_node_names, eq_refl n.name);
          marks = λ j q. ground (arith, lookup-insert n.name j tt s.wc.unassigned_node_names);
          labels = λ j q. refl;
        }

    abbrev pub Stepped : Bool → Node → Type 0
    Stepped b m =
        (t : State cluster.World) × (node_set_step cluster n s ≡ (ok tt, t))
        × Sorts s t n.name (if b then m ∷ [] else []) (if b then get_assignment nag m else none)

    known_step :
        is_known nag (get_assignment nag n) ≡ true → drop_unknown cluster n s.wc ≡ (n, s.wc)
    unfolding drop_unknown
    known_step k = elim (Option-cases (get_assignment nag n)) [
      | inl e ↦ rw (e, drop_unknown) refl
      | inr (a, e) ↦
          let held : has_name a s.wc.known_assignments ≡ true = knows a ∙ rw e at k in
          rw (e, drop_unknown) (rw held refl)
    ]

    unknown_step :
        is_known nag (get_assignment nag n) ≡ false
        → drop_unknown cluster n s.wc ≡ (bare, mark_unassigned n.name s.wc)
    unfolding drop_unknown
    unknown_step k = elim (Option-cases (get_assignment nag n)) [
      | inl e ↦ absurd (false≢true (sym k ∙ rw e refl))
      | inr (a, e) ↦
          let held : has_name a s.wc.known_assignments ≡ false = knows a ∙ rw e at k in
          rw (e, drop_unknown) (rw held refl)
    ]

    step_from :
        (m : Node) (wc : WriterContext)
        → drop_unknown cluster n s.wc ≡ (m, wc)
        → node_set_step cluster n s ≡ sort_node cluster m (record s { wc = wc })
    unfolding node_set_step
    step_from m wc e =
        ap (λ (r : Node × WriterContext). sort_node cluster r.0 (record s { wc = r.1 })) e

    -- One round of the loop.
    pub node_set_step_lem :
        Stepped (is_targeted cluster.match_taint nag n) (kept cluster.match_taint nag n)
    unfolding kept
    node_set_step_lem = elim (Bool-cases (is_known nag (get_assignment nag n))) [
      | inl k ↦ let (t, p, r) = keeps_node in rw k (t, step_from n s.wc (known_step k) ∙ p, r)
      | inr k ↦
          let (t, p, r) = drops_node in
          rw k (
            t,
            step_from bare (mark_unassigned n.name s.wc) (unknown_step k) ∙ p,
            record {
              group = r.group;
              known = r.known;
              chosen = r.chosen;
              own =
                  r.own
                  ∙ none_either (targets_node nag bare) (kept_unknown cluster.match_taint nag n);
              marks = r.marks;
              labels = r.labels;
            },
          )
    ]
      where
        none_either :
            (b : Bool)
            → get_assignment nag bare ≡ none
            → none ≡ (if b then get_assignment nag bare else none)
        none_either true e = sym e
        none_either false e = refl
