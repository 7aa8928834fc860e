-- ===== src/NodeAssignments/Sets/Listed.antt =====
-- The loop of `updateNodeSets` over the nodes that the API server lists: what it does to the
-- assignments in effect, and the nodes that it collects.
use mathlib.Core.List.{append_assoc, append-nil}
use mathlib.Core.Path.{ap₂}
use kube_valet.Prelude.{
  String, ◌≡◌, refl, sym, ap, ◌∙◌, subst, false, Option, none, List, [], ◌∷◌, ◌++◌, ◌==◌, arith,
  eq_iff, if◌then◌else◌, elem, All, Bool-cases, inl, inr,
}
use kube_valet.Outcome.{ok}
use kube_valet.Kube.Objects.{Node}
use kube_valet.Kube.Cluster.{Cluster}
use kube_valet.Kube.Cooperation.{Cooperates}
use kube_valet.Assignments.Types.{NodeAssignmentGroup}
use kube_valet.Assignments.Groups.{assignment_key, get_assignment}
use kube_valet.NodeAssignments.WriterContext.Steps.{State, node_set_loop}
use kube_valet.NodeAssignments.Reconcile.Views.{effective}
use kube_valet.NodeAssignments.Reconcile.Loop.{node_names, DistinctNodes}
use kube_valet.NodeAssignments.Sets.{Knows, kept, is_targeted, targeted}
use kube_valet.NodeAssignments.Sets.Rounds.{Shown, marked, Sorts, node_set_step_lem}

module _ (cluster : Cluster) (coop : Cooperates cluster) where
  open coop use {label_at}

  -- The copies of the nodes show their assignments, and none of them is marked.
  abbrev pub Before : State cluster.World → List Node → Type 0
  Before s =
      All (λ n. Shown cluster coop s.wc.nag s.world n × (marked cluster coop s n.name ≡ false))

  still-Before :
      (s t : State cluster.World) (name : String) (added : List Node) (c : Option String)
      (nodes : List Node)
      → Sorts cluster coop s t name added c
      → elem name (node_names nodes) ≡ false
      → Before s nodes
      → Before t nodes
  still-Before s t name added c [] r e b = tt
  still-Before s t name added c (n ∷ rest) r e b =
      let apart : (name == n.name) ≡ false = ground arith in
      (
        (
          subst (λ g. Shown cluster coop g t.world n) (sym r.group)
              (r.labels n.name (ground arith) ∙ b.0.0),
          r.marks n.name (ground arith) ∙ b.0.1,
        ),
        still-Before s t name added c rest r (ground arith) b.1,
      )

  others_kept :
      (s t : State cluster.World) (name : String) (added : List Node) (c : Option String)
      (j : String)
      → Sorts cluster coop s t name added c
      → (name == j) ≡ false
      → effective cluster coop t j ≡ effective cluster coop s j
  others_kept s t name added c j r e =
      ap (λ g. if marked cluster coop t j then none else label_at t.world j (assignment_key g))
        r.group
      ∙ ground (arith, r.marks j e, r.labels j e)

  -- The assignment that a listed node has in effect after the loop.
  abbrev pub after_loop : NodeAssignmentGroup → Node → Option String
  after_loop nag n =
      if is_targeted cluster.match_taint nag n
      then get_assignment nag (kept cluster.match_taint nag n)
      else none

  -- From `s` to `t` the targeted nodes among the listed ones are collected, those that are not lose
  -- their assignments, and nothing changes for other nodes.
  pub record Collects (s t : State cluster.World) (nodes : List Node) : Type 0 where
    pub group : t.wc.nag ≡ s.wc.nag
    pub chosen :
        t.wc.targeted_nodes ≡ s.wc.targeted_nodes ++ targeted cluster.match_taint s.wc.nag nodes
    pub own : All (λ n. effective cluster coop t n.name ≡ after_loop s.wc.nag n) nodes
    pub others :
        (j : String)
        → elem j (node_names nodes) ≡ false
        → effective cluster coop t j ≡ effective cluster coop s j

  targeted_eq :
      (nag : NodeAssignmentGroup) (n : Node) (rest : List Node)
      → targeted cluster.match_taint nag (n ∷ rest)
        ≡ (if is_targeted cluster.match_taint nag n
            then kept cluster.match_taint nag n ∷ []
            else [])
          ++ targeted cluster.match_taint nag rest
  unfolding targeted
  targeted_eq nag n rest = elim (Bool-cases (is_targeted cluster.match_taint nag n)) [
    | inl e ↦ rw e refl
    | inr e ↦ rw e refl
  ]

  pub node_set_loop_lem :
      (nodes : List Node) (s : State cluster.World)
      → Knows s.wc.nag s.wc.known_assignments
      → DistinctNodes nodes
      → Before s nodes
      → (t : State cluster.World) × (node_set_loop cluster nodes s ≡ (ok tt, t))
        × Collects s t nodes
  unfolding node_set_loop
  node_set_loop_lem [] s k d b = (
    s,
    refl,
    record {
      group = refl;
      chosen = unfold targeted in sym (append-nil s.wc.targeted_nodes);
      own = tt;
      others = λ j e. refl;
    },
  )
  node_set_loop_lem (n ∷ rest) s k d b =
      let (s₁, p₁, r₁) = node_set_step_lem cluster coop s n k b.0.0 b.0.1 in
      let k₁ : Knows s₁.wc.nag s₁.wc.known_assignments = rw (r₁.group, r₁.known) k in
      let (t, p, r) =
        node_set_loop_lem rest s₁ k₁ d.1 (still-Before s s₁ n.name _ _ rest r₁ d.0 b.1) in
      (
        t,
        rw (p₁, node_set_loop) p,
        record {
          group = r.group ∙ r₁.group;
          chosen =
              r.chosen
              ∙ ap₂ (λ l g. l ++ targeted cluster.match_taint g rest) r₁.chosen r₁.group
              ∙ append_assoc s.wc.targeted_nodes _ _
              ∙ ap (λ l. s.wc.targeted_nodes ++ l) (sym (targeted_eq s.wc.nag n rest));
          own = (
            r.others n.name d.0 ∙ r₁.own,
            subst (λ g. All (λ m. effective cluster coop t m.name ≡ after_loop g m) rest) r₁.group
                r.own,
          );
          others = λ j e.
              r.others j (ground arith)
              ∙ others_kept s s₁ n.name _ _ j r₁ (ground (arith, eq_iff n.name j, eq_iff j n.name));
        },
      )
