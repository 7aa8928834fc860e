-- ===== src/NodeAssignments/Reconcile/Loop.antt =====
-- The loop of `Reconcile` over the targeted nodes carries out the plan for them.
use kube_valet.Prelude.{
  String, ◌≡◌, refl, sym, ap, ◌∙◌, subst, false, Option, List, [], ◌∷◌, arith, eq_iff, Map, All, ℤ,
  elem, map,
}
use kube_valet.Outcome.{ok}
use kube_valet.Kube.Objects.{Node}
use kube_valet.Kube.Cluster.{Cluster}
use kube_valet.Kube.Cooperation.{Cooperates}
use kube_valet.Assignments.Types.{NodeAssignmentGroup}
use kube_valet.Assignments.Groups.{get_assignment}
use kube_valet.NodeAssignments.WriterContext.Steps.{State, reconcile_nodes}
use kube_valet.NodeAssignments.Plan.{plan_node, plan}
use kube_valet.NodeAssignments.Reconcile.Views.{effective}
use kube_valet.NodeAssignments.Reconcile.Steps.{ModesKnown}
use mathlib.Core.Path.{ap₂}
use kube_valet.NodeAssignments.Reconcile.Placing.{Leads}
use kube_valet.NodeAssignments.Reconcile.Rounds.{Ready, reconcile_node_lem}

abbrev pub node_names : List Node → List String
node_names = map (λ n. n.name)

-- No two nodes share a name.
abbrev pub DistinctNodes : List Node → Type 0
DistinctNodes [] = Unit
DistinctNodes (n ∷ rest) = (elem n.name (node_names rest) ≡ false) × DistinctNodes rest

-- The plan for some nodes, from the assignments that they have in memory.
abbrev pub plan_for : NodeAssignmentGroup → Map ℤ → List Node → List (Option String) × Map ℤ
plan_for nag m nodes = plan nag m (map (get_assignment nag) nodes)

module _ (cluster : Cluster) (coop : Cooperates cluster) where
  abbrev pub effects : State cluster.World → List Node → List (Option String)
  effects t = map (λ n. effective cluster coop t n.name)

  -- From `s` to `t` the nodes come to have the assignments of the plan in effect, the needed changes
  -- become those that the plan leaves, and other nodes keep their assignments.
  pub record Performs (s t : State cluster.World) (nodes : List Node)
      (r : List (Option String) × Map ℤ) : Type 0 where
    pub group : t.wc.nag ≡ s.wc.nag
    pub changes : t.wc.assignment_changes ≡ r.1
    pub effect : effects t nodes ≡ r.0
    pub others :
        (j : String)
        → elem j (node_names nodes) ≡ false
        → effective cluster coop t j ≡ effective cluster coop s j

  still-Ready :
      (s t : State cluster.World) (name : String) (c : Option String) (m : Map ℤ)
      (nodes : List Node)
      → Leads cluster coop s t name c m
      → elem name (node_names nodes) ≡ false
      → All (Ready cluster coop s) nodes
      → All (Ready cluster coop t) nodes
  still-Ready s t name c m [] l e r = tt
  still-Ready s t name c m (n ∷ rest) l e r = (
    record {
      writable = r.0.writable;
      in_step =
          l.others n.name (ground arith) ∙ r.0.in_step ∙ ap (λ g. get_assignment g n) (sym l.group);
    },
    still-Ready s t name c m rest l (ground arith) r.1,
  )

  -- If the API server cooperates, the modes of the group are known, and the nodes have different names, can be written and have in
  -- memory the assignments that are in effect, then the loop ends without an error and performs the
  -- plan: the nodes have its assignments in effect, the needed changes are those that it leaves, and no
  -- other node's assignment changes.
  pub reconcile_nodes_lem :
      (nodes : List Node) (s : State cluster.World)
      → ModesKnown s.wc.nag
      → DistinctNodes nodes
      → All (Ready cluster coop s) nodes
      → (t : State cluster.World) × (reconcile_nodes cluster nodes s ≡ (ok tt, t))
        × Performs s t nodes (plan_for s.wc.nag s.wc.assignment_changes nodes)
  unfolding reconcile_nodes plan
  reconcile_nodes_lem [] s k d r =
      (s, refl, record { group = refl; changes = refl; effect = refl; others = λ j e. refl })
  reconcile_nodes_lem (n ∷ rest) s k d r =
      let (s₁, p₁, l₁) = reconcile_node_lem cluster coop s n k r.0 in
      let (t, p, l) =
        reconcile_nodes_lem rest s₁ (subst ModesKnown (sym l₁.group) k) d.1
          (still-Ready s s₁ n.name _ _ rest l₁ d.0 r.1) in
      let step = plan_node s.wc.nag s.wc.assignment_changes (get_assignment s.wc.nag n) in
      let here : plan_for s₁.wc.nag s₁.wc.assignment_changes rest ≡ plan_for s.wc.nag step.1 rest =
        ap₂ (λ g m. plan_for g m rest) l₁.group l₁.changes in
      (
        t,
        rw (p₁, reconcile_nodes) p,
        record {
          group = l.group ∙ l₁.group;
          changes = l.changes ∙ ap (λ q. q.1) here;
          effect =
              ap₂ (λ (a : Option String) (b : List (Option String)). a ∷ b)
                (l.others n.name d.0 ∙ l₁.own) (l.effect ∙ ap (λ q. q.0) here);
          others = λ j e.
              l.others j (ground arith)
              ∙ l₁.others j (ground (arith, eq_iff n.name j, eq_iff j n.name));
        },
      )
