-- ===== src/PackLeft/Rebalanced.antt =====
-- What RebalanceNag of pkg/controller/scheduling/packleft/manager.go reaches for all assignments together.
pub mod Apart
pub mod Visited
use mathlib.Core.Path.{ap₂}
use kube_valet.Prelude.{
  ℕ, String, ◌≡◌, refl, sym, ap, ◌∙◌, subst, Bool, true, false, ◌&&◌, Option, none, some, List, [],
  ◌∷◌, ◌==◌, arith, eq_iff, eq_sym, elem, length, map, filter, All, All-map, All-zip, if◌then◌else◌,
  Map, lookup, Bool-cases, Option-cases, inl, inr,
}
use kube_valet.Outcome.{Outcome, ok, err, panic, exit, Run, then_run, resume}
use kube_valet.Kube.Objects.{Node}
use kube_valet.Kube.Pods.{Pod}
use kube_valet.Kube.Labels.{get_label}
use kube_valet.Kube.Cluster.{Cluster}
use kube_valet.Kube.Cooperation.{Cooperates}
use kube_valet.Assignments.Types.{NodeAssignment, NodeAssignmentGroup}
use kube_valet.Assignments.Groups.{targets_node}
use kube_valet.Assignments.Groups.Targeting.{UniqueKeys}
use kube_valet.NodeAssignments.Reconcile.Loop.{node_names, DistinctNodes}
use kube_valet.PackLeft.{get_label_key, get_assignment_by_name, node_can_be_balanced}
use kube_valet.PackLeft.Fullness.{Floats, get_pods_on_nodes}
use kube_valet.PackLeft.Balance.{
  AssignmentContext, full_percent, avoid_buffer_size, balance_nodes, balanceable, sort_slice,
}
use kube_valet.PackLeft.Balance.Choices.{all_choices}
use kube_valet.PackLeft.Balance.Order.{
  context_nodes, nodes-balanceable, elem-sort_slice, All-sort_slice, All-filter,
  DistinctNodes-filter,
}
use kube_valet.PackLeft.Balance.Results.{
  Known, Marked, labels_of, state_texts, ranking, balance_nodes_lem,
}
use kube_valet.PackLeft.Rebalance.{rebalance_group, rebalance_groups}
use kube_valet.PackLeft.Rebalanced.Apart.{
  Absent, packed_in, Grouped, elsewhere-Absent, filter-Absent,
}

module _ (cluster : Cluster) (coop : Cooperates cluster) (floats : Floats)
    (nag : NodeAssignmentGroup) (pods : List Pod) where
  open coop use {label_at}

  abbrev key : String
  key = get_label_key nag.name

  abbrev ranked : List Node → List (AssignmentContext floats)
  ranked l = ranking floats cluster coop (get_label_key nag.name) pods l

  -- The nodes of an assignment that can be balanced have the states chosen for them, in their ranking.
  abbrev pub Chosen : cluster.World → List Node → NodeAssignment → Type 0
  Chosen t l a =
      labels_of floats cluster coop (get_label_key nag.name) t (ranked l)
      ≡ state_texts floats cluster coop (get_label_key nag.name) (
          all_choices floats (full_percent floats a.pack_left)
            (avoid_buffer_size (length l) a.pack_left) (ranked l))

  abbrev pub Balanced : cluster.World → String × List Node → Type 0
  Balanced t e = (a : NodeAssignment) → get_assignment_by_name e.0 nag ≡ some a → Chosen t e.1 a

  -- No label of the key changes but on nodes of the list that can be balanced.
  abbrev Elsewhere : cluster.World → cluster.World → List Node → Type 0
  Elsewhere w t l =
      (j : String)
      → Absent (filter node_can_be_balanced l) j
      → label_at t j (get_label_key nag.name) ≡ label_at w j (get_label_key nag.name)

  ranking-Absent :
      (l : List Node) (j : String)
      → Absent (filter node_can_be_balanced l) j
      → Absent
          (context_nodes floats (ranking floats cluster coop (get_label_key nag.name) pods l))
          j
  ranking-Absent l j h =
      elem-sort_slice floats j (balanceable floats (get_pods_on_nodes pods) l)
      ∙ ap (λ k. elem j (node_names k)) (nodes-balanceable floats (get_pods_on_nodes pods) l)
      ∙ h

  abbrev Group : String → List Node → cluster.World → Type 0
  Group name l w =
      (t : cluster.World) × (rebalance_group cluster floats nag pods name l w ≡ (ok tt, t))
      × Balanced t (name, l)
      × Elsewhere w t l

  group_lem :
      (name : String) (l : List Node) (w : cluster.World)
      → DistinctNodes l
      → All (Known cluster coop (get_label_key nag.name) w) l
      → Group name l w
  unfolding balanceable
  group_lem name [] w d k = (w, refl, λ a e. refl, λ j h. refl)
  group_lem name (n ∷ l) w d k = elim (Option-cases (get_assignment_by_name name nag)) [
    | inl e ↦ (w, rw (e, rebalance_group) refl, λ a f. absurd (cc (e, f)), λ j h. refl)
    | inr (a, e) ↦
        let (t, p, marked) =
          balance_nodes_lem floats cluster coop (get_label_key nag.name) pods (n ∷ l) a.pack_left w
            d k in
        (
          t,
          rw (e, rebalance_group) p,
          λ b f. let same : a ≡ b = cc (e, f) in subst (Chosen t (n ∷ l)) same marked.labels,
          λ j h. marked.others j (ranking-Absent (n ∷ l) j h),
        )
  ]

  -- The world is in step with the nodes of the groups.
  abbrev KnownGroups : cluster.World → Map (List Node) → Type 0
  KnownGroups w = All (λ e. All (Known cluster coop (get_label_key nag.name) w) e.1)

  abbrev AbsentAll : Map (List Node) → String → Type 0
  AbsentAll groups j = All (λ e. Absent e.1 j) groups

  -- The name is not one of a node of the groups that can be balanced.
  abbrev pub Unpacked : Map (List Node) → String → Type 0
  Unpacked groups j = All (λ e. Absent (filter node_can_be_balanced e.1) j) groups

  AbsentAll-Unpacked :
      (groups : Map (List Node)) (j : String) → AbsentAll groups j → Unpacked groups j
  AbsentAll-Unpacked groups j h =
      All-map groups (λ e p. filter-Absent nag node_can_be_balanced j e.1 p) h

  still-Known :
      (w t : cluster.World) (l : List Node)
      → All
          (λ n.
            label_at t n.name (get_label_key nag.name) ≡ label_at w n.name (get_label_key nag.name))
          l
      → All (Known cluster coop (get_label_key nag.name) w) l
      → All (Known cluster coop (get_label_key nag.name) t) l
  still-Known w t [] h k = tt
  still-Known w t (n ∷ l) h k =
      (record { writable = k.0.writable; in_step = h.0 ∙ k.0.in_step }, still-Known w t l h.1 k.1)

  labels_kept :
      (w t : cluster.World) (cs : List (AssignmentContext floats))
      → All
          (λ n.
            label_at t n.name (get_label_key nag.name) ≡ label_at w n.name (get_label_key nag.name))
          (context_nodes floats cs)
      → labels_of floats cluster coop (get_label_key nag.name) t cs
        ≡ labels_of floats cluster coop (get_label_key nag.name) w cs
  labels_kept w t [] h = refl
  labels_kept w t (c ∷ cs) h =
      ap₂ (λ (a : Option String) (b : List (Option String)). a ∷ b) h.0 (labels_kept w t cs h.1)

  abbrev SameLabel : cluster.World → cluster.World → Node → Type 0
  SameLabel w t n =
      label_at t n.name (get_label_key nag.name) ≡ label_at w n.name (get_label_key nag.name)

  ranking_kept :
      (w t : cluster.World) (l : List Node)
      → All (SameLabel w t) l
      → labels_of floats cluster coop (get_label_key nag.name) t (ranked l)
        ≡ labels_of floats cluster coop (get_label_key nag.name) w (ranked l)
  ranking_kept w t l h = labels_kept w t (ranked l) (
      All-sort_slice floats (SameLabel w t) (balanceable floats (get_pods_on_nodes pods) l) (
        subst (All (SameLabel w t)) (sym (nodes-balanceable floats (get_pods_on_nodes pods) l))
          (All-filter (SameLabel w t) node_can_be_balanced l h)))

  every {κ} : {P : Node → Type κ} → ((n : Node) → P n) → (l : List Node) → All P l
  every f [] = tt
  every f (n ∷ l) = (f n, every f l)

  module _ (nodes : List Node) (distinct : DistinctNodes nodes) where
    -- The nodes of a group are not in the groups of other assignments.
    apart :
        (name : String) (groups : Map (List Node))
        → lookup name groups ≡ none
        → Grouped nag nodes groups
        → All (λ e. All (λ n. Absent (filter (packed_in nag name) nodes) n.name) e.1) groups
          × All (λ n. AbsentAll groups n.name) (filter (packed_in nag name) nodes)
    unfolding lookup
    apart name [] e g = (tt, every (λ n. tt) (filter (packed_in nag name) nodes))
    apart name ((b, l) ∷ groups) e g =
        let differ : (b == name) ≡ false = ground arith in
        let (later, own) = apart name groups (ground arith) g.1 in
        (
          (
            subst (λ k. All (λ n. Absent (filter (packed_in nag name) nodes) n.name) k) (sym g.0)
                (elsewhere-Absent nag b name nodes distinct differ),
            later,
          ),
          All-zip _ _ (filter (packed_in nag name) nodes)
              (subst (λ k. All (λ n. Absent k n.name) (filter (packed_in nag name) nodes)) (sym g.0)
                (elsewhere-Absent nag name b nodes distinct (eq_sym name b ∙ differ)))
              own,
        )

    rebalance_groups_lem :
        (groups : Map (List Node)) (w : cluster.World)
        → UniqueKeys groups
        → Grouped nag nodes groups
        → KnownGroups w groups
        → (t : cluster.World) × (rebalance_groups cluster floats nag pods groups w ≡ (ok tt, t))
          × All (Balanced t) groups
          × ((j : String)
              → Unpacked groups j
              → label_at t j (get_label_key nag.name) ≡ label_at w j (get_label_key nag.name))
    rebalance_groups_lem [] w u g k = (w, refl, tt, λ j h. refl)
    rebalance_groups_lem ((name, l) ∷ groups) w u g k =
        let (w₁, first, chosen, elsewhere) =
          group_lem name l w
            (subst DistinctNodes (sym g.0)
              (DistinctNodes-filter (packed_in nag name) nodes distinct))
            k.0 in
        let (later, own) = apart name groups u.0 g.1 in
        let known₁ : KnownGroups w₁ groups =
          All-map groups
            (λ e p.
              still-Known w w₁ e.1
                (All-map e.1
                  (λ n h. elsewhere n.name (
                    filter-Absent nag node_can_be_balanced n.name l
                      (subst (λ k. Absent k n.name) (sym g.0) h)))
                  p.0)
                p.1)
            (All-zip _ _ groups later k.1) in
        let (t, rest, balanced, others) = rebalance_groups_lem groups w₁ u.1 g.1 known₁ in
        (
          t,
          ap (λ r. resume r.0 (λ _. rebalance_groups cluster floats nag pods groups) r.1) first
              ∙ rest,
          (
            λ a e.
                ranking_kept w₁ t l (
                  All-map l (λ n h. others n.name (AbsentAll-Unpacked groups n.name h))
                    (subst (All (λ n. AbsentAll groups n.name)) (sym g.0) own))
                ∙ chosen a e,
            balanced,
          ),
          λ j h. others j h.1 ∙ elsewhere j h.0,
        )
