-- ===== src/PackLeft/Rebalanced/Visited.antt =====
-- The groups that RebalanceNag visits, in whatever order `range` visits them.
use kube_valet.Prelude.{
  String, ◌≡◌, refl, sym, ap, ◌∙◌, subst, Option, none, some, List, [], ◌∷◌, ◌==◌, arith, eq_iff,
  eq_refl, filter, All, All-map, if◌then◌else◌, Map, lookup, insert, lookup-insert, append_at,
  str-cases, Option-cases, inl, inr,
}
use kube_valet.Outcome.{ok, handle_err}
use kube_valet.Kube.Objects.{Node}
use kube_valet.Kube.Pods.{Pod}
use kube_valet.Kube.Cluster.{Cluster}
use kube_valet.Kube.Cooperation.{Cooperates}
use kube_valet.Assignments.Types.{NodeAssignment, NodeAssignmentGroup}
use kube_valet.Assignments.Groups.Targeting.{UniqueKeys}
use kube_valet.Finalizers.Kept.{StoresNags, KeepsLabels, ensure_finalizer_labels}
use kube_valet.NodeAssignments.Reconcile.Loop.{DistinctNodes}
use kube_valet.PackLeft.{
  get_label_key, get_assignment_by_name, node_can_be_balanced, get_pack_left_node_groups,
  group_nodes, pack_left_assignment, get_targeted_nodes,
}
use kube_valet.PackLeft.Groups.{get_pack_left_node_groups_lem}
use kube_valet.PackLeft.Fullness.{Floats}
use kube_valet.PackLeft.Balance.{balanceable}
use kube_valet.PackLeft.Balance.Order.{All-filter}
use kube_valet.PackLeft.Balance.Results.{Known}
use kube_valet.PackLeft.Rebalance.{rebalance_groups, rebalance_nag}
use kube_valet.PackLeft.Rebalanced.Apart.{Absent, packed_in, Grouped}
use kube_valet.PackLeft.Rebalanced.{Chosen, Balanced, rebalance_groups_lem}

insert-UniqueKeys :
    (k : String) (l : List Node) (m : Map (List Node)) → UniqueKeys m → UniqueKeys (insert k l m)
unfolding insert lookup
insert-UniqueKeys k l [] u = (refl, tt)
insert-UniqueKeys k l ((i, v) ∷ m) u = elim (str-cases i k) [
  | inl (e, p) ↦ rw e (subst (λ x. lookup x m ≡ none) p u.0, u.1)
  | inr (e, p) ↦ rw e (
    lookup-insert k i l m ∙ ground (arith, u.0, eq_iff i k, eq_iff k i),
    insert-UniqueKeys k l m u.1,
  )
]

-- A map without double keys has its own entries.
entries_found : (m : Map (List Node)) → UniqueKeys m → All (λ e. lookup e.0 m ≡ some e.1) m
unfolding lookup
entries_found [] u = tt
entries_found ((k, v) ∷ m) u =
    (rw (eq_refl k) refl, All-map m (λ e h. behind e h) (entries_found m u.1))
  where
    behind :
        (e : String × List Node)
        → lookup e.0 m ≡ some e.1
        → (if k == e.0 then some v else lookup e.0 m) ≡ some e.1
    behind e h = elim (str-cases k e.0) [
      | inl (_, p) ↦ absurd (cc (h, u.0, p))
      | inr (d, _) ↦ rw d h
    ]

entry_at {κ} :
    (P : String × List Node → Type κ) (m : Map (List Node)) (k : String) (v : List Node)
    → lookup k m ≡ some v
    → All P m
    → P (k, v)
unfolding lookup
entry_at P [] k v e h = absurd (cc e)
entry_at P ((i, u) ∷ m) k v e h = elim (str-cases i k) [
  | inl (b, p) ↦
      let same : u ≡ v = cc (rw b at e) in subst (λ x. P (k, x)) same (subst (λ x. P (x, u)) p h.0)
  | inr (b, _) ↦ entry_at P m k v (rw b at e) h.1
]

group_nodes-UniqueKeys :
    (nag : NodeAssignmentGroup) (nodes : List Node) (m : Map (List Node))
    → UniqueKeys m
    → UniqueKeys (group_nodes nag nodes m)
group_nodes-UniqueKeys nag [] m u = u
group_nodes-UniqueKeys nag (n ∷ nodes) m u =
    group_nodes-UniqueKeys nag nodes _ (go (pack_left_assignment nag n))
  where
    go : (o : Option String) → UniqueKeys (elim o [ none ↦ m | some name ↦ append_at name n m ])
    go none = u
    go (some name) = insert-UniqueKeys name _ m u

-- `range` visits every entry of a map once.
pub record VisitsEntries (visit : Map (List Node) → Map (List Node)) : Type 0 where
  pub same : (k : String) (m : Map (List Node)) → lookup k (visit m) ≡ lookup k m
  pub once : (m : Map (List Node)) → UniqueKeys m → UniqueKeys (visit m)

module _ (nag : NodeAssignmentGroup) (nodes : List Node) (visit : Map (List Node) → Map (List Node))
    (visits : VisitsEntries visit) where
  abbrev groups : Map (List Node)
  groups = get_pack_left_node_groups nag nodes

  abbrev visited : Map (List Node)
  visited = visit groups

  visited-UniqueKeys : UniqueKeys visited
  unfolding get_pack_left_node_groups
  visited-UniqueKeys =
      visits.once groups (group_nodes-UniqueKeys nag (get_targeted_nodes nag nodes) [] tt)

  slice_of :
      (name : String) (l : List Node)
      → lookup name groups ≡ some l
      → l ≡ filter (packed_in nag name) nodes
  slice_of name l e =
      ap (λ o. elim o [ none ↦ [] | some xs ↦ xs ]) (sym e)
      ∙ get_pack_left_node_groups_lem nag name nodes

  no_slice : (name : String) → lookup name groups ≡ none → [] ≡ filter (packed_in nag name) nodes
  no_slice name e =
      ap (λ o. elim o [ none ↦ [] | some xs ↦ xs ]) (sym e)
      ∙ get_pack_left_node_groups_lem nag name nodes

  visited-Grouped : Grouped nag nodes visited
  visited-Grouped =
      All-map visited (λ e h. slice_of e.0 e.1 (sym (visits.same e.0 groups) ∙ h))
        (entries_found visited visited-UniqueKeys)

  module _ (cluster : Cluster) (coop : Cooperates cluster) (api : StoresNags cluster)
      (labels : KeepsLabels cluster coop) (floats : Floats) (pods : List Pod) where
    open coop use {label_at}

    -- The name is not one of a node that is packed left in some assignment and can be balanced.
    abbrev pub Unpacked : String → Type 0
    Unpacked j =
        (name : String) → Absent (filter node_can_be_balanced (filter (packed_in nag name) nodes)) j

    nothing-Chosen :
        (t : cluster.World) (a : NodeAssignment) → Chosen cluster coop floats nag pods t [] a
    unfolding balanceable
    nothing-Chosen t a = refl

    -- If the API server cooperates, stores groups and keeps groups and labels apart, `range` visits every
    -- entry of a map once, and the nodes have different names, can be labelled and are in step with the
    -- API server, then RebalanceNag ends without an error; for every name of an assignment of the group
    -- the nodes that are targeted and packed left in it and can be balanced have as labels the states
    -- that are chosen for them in their ranking; and every other node, in the list or not, has the label
    -- of the key that it had.
    pub rebalance_nag_lem :
        (w : cluster.World)
        → DistinctNodes nodes
        → All (Known cluster coop (get_label_key nag.name) w) nodes
        → (t : cluster.World) × (rebalance_nag cluster floats nag visit nodes pods w ≡ (ok tt, t))
          × ((name : String) (a : NodeAssignment)
              → get_assignment_by_name name nag ≡ some a
              → Chosen cluster coop floats nag pods t (filter (packed_in nag name) nodes) a)
          × ((j : String)
              → Unpacked j
              → label_at t j (get_label_key nag.name) ≡ label_at w j (get_label_key nag.name))
    unfolding rebalance_nag
    rebalance_nag_lem w distinct known =
        let (w₁, ensured, same) = ensure_finalizer_labels cluster api coop labels nag w in
        let known₁ : All (Known cluster coop (get_label_key nag.name) w₁) nodes =
          All-map nodes
            (λ n k. record {
              writable = k.writable;
              in_step = same n.name (get_label_key nag.name) ∙ k.in_step;
            })
            known in
        let (t, balanced_all, balanced, others) =
          rebalance_groups_lem cluster coop floats nag pods nodes distinct visited w₁
            visited-UniqueKeys visited-Grouped
            (All-map visited
              (λ e p. subst (All (Known cluster coop (get_label_key nag.name) w₁)) (sym p) (
                All-filter (Known cluster coop (get_label_key nag.name) w₁) (packed_in nag e.0)
                  nodes known₁))
              visited-Grouped) in
        let loop = rebalance_groups cluster floats nag pods visited in
        (
          t,
          ap (λ r. handle_err r.0 (λ _. loop) (λ _. loop) r.1) ensured ∙ balanced_all,
          λ name a e. elim (Option-cases (lookup name groups)) [
            | inl f ↦
                subst (λ l. Chosen cluster coop floats nag pods t l a) (no_slice name f)
                  (nothing-Chosen t a)
            | inr (l, f) ↦
                subst (λ k. Chosen cluster coop floats nag pods t k a) (slice_of name l f)
                  (entry_at (Balanced cluster coop floats nag pods t) visited name l
                    (visits.same name groups ∙ f) balanced a e)
          ],
          λ j h.
              others j (
                All-map visited
                  (λ e p. subst (λ l. Absent (filter node_can_be_balanced l) j) (sym p) (h e.0))
                  visited-Grouped)
              ∙ same j (get_label_key nag.name),
        )
