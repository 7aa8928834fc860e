-- ===== src/PackLeft/Clearing.antt =====
-- What CleanAllNodes reaches in the API server.
use kube_valet.Prelude.{
  String, ◌≡◌, refl, sym, ap, ◌∙◌, Bool, false, not, ◌||◌, ◌&&◌, Option, none, some, List, [], ◌∷◌,
  ◌==◌, arith, eq_refl, eq_sym, str-cases, elem, if◌then◌else◌, All, Bool-cases, inl, inr,
}
use kube_valet.Outcome.{Outcome, ok, err, panic, exit}
use kube_valet.Kube.Objects.{Node}
use kube_valet.Kube.Labels.{get_label, get-delete_label}
use kube_valet.Kube.Cluster.{Cluster}
use kube_valet.Kube.Sending.{send_difference}
use kube_valet.Kube.Cooperation.{Cooperates, same_label, send_difference_lem}
use kube_valet.Assignments.Types.{NodeAssignmentGroup}
use kube_valet.NodeAssignments.Reconcile.Loop.{node_names, DistinctNodes}
use kube_valet.PackLeft.{
  get_label_key, node_can_be_balanced, unassign_node, node_has_pack_left_assignment,
  node_has_pack_left_attributes,
}
use kube_valet.PackLeft.Rebalance.{is_stale, clear_node, clean_all_nodes}

module _ (cluster : Cluster) (coop : Cooperates cluster) (nag : NodeAssignmentGroup) where
  open coop use {label_at}

  abbrev key : String
  key = get_label_key nag.name

  -- The label of the node in the store is the one in the API server.
  abbrev pub InStep : cluster.World → Node → Type 0
  InStep w node =
      label_at w node.name (get_label_key nag.name) ≡ get_label (get_label_key nag.name) node.labels

  -- The nodes that CleanAllNodes clears.
  abbrev pub to_clear : Node → Bool
  to_clear node = is_stale nag node || not (node_can_be_balanced node)

  ok_result : (r : Outcome (Unit {0}) × cluster.World) → r.0 ≡ ok tt → r ≡ (ok tt, r.1)
  ok_result (ok _, w) h = refl
  ok_result (err e, w) h = absurd (cc h)
  ok_result (panic, w) h = absurd (cc h)
  ok_result (exit, w) h = absurd (cc h)

  clear_node_lem :
      (node : Node) (w : cluster.World)
      → InStep w node
      → (t : cluster.World) × (clear_node cluster nag node w ≡ (ok tt, t))
        × ((j : String) → label_at t j key ≡ (if node.name == j then none else label_at w j key))
  unfolding unassign_node
  clear_node_lem node w k =
      let new = unassign_node node key in
      let sent = send_difference_lem cluster coop node new w in
      let gone : get_label key new.labels ≡ none =
        get-delete_label key key node.labels ∙ rw (eq_refl key) refl in
      (
        (send_difference cluster node new w).1,
        ok_result (send_difference cluster node new w) sent.0,
        λ j. sent.1 j key ∙ rw gone (written j),
      )
    where
      agrees :
          (old here : Option String)
          → here ≡ old
          → (if not (same_label old none) then none else here) ≡ none
      agrees none here h = h
      agrees (some v) here h = refl

      written :
          (j : String)
          → (if node.name == j && not (same_label (get_label key node.labels) none)
              then none
              else label_at w j key)
            ≡ (if node.name == j then none else label_at w j key)
      written j = elim (str-cases node.name j) [
        | inr (e, _) ↦ rw e refl
        | inl (e, p) ↦ rw e (
            agrees (get_label key node.labels) (label_at w j key)
              (ap (λ i. label_at w i key) (sym p) ∙ k))
      ]

  -- The labels that are wanted for the nodes.
  abbrev Cleared : cluster.World → List Node → Type 0
  Cleared t =
      All (λ n. label_at t n.name key ≡ (if to_clear n then none else get_label key n.labels))

  still-InStep :
      (w t : cluster.World) (name : String) (nodes : List Node)
      → ((j : String) → (name == j) ≡ false → label_at t j key ≡ label_at w j key)
      → elem name (node_names nodes) ≡ false
      → All (InStep w) nodes
      → All (InStep t) nodes
  still-InStep w t name [] h e k = tt
  still-InStep w t name (n ∷ nodes) h e k =
      (h n.name (ground arith) ∙ k.0, still-InStep w t name nodes h (ground arith) k.1)

  -- The round for one node.
  abbrev Round : cluster.World → Node → Type 0
  Round w node =
      (t : cluster.World) × ((rest : List Node)
        → clean_all_nodes cluster nag (node ∷ rest) w ≡ clean_all_nodes cluster nag rest t)
      × (label_at t node.name key ≡ (if to_clear node then none else get_label key node.labels))
      × ((j : String) → (node.name == j) ≡ false → label_at t j key ≡ label_at w j key)

  round : (node : Node) (w : cluster.World) → InStep w node → Round w node
  unfolding clean_all_nodes
  round node w k = elim (Bool-cases (to_clear node)) [
    | inr e ↦ (w, λ rest. rw e refl, rw e k, λ j h. refl)
    | inl e ↦
        let (t, p, h) = clear_node_lem node w k in
        (
          t,
          λ rest. rw e (rw p refl),
          rw e (h node.name ∙ rw (eq_refl node.name) refl),
          λ j d. h j ∙ rw d refl,
        )
  ]

  -- A node without attributes of the group has no label of it.
  unmarked :
      (node : Node)
      → node_has_pack_left_attributes node nag ≡ false
      → get_label key node.labels ≡ none
  unfolding node_has_pack_left_attributes
  unmarked node h = ground arith

  -- The nodes that keep their labels are those that the group packs left and that can be balanced.
  pub cleared_others :
      (node : Node)
      → (if to_clear node then none else get_label (get_label_key nag.name) node.labels) ≡ (
          if node_has_pack_left_assignment node nag && node_can_be_balanced node
          then get_label (get_label_key nag.name) node.labels
          else none)
  unfolding is_stale
  cleared_others node = elim (Bool-cases (node_can_be_balanced node)) [
    | inr b ↦ rw b (ground arith)
    | inl b ↦ rw b (elim (Bool-cases (node_has_pack_left_assignment node nag)) [
      | inl a ↦ rw a refl
      | inr a ↦ rw a (elim (Bool-cases (node_has_pack_left_attributes node nag)) [
        | inl m ↦ rw m refl
        | inr m ↦ rw m (unmarked node m)
      ])
    ])
  ]

  -- If the API server cooperates, the nodes have different names, and the store agrees with the API server on their labels, then
  -- CleanAllNodes ends without an error; the nodes that are stale or cannot be balanced have lost the
  -- label of the group, the other nodes of the list keep it, and no other node changes its label.
  pub clean_all_nodes_lem :
      (nodes : List Node) (w : cluster.World)
      → DistinctNodes nodes
      → All (InStep w) nodes
      → (t : cluster.World) × (clean_all_nodes cluster nag nodes w ≡ (ok tt, t))
        × All
            (λ n.
              label_at t n.name (get_label_key nag.name)
              ≡ (if to_clear n then none else get_label (get_label_key nag.name) n.labels))
            nodes
        × ((j : String)
            → elem j (node_names nodes) ≡ false
            → label_at t j (get_label_key nag.name) ≡ label_at w j (get_label_key nag.name))
  clean_all_nodes_lem [] w d k = (w, unfold clean_all_nodes in refl, tt, λ j e. refl)
  clean_all_nodes_lem (n ∷ nodes) w d k =
      let (w₁, step, own, others) = round n w k.0 in
      let (t, p, rest, apart) =
        clean_all_nodes_lem nodes w₁ d.1 (still-InStep w w₁ n.name nodes others d.0 k.1) in
      (
        t,
        step nodes ∙ p,
        (apart n.name d.0 ∙ own, rest),
        λ j e. apart j (ground arith) ∙ others j (ground (arith, eq_sym j n.name)),
      )
