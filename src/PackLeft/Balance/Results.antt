-- ===== src/PackLeft/Balance/Results.antt =====
-- What a balancing reaches in the API server.
use kube_valet.PackLeft.Balance.Order.{
  context_nodes, nodes-balanceable, DistinctNodes-filter, DistinctNodes-sort_slice, All-filter,
  All-sort_slice,
}
use kube_valet.Prelude.{
  ℕ, String, ◌≡◌, refl, sym, ap, ◌∙◌, subst, false, not, ◌&&◌, Option, none, some, List, [], ◌∷◌,
  ◌++◌, ◌==◌, arith, eq_iff, eq_refl, eq_sym, map, elem, if◌then◌else◌, length, ℤ, All, Map, inl,
  inr, insert, str-cases,
}
use mathlib.Core.Path.{ap₂}
use kube_valet.Outcome.{Outcome, ok, err, panic, exit, Run}
use kube_valet.Kube.Objects.{Node}
use kube_valet.Kube.Pods.{Pod}
use kube_valet.Kube.Labels.{get_label, put_label, get_label-insert}
use kube_valet.Kube.Cluster.{Cluster}
use kube_valet.Kube.Sending.{send_difference}
use kube_valet.Kube.Cooperation.{Cooperates, same_label, send_difference_lem}
use kube_valet.Assignments.Types.{PackLeftScheduling}
use kube_valet.NodeAssignments.Reconcile.Loop.{node_names, DistinctNodes}
use kube_valet.PackLeft.{
  NodePackLeftState, node_use, state_text, state_taint, remove_taint, assign_node,
  node_can_be_balanced,
}
use kube_valet.PackLeft.Fullness.{Floats, get_pods_on_nodes}
use kube_valet.PackLeft.Balance.{
  AssignmentContext, balanceable, sort_slice, full_percent, avoid_buffer_size, choose_state,
  count_avoid, drop_err, mark_node, balance_rest, balance_sorted, balance_nodes,
}
use kube_valet.PackLeft.Balance.Choices.{choices, all_choices}

module _ (cluster : Cluster) (coop : Cooperates cluster) (key : String) where
  open coop use {label_at}

  -- A node that can be labelled and whose label in the store is the one in the API server.
  pub record Known (w : cluster.World) (node : Node) : Type 0 where
    pub writable : (m : Map String) × (node.labels ≡ some m)
    pub in_step : label_at w node.name key ≡ get_label key node.labels

  drop_err_ok : (r : Outcome (Unit {0}) × cluster.World) → r.0 ≡ ok tt → drop_err r ≡ (ok tt, r.1)
  drop_err_ok (ok _, w) h = refl
  drop_err_ok (err e, w) h = absurd (cc h)
  drop_err_ok (panic, w) h = absurd (cc h)
  drop_err_ok (exit, w) h = absurd (cc h)

  assign_node_ok :
      (node : Node) (s : NodePackLeftState) (m : Map String)
      → node.labels ≡ some m
      → assign_node node s key
        ≡ ok (record node {
          labels = some (insert key (state_text s) m);
          taints = remove_taint key node.taints ++ state_taint key s;
        })
  unfolding assign_node put_label
  assign_node_ok node s m e = rw e refl

  -- One node is marked, and the label of no other node changes.
  mark_node_lem :
      (node : Node) (s : NodePackLeftState) (w : cluster.World)
      → Known w node
      → (t : cluster.World) × (mark_node cluster key node s w ≡ (ok tt, t))
        × ((j : String)
            → label_at t j key ≡ (if node.name == j then some (state_text s) else label_at w j key))
  unfolding mark_node
  mark_node_lem node s w k =
      let (m, e) = k.writable in
      let new : Node = record node {
        labels = some (insert key (state_text s) m);
        taints = remove_taint key node.taints ++ state_taint key s;
      } in
      let sent = send_difference_lem cluster coop node new w in
      (
        (send_difference cluster node new w).1,
        rw (assign_node_ok node s m e) (drop_err_ok _ sent.0),
        λ j. sent.1 j key ∙ written j (new.labels) (get_label-insert key (state_text s) m),
      )
    where
      written :
          (j : String) (l : Option (Map String))
          → get_label key l ≡ some (state_text s)
          → (if node.name == j && not (same_label (get_label key node.labels) (get_label key l))
              then get_label key l
              else label_at w j key)
            ≡ (if node.name == j then some (state_text s) else label_at w j key)
      written j l h = rw h (elim (str-cases node.name j) [
        | inr (e, _) ↦ rw e refl
        | inl (e, p) ↦ rw e (
            agrees (get_label key node.labels) (label_at w j key)
              (ap (λ i. label_at w i key) (sym p) ∙ k.in_step))
      ])
        where
          agrees :
              (old here : Option String)
              → here ≡ old
              → (if not (same_label old (some (state_text s))) then some (state_text s) else here)
                ≡ some (state_text s)
          agrees none here h = refl
          agrees (some v) here h = ground (arith, eq_iff v (state_text s), h)

module _ (floats : Floats) (cluster : Cluster) (coop : Cooperates cluster) (key : String) where
  open coop use {label_at}

  abbrev pub labels_of : cluster.World → List (AssignmentContext floats) → List (Option String)
  labels_of t = map (λ c. label_at t c.node.name key)

  abbrev pub state_texts : List NodePackLeftState → List (Option String)
  state_texts = map (λ s. some (state_text s))

  -- From `w` to `t` the nodes come to have the texts of the states, and no other node changes.
  pub record Marked (w t : cluster.World) (cs : List (AssignmentContext floats))
      (states : List NodePackLeftState) : Type 0 where
    pub labels : labels_of t cs ≡ state_texts states
    pub others :
        (j : String)
        → elem j (node_names (context_nodes floats cs)) ≡ false
        → label_at t j key ≡ label_at w j key

  still-Known :
      (w t : cluster.World) (name : String) (s : NodePackLeftState) (nodes : List Node)
      → ((j : String)
          → label_at t j key ≡ (if name == j then some (state_text s) else label_at w j key))
      → elem name (node_names nodes) ≡ false
      → All (Known cluster coop key w) nodes
      → All (Known cluster coop key t) nodes
  still-Known w t name s [] h e k = tt
  still-Known w t name s (n ∷ nodes) h e k = (
    record { writable = k.0.writable; in_step = ground (arith, h n.name, k.0.in_step) },
    still-Known w t name s nodes h (ground arith) k.1,
  )

  -- Marking a node and then others marks all of them.
  mark_more :
      (w w₁ t : cluster.World) (c : AssignmentContext floats) (s : NodePackLeftState)
      (cs : List (AssignmentContext floats)) (states : List NodePackLeftState)
      → elem c.node.name (node_names (context_nodes floats cs)) ≡ false
      → ((j : String)
          → label_at w₁ j key
            ≡ (if c.node.name == j then some (state_text s) else label_at w j key))
      → Marked w₁ t cs states
      → Marked w t (c ∷ cs) (s ∷ states)
  mark_more w w₁ t c s cs states e h m = record {
    labels =
        ap₂ (λ (a : Option String) (b : List (Option String)). a ∷ b)
          (m.others c.node.name e ∙ h c.node.name ∙ rw (eq_refl c.node.name) refl) m.labels;
    others = λ j q. m.others j (ground arith) ∙ ground (arith, h j, eq_sym j c.node.name);
  }

  abbrev Performs :
      Run cluster.World (Unit {0})
      → cluster.World
      → List (AssignmentContext floats)
      → List NodePackLeftState
      → Type 0
  Performs run w cs states = (t : cluster.World) × (run w ≡ (ok tt, t)) × Marked w t cs states

  balance_rest_lem :
      (full : floats.Float) (size : ℤ) (n : ℕ) (cs : List (AssignmentContext floats))
      (w : cluster.World)
      → DistinctNodes (context_nodes floats cs)
      → All (Known cluster coop key w) (context_nodes floats cs)
      → Performs
          (balance_rest floats cluster key full size n cs)
          w
          cs
          (choices floats full size n cs)
  unfolding balance_rest
  balance_rest_lem full size n [] w d k = (w, refl, record { labels = refl; others = λ j e. refl })
  balance_rest_lem full size n (c ∷ cs) w d k =
      let s = choose_state floats full size n c.percent in
      let (w₁, p₁, h) = mark_node_lem cluster coop key c.node s w k.0 in
      let (t, p, m) =
        balance_rest_lem full size (count_avoid s n) cs w₁ d.1
          (still-Known w w₁ c.node.name s (context_nodes floats cs) h d.0 k.1) in
      (t, rw (p₁, balance_rest) p, mark_more w w₁ t c s cs _ d.0 h m)

  balance_sorted_lem :
      (full : floats.Float) (size : ℤ) (cs : List (AssignmentContext floats)) (w : cluster.World)
      → DistinctNodes (context_nodes floats cs)
      → All (Known cluster coop key w) (context_nodes floats cs)
      → Performs
          (balance_sorted floats cluster key full size cs)
          w
          cs
          (all_choices floats full size cs)
  balance_sorted_lem full size [] w d k = (w, refl, record { labels = refl; others = λ j e. refl })
  balance_sorted_lem full size (c ∷ cs) w d k =
      let (w₁, p₁, h) = mark_node_lem cluster coop key c.node node_use w k.0 in
      let (t, p, m) =
        balance_rest_lem full size 0 cs w₁ d.1
          (still-Known w w₁ c.node.name node_use (context_nodes floats cs) h d.0 k.1) in
      (t, rw p₁ p, mark_more w w₁ t c node_use cs _ d.0 h m)

  -- The nodes to balance, the fullest first.
  abbrev pub ranking : List Pod → List Node → List (AssignmentContext floats)
  ranking pods nodes = sort_slice floats (balanceable floats (get_pods_on_nodes pods) nodes)

  -- If the API server cooperates, the nodes have different names and can be labelled, and the store agrees with the API server
  -- on their labels, then `balanceNodes` ends without an error, the nodes that can be balanced have
  -- the states chosen for them as their labels, and no other node's label changes.
  pub balance_nodes_lem :
      (pods : List Pod) (nodes : List Node) (pack_left : Option PackLeftScheduling)
      (w : cluster.World)
      → DistinctNodes nodes
      → All (Known cluster coop key w) nodes
      → (t : cluster.World) × (balance_nodes floats cluster pods nodes key pack_left w ≡ (ok tt, t))
        × Marked w t (ranking pods nodes) (
            all_choices floats
              (full_percent floats pack_left)
              (avoid_buffer_size (length nodes) pack_left)
              (ranking pods nodes))
  unfolding balance_nodes
  balance_nodes_lem pods nodes pack_left w d k =
      let placed = nodes-balanceable floats (get_pods_on_nodes pods) nodes in
      let bs = balanceable floats (get_pods_on_nodes pods) nodes in
      balance_sorted_lem _ _ (ranking pods nodes) w
        (DistinctNodes-sort_slice floats bs
          (subst DistinctNodes (sym placed) (DistinctNodes-filter node_can_be_balanced nodes d)))
        (All-sort_slice floats (Known cluster coop key w) bs (
          subst (λ l. All (Known cluster coop key w) l) (sym placed)
            (All-filter (Known cluster coop key w) node_can_be_balanced nodes k)))
