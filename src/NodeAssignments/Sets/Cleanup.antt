-- ===== src/NodeAssignments/Sets/Cleanup.antt =====
-- The last loop of `Reconcile`, over the names of nodes that were unassigned in memory only.
use mathlib.Core.Bool.{false≢true}
use kube_valet.Prelude.{
  String, ◌≡◌, ◌⊎◌, refl, sym, ap, ◌∙◌, subst, true, false, none, List, [], ◌∷◌, ◌==◌, arith,
  eq_iff, if◌then◌else◌, elem, lookup-remove, All, Bool-cases, inl, inr, str-cases,
}
use kube_valet.Outcome.{Outcome, ok, err, handle_err}
use kube_valet.Kube.Objects.{Node}
use kube_valet.Kube.Labels.{get_label}
use kube_valet.Kube.Cluster.{Cluster, Reply, reply, failed}
use kube_valet.Kube.Cooperation.{Cooperates}
use kube_valet.Assignments.Groups.{assignment_key, get_assignment}
use kube_valet.NodeAssignments.WriterContext.Steps.{
  State, has_name, unmark_unassigned, unassign_node_by_name, unassign_names,
}
use kube_valet.NodeAssignments.Reconcile.Views.{effective}
use kube_valet.NodeAssignments.Reconcile.Loop.{DistinctNodes}
use kube_valet.NodeAssignments.Sets.Rounds.{unassign_update}

module _ (cluster : Cluster) (coop : Cooperates cluster) where
  open coop use {label_at}

  -- The copy of a node has the labels of the node.
  abbrev pub Copies : cluster.World → Node → Type 0
  Copies w n = (key : String) → label_at w n.name key ≡ get_label key n.labels

  -- What a read of one node answers: a copy of it, or an error where there is no such node.
  abbrev pub Answers : cluster.World → String → Reply Node → Type 0
  Answers w name (reply n) = (n.name ≡ name) × Copies w n
  Answers w name (failed e) = (key : String) → label_at w name key ≡ none

  -- An API server that lists all its nodes, each under a name of its own, and whose reads answer and
  -- change no label.
  pub record ServesNodes : Type 0 where
    pub nodes_at : cluster.World → List Node
    pub lists : (w : cluster.World) → (cluster.list_nodes w).0 ≡ reply (nodes_at w)
    pub listing :
        (w : cluster.World) (node key : String)
        → label_at (cluster.list_nodes w).1 node key ≡ label_at w node key
    pub copies : (w : cluster.World) → All (Copies w) (nodes_at w)
    pub named : (w : cluster.World) → DistinctNodes (nodes_at w)
    pub gets : (name : String) (w : cluster.World) → Answers w name (cluster.get_node name w).0
    pub getting :
        (name : String) (w : cluster.World) (node key : String)
        → label_at (cluster.get_node name w).1 node key ≡ label_at w node key

  -- If the node is still marked, then only because there is nothing to take off.
  abbrev Settled : State cluster.World → String → Type 0
  Settled s j =
      has_name j s.wc.unassigned_node_names ≡ true
      → label_at s.world j (assignment_key s.wc.nag) ≡ none

  -- Dealing with the name `k` changes no assignment in effect.
  record Cleans (s t : State cluster.World) (k : String) : Type 0 where
    group : t.wc.nag ≡ s.wc.nag
    same : (j : String) → effective cluster coop t j ≡ effective cluster coop s j
    own : Settled t k
    stays : (j : String) → Settled s j → Settled t j

  module _ (api : ServesNodes) where
    -- Whatever a round for the name `k` returns, the loop goes on.
    abbrev Round : State cluster.World → String → Type 0
    Round s k =
        (t : State cluster.World) × ((rest : List String)
          → unassign_names cluster (k ∷ rest) s ≡ unassign_names cluster rest t)
        × Cleans s t k

    passed :
        (s : State cluster.World) (k : String)
        → has_name k s.wc.unassigned_node_names ≡ false
        → Round s k
    unfolding unassign_names
    passed s k e = (
      s,
      λ rest. rw (e, unassign_names) refl,
      record {
        group = refl;
        same = λ j. refl;
        own = λ m. absurd (false≢true (sym e ∙ m));
        stays = λ j h. h;
      },
    )

    abbrev fetched : State cluster.World → String → State cluster.World
    fetched s k = record s { world = (cluster.get_node k s.world).1 }

    goes_on :
        (s t : State cluster.World) (k : String) (rest : List String) (o : Outcome (Unit {0}))
        → has_name k s.wc.unassigned_node_names ≡ true
        → unassign_node_by_name cluster k s ≡ (o, t)
        → ((o ≡ ok tt) ⊎ ((e : String) × (o ≡ err e)))
        → unassign_names cluster (k ∷ rest) s ≡ unassign_names cluster rest t
    unfolding unassign_names
    goes_on s t k rest o m p q =
        rw (m, unassign_names)
          (ap
              (λ r.
                handle_err r.0 (λ _. unassign_names cluster rest) (λ _. unassign_names cluster rest)
                  r.1)
              p
            ∙ ends q)
      where
        ends :
            (o ≡ ok tt) ⊎ ((e : String) × (o ≡ err e))
            → handle_err o (λ _. unassign_names cluster rest) (λ _. unassign_names cluster rest) t
              ≡ unassign_names cluster rest t
        ends (inl e) = rw e refl
        ends (inr (x, e)) = rw e refl

    missing :
        (s : State cluster.World) (k e : String)
        → has_name k s.wc.unassigned_node_names ≡ true
        → (cluster.get_node k s.world).0 ≡ failed e
        → ((key : String) → label_at s.world k key ≡ none)
        → Round s k
    unfolding unassign_node_by_name
    missing s k e m r gone = (
      fetched s k,
      λ rest.
          goes_on s (fetched s k) k rest (err e) m (rw (r, unassign_node_by_name) refl)
            (inr (e, refl)),
      record {
        group = refl;
        same = λ j. rw (api.getting k s.world j (assignment_key s.wc.nag)) refl;
        own =
            λ _. api.getting k s.world k (assignment_key s.wc.nag) ∙ gone (assignment_key s.wc.nag);
        stays = λ j h q. api.getting k s.world j (assignment_key s.wc.nag) ∙ h q;
      },
    )

    found :
        (s : State cluster.World) (k : String) (n : Node)
        → has_name k s.wc.unassigned_node_names ≡ true
        → (cluster.get_node k s.world).0 ≡ reply n
        → n.name ≡ k
        → Copies s.world n
        → Round s k
    unfolding unassign_node_by_name get_assignment
    found s k n m r named copy =
        let key = assignment_key s.wc.nag in
        let (w, p, l) =
          unassign_update cluster coop n (fetched s k)
            (api.getting k s.world n.name key ∙ copy key) in
        let t : State cluster.World = record { wc = unmark_unassigned n.name s.wc; world = w } in
        let label = λ (j : String).
          l j ∙ ap (λ o. if n.name == j then none else o) (api.getting k s.world j key) in
        (
          t,
          λ rest. goes_on s t k rest (ok tt) m (rw (r, unassign_node_by_name) p) (inl refl),
          record {
            group = refl;
            same = λ j. ground (
              arith,
              label j,
              lookup-remove n.name j s.wc.unassigned_node_names,
              eq_iff n.name j,
              named,
              m,
            );
            own = λ q. ground (arith, label k, eq_iff n.name k);
            stays =
                λ j h q. ground (arith, label j, lookup-remove n.name j s.wc.unassigned_node_names);
          },
        )

    round : (s : State cluster.World) (k : String) → Round s k
    round s k = elim (Bool-cases (has_name k s.wc.unassigned_node_names)) [
      | inr e ↦ passed s k e
      | inl e ↦ go e (cluster.get_node k s.world).0 refl (api.gets k s.world)
    ]
      where
        go :
            has_name k s.wc.unassigned_node_names ≡ true
            → (r : Reply Node) → (cluster.get_node k s.world).0 ≡ r
            → Answers s.world k r
            → Round s k
        go m (reply n) e a = found s k n m e a.0 a.1
        go m (failed x) e a = missing s k x m e a

    -- The loop over names that hold all that are marked ends without an error, and what was in effect
    -- is what the API server has.
    names_lem :
        (names : List String) (s : State cluster.World)
        → (t : State cluster.World) × (unassign_names cluster names s ≡ (ok tt, t))
          × (t.wc.nag ≡ s.wc.nag)
          × ((j : String) → effective cluster coop t j ≡ effective cluster coop s j)
          × ((j : String) → (elem j names ≡ true) ⊎ Settled s j → Settled t j)
    names_lem [] s = (
      s,
      unfold unassign_names in refl,
      refl,
      λ j. refl,
      λ j h. elim h [ inl e ↦ absurd (false≢true e) | inr h ↦ h ],
    )
    names_lem (k ∷ rest) s =
        let (s₁, p₁, c₁) = round s k in
        let (t, p, g, e, h) = names_lem rest s₁ in
        (
          t,
          p₁ rest ∙ p,
          g ∙ c₁.group,
          λ j. e j ∙ c₁.same j,
          λ j q. h j (further s₁ j q c₁.own (c₁.stays j)),
        )
      where
        further :
            (s₁ : State cluster.World) (j : String)
            → (elem j (k ∷ rest) ≡ true) ⊎ Settled s j
            → Settled s₁ k
            → (Settled s j → Settled s₁ j)
            → (elem j rest ≡ true) ⊎ Settled s₁ j
        further s₁ j (inr h) own stays = inr (stays h)
        further s₁ j (inl h) own stays = elim (str-cases j k) [
          | inl (_, e) ↦ inr (subst (Settled s₁) (sym e) own)
          | inr (e, _) ↦ inl (ground arith)
        ]

    pub unassign_names_lem :
        (names : List String) (s : State cluster.World)
        → ((j : String) → has_name j s.wc.unassigned_node_names ≡ true → elem j names ≡ true)
        → (t : State cluster.World) × (unassign_names cluster names s ≡ (ok tt, t))
          × ((j : String)
              → label_at t.world j (assignment_key s.wc.nag) ≡ effective cluster coop s j)
    unassign_names_lem names s all =
        let (t, p, g, e, h) = names_lem names s in
        (
          t,
          p,
          λ j.
              subst (λ a. label_at t.world j (assignment_key a) ≡ effective cluster coop s j) g
                (bare t j (h j (marked j)) ∙ e j),
        )
      where
        marked : (j : String) → (elem j names ≡ true) ⊎ Settled s j
        marked j = elim (Bool-cases (has_name j s.wc.unassigned_node_names)) [
          | inl m ↦ inl (all j m)
          | inr m ↦ inr (λ q. absurd (false≢true (sym m ∙ q)))
        ]

        bare :
            (t : State cluster.World) (j : String)
            → Settled t j
            → label_at t.world j (assignment_key t.wc.nag) ≡ effective cluster coop t j
        bare t j h = elim (Bool-cases (has_name j t.wc.unassigned_node_names)) [
          | inl m ↦ rw m (h m)
          | inr m ↦ rw m refl
        ]
