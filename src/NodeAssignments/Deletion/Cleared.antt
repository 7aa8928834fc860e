-- ===== src/NodeAssignments/Deletion/Cleared.antt =====
-- What ReconcileNag takes off the nodes when the group is being deleted.
use kube_valet.Prelude.{
  String, ◌≡◌, refl, sym, ap, ◌∙◌, subst, Bool, true, false, none, List, [], ◌∷◌, ◌==◌, arith, elem,
  if◌then◌else◌, All, All-map, eq_sym, eq_refl, ◌||◌,
}
use kube_valet.Outcome.{ok, Run, handle_err}
use kube_valet.Kube.Objects.{Node}
use kube_valet.Kube.Cluster.{Cluster}
use kube_valet.Kube.Cooperation.{Cooperates}
use kube_valet.Assignments.Types.{NodeAssignmentGroup}
use kube_valet.Assignments.Groups.{assignment_key, get_assignment}
use kube_valet.Finalizers.{remove_finalizer}
use kube_valet.Finalizers.Kept.{StoresNags, KeepsLabels, remove_finalizer_labels}
use kube_valet.NodeAssignments.WriterContext.{update_current_assignments, update_assignment_changes}
use kube_valet.NodeAssignments.WriterContext.Steps.{
  State, new_writer_context, unassign_each, unassign_all_nodes, unmark_unassigned,
}
use kube_valet.NodeAssignments.Manager.{reconcile_nag}
use kube_valet.NodeAssignments.Reconcile.Loop.{node_names, DistinctNodes}
use kube_valet.NodeAssignments.Reconcile.Satisfied.{refreshed}
use kube_valet.NodeAssignments.Sets.Rounds.{Shown, unassign_update}
use kube_valet.NodeAssignments.Sets.Cleanup.{ServesNodes}
use kube_valet.NodeAssignments.Reconciled.Context.{context_lem, fresh_context}
use kube_valet.NodeAssignments.Deletion.Calls.{Keeps, KeepsGroups}
use kube_valet.NodeAssignments.Deletion.{Released, last, update_lem, reconcile_nag-Released}

or_true : (b : Bool) → b || true ≡ true
or_true b = ground arith

module _ (cluster : Cluster) (coop : Cooperates cluster) where
  open coop use {label_at}

  still-Shown :
      (nag : NodeAssignmentGroup) (w t : cluster.World) (name : String) (nodes : List Node)
      → ((j : String)
          → (name == j) ≡ false
          → label_at t j (assignment_key nag) ≡ label_at w j (assignment_key nag))
      → elem name (node_names nodes) ≡ false
      → All (Shown cluster coop nag w) nodes
      → All (Shown cluster coop nag t) nodes
  still-Shown nag w t name [] h e k = tt
  still-Shown nag w t name (n ∷ nodes) h e k =
      (h n.name (ground arith) ∙ k.0, still-Shown nag w t name nodes h (ground arith) k.1)

  -- Unassigning each node of a list leaves the label of the group on none of them, and elsewhere as it
  -- was.
  unassign_each_lem :
      (nodes : List Node) (s : State cluster.World)
      → DistinctNodes nodes
      → All (Shown cluster coop s.wc.nag s.world) nodes
      → (t : State cluster.World) × (unassign_each cluster nodes s ≡ (ok tt, t))
        × ((j : String)
            → label_at t.world j (assignment_key s.wc.nag) ≡ (
                if elem j (node_names nodes)
                then none
                else label_at s.world j (assignment_key s.wc.nag)))
  unfolding unassign_each
  unassign_each_lem [] s d k = (s, refl, λ j. refl)
  unassign_each_lem (n ∷ nodes) s d k =
      let (w, p, l) = unassign_update cluster coop n s k.0 in
      let s₁ : State cluster.World = record { wc = unmark_unassigned n.name s.wc; world = w } in
      let (t, q, m) =
        unassign_each_lem nodes s₁ d.1
          (still-Shown s.wc.nag s.world w n.name nodes (λ j e. l j ∙ rw e refl) d.0 k.1) in
      (
        t,
        ap
              (λ r.
                handle_err r.0 (λ _. unassign_each cluster nodes) (λ _. unassign_each cluster nodes)
                  r.1)
              p
            ∙ q,
        λ j. m j ∙ ground (arith, l j, eq_sym j n.name),
      )

  -- What holds of every name of a list of nodes.
  each_named {κ} :
      (P : String → Type κ) (l : List Node)
      → ((j : String) → elem j (node_names l) ≡ true → P j)
      → All (λ n. P n.name) l
  each_named P [] h = tt
  each_named P (n ∷ l) h = (
    h n.name (rw (eq_refl n.name) refl),
    each_named P l (λ j e. h j (rw e (or_true (j == n.name)))),
  )

  module _ (api : StoresNags cluster) (keeps : KeepsGroups cluster api)
      (labels : KeepsLabels cluster coop) (serves : ServesNodes cluster coop) where
    -- The names of the nodes that the API server lists.
    abbrev pub names_at : cluster.World → String → List String
    names_at w _ = node_names (serves.nodes_at w)

    -- Lists and patches make no node and delete none.
    abbrev pub KeepsNodes : Type 0
    KeepsNodes = Keeps cluster (List String) names_at

    -- No node that the API server listed has an assignment of the group.
    abbrev pub Cleared : NodeAssignmentGroup → cluster.World → cluster.World → Type 0
    Cleared nag w t = All (λ n. label_at t n.name (assignment_key nag) ≡ none) (serves.nodes_at w)

    module _ (nodes : KeepsNodes) (nag : NodeAssignmentGroup) (w : cluster.World) where
      all_lem :
          (s : State cluster.World)
          → s.wc.nag ≡ nag
          → names_at s.world "" ≡ names_at w ""
          → (t : State cluster.World) × (unassign_all_nodes cluster s ≡ (ok tt, t))
            × Cleared nag w t.world
      unfolding unassign_all_nodes get_assignment
      all_lem s g e =
          let listed = serves.nodes_at s.world in
          let key = assignment_key s.wc.nag in
          let s' : State cluster.World = record s { world = (cluster.list_nodes s.world).1 } in
          let (t, p, l) = unassign_each_lem listed s' (serves.named s.world) (
            All-map listed (λ n h. serves.listing s.world n.name key ∙ h key)
              (serves.copies s.world)) in
          (
            t,
            rw (serves.lists s.world, unassign_all_nodes) p,
            each_named (λ j. label_at t.world j (assignment_key nag) ≡ none) (serves.nodes_at w)
                (λ j h.
                  subst (λ g. label_at t.world j (assignment_key g) ≡ none) g
                    (l j ∙ rw (subst (λ ks. elem j ks ≡ true) (sym e) h) refl)),
          )

      abbrev Made : State cluster.World → Type 0
      Made s = new_writer_context cluster nag w ≡ (ok tt, s)

      made_lem :
          (s : State cluster.World) × Made s
          × (s.wc.nag ≡ nag)
          × (names_at s.world "" ≡ names_at w "")
      unfolding new_writer_context update_current_assignments update_assignment_changes
      made_lem =
          let (t, p, g, _, _) = context_lem cluster coop serves nag w in
          let (u, q, h) =
            update_lem cluster (List String) names_at nodes
              (record { wc = fresh_context nag; world = w }) in
          let s : State cluster.World = record t { wc = refreshed t.wc } in
          let same : u ≡ s = ap (λ r. r.1) (sym q) ∙ ap (λ r. r.1) p in
          (s, p, g, subst (λ v. names_at v.world "" ≡ names_at w "") same (h ""))

      abbrev finish : Run (State cluster.World) (Unit {0})
      finish = last cluster api keeps nag

      deleting_branch :
          {b : Bool} (x y : Run (State cluster.World) (Unit {0})) (s : State cluster.World)
          → b ≡ true
          → (if b then x else y) s ≡ x s
      deleting_branch x y s e = ap (λ c. (if c then x else y) s) e

      released_state :
          (visit : List String → List String) (s t : State cluster.World) (v : cluster.World)
          → nag.deleting ≡ true
          → Made s
          → unassign_all_nodes cluster s ≡ (ok tt, t)
          → remove_finalizer cluster nag t.world ≡ (ok tt, v)
          → reconcile_nag cluster nag visit w ≡ (ok tt, record t { world = v })
      unfolding reconcile_nag
      released_state visit s t v d p q r =
          rw (p, reconcile_nag)
            (deleting_branch _ _ s d
              ∙ ap (λ o. handle_err o.0 (λ _. finish) (λ _. finish) o.1) q
              ∙ ap
                  (λ o.
                    handle_err o.0 (λ _ u. (ok tt, u)) (λ _ u. (ok tt, u))
                      (record t { world = o.1 }))
                  r)

      -- If the API server cooperates, serves its nodes, stores groups, keeps groups and labels apart, and
      -- neither lists nor patches make or delete nodes, then ReconcileNag of a group that is being deleted
      -- ends without an error; no node that the API server had listed has an assignment of the group any
      -- more, those that the group does not target included; and every copy of the manager's finalizer, and
      -- no other, is gone from the stored group, while the other groups are as they were.
      pub reconcile_nag-Cleared :
          (visit : List String → List String)
          → nag.deleting ≡ true
          → (t : State cluster.World) × (reconcile_nag cluster nag visit w ≡ (ok tt, t))
            × Cleared nag w t.world
            × Released cluster api keeps nag w t.world
      reconcile_nag-Cleared visit d =
          let (s, p, g, e) = made_lem in
          let (u, q, bare) = all_lem s g e in
          let (v, r, same) = remove_finalizer_labels cluster api coop labels nag u.world in
          let (t, ended, released) = reconcile_nag-Released cluster api keeps nag visit w d in
          let here : t ≡ record u { world = v } =
            ap (λ o. o.1) (sym ended) ∙ ap (λ o. o.1) (released_state visit s u v d p q r) in
          (
            t,
            ended,
            subst (λ x. Cleared nag w x.world) (sym here)
                (All-map (serves.nodes_at w) (λ n h. same n.name (assignment_key nag) ∙ h) bare),
            released,
          )
