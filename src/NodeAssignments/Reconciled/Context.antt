-- ===== src/NodeAssignments/Reconciled/Context.antt =====
-- NewWriterContext and Reconcile of writer_context.go, from the list of nodes to the last write.
use kube_valet.Prelude.{
  String, ◌≡◌, sym, ap, ◌∙◌, subst, true, false, Option, none, some, List, [], ◌∷◌, arith, eq_iff,
  if◌then◌else◌, elem, Visits, count, count-congr, map, lookup, Map, All, All-map, All-zip,
  Bool-cases, inl, inr,
}
use kube_valet.Outcome.{ok, Run, handle_err}
use kube_valet.Kube.Objects.{Node}
use kube_valet.Kube.Cluster.{Cluster}
use kube_valet.Kube.Cooperation.{Cooperates}
use kube_valet.Assignments.Types.{NodeAssignmentGroup}
use kube_valet.Assignments.Groups.{assignment_key, get_assignment}
use kube_valet.NodeAssignments.WriterContext.{
  WriterContext, Names, update_known_assignments, update_current_assignments,
  update_assignment_changes,
}
use kube_valet.NodeAssignments.WriterContext.Changes.{holds}
use kube_valet.NodeAssignments.WriterContext.Steps.{
  State, has_name, edit, node_set_loop, update_node_sets, update, new_writer_context, reconcile,
}
use kube_valet.NodeAssignments.Plan.Convergence.{is_known}
use kube_valet.NodeAssignments.Reconcile.Views.{effective}
use kube_valet.NodeAssignments.Reconcile.Rounds.{Ready, unassigned_labels}
use kube_valet.NodeAssignments.Reconcile.Loop.{node_names, DistinctNodes, effects}
use kube_valet.NodeAssignments.Reconcile.Satisfied.{
  WellFormed, refreshed, start, planned, performed,
}
use kube_valet.NodeAssignments.Sets.{
  has_name-nil, update_known_assignments-Knows, kept, kept_name, is_targeted, targeted,
  targeted-All, targeted-Distinct, targeted-Apart, count-targeted,
}
use kube_valet.NodeAssignments.Sets.Listed.{Before, after_loop, node_set_loop_lem}
use kube_valet.NodeAssignments.Sets.Cleanup.{ServesNodes, unassign_names_lem}

-- The context before `Update`.
abbrev pub fresh_context : NodeAssignmentGroup → WriterContext
fresh_context nag = record {
  nag = nag;
  known_assignments = [];
  targeted_nodes = [];
  current_assignments = [];
  assignment_changes = [];
  unassigned_node_names = [];
}

elem-keys : (j : String) (m : Names) → has_name j m ≡ true → elem j (map (λ e. e.0) m) ≡ true
unfolding lookup
elem-keys j [] h = ground arith
elem-keys j ((k, v) ∷ m) h = ground (arith, eq_iff k j, eq_iff j k, elem-keys j m)

module _ (cluster : Cluster) (coop : Cooperates cluster) (api : ServesNodes cluster coop) where
  open coop use {label_at}

  abbrev pub targeted_at : NodeAssignmentGroup → List Node → List Node
  targeted_at nag nodes = targeted cluster.match_taint nag nodes

  module _ (nag : NodeAssignmentGroup) (w : cluster.World) where
    abbrev pub listed : List Node
    listed = api.nodes_at w

    -- A node that can be labelled.
    abbrev pub Writable : Node → Type 0
    Writable n = (m : Map String) × (n.labels ≡ some m)

    abbrev begun : State cluster.World
    begun = record {
      wc = update_known_assignments (fresh_context nag);
      world = (cluster.list_nodes w).1;
    }

    begun-Before : Before cluster coop begun listed
    unfolding update_known_assignments get_assignment
    begun-Before =
        All-map listed
          (λ n h. (
            api.listing w n.name (assignment_key nag) ∙ h (assignment_key nag),
            has_name-nil n.name,
          ))
          (api.copies w)

    sets_lem :
        (t : State cluster.World)
        → node_set_loop cluster listed begun ≡ (ok tt, t)
        → update_node_sets cluster (record begun { world = w }) ≡ (ok tt, t)
    unfolding update_node_sets
    sets_lem t p = rw (api.lists w, update_node_sets) p

    abbrev finish : Run (State cluster.World) (Unit {0})
    finish = edit refreshed

    made_lem :
        (t : State cluster.World)
        → update_node_sets cluster (record begun { world = w }) ≡ (ok tt, t)
        → new_writer_context cluster nag w ≡ (ok tt, record t { wc = refreshed t.wc })
    unfolding new_writer_context update
    made_lem t p = ap (λ r. handle_err r.0 (λ _. finish) (λ _. finish) r.1) p

    -- After `NewWriterContext` the context has the targeted nodes, and the numbers for them.
    pub context_lem :
        (t : State cluster.World) × (new_writer_context cluster nag w
          ≡ (ok tt, record t { wc = refreshed t.wc }))
        × (t.wc.nag ≡ nag)
        × (t.wc.targeted_nodes ≡ targeted_at nag listed)
        × All (λ n. effective cluster coop t n.name ≡ after_loop cluster coop nag n) listed
    unfolding update_known_assignments
    context_lem =
        let (t, p, c) =
          node_set_loop_lem cluster coop listed begun
            (update_known_assignments-Knows (fresh_context nag)) (api.named w) begun-Before in
        (t, made_lem t (sets_lem t p), c.group, c.chosen, c.own)

    kept-Writable : (n : Node) → Writable n → Writable (kept cluster.match_taint nag n)
    unfolding kept
    kept-Writable n h = elim (Bool-cases (is_known nag (get_assignment nag n))) [
      | inl e ↦ rw e h
      | inr e ↦ rw e (unassigned_labels cluster coop nag n h.0 h.1)
    ]

    kept-Ready :
        (t : State cluster.World) (n : Node)
        → t.wc.nag ≡ nag
        → effective cluster coop t n.name ≡ after_loop cluster coop nag n
        → Writable n
        → is_targeted cluster.match_taint nag n ≡ true
        → Ready cluster coop t (kept cluster.match_taint nag n)
    kept-Ready t n g e h targets = record {
      writable = kept-Writable n h;
      in_step =
          ap (effective cluster coop t) (kept_name cluster.match_taint nag n)
          ∙ e
          ∙ ap (λ b. if b then get_assignment nag (kept cluster.match_taint nag n) else none)
              targets
          ∙ ap (λ g. get_assignment g (kept cluster.match_taint nag n)) (sym g);
    }

    module _ (t : State cluster.World) (group : t.wc.nag ≡ nag)
        (chosen : t.wc.targeted_nodes ≡ targeted_at nag listed)
        (own : All
          (λ n. effective cluster coop t n.name ≡ after_loop cluster coop nag n)
          listed) where
      abbrev pub from : State cluster.World
      from = start cluster coop t.wc t.world

      each-Ready : All Writable listed → All (Ready cluster coop from) t.wc.targeted_nodes
      unfolding update_assignment_changes update_current_assignments
      each-Ready h =
          subst (λ l. All (Ready cluster coop from) l) (sym chosen)
            (targeted-All cluster.match_taint nag (Ready cluster coop from) listed
              (All-map listed (λ n q. kept-Ready from n group q.0 q.1) (All-zip _ _ listed own h)))

      -- The label of the group that the node has in the API server.
      abbrev pub has_at : cluster.World → Node → Option String
      has_at v n = label_at v n.name (assignment_key nag)

      untargeted_none :
          (u : State cluster.World)
          → ((j : String)
              → elem j (node_names t.wc.targeted_nodes) ≡ false
              → effective cluster coop u j ≡ effective cluster coop t j)
          → All
              (λ n.
                is_targeted cluster.match_taint nag n ≡ false
                → effective cluster coop u n.name ≡ none)
              listed
      untargeted_none u others =
          All-map listed
            (λ n h e.
              others n.name (subst (λ l. elem n.name (node_names l) ≡ false) (sym chosen) (h.0 e))
              ∙ h.1
              ∙ ap (λ b. if b then get_assignment nag (kept cluster.match_taint nag n) else none) e)
            (All-zip _ _ listed (targeted-Apart cluster.match_taint nag listed (api.named w)) own)

      -- What `Reconcile` leaves, where it starts from the context that was made.
      abbrev pub After : (List String → List String) → Type 0
      After visit =
          (u : State cluster.World) × (reconcile cluster visit from ≡ (ok tt, u))
          × ((a : String)
              → count (λ n. holds a (has_at u.world n)) listed
                ≡ count (holds a) (planned cluster coop t.wc t.world))
          × All (λ n. is_targeted cluster.match_taint nag n ≡ false → has_at u.world n ≡ none)
              listed

      pub reconcile_lem :
          (visit : List String → List String)
          → Visits visit
          → WellFormed nag
          → All Writable listed
          → After visit
      unfolding reconcile update_assignment_changes update_current_assignments
      reconcile_lem visit visits formed h =
          let (s, p, g, e, others) =
            performed cluster coop t.wc t.world (subst WellFormed (sym group) formed)
              (subst DistinctNodes (sym chosen)
                (targeted-Distinct cluster.match_taint nag listed (api.named w)))
              (each-Ready h) in
          let (u, q, l) =
            unassign_names_lem cluster coop api (visit (map (λ e. e.0) s.wc.unassigned_node_names))
              s (λ j m. visits _ j (elem-keys j s.wc.unassigned_node_names m)) in
          let shown =
            subst
              (λ g.
                (j : String) → label_at u.world j (assignment_key g) ≡ effective cluster coop s j)
              (g ∙ group) l in
          let bare = untargeted_none s others in
          (
            u,
            rw (p, reconcile) q,
            λ a.
                count-congr _ _ listed (λ n. ap (holds a) (shown n.name))
                ∙ count-targeted cluster.match_taint nag (effective cluster coop s) a listed bare
                ∙ ap (λ l. count (holds a) (effects cluster coop s l)) (sym chosen)
                ∙ ap (count (holds a)) e,
            All-map listed (λ n k b. shown n.name ∙ k b) bare,
          )
