-- ===== src/NodeAssignments/WriterContext/Steps.antt =====
-- pkg/controller/nodeassignment/writer_context.go: the operations that call the API server.
-- `visit` is the order in which `range` visits the keys of the map of unassigned names.
use kube_valet.Prelude.{
  String, Bool, true, false, Option, none, some, List, [], ◌∷◌, ◌++◌, map, if◌then◌else◌, ℤ, pos,
  negsuc, ltb_ℤ, lookup, insert, remove,
}
use kube_valet.Outcome.{Outcome, ok, err, panic, exit, Run, ◌>>=◌, then_run, on_err}
use kube_valet.Kube.Objects.{Node}
use kube_valet.Kube.Cluster.{Cluster, reply, failed}
use kube_valet.Kube.Sending.{send_difference}
use kube_valet.Assignments.Types.{NodeAssignment, NodeAssignmentGroup}
use kube_valet.Assignments.Groups.{get_assignment, targets_node, assign, unassign}
use kube_valet.NodeAssignments.WriterContext.{
  WriterContext, Names, update_known_assignments, update_current_assignments,
  update_assignment_changes, change_by, may_leave,
}

pub record State (W : Type 0) : Type 0 where
  pub wc : WriterContext
  pub world : W

abbrev pub has_name : String → Names → Bool
has_name k names = elim (lookup k names) [ none ↦ false | some _ ↦ true ]

abbrev pub edit : {W : Type 0} → (WriterContext → WriterContext) → Run (State W) (Unit {0})
edit f s = (ok tt, record s { wc = f s.wc })

abbrev pub mark_unassigned : String → WriterContext → WriterContext
mark_unassigned name wc = record wc {
  unassigned_node_names = insert name tt wc.unassigned_node_names;
}

abbrev pub unmark_unassigned : String → WriterContext → WriterContext
unmark_unassigned name wc = record wc {
  unassigned_node_names = remove name wc.unassigned_node_names;
}

abbrev pub change : ℤ → String → WriterContext → WriterContext
change d name wc = record wc { assignment_changes = change_by d name wc.assignment_changes }

module _ (cluster : Cluster) where
  open cluster use {World, list_nodes, get_node, match_taint}

  -- The copy of the node that is to be sent. The defaults that `Assign` writes into the assignment
  -- are not kept: the next call chooses the same ones.
  unfoldable pub with_assignment : NodeAssignmentGroup → Node → Option NodeAssignment → Outcome Node
  with_assignment nag node none = ok (unassign match_taint nag node)
  with_assignment nag node (some na) = do (assigned, _) ← assign nag node na; ok assigned

  abbrev pub forget_sent :
      Node → Outcome (Unit {0}) × World → WriterContext → Outcome (Unit {0}) × State World
  forget_sent node (ok _, w) wc = (ok tt, record { wc = unmark_unassigned node.name wc; world = w })
  forget_sent node (err e, w) wc = (err e, record { wc = wc; world = w })
  forget_sent node (panic, w) wc = (panic, record { wc = wc; world = w })
  forget_sent node (exit, w) wc = (exit, record { wc = wc; world = w })

  abbrev pub send_assigned : Node → Outcome Node → Run (State World) (Unit {0})
  send_assigned node (ok assigned) s =
      forget_sent assigned (send_difference cluster node assigned s.world) s.wc
  send_assigned node (err e) s = (err e, s)
  send_assigned node panic s = (panic, s)
  send_assigned node exit s = (exit, s)

  unfoldable pub update_node_assignment :
      Node → Option NodeAssignment → Run (State World) (Unit {0})
  unfolding with_assignment
  update_node_assignment node na s = send_assigned node (with_assignment s.wc.nag node na) s

  -- A node of an assignment that the group no longer has is unassigned in memory.
  unfoldable pub drop_unknown : Node → WriterContext → Node × WriterContext
  drop_unknown node wc = elim (get_assignment wc.nag node) [
    | none ↦ (node, wc)
    | some ca ↦
        if has_name ca wc.known_assignments
        then (node, wc)
        else (unassign match_taint wc.nag node, mark_unassigned node.name wc)
  ]

  -- The second half of the loop of `updateNodeSets`, for a node after `drop_unknown`.
  unfoldable pub sort_node : Node → Run (State World) (Unit {0})
  unfolding update_node_assignment
  sort_node node s =
      if targets_node s.wc.nag node
      then edit (λ wc. record wc { targeted_nodes = wc.targeted_nodes ++ node ∷ [] }) s
      else elim (get_assignment s.wc.nag node) [
        | none ↦ (ok tt, s)
        | some _ ↦ update_node_assignment node none s
      ]

  unfoldable pub node_set_step : Node → Run (State World) (Unit {0})
  unfolding drop_unknown sort_node
  node_set_step node s =
      let (node', wc') = drop_unknown node s.wc in sort_node node' (record s { wc = wc' })

  -- An error ends the loop, and the nodes that follow are in no set.
  unfoldable pub node_set_loop : List Node → Run (State World) (Unit {0})
  unfolding node_set_step
  node_set_loop [] s = (ok tt, s)
  node_set_loop (node ∷ rest) s = then_run (node_set_step node) (λ _ s'. node_set_loop rest s') s

  -- `log.Fatal` ends the process where the nodes cannot be listed.
  unfoldable pub update_node_sets : Run (State World) (Unit {0})
  unfolding node_set_loop
  update_node_sets s =
      let (r, w) = list_nodes s.world in
      elim r [
        | failed _ ↦ (exit, record s { world = w })
        | reply nodes ↦ node_set_loop nodes (record s { world = w })
      ]

  -- The error of `updateNodeSets` is dropped.
  unfoldable pub update : Run (State World) (Unit {0})
  unfolding update_node_sets
  update s =
      let finish =
        λ (wc : WriterContext). update_assignment_changes (update_current_assignments wc) in
      on_err update_node_sets (λ _. edit finish) (λ _. edit finish)
        (record s { wc = update_known_assignments s.wc })

  unfoldable pub new_writer_context : NodeAssignmentGroup → World → Outcome (Unit {0}) × State World
  unfolding update
  new_writer_context nag w = update (record {
    wc = record {
      nag = nag;
      known_assignments = [];
      targeted_nodes = [];
      current_assignments = [];
      assignment_changes = [];
      unassigned_node_names = [];
    };
    world = w;
  })

  -- The first assignment of the group's list that still needs nodes takes the node.
  unfoldable pub assign_first : List NodeAssignment → Node → Run (State World) Bool
  unfolding update_node_assignment
  assign_first [] node s = (ok false, s)
  assign_first (a ∷ rest) node s =
      let next = assign_first rest node s in
      elim (lookup a.name s.wc.assignment_changes) [
        | none ↦ next
        | some d ↦
            if ltb_ℤ (pos 0) d
            then then_run (update_node_assignment node (some a))
                (λ _. then_run (edit (change (negsuc 0) a.name)) (λ _ s'. (ok true, s'))) s
            else next
      ]

  unfoldable pub assign_node : Node → Run (State World) Bool
  unfolding assign_first
  assign_node node s = assign_first s.wc.nag.assignments node s

  -- The default assignment, for a node that has none in memory.
  unfoldable pub assign_default : Node → Run (State World) (Unit {0})
  unfolding update_node_assignment
  assign_default node s = elim (get_assignment s.wc.nag node) [
    | some _ ↦ (ok tt, s)
    | none ↦ elim s.wc.nag.default_assignment [
      | none ↦ (ok tt, s)
      | some d ↦ update_node_assignment node (some d) s
    ]
  ]

  -- An error of `assignNode` comes with `false`, so the code goes on to the default assignment.
  unfoldable pub place_node : Node → Run (State World) (Unit {0})
  unfolding assign_node assign_default
  place_node node =
      on_err (assign_node node)
        (λ assigned. if assigned then (λ s. (ok tt, s)) else assign_default node)
        (λ _. assign_default node)

  abbrev pub release_node : Node → String → WriterContext → WriterContext
  release_node node ca wc = change (pos 1) ca (mark_unassigned node.name wc)

  unfoldable pub reconcile_node : Node → Run (State World) (Unit {0})
  unfolding place_node
  reconcile_node node s = elim (get_assignment s.wc.nag node) [
    | none ↦ place_node node s
    | some ca ↦
        if may_leave s.wc.nag s.wc.assignment_changes ca
        then place_node (unassign match_taint s.wc.nag node)
            (record s { wc = release_node node ca s.wc })
        else (ok tt, s)
  ]

  unfoldable pub reconcile_nodes : List Node → Run (State World) (Unit {0})
  unfolding reconcile_node
  reconcile_nodes [] s = (ok tt, s)
  reconcile_nodes (node ∷ rest) s =
      then_run (reconcile_node node) (λ _ s'. reconcile_nodes rest s') s

  unfoldable pub unassign_node_by_name : String → Run (State World) (Unit {0})
  unfolding update_node_assignment
  unassign_node_by_name name s =
      let (r, w) = get_node name s.world in
      elim r [
        | failed e ↦ (err e, record s { world = w })
        | reply node ↦ update_node_assignment node none (record s { world = w })
      ]

  -- A name that the map has lost by the time that it would be visited is passed over; errors are
  -- logged only.
  unfoldable pub unassign_names : List String → Run (State World) (Unit {0})
  unfolding unassign_node_by_name
  unassign_names [] s = (ok tt, s)
  unassign_names (name ∷ rest) s =
      on_err
        (λ t.
          if has_name name t.wc.unassigned_node_names
          then unassign_node_by_name name t
          else (ok tt, t))
        (λ _ s'. unassign_names rest s') (λ _ s'. unassign_names rest s') s

  unfoldable pub reconcile : (List String → List String) → Run (State World) (Unit {0})
  unfolding reconcile_nodes unassign_names
  reconcile visit s =
      then_run (reconcile_nodes s.wc.targeted_nodes)
        (λ _ s'. unassign_names (visit (map (λ e. e.0) s'.wc.unassigned_node_names)) s') s

  -- The errors of the single nodes are dropped.
  unfoldable pub unassign_each : List Node → Run (State World) (Unit {0})
  unfolding update_node_assignment
  unassign_each [] s = (ok tt, s)
  unassign_each (node ∷ rest) s =
      on_err (update_node_assignment node none) (λ _ s'. unassign_each rest s')
        (λ _ s'. unassign_each rest s') s

  unfoldable pub unassign_all_nodes : Run (State World) (Unit {0})
  unfolding unassign_each
  unassign_all_nodes s =
      let (r, w) = list_nodes s.world in
      elim r [
        | failed e ↦ (err e, record s { world = w })
        | reply nodes ↦ unassign_each nodes (record s { world = w })
      ]
