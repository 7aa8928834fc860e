-- ===== src/NodeAssignments/Deletion/Calls.antt =====
-- Every call for nodes returns, and leaves alone what the calls of the API server leave alone.
use kube_valet.Prelude.{
  String, ◌≡◌, refl, ◌∙◌, Bool, true, false, none, List, [], ◌∷◌, Bool-cases, Option-cases, inl,
  inr,
}
use kube_valet.Outcome.{Outcome, ok, err, panic, exit, Run, resume, handle_err}
use kube_valet.Kube.Objects.{Node}
use kube_valet.Kube.Cluster.{Cluster, Reply, reply, failed}
use kube_valet.Kube.Sending.{sent, send_patch, send_difference, diff_node}
use kube_valet.Utils.{is_empty_patch}
use kube_valet.Assignments.Types.{NodeAssignmentGroup}
use kube_valet.Assignments.Groups.{targets_node, get_assignment, unassign}
use kube_valet.Finalizers.Kept.{StoresNags}
use kube_valet.NodeAssignments.WriterContext.Steps.{
  State, forget_sent, with_assignment, update_node_assignment, drop_unknown, sort_node,
  node_set_step, node_set_loop, update_node_sets, unassign_each, unassign_all_nodes,
}

-- Calls for nodes leave alone what a view shows of the API server, and the nodes can be listed.
pub record Keeps {β} (cluster : Cluster) (B : Type β) (view : cluster.World → String → B)
    : Type β where
  pub lists : (w : cluster.World) → (nodes : List Node) × ((cluster.list_nodes w).0 ≡ reply nodes)
  pub listing :
      (w : cluster.World) (name : String) → view (cluster.list_nodes w).1 name ≡ view w name
  pub patching :
      (node : String) (p : cluster.Patch) (w : cluster.World) (name : String)
      → view (cluster.patch_node node p w).1 name ≡ view w name

-- Calls for nodes leave the groups alone.
abbrev pub KeepsGroups : (cluster : Cluster) → StoresNags cluster → Type 0
KeepsGroups cluster api = Keeps cluster NodeAssignmentGroup api.nag_at

module _ {β} (cluster : Cluster) (B : Type β) (view : cluster.World → String → B)
    (keeps : Keeps cluster B view) where
  abbrev pub Same : cluster.World → cluster.World → Type β
  Same w t = (name : String) → view t name ≡ view w name

  abbrev pub returned : Outcome (Unit {0}) → Bool
  returned (ok _) = true
  returned (err e) = true
  returned panic = false
  returned exit = false

  -- The call returns, with or without an error, and has left the groups alone.
  abbrev pub Calm : cluster.World → Outcome (Unit {0}) × State cluster.World → Type β
  Calm w r = (returned r.0 ≡ true) × Same w r.1.world

  abbrev pub CalmCall : cluster.World → Outcome (Unit {0}) × cluster.World → Type β
  CalmCall w r = (returned r.0 ≡ true) × Same w r.1

  pub send_difference-Calm :
      (old new : Node) (w : cluster.World) → CalmCall w (send_difference cluster old new w)
  unfolding send_difference
  send_difference-Calm old new w = go (diff_node cluster old new)
    where
      sends : (r : Reply Node × cluster.World) → Same w r.1 → CalmCall w (sent cluster r)
      sends (reply n, t) h = (refl, h)
      sends (failed e, t) h = (refl, h)

      go : (r : Reply cluster.Patch) → CalmCall w (send_patch cluster old.name r w)
      go (failed e) = (refl, λ name. refl)
      go (reply p) = elim (Bool-cases (is_empty_patch (cluster.bytes p))) [
        | inl h ↦ rw h (refl, λ name. refl)
        | inr h ↦ rw h (sends (cluster.patch_node old.name p w) (keeps.patching old.name p w))
      ]

  update_node_assignment-Calm :
      (node : Node) (s : State cluster.World)
      → Calm s.world (update_node_assignment cluster node none s)
  unfolding update_node_assignment with_assignment
  update_node_assignment-Calm node s =
      let new = unassign cluster.match_taint s.wc.nag node in
      go new (send_difference cluster node new s.world) (send_difference-Calm node new s.world)
    where
      go :
          (new : Node) (r : Outcome (Unit {0}) × cluster.World)
          → CalmCall s.world r
          → Calm s.world (forget_sent cluster new r s.wc)
      go new (ok _, t) c = (refl, c.1)
      go new (err e, t) c = (refl, c.1)
      go new (panic, t) c = absurd (cc c.0)
      go new (exit, t) c = absurd (cc c.0)

  module _ (w : cluster.World) (k : Run (State cluster.World) (Unit {0}))
      (calm : (s : State cluster.World) → Same w s.world → Calm w (k s)) where
    either_way :
        (r : Outcome (Unit {0}) × State cluster.World)
        → Calm w r
        → Calm w (handle_err r.0 (λ _. k) (λ _. k) r.1)
    either_way (ok _, s) c = calm s c.1
    either_way (err e, s) c = calm s c.1
    either_way (panic, s) c = absurd (cc c.0)
    either_way (exit, s) c = absurd (cc c.0)

    if_ok :
        (r : Outcome (Unit {0}) × State cluster.World) → Calm w r → Calm w (resume r.0 (λ _. k) r.1)
    if_ok (ok _, s) c = calm s c.1
    if_ok (err e, s) c = c
    if_ok (panic, s) c = absurd (cc c.0)
    if_ok (exit, s) c = absurd (cc c.0)

  pub onward :
      (w t : cluster.World) (r : Outcome (Unit {0}) × State cluster.World)
      → Same w t
      → Calm t r
      → Calm w r
  onward w t r h c = (c.0, λ name. c.1 name ∙ h name)

  unassign_each-Calm :
      (nodes : List Node) (s : State cluster.World) → Calm s.world (unassign_each cluster nodes s)
  unfolding unassign_each
  unassign_each-Calm [] s = (refl, λ name. refl)
  unassign_each-Calm (n ∷ nodes) s =
      either_way s.world (unassign_each cluster nodes)
        (λ t h.
          onward s.world t.world (unassign_each cluster nodes t) h (unassign_each-Calm nodes t))
        (update_node_assignment cluster n none s) (update_node_assignment-Calm n s)

  sort_node-Calm : (node : Node) (s : State cluster.World) → Calm s.world (sort_node cluster node s)
  unfolding sort_node
  sort_node-Calm node s = elim (Bool-cases (targets_node s.wc.nag node)) [
    | inl h ↦ rw h (refl, λ name. refl)
    | inr h ↦ rw h (elim (Option-cases (get_assignment s.wc.nag node)) [
      | inl e ↦ rw e (refl, λ name. refl)
      | inr (a, e) ↦ rw e (update_node_assignment-Calm node s)
    ])
  ]

  node_set_loop-Calm :
      (nodes : List Node) (s : State cluster.World) → Calm s.world (node_set_loop cluster nodes s)
  unfolding node_set_loop node_set_step
  node_set_loop-Calm [] s = (refl, λ name. refl)
  node_set_loop-Calm (n ∷ nodes) s =
      let (n', wc') = drop_unknown cluster n s.wc in
      if_ok s.world (node_set_loop cluster nodes)
        (λ t h.
          onward s.world t.world (node_set_loop cluster nodes t) h (node_set_loop-Calm nodes t))
        (sort_node cluster n' (record s { wc = wc' })) (sort_node-Calm n' (record s { wc = wc' }))

  pub update_node_sets-Calm : (s : State cluster.World) → Calm s.world (update_node_sets cluster s)
  unfolding update_node_sets
  update_node_sets-Calm s =
      let (nodes, e) = keeps.lists s.world in
      let s' = record s { world = (cluster.list_nodes s.world).1 } in
      rw (e, update_node_sets)
        (onward s.world s'.world (node_set_loop cluster nodes s') (keeps.listing s.world)
          (node_set_loop-Calm nodes s'))

  pub unassign_all_nodes-Calm :
      (s : State cluster.World) → Calm s.world (unassign_all_nodes cluster s)
  unfolding unassign_all_nodes
  unassign_all_nodes-Calm s =
      let (nodes, e) = keeps.lists s.world in
      let s' = record s { world = (cluster.list_nodes s.world).1 } in
      rw (e, unassign_all_nodes)
        (onward s.world s'.world (unassign_each cluster nodes s') (keeps.listing s.world)
          (unassign_each-Calm nodes s'))
