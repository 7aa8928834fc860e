-- ===== src/Assignments/Groups/Unassign.antt =====
-- What `Unassign` removes from a node, and what it leaves.
use kube_valet.Prelude.{
  String, ◌≡◌, refl, ◌∙◌, Bool, true, false, not, ◌&&◌, ◌||◌, none, ◌==◌, arith, eq_iff,
  if◌then◌else◌, filter, filter-congr, any,
}
use kube_valet.Kube.Objects.{Taint, Node, no_schedule, prefer_no_schedule, no_execute}
use kube_valet.Kube.Labels.{get_label, get-delete_label}
use kube_valet.Assignments.Types.{NodeAssignmentGroup}
use kube_valet.Assignments.Taints.Filter.{hits, delete_taints-eq_filter}
use kube_valet.Assignments.Groups.{
  assignment_key, pack_left_key, get_assignment, group_taints, unassign,
}
use kube_valet.Assignments.Groups.Keys.{pack_left_apart, assignment_key_iff}

-- `Taint.MatchTaint`: two taints match where they have one key and one effect.
abbrev pub MatchesByKeyAndEffect : (Taint → Taint → Bool) → Type 0
MatchesByKeyAndEffect match_taint =
    (a b : Taint) → match_taint a b ≡ (a.key == b.key) && (a.effect == b.effect)

-- One of the three effects that Kubernetes knows.
abbrev pub is_known_effect : String → Bool
is_known_effect e = no_schedule == e || (prefer_no_schedule == e || no_execute == e)

-- A taint that the group can have put on a node.
abbrev pub is_group_taint : NodeAssignmentGroup → Taint → Bool
is_group_taint nag t =
    (assignment_key nag == t.key || pack_left_key nag == t.key) && is_known_effect t.effect

six_tests :
    (a b x y z : Bool)
    → not (a && x || (a && y || (a && z || (b && x || (b && y || (b && z || false))))))
      ≡ not ((a || b) && (x || (y || z)))
six_tests true b true y z = refl
six_tests true b false y z = ground arith
six_tests false b x y z = ground arith

module _ (match_taint : Taint → Taint → Bool) where
  -- After `Unassign` the two labels of the group are gone, and every other label is as it was.
  pub labels-unassign :
      (nag : NodeAssignmentGroup) (node : Node) (j : String)
      → get_label j (unassign match_taint nag node).labels ≡ (
          if assignment_key nag == j || pack_left_key nag == j
          then none
          else get_label j node.labels)
  unfolding unassign
  labels-unassign nag node j = simp get-delete_label (ground arith)

  any-group_taints :
      MatchesByKeyAndEffect match_taint
      → (nag : NodeAssignmentGroup) (t : Taint)
      → not (any (λ g. hits match_taint g t) (group_taints nag)) ≡ not (is_group_taint nag t)
  unfolding group_taints
  any-group_taints law nag t =
      simp law (six_tests (assignment_key nag == t.key) (pack_left_key nag == t.key) _ _ _)

  -- If MatchTaint compares the key and the effect, then `Unassign` drops the taints that have a key of
  -- the group and one of the three effects of Kubernetes, and keeps all others in order.
  pub taints-unassign :
      MatchesByKeyAndEffect match_taint
      → (nag : NodeAssignmentGroup) (node : Node)
      → (unassign match_taint nag node).taints
        ≡ filter (λ t. not (is_group_taint nag t)) node.taints
  unfolding unassign
  taints-unassign law nag node =
      delete_taints-eq_filter match_taint (group_taints nag) node.taints
      ∙ filter-congr _ _ node.taints (any-group_taints law nag)

  -- The rest of the node stays as it was.
  pub unassign_rest :
      (nag : NodeAssignmentGroup) (node : Node)
      → ((unassign match_taint nag node).name ≡ node.name)
        × ((unassign match_taint nag node).unschedulable ≡ node.unschedulable)
        × ((unassign match_taint nag node).conditions ≡ node.conditions)
  unfolding unassign
  unassign_rest nag node = (refl, refl, refl)

  -- After `Unassign` the node has no assignment in a group of the same name, and the assignment in
  -- any other group is the one that it had.
  pub get_assignment-unassign :
      (nag other : NodeAssignmentGroup) (node : Node)
      → get_assignment other (unassign match_taint nag node)
        ≡ (if nag.name == other.name then none else get_assignment other node)
  unfolding get_assignment
  get_assignment-unassign nag other node = ground (
    arith,
    labels-unassign nag node (assignment_key other),
    pack_left_apart nag other,
    eq_iff (assignment_key nag) (assignment_key other),
    assignment_key_iff nag other,
  )
