-- ===== src/Assignments/Groups/Assign.antt =====
-- What `Assign` puts on a node, when it panics, and that `Unassign` takes it off again.
use mathlib.Core.List.{append-nil}
use kube_valet.Prelude.{
  filter-append, String, ◌≡◌, refl, ap, ◌∙◌, ◌⊎◌, Bool, true, not, ◌||◌, none, some, List, [], ◌∷◌,
  ◌++◌, ◌==◌, arith, eq_iff, eq_refl, str-cases, if◌then◌else◌, filter, Bool-cases, inl, inr,
  insert,
}
use kube_valet.Outcome.{Outcome, ok, panic}
use kube_valet.Kube.Objects.{LabelMap, Taint, Node}
use kube_valet.Kube.Labels.{get_label, put_label, delete_label, get-put_label, delete-put_label}
use kube_valet.Assignments.Types.{
  NodeAssignment, NodeAssignmentGroup, mode_label_only, mode_label_and_taint, mode_default,
  mode_undefined, taint_effect_default, taint_effect_not_specified,
}
use kube_valet.Assignments.Groups.{assignment_key, pack_left_key, get_assignment, assign, unassign}
use kube_valet.Assignments.Groups.Keys.{assignment_key_iff}
use kube_valet.Assignments.Groups.Unassign.{
  MatchesByKeyAndEffect, is_group_taint, is_known_effect, taints-unassign,
}

-- The modes for which `Assign` does something: one of the two named modes, or none given.
abbrev pub is_known_mode : String → Bool
is_known_mode m = m == mode_undefined || (m == mode_label_only || m == mode_label_and_taint)

-- The effect of the taint, if there is one.
abbrev pub chosen_effect : NodeAssignment → String
chosen_effect na =
    if na.taint_effect == taint_effect_not_specified then taint_effect_default else na.taint_effect

-- The taints of the node after `Assign`.
abbrev pub assigned_taints : NodeAssignmentGroup → Node → NodeAssignment → List Taint
assigned_taints nag node na =
    if na.mode == mode_label_and_taint
    then node.taints
      ++ record { key = assignment_key nag; value = na.name; effect = chosen_effect na } ∷ []
    else node.taints

-- The assignment that `Assign` leaves: the defaults that it used are written into it.
abbrev pub resolved : NodeAssignment → NodeAssignment
resolved na = record na {
  mode = if na.mode == mode_undefined then mode_default else na.mode;
  taint_effect = if na.mode == mode_label_and_taint then chosen_effect na else na.taint_effect;
}

abbrev marked :
    LabelMap → NodeAssignmentGroup → Node → NodeAssignment → Outcome (Node × NodeAssignment)
marked l nag node na =
    ok (record node { labels = l; taints = assigned_taints nag node na }, resolved na)

pub Mode-cases :
    (m : String)
    → is_known_mode m ≡ true
    → (m ≡ mode_undefined) ⊎ (m ≡ mode_label_only) ⊎ (m ≡ mode_label_and_taint)
Mode-cases m k =
    ground (arith, eq_iff m mode_undefined, eq_iff m mode_label_only, eq_iff m mode_label_and_taint)

-- `Assign` in a known mode labels the node, and adds one taint in the mode `LabelAndTaint`.
pub assign_known :
    (nag : NodeAssignmentGroup) (node : Node) (na : NodeAssignment) (l : LabelMap)
    → is_known_mode na.mode ≡ true
    → put_label (assignment_key nag) na.name node.labels ≡ ok l
    → assign nag node na ≡ marked l nag node na
unfolding assign
assign_known nag node na l k e = elim (Mode-cases na.mode k) [
  | inl m ↦ simp (m, e)
  | inr (inl m) ↦ simp (m, e)
  | inr (inr m) ↦ simp (m, e)
]

put_label-cases :
    (k v : String) (m : LabelMap)
    → (m ≡ none) × (put_label k v m ≡ panic) ⊎ ((l : LabelMap) × (put_label k v m ≡ ok l))
unfolding put_label
put_label-cases k v none = inl (refl, refl)
put_label-cases k v (some m) = inr (some (insert k v m), refl)

assign_nil :
    (nag : NodeAssignmentGroup) (node : Node) (na : NodeAssignment)
    → is_known_mode na.mode ≡ true
    → put_label (assignment_key nag) na.name node.labels ≡ panic
    → assign nag node na ≡ panic
unfolding assign
assign_nil nag node na k e = elim (Mode-cases na.mode k) [
  | inl m ↦ simp (m, e)
  | inr (inl m) ↦ simp (m, e)
  | inr (inr m) ↦ simp (m, e)
]

-- What a call of `Assign` that returns has done.
pub assign_inv :
    (nag : NodeAssignmentGroup) (node node' : Node) (na na' : NodeAssignment)
    → is_known_mode na.mode ≡ true
    → assign nag node na ≡ ok (node', na')
    → (l : LabelMap) × (put_label (assignment_key nag) na.name node.labels ≡ ok l)
      × (node' ≡ record node { labels = l; taints = assigned_taints nag node na })
      × (na' ≡ resolved na)
assign_inv nag node node' na na' k h =
    elim (put_label-cases (assignment_key nag) na.name node.labels) [
      | inl (_, e) ↦ absurd (cc (h, assign_nil nag node na k e))
      | inr (l, e) ↦
          (l, e, cc (h, assign_known nag node na l k e), cc (h, assign_known nag node na l k e))
    ]

-- A node whose label map is nil makes `Assign` panic, in every known mode and where none is given.
pub assign_nil_labels :
    (nag : NodeAssignmentGroup) (node : Node) (na : NodeAssignment)
    → is_known_mode na.mode ≡ true
    → node.labels ≡ none
    → assign nag node na ≡ panic
assign_nil_labels nag node na k e = assign_nil nag node na k (rw e (unfold put_label in refl))

-- After `Assign` in a known mode the node has the assignment's name in the group, and in every group
-- of another name the assignment that it had; and its taints are the old ones, with one more in the
-- mode LabelAndTaint.
pub get_assignment-assign :
    (nag other : NodeAssignmentGroup) (node node' : Node) (na na' : NodeAssignment)
    → is_known_mode na.mode ≡ true
    → assign nag node na ≡ ok (node', na')
    → (get_assignment other node'
        ≡ (if nag.name == other.name then some na.name else get_assignment other node))
      × (node'.taints ≡ assigned_taints nag node na)
unfolding get_assignment
get_assignment-assign nag other node node' na na' k h =
    let (l, e, n, _) = assign_inv nag node node' na na' k h in
    (
      rw n (
          get-put_label (assignment_key nag) (assignment_key other) na.name node.labels l e
          ∙ ap (λ b. if b then some na.name else get_label (assignment_key other) node.labels)
              (assignment_key_iff nag other)),
      rw n,
    )

filter-assigned_taints :
    (nag : NodeAssignmentGroup) (node : Node) (na : NodeAssignment)
    → is_known_effect (chosen_effect na) ≡ true
    → filter (λ t. not (is_group_taint nag t)) (assigned_taints nag node na)
      ≡ filter (λ t. not (is_group_taint nag t)) node.taints
filter-assigned_taints nag node na known = elim (Bool-cases (na.mode == mode_label_and_taint)) [
  | inl e ↦
      rw e (
        filter-append _ node.taints _ ∙ rw (eq_refl (assignment_key nag)) (rw known (append-nil _)))
  | inr e ↦ rw e
]

pub unassign_eq :
    (match_taint : Taint → Taint → Bool) (nag : NodeAssignmentGroup) (node : Node)
    → unassign match_taint nag node ≡ record node {
      labels = delete_label (pack_left_key nag) (delete_label (assignment_key nag) node.labels);
      taints = (unassign match_taint nag node).taints;
    }
unfolding unassign
unassign_eq match_taint nag node = refl

-- `Unassign` undoes `Assign`: if MatchTaint compares the key and the effect, the mode is known, and the
-- taint effect is one of the three of Kubernetes or not specified, then after an `Assign` that returns
-- `Unassign` leaves the node that it would have left without it.
pub unassign-assign :
    (match_taint : Taint → Taint → Bool)
    → MatchesByKeyAndEffect match_taint
    → (nag : NodeAssignmentGroup) (node node' : Node) (na na' : NodeAssignment)
    → is_known_mode na.mode ≡ true
    → is_known_effect (chosen_effect na) ≡ true
    → assign nag node na ≡ ok (node', na')
    → unassign match_taint nag node' ≡ unassign match_taint nag node
unassign-assign match_taint law nag node node' na na' k known h =
    let (l, e, n, _) = assign_inv nag node node' na na' k h in
    let marked_node : Node = record node { labels = l; taints = assigned_taints nag node na } in
    rw n (
      cc (
        unassign_eq match_taint nag marked_node,
        unassign_eq match_taint nag node,
        delete-put_label (assignment_key nag) na.name node.labels l e,
        taints-unassign match_taint law nag marked_node,
        taints-unassign match_taint law nag node,
        filter-assigned_taints nag node na known,
      ))

-- `Assign` with the defaults already written into the assignment does what it does without them, so
-- that writing them changes no later call.
pub assign-resolved :
    (nag : NodeAssignmentGroup) (node : Node) (na : NodeAssignment)
    → assign nag node (resolved na) ≡ assign nag node na
unfolding assign
assign-resolved nag node na = elim (str-cases na.mode mode_undefined) [
  | inl (_, p) ↦ simp p
  | inr (e, _) ↦ elim (str-cases na.mode mode_label_and_taint) [
    | inr (f, _) ↦ simp (e, f)
    | inl (_, q) ↦ rw q (elim (str-cases na.taint_effect taint_effect_not_specified) [
      | inl (_, r) ↦ rw r refl
      | inr (g, _) ↦ simp g
    ])
  ]
]
