-- ===== src/NodeAssignments/Reconcile/Steps.antt =====
-- One round of the loop of `Reconcile` carries out one step of the plan.
use kube_valet.Prelude.{
  ◌≡◌, refl, ap, ◌∙◌, Bool, true, false, Option, none, some, List, [], ◌∷◌, arith, if◌then◌else◌,
  Bool-cases, inl, inr, lookup, All, ℤ, pos, negsuc, ltb_ℤ,
}
use kube_valet.Outcome.{ok, then_run, Run}
use kube_valet.Kube.Objects.{Node}
use kube_valet.Kube.Cluster.{Cluster}
use kube_valet.Assignments.Types.{NodeAssignment, NodeAssignmentGroup}
use kube_valet.Assignments.Groups.Assign.{is_known_mode}
use kube_valet.NodeAssignments.WriterContext.{get_int}
use kube_valet.NodeAssignments.WriterContext.Steps.{
  State, edit, change, update_node_assignment, assign_first,
}
use kube_valet.NodeAssignments.Plan.{first_needing}

-- The test on an entry of the map of changes, which may be missing, as a test on its number.
needs_test {ℓ} :
    {A : Type ℓ} (o : Option ℤ) (x y : A)
    → elim o [ none ↦ y | some d ↦ if ltb_ℤ (pos 0) d then x else y ]
      ≡ (if ltb_ℤ (pos 0) (elim o [ none ↦ pos 0 | some d ↦ d ]) then x else y)
needs_test none x y = refl
needs_test (some d) x y = refl

-- Every assignment that `Reconcile` may give has a mode that sets the label.
abbrev pub ModesKnown : NodeAssignmentGroup → Type 0
ModesKnown nag =
    All (λ a. is_known_mode a.mode ≡ true) nag.assignments
    × ((d : NodeAssignment) → nag.default_assignment ≡ some d → is_known_mode d.mode ≡ true)

module _ (cluster : Cluster) where
  -- What `assignNode` does with the assignment that it finds.
  abbrev pub take_it : Node → NodeAssignment → Run (State cluster.World) Bool
  take_it node b =
      then_run (update_node_assignment cluster node (some b))
        (λ _. then_run (edit (change (negsuc 0) b.name)) (λ _ s'. (ok true, s')))

  abbrev needs : NodeAssignment → State cluster.World → Bool
  needs a s = ltb_ℤ (pos 0) (get_int a.name s.wc.assignment_changes)

  assign_first_step :
      (a : NodeAssignment) (l : List NodeAssignment) (node : Node) (s : State cluster.World)
      → assign_first cluster (a ∷ l) node s
        ≡ (if needs a s then take_it node a s else assign_first cluster l node s)
  unfolding assign_first get_int
  assign_first_step a l node s =
      needs_test (lookup a.name s.wc.assignment_changes) (take_it node a s)
        (assign_first cluster l node s)

  pub assign_first-none :
      (l : List NodeAssignment) (node : Node) (s : State cluster.World)
      → first_needing l s.wc.assignment_changes ≡ none
      → assign_first cluster l node s ≡ (ok false, s)
  unfolding first_needing
  assign_first-none [] node s h = unfold assign_first in refl
  assign_first-none (a ∷ l) node s h = elim (Bool-cases (needs a s)) [
    | inl e ↦ absurd (cc (h, e))
    | inr e ↦ assign_first_step a l node s ∙ rw e (assign_first-none l node s (rw e at h))
  ]

  pub assign_first-some :
      (l : List NodeAssignment) (node : Node) (s : State cluster.World) (b : NodeAssignment)
      → All (λ a. is_known_mode a.mode ≡ true) l
      → first_needing l s.wc.assignment_changes ≡ some b
      → (is_known_mode b.mode ≡ true) × (assign_first cluster l node s ≡ take_it node b s)
  unfolding first_needing
  assign_first-some [] node s b k h = absurd (cc h)
  assign_first-some (a ∷ l) node s b k h = elim (Bool-cases (needs a s)) [
    | inl e ↦
        let same : a ≡ b = ground arith in
        (rw (← same) k.0, assign_first_step a l node s ∙ rw e (ap (λ x. take_it node x s) same))
    | inr e ↦
        let (k', q) = assign_first-some l node s b k.1 (rw e at h) in
        (k', assign_first_step a l node s ∙ rw e q)
  ]
