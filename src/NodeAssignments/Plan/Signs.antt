-- ===== src/NodeAssignments/Plan/Signs.antt =====
-- How the needed change of one assignment, which is not the default, moves in one step of a plan.
use kube_valet.Prelude.{
  String, ◌≡◌, refl, subst, ap, ◌∙◌, ◌⊎◌, Bool, true, false, Option, none, some, List, [], ◌∷◌,
  ◌==◌, arith, eq_iff, eq_refl, str-cases, ℤ, pos, negsuc, pos_part, neg_part, ◌+ℤ◌, ◌≤ℤ◌, ◌<ℤ◌,
  ltb_ℤ, int_laws, Map, Bool-cases, Option-cases, inl, inr, elem,
}
use kube_valet.Assignments.Types.{NodeAssignment, NodeAssignmentGroup}
use kube_valet.NodeAssignments.WriterContext.{get_int, change_by, may_leave, is_default}
use kube_valet.NodeAssignments.WriterContext.Changes.{holds, get_int-change_by, may_leave-eq}
use kube_valet.NodeAssignments.WriterContext.Needed.{names}
use kube_valet.NodeAssignments.Plan.{first_needing, plan_place, plan_node}
use kube_valet.NodeAssignments.Plan.Balance.{leave_balance, one}

pub ltb_ℤ→lt : (x y : ℤ) → ltb_ℤ x y ≡ true → x <ℤ y
ltb_ℤ→lt x y h = ground arith

pub first_needing-needs :
    (l : List NodeAssignment) (m : Map ℤ) (b : NodeAssignment)
    → first_needing l m ≡ some b
    → (pos 0 <ℤ get_int b.name m) × (elem b.name (names l) ≡ true)
unfolding first_needing
first_needing-needs [] m b h = ground arith
first_needing-needs (a ∷ l) m b h = elim (Bool-cases (ltb_ℤ (pos 0) (get_int a.name m))) [
  | inl e ↦
      ground (arith, eq_iff b.name a.name, eq_refl b.name, ltb_ℤ→lt (pos 0) (get_int a.name m))
  | inr e ↦ ground (arith, first_needing-needs l m b)
]

-- Where an assignment of the list needs nodes, one is found.
pub first_needing-some :
    (l : List NodeAssignment) (m : Map ℤ) (a : String)
    → elem a (names l) ≡ true
    → pos 0 <ℤ get_int a m
    → (b : NodeAssignment) × (first_needing l m ≡ some b)
unfolding first_needing
first_needing-some [] m a h p = ground arith
first_needing-some (b ∷ l) m a h p = elim (Bool-cases (ltb_ℤ (pos 0) (get_int b.name m))) [
  | inl e ↦ (b, rw e)
  | inr e ↦
      let (b', q) = first_needing-some l m a (ground (arith, eq_iff a b.name)) p in (b', rw e q)
]

-- The change stays, falls by one where it was positive, or rises by one where it was negative and
-- the node leaves the assignment.
pub data Moves (x x' : ℤ) (c : Bool) : Type 0 where
  same : x' ≡ x → (c ≡ false) ⊎ (pos 0 ≤ℤ x) → Moves x x' c
  falls : x' ≡ x +ℤ negsuc 0 → pos 0 <ℤ x → Moves x x' c
  rises : x' ≡ pos 1 +ℤ x → x <ℤ pos 0 → c ≡ true → Moves x x' c

module _ (nag : NodeAssignmentGroup) (a : String) (named : is_default nag a ≡ false) where
  abbrev pub Placed : Map ℤ → Type 0
  Placed m =
      (get_int a (plan_place nag m).1 ≡ get_int a m)
      ⊎ (pos 0 <ℤ get_int a m) × (get_int a (plan_place nag m).1 ≡ get_int a m +ℤ negsuc 0)

  pub place-sign : (m : Map ℤ) → Placed m
  unfolding plan_place
  place-sign m = elim (Option-cases (first_needing nag.assignments m)) [
    | inl e ↦ rw e (inl refl)
    | inr (b, e) ↦ rw e (elim (str-cases b.name a) [
      | inl (t, p) ↦ inr (
        subst (λ n. pos 0 <ℤ get_int n m) p (first_needing-needs nag.assignments m b e).0,
        rw (get_int-change_by (negsuc 0) b.name a m, t, p) refl,
      )
      | inr (t, p) ↦ inl (rw (get_int-change_by (negsuc 0) b.name a m, t) refl)
    ])
  ]

  stays_why :
      (m : Map ℤ) (c : String)
      → may_leave nag m c ≡ false
      → ((c == a) ≡ false) ⊎ (pos 0 ≤ℤ get_int a m)
  stays_why m c h = elim (str-cases c a) [
    | inr (t, _) ↦ inl t
    | inl (_, p) ↦
        inr (ground (arith, may_leave-eq nag m a, subst (λ x. may_leave nag m x ≡ false) p h))
  ]

  -- The steps of `plan_place` after a node has left `c`.
  leaves :
      (m : Map ℤ) (c : String)
      → (c == a) ≡ true
      → c ≡ a
      → may_leave nag m c ≡ true
      → Placed (change_by (pos 1) c m)
      → Moves (get_int a m) (get_int a (plan_place nag (change_by (pos 1) c m)).1) true
  leaves m c t p goes sign =
      let up : get_int a (change_by (pos 1) c m) ≡ pos 1 +ℤ get_int a m =
        leave_balance nag a named m c ∙ ap (λ b. one b +ℤ get_int a m) t in
      let low : get_int a m <ℤ pos 0 =
        ground (arith, may_leave-eq nag m a, subst (λ x. may_leave nag m x ≡ true) p goes, named) in
      elim sign [
        | inl e ↦ rises (e ∙ up) low refl
        | inr (high, e) ↦ absurd (omega (int_laws, ap pos_part up, ap neg_part up))
      ]

  passes :
      (m : Map ℤ) (c : String)
      → (c == a) ≡ false
      → Placed (change_by (pos 1) c m)
      → Moves (get_int a m) (get_int a (plan_place nag (change_by (pos 1) c m)).1) false
  passes m c t sign =
      let up : get_int a (change_by (pos 1) c m) ≡ get_int a m =
        leave_balance nag a named m c
        ∙ ap (λ b. one b +ℤ get_int a m) t
        ∙ (let zero_add : pos 0 +ℤ get_int a m ≡ get_int a m = omega int_laws in zero_add) in
      elim sign [
        | inl e ↦ same (e ∙ up) (inl refl)
        | inr (high, e) ↦ falls (e ∙ ap (λ x. x +ℤ negsuc 0) up) (subst (λ x. pos 0 <ℤ x) up high)
      ]

  pub plan_node-Moves :
      (m : Map ℤ) (c : Option String)
      → Moves (get_int a m) (get_int a (plan_node nag m c).1) (holds a c)
  unfolding plan_node
  plan_node-Moves m none = elim (place-sign m) [
    | inl e ↦ same e (inl refl)
    | inr (p, e) ↦ falls e p
  ]
  plan_node-Moves m (some c) = elim (Bool-cases (may_leave nag m c)) [
    | inr stays ↦ rw stays (same refl (stays_why m c stays))
    | inl goes ↦ rw goes (elim (str-cases c a) [
      | inl (t, p) ↦ rw t (leaves m c t p goes (place-sign (change_by (pos 1) c m)))
      | inr (t, p) ↦ rw t (passes m c t (place-sign (change_by (pos 1) c m)))
    ])
  ]
