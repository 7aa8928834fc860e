-- ===== src/NodeAssignments/Plan/Balance.antt =====
-- Each step of a plan keeps, for every assignment but the default, the number of its nodes together
-- with the change that is still needed.
use kube_valet.Prelude.{
  ℕ, suc, String, ◌≡◌, refl, ap, ◌∙◌, Bool, true, false, Option, none, some, List, [], ◌∷◌, ◌==◌,
  eq_sym, str-cases, if◌then◌else◌, ℤ, pos, negsuc, pos_part, neg_part, ◌+ℤ◌, int_laws, Map, count,
  Bool-cases, inl, inr,
}
use kube_valet.Assignments.Types.{NodeAssignment, NodeAssignmentGroup}
use kube_valet.NodeAssignments.WriterContext.{get_int, change_by, may_leave, is_default}
use kube_valet.NodeAssignments.WriterContext.Changes.{holds, get_int-change_by}
use kube_valet.NodeAssignments.Plan.{first_needing, name_of, enter, plan_node, plan}

abbrev pub one : Bool → ℤ
one b = if b then pos 1 else pos 0

combine :
    (b b' : Bool) (n n' : ℕ) (x x₁ x₂ : ℤ)
    → pos n' +ℤ x₂ ≡ pos n +ℤ x₁
    → one b' +ℤ x₁ ≡ one b +ℤ x
    → pos (if b' then suc n' else n') +ℤ x₂ ≡ pos (if b then suc n else n) +ℤ x
combine true true n n' x x₁ x₂ p q =
    omega (int_laws, ap pos_part p, ap neg_part p, ap pos_part q, ap neg_part q)
combine true false n n' x x₁ x₂ p q =
    omega (int_laws, ap pos_part p, ap neg_part p, ap pos_part q, ap neg_part q)
combine false true n n' x x₁ x₂ p q =
    omega (int_laws, ap pos_part p, ap neg_part p, ap pos_part q, ap neg_part q)
combine false false n n' x x₁ x₂ p q =
    omega (int_laws, ap pos_part p, ap neg_part p, ap pos_part q, ap neg_part q)

module _ (nag : NodeAssignmentGroup) (a : String) (named : is_default nag a ≡ false) where
  holds-default : holds a (name_of nag.default_assignment) ≡ false
  holds-default = go nag.default_assignment named
    where
      go :
          (d : Option NodeAssignment)
          → elim d [ none ↦ false | some x ↦ a == x.name ] ≡ false
          → holds a (name_of d) ≡ false
      go none h = refl
      go (some x) h = eq_sym x.name a ∙ h

  enter_balance :
      (m : Map ℤ) (o : Option NodeAssignment)
      → one (holds a (enter nag m o).0) +ℤ get_int a (enter nag m o).1 ≡ get_int a m
  enter_balance m none = rw holds-default (omega int_laws)
  enter_balance m (some b) = elim (str-cases b.name a) [
    | inl (e, p) ↦ rw (get_int-change_by (negsuc 0) b.name a m, e, p) (omega int_laws)
    | inr (e, p) ↦ rw (get_int-change_by (negsuc 0) b.name a m, e) (omega int_laws)
  ]

  pub leave_balance :
      (m : Map ℤ) (c : String) → get_int a (change_by (pos 1) c m) ≡ one (c == a) +ℤ get_int a m
  leave_balance m c = elim (str-cases c a) [
    | inl (e, p) ↦ rw (get_int-change_by (pos 1) c a m, e, p) (omega int_laws)
    | inr (e, p) ↦ rw (get_int-change_by (pos 1) c a m, e) (omega int_laws)
  ]

  plan_node_balance :
      (m : Map ℤ) (c : Option String)
      → one (holds a (plan_node nag m c).0) +ℤ get_int a (plan_node nag m c).1
        ≡ one (holds a c) +ℤ get_int a m
  unfolding plan_node
  plan_node_balance m none = enter_balance m (first_needing nag.assignments m) ∙ omega int_laws
  plan_node_balance m (some c) = elim (Bool-cases (may_leave nag m c)) [
    | inl go ↦ rw go (enter_balance (change_by (pos 1) c m) _ ∙ leave_balance m c)
    | inr stay ↦ rw stay
  ]

  -- For an assignment that is not the default, a plan keeps the number of the nodes that have it
  -- together with its needed change.
  pub plan_balance :
      (m : Map ℤ) (cs : List (Option String))
      → pos (count (holds a) (plan nag m cs).0) +ℤ get_int a (plan nag m cs).1
        ≡ pos (count (holds a) cs) +ℤ get_int a m
  unfolding plan
  plan_balance m [] = refl
  plan_balance m (c ∷ cs) =
      let (c', m') = plan_node nag m c in
      combine (holds a c) (holds a c') (count (holds a) cs) (count (holds a) (plan nag m' cs).0) _ _
        _ (plan_balance m' cs) (plan_node_balance m c)
