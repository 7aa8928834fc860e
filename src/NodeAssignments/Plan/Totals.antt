-- ===== src/NodeAssignments/Plan/Totals.antt =====
-- Sums over the assignments of a group.
use kube_valet.Prelude.{
  ℕ, suc, ◌+◌, ◌≤◌, String, ◌≡◌, refl, sym, subst, ◌∙◌, Bool, true, false, Option, none, some, List,
  [], ◌∷◌, ◌==◌, arith, str-cases, if◌then◌else◌, count, length, Bool-cases, inl, inr, elem, All,
}
use kube_valet.Assignments.Types.{NodeAssignment, NodeAssignmentGroup}
use kube_valet.NodeAssignments.WriterContext.Changes.{holds}
use kube_valet.NodeAssignments.WriterContext.Needed.{names, DistinctNames}

-- The assignment is one of the group's list.
abbrev pub is_named : NodeAssignmentGroup → Option String → Bool
is_named nag none = false
is_named nag (some c) = elem c (names nag.assignments)

-- The numbers of the nodes of the assignments of a list, added up.
abbrev pub total : (NodeAssignment → ℕ) → List NodeAssignment → ℕ
total f [] = 0
total f (a ∷ l) = f a + total f l

absent :
    (l : List NodeAssignment) (c : String)
    → elem c (names l) ≡ false
    → total (λ a. if c == a.name then 1 else 0) l ≡ 0
absent [] c h = refl
absent (a ∷ l) c h = ground (arith, absent l c)

present :
    (l : List NodeAssignment) (c : String)
    → DistinctNames l
    → elem c (names l) ≡ true
    → total (λ a. if c == a.name then 1 else 0) l ≡ 1
present [] c d h = ground arith
present (a ∷ l) c d h = elim (str-cases c a.name) [
  | inl (e, p) ↦
      rw e (omega (arith, absent l c (subst (λ x. elem x (names l) ≡ false) (sym p) d.0)))
  | inr (e, p) ↦ rw e (omega (arith, present l c d.1 (ground arith)))
]

total-zero : (l : List NodeAssignment) → total (λ a. 0) l ≡ 0
total-zero [] = refl
total-zero (a ∷ l) = omega (arith, total-zero l)

total-split :
    (f : NodeAssignment → Bool) (g : NodeAssignment → ℕ) (l : List NodeAssignment)
    → total (λ a. if f a then suc (g a) else g a) l
      ≡ total (λ a. if f a then 1 else 0) l + total g l
total-split f g [] = omega arith
total-split f g (a ∷ l) = elim (Bool-cases (f a)) [
  | inl e ↦ rw e (omega (arith, total-split f g l))
  | inr e ↦ rw e (omega (arith, total-split f g l))
]

-- Where every node is in an assignment of the list, the numbers add up to the number of nodes.
pub total-count :
    (nag : NodeAssignmentGroup) (cs : List (Option String))
    → DistinctNames nag.assignments
    → All (λ c. is_named nag c ≡ true) cs
    → total (λ a. count (holds a.name) cs) nag.assignments ≡ length cs
total-count nag [] d k = total-zero nag.assignments
total-count nag (none ∷ cs) d k = ground arith
total-count nag (some c ∷ cs) d k =
    total-split (λ a. c == a.name) (λ a. count (holds a.name) cs) nag.assignments
    ∙ (let ones = present nag.assignments c d k.0 in
        let rest = total-count nag cs d k.1 in
        let goal : total (λ a. if c == a.name then 1 else 0) nag.assignments
              + total (λ a. count (holds a.name) cs) nag.assignments
            ≡ suc (length cs) =
          omega arith in
        goal)

total_mono :
    (f g : NodeAssignment → ℕ) (l : List NodeAssignment)
    → All (λ a. f a ≤ g a) l
    → total f l ≤ total g l
total_mono f g [] h = omega arith
total_mono f g (a ∷ l) h = omega (arith, total_mono f g l h.1)

-- Numbers that are at most others, and add up to no less, are equal to them.
pub squeeze :
    (f g : NodeAssignment → ℕ) (l : List NodeAssignment)
    → All (λ a. f a ≤ g a) l
    → total g l ≤ total f l
    → All (λ a. f a ≡ g a) l
squeeze f g [] h t = tt
squeeze f g (a ∷ l) h t = (omega (arith, total_mono f g l h.1), squeeze f g l h.1 (omega arith))
