-- ===== src/NodeAssignments/WriterContext/Changes.antt =====
-- The maps of current numbers and of needed changes, read by their keys.
use kube_valet.Prelude.{
  ℕ, suc, String, ◌≡◌, refl, ap, ◌∙◌, Bool, true, false, ◌||◌, Option, none, some, List, [], ◌∷◌,
  ◌==◌, arith, eq_iff, eq_refl, str-cases, inl, inr, Bool-cases, if◌then◌else◌, count, ℤ, pos,
  negsuc, ◌+ℤ◌, ltb_ℤ, eqb_ℤ, quot, mul_ℕ, int_laws, ◌≤ℤ◌, Map, insert, remove, lookup-insert,
  lookup-remove,
}
use kube_valet.Kube.Objects.{Node}
use kube_valet.Assignments.Types.{NodeAssignment, NodeAssignmentGroup}
use kube_valet.Assignments.Groups.{get_assignment}
use kube_valet.NodeAssignments.WriterContext.{
  is_default, get_int, tally, count_current, desired, change_by, may_leave,
}

pub get_int-insert :
    (k j : String) (d : ℤ) (m : Map ℤ)
    → get_int j (insert k d m) ≡ (if k == j then d else get_int j m)
unfolding get_int
get_int-insert k j d m = ground (arith, lookup-insert k j d m)

get_int-remove :
    (k j : String) (m : Map ℤ) → get_int j (remove k m) ≡ (if k == j then pos 0 else get_int j m)
unfolding get_int
get_int-remove k j m = ground (arith, lookup-remove k j m)

pub zero_of_eqb : (n : ℤ) → eqb_ℤ n (pos 0) ≡ true → n ≡ pos 0
zero_of_eqb n h = ground arith

pub get_int-change_by :
    (d : ℤ) (k j : String) (m : Map ℤ)
    → get_int j (change_by d k m) ≡ (if k == j then get_int k m +ℤ d else get_int j m)
unfolding change_by
get_int-change_by d k j m =
    let n = get_int k m +ℤ d in
    ground
      (arith, get_int-insert k j n m, get_int-remove k j (insert k n m), eq_iff k j, zero_of_eqb n)

-- A node may leave exactly when the number of its assignment is to fall, or it is the default.
pub may_leave-eq :
    (nag : NodeAssignmentGroup) (m : Map ℤ) (ca : String)
    → may_leave nag m ca ≡ (ltb_ℤ (get_int ca m) (pos 0) || is_default nag ca)
unfolding may_leave get_int
may_leave-eq nag m ca = ground arith

share_nonneg : (t : ℕ) (p : ℤ) → pos 0 ≤ℤ p → pos 0 ≤ℤ quot (mul_ℕ t p) 100
share_nonneg t (pos n) h = omega arith
share_nonneg t (negsuc n) h = absurd (omega arith)

at_least_one :
    (share num : ℤ)
    → pos 0 ≤ℤ share
    → let least = if eqb_ℤ share (pos 0) then pos 1 else share in
      pos 1 ≤ℤ (if ltb_ℤ least num then num else least)
at_least_one share num h = ground arith

-- The desired number is at least 1 where the percentage is not negative.
pub desired_pos :
    (targeted : ℕ) (a : NodeAssignment) → pos 0 ≤ℤ a.percent_desired → pos 1 ≤ℤ desired targeted a
unfolding desired
desired_pos targeted a h =
    at_least_one (quot (mul_ℕ targeted a.percent_desired) 100) a.num_desired
      (share_nonneg targeted a.percent_desired h)

one_more :
    (d : ℤ) (b : Bool) (n : ℕ)
    → d +ℤ pos (if b then 1 else 0) +ℤ pos n ≡ d +ℤ pos (if b then suc n else n)
one_more d true n = omega int_laws
one_more d false n = omega int_laws

-- Whether an assignment, if there is one, is `a`.
abbrev pub holds : String → Option String → Bool
holds a none = false
holds a (some c) = c == a

abbrev pub has_assignment : NodeAssignmentGroup → String → Node → Bool
has_assignment nag a node = holds a (get_assignment nag node)

get_int-tally :
    (nag : NodeAssignmentGroup) (o : Option String) (m : Map ℤ) (a : String)
    → is_default nag a ≡ false
    → get_int a (tally nag o m) ≡ get_int a m +ℤ pos (if holds a o then 1 else 0)
unfolding tally
get_int-tally nag none m a h = omega int_laws
get_int-tally nag (some c) m a h = elim (str-cases c a) [
  | inl (e, p) ↦ rw (e, p, h) (rw (get_int-insert a a _ m, eq_refl a) refl)
  | inr (e, p) ↦ rw e (elim (Bool-cases (is_default nag c)) [
    | inl d ↦ rw d (omega int_laws)
    | inr d ↦ rw d (rw (get_int-insert c a _ m, e) (omega int_laws))
  ])
]

-- For an assignment that is not the default, the map of current numbers is raised by the number of
-- the nodes that have it.
pub get_int-count_current :
    (nag : NodeAssignmentGroup) (nodes : List Node) (m : Map ℤ) (a : String)
    → is_default nag a ≡ false
    → get_int a (count_current nag nodes m)
      ≡ get_int a m +ℤ pos (count (has_assignment nag a) nodes)
unfolding count_current
get_int-count_current nag [] m a h = omega int_laws
get_int-count_current nag (node ∷ nodes) m a h =
    get_int-count_current nag nodes (tally nag (get_assignment nag node) m) a h
    ∙ ap (λ d. d +ℤ pos (count (has_assignment nag a) nodes))
        (get_int-tally nag (get_assignment nag node) m a h)
    ∙ one_more (get_int a m) (has_assignment nag a node) (count (has_assignment nag a) nodes)
