-- ===== src/NodeAssignments/Plan/Convergence.antt =====
-- Where a plan ends: no assignment has too many nodes, and all are satisfied if there are enough.
use kube_valet.Prelude.{
  ℕ, suc, ◌≤◌, String, ◌≡◌, refl, subst, ap, ◌∙◌, ◌⊎◌, Bool, true, false, ◌||◌, Option, none, some,
  List, [], ◌∷◌, arith, eq_refl, if◌then◌else◌, ℤ, pos, pos_part, neg_part, ◌+ℤ◌, ◌≤ℤ◌, ◌<ℤ◌, ltb_ℤ,
  int_laws, Map, count, length, Bool-cases, inl, inr, elem, All, All-map,
}
use kube_valet.Assignments.Types.{NodeAssignment, NodeAssignmentGroup}
use kube_valet.NodeAssignments.WriterContext.{get_int, change_by, may_leave, is_default}
use kube_valet.NodeAssignments.WriterContext.Changes.{holds, may_leave-eq}
use kube_valet.NodeAssignments.WriterContext.Needed.{names, DistinctNames}
use kube_valet.NodeAssignments.Plan.{plan_place, plan_node, plan}
use kube_valet.NodeAssignments.Plan.Totals.{is_named, total, total-count, squeeze}
use kube_valet.NodeAssignments.Plan.Balance.{plan_balance}
use kube_valet.NodeAssignments.Plan.Signs.{
  first_needing-needs, first_needing-some, ltb_ℤ→lt, Moves, same, falls, rises, plan_node-Moves,
  place-sign,
}

-- A node has no assignment, one of the list, or the default.
abbrev pub is_known : NodeAssignmentGroup → Option String → Bool
is_known nag none = true
is_known nag (some c) = is_default nag c || elem c (names nag.assignments)

module _ (nag : NodeAssignmentGroup) (a : String) (named : is_default nag a ≡ false) where
  rest_covered :
      (x x' : ℤ) (c : Bool) (n : ℕ)
      → Moves x x' c
      → pos 0 ≤ℤ x +ℤ pos (if c then suc n else n)
      → pos 0 ≤ℤ x' +ℤ pos n
  rest_covered x x' c n (same e (inl f)) h =
      let h' = subst (λ b. pos 0 ≤ℤ x +ℤ pos (if b then suc n else n)) f h in
      omega (int_laws, ap pos_part e, ap neg_part e)
  rest_covered x x' c n (same e (inr f)) h = omega (int_laws, ap pos_part e, ap neg_part e)
  rest_covered x x' c n (falls e f) h = omega (int_laws, ap pos_part e, ap neg_part e)
  rest_covered x x' c n (rises e f g) h =
      let h' = subst (λ b. pos 0 ≤ℤ x +ℤ pos (if b then suc n else n)) g h in
      omega (int_laws, ap pos_part e, ap neg_part e)

  -- If no more nodes are to leave than there are, none is to leave in the end.
  pub plan_nonneg :
      (m : Map ℤ) (cs : List (Option String))
      → pos 0 ≤ℤ get_int a m +ℤ pos (count (holds a) cs)
      → pos 0 ≤ℤ get_int a (plan nag m cs).1
  unfolding plan
  plan_nonneg m [] h = omega int_laws
  plan_nonneg m (c ∷ cs) h =
      plan_nonneg (plan_node nag m c).1 cs
        (rest_covered _ _ _ (count (holds a) cs) (plan_node-Moves nag a named m c) h)

  still_positive : (x x' : ℤ) (c : Bool) → Moves x x' c → pos 0 <ℤ x' → pos 0 <ℤ x
  still_positive x x' c (same e f) h = subst (λ y. pos 0 <ℤ y) e h
  still_positive x x' c (falls e f) h = f
  still_positive x x' c (rises e f g) h = absurd (omega (int_laws, ap pos_part e, ap neg_part e))

  plan_positive :
      (m : Map ℤ) (cs : List (Option String))
      → pos 0 <ℤ get_int a (plan nag m cs).1
      → pos 0 <ℤ get_int a m
  unfolding plan
  plan_positive m [] h = h
  plan_positive m (c ∷ cs) h =
      still_positive _ _ _ (plan_node-Moves nag a named m c)
        (plan_positive (plan_node nag m c).1 cs h)

  before_place : (m : Map ℤ) → pos 0 <ℤ get_int a (plan_place nag m).1 → pos 0 <ℤ get_int a m
  before_place m h = elim (place-sign nag a named m) [
    | inl e ↦ subst (λ y. pos 0 <ℤ y) e h
    | inr (p, _) ↦ p
  ]

  module _ (listed : elem a (names nag.assignments) ≡ true) where
    place_named : (m : Map ℤ) → pos 0 <ℤ get_int a m → is_named nag (plan_place nag m).0 ≡ true
    unfolding plan_place
    place_named m h =
        let (b, e) = first_needing-some nag.assignments m a listed h in
        rw e (first_needing-needs nag.assignments m b e).1

    node_named :
        (m : Map ℤ) (c : Option String)
        → is_known nag c ≡ true
        → pos 0 <ℤ get_int a (plan_node nag m c).1
        → is_named nag (plan_node nag m c).0 ≡ true
    unfolding plan_node
    node_named m none k h =
        place_named m (still_positive _ _ _ (plan_node-Moves nag a named m none) h)
    node_named m (some c) k h = elim (Bool-cases (may_leave nag m c)) [
      | inr stays ↦ rw stays (ground (arith, may_leave-eq nag m c))
      | inl goes ↦ rw goes (
          place_named (change_by (pos 1) c m) (
            before_place _ (
              subst
                (λ b.
                  pos 0
                  <ℤ get_int a
                      (if b then plan_place nag (change_by (pos 1) c m) else (some c, m)).1)
                goes h)))
    ]

    -- If some assignment still needs nodes in the end, every node is in an assignment of the list.
    ends_named :
        (m : Map ℤ) (cs : List (Option String))
        → All (λ c. is_known nag c ≡ true) cs
        → pos 0 <ℤ get_int a (plan nag m cs).1
        → All (λ c. is_named nag c ≡ true) (plan nag m cs).0
    unfolding plan
    ends_named m [] k h = tt
    ends_named m (c ∷ cs) k h = (
      node_named m c k.0 (plan_positive (plan_node nag m c).1 cs h),
      ends_named (plan_node nag m c).1 cs k.1 h,
    )

length-plan :
    (nag : NodeAssignmentGroup) (m : Map ℤ) (cs : List (Option String))
    → length (plan nag m cs).0 ≡ length cs
unfolding plan
length-plan nag m [] = refl
length-plan nag m (c ∷ cs) = ap suc (length-plan nag (plan_node nag m c).1 cs)

self_listed : (l : List NodeAssignment) → All (λ a. elem a.name (names l) ≡ true) l
self_listed [] = tt
self_listed (a ∷ l) =
    (ground (arith, eq_refl a.name), All-map l (λ b h. ground (arith, h)) (self_listed l))

module _ (nag : NodeAssignmentGroup) (m : Map ℤ) (cs : List (Option String)) where
  abbrev final : NodeAssignment → ℕ
  final a = count (holds a.name) (plan nag m cs).0

  abbrev left_over : NodeAssignment → ℤ
  left_over a = get_int a.name (plan nag m cs).1

  -- What is needed now is `want` less what there is.
  abbrev pub Wants : (NodeAssignment → ℕ) → NodeAssignment → Type 0
  Wants want a = pos (count (holds a.name) cs) +ℤ get_int a.name m ≡ pos (want a)

  module _ (want : NodeAssignment → ℕ) where
    within :
        (a : NodeAssignment)
        → is_default nag a.name ≡ false
        → Wants want a
        → (final a ≤ want a) × (pos 0 ≤ℤ left_over a)
    within a named w =
        let covered : pos 0 ≤ℤ get_int a.name m +ℤ pos (count (holds a.name) cs) =
          omega (int_laws, ap pos_part w, ap neg_part w) in
        let rest = plan_nonneg nag a.name named m cs covered in
        let kept = plan_balance nag a.name named m cs ∙ w in
        (omega (int_laws, ap pos_part kept, ap neg_part kept), rest)

    -- No plan leaves an assignment, other than the default, with more nodes than it wants.
    pub plan_within :
        (l : List NodeAssignment)
        → All (λ a. is_default nag a.name ≡ false) l
        → All (Wants want) l
        → All (λ a. count (holds a.name) (plan nag m cs).0 ≤ want a) l
    plan_within [] n w = tt
    plan_within (a ∷ l) n w = ((within a n.0 w.0).0, plan_within l n.1 w.1)

    -- Either some assignment still needs nodes, or all have what they want.
    settled :
        (l : List NodeAssignment)
        → All (λ a. is_default nag a.name ≡ false) l
        → All (λ a. elem a.name (names nag.assignments) ≡ true) l
        → All (Wants want) l
        → ((a : NodeAssignment) × (is_default nag a.name ≡ false)
            × (elem a.name (names nag.assignments) ≡ true)
            × (pos 0 <ℤ left_over a))
          ⊎ All (λ a. final a ≡ want a) l
    settled [] n e w = inr tt
    settled (a ∷ l) n e w = elim (Bool-cases (ltb_ℤ (pos 0) (left_over a))) [
      | inl more ↦ inl (a, n.0, e.0, ltb_ℤ→lt (pos 0) (left_over a) more)
      | inr done ↦ elim (settled l n.1 e.1 w.1) [
        | inl found ↦ inl found
        | inr rest ↦ inr (exact a n.0 w.0 (low (left_over a) done), rest)
      ]
    ]
      where
        low : (x : ℤ) → ltb_ℤ (pos 0) x ≡ false → x ≤ℤ pos 0
        low x h = ground arith

        exact :
            (b : NodeAssignment)
            → is_default nag b.name ≡ false
            → Wants want b
            → left_over b ≤ℤ pos 0
            → final b ≡ want b
        exact b n w low =
            let kept = plan_balance nag b.name n m cs ∙ w in
            let high = (within b n w).1 in omega (int_laws, ap pos_part kept, ap neg_part kept)

    -- If the group has at least as many nodes as its assignments want together, a plan gives every
    -- assignment exactly the number of nodes that it wants.
    pub plan_exact :
        DistinctNames nag.assignments
        → All (λ a. is_default nag a.name ≡ false) nag.assignments
        → All (λ c. is_known nag c ≡ true) cs
        → All (Wants want) nag.assignments
        → total want nag.assignments ≤ length cs
        → All (λ a. count (holds a.name) (plan nag m cs).0 ≡ want a) nag.assignments
    plan_exact d n k w enough = elim (settled nag.assignments n (self_listed nag.assignments) w) [
      | inr done ↦ done
      | inl (a, named, listed, more) ↦
          squeeze final want nag.assignments (plan_within nag.assignments n w) (
            omega (
              arith,
              length-plan nag m cs,
              total-count nag (plan nag m cs).0 d (ends_named nag a.name named listed m cs k more),
            ))
    ]
