-- ===== src/CommandLine/Groups/Ranges.antt =====
-- The numbers of a group that `valetctl group create` makes.
use mathlib.Core.List
use Prim.Native.String.{String}
use kube_valet.Prelude.{
  ℕ, zero, suc, ◌≡◌, refl, subst, true, List, [], ◌∷◌, ◌==◌, arith, leb, if◌then◌else◌, Map, All,
  Bool-cases, Option-cases, inl, inr, ℤ, pos, negsuc, ◌≤ℤ◌,
}
use kube_valet.Outcome.{Outcome, ok, err, panic, exit, ◌>>=◌}
use kube_valet.Kube.Cluster.{Reply, reply, failed}
use kube_valet.Assignments.Types.{NodeAssignment, NodeAssignmentGroup, mode_label_only}
use kube_valet.CommandLine.Strings.{
  cut_suffix, is_number, value, split_n, negated, parse_digits, parse_int,
}
use kube_valet.CommandLine.Tool.{Flags, Tool}
use kube_valet.CommandLine.Groups.{
  default_number, argument_fields, new_assignment, add_assignment, or_exit, trim_percent,
  add_argument, read_argument, read_arguments, new_group, described_group,
}

abbrev pub Int32 : ℤ → Type 0
Int32 z = (negsuc 2147483647 ≤ℤ z) × (z ≤ℤ pos 2147483647)

-- The count is a number from 0 to the largest int32, and the percentage an int32.
abbrev pub InRange : NodeAssignment → Type 0
InRange a = (pos 0 ≤ℤ a.num_desired) × (a.num_desired ≤ℤ pos 2147483647) × Int32 a.percent_desired

parse_digits-pos :
    (s : String) (z : ℤ)
    → parse_digits 2147483647 pos s ≡ reply z
    → (pos 0 ≤ℤ z) × (z ≤ℤ pos 2147483647)
unfolding parse_digits
parse_digits-pos s z h = ground arith

parse_digits-negated : (s : String) (z : ℤ) → parse_digits 2147483648 negated s ≡ reply z → Int32 z
unfolding parse_digits
parse_digits-negated s z h = elim (Bool-cases (is_number s)) [
  | inr e ↦ absurd (ground arith)
  | inl e ↦ go (value 0 s) (rw e at h)
]
  where
    go :
        (n : ℕ)
        → (if leb n 2147483648 then reply (negated n) else failed "value out of range") ≡ reply z
        → Int32 z
    go zero k = ground arith
    go (suc n) k = ground arith

parse_int-Int32 : (s : String) (z : ℤ) → parse_int s ≡ reply z → Int32 z
unfolding parse_int
parse_int-Int32 String.[] z h = absurd (cc h)
parse_int-Int32 (String.◌∷◌ c s) z h =
    ground
      (arith, parse_digits-negated s z, parse_digits-pos s z, parse_digits-pos (String.◌∷◌ c s) z)

parse_int-number :
    (s : String) (z : ℤ)
    → is_number s ≡ true
    → parse_int s ≡ reply z
    → (pos 0 ≤ℤ z) × (z ≤ℤ pos 2147483647)
unfolding parse_int is_number
parse_int-number String.[] z n h = absurd (cc h)
parse_int-number (String.◌∷◌ c s) z n h = ground (arith, parse_digits-pos (String.◌∷◌ c s) z)

abbrev Ranged : NodeAssignmentGroup → Type 0
Ranged nag = All InRange nag.assignments

add-Ranged :
    (a : NodeAssignment) (l : List NodeAssignment)
    → All InRange l
    → InRange a
    → All InRange (List.◌++◌ l (a ∷ []))
add-Ranged a [] h k = (k, tt)
add-Ranged a (b ∷ l) h k = (h.0, add-Ranged a l h.1 k)

-- Every group that a call may return has its numbers in range.
abbrev Keeps : Outcome NodeAssignmentGroup → Type 0
Keeps (ok nag) = Ranged nag
Keeps (err e) = Unit
Keeps panic = Unit
Keeps exit = Unit

added :
    (r : Reply ℤ) (make : ℤ → NodeAssignment) (nag : NodeAssignmentGroup)
    → Ranged nag
    → ((z : ℤ) → r ≡ reply z → InRange (make z))
    → Keeps (or_exit r >>= λ z. ok (add_assignment (make z) nag))
added (reply z) make nag h k = add-Ranged (make z) nag.assignments h (k z refl)
added (failed e) make nag h k = tt

add_argument-Keeps :
    (name num mode : String) (nag : NodeAssignmentGroup)
    → Ranged nag
    → Keeps (add_argument name num mode nag)
unfolding add_argument
add_argument-Keeps name num mode nag h = elim (Bool-cases (num == default_number)) [
  | inl e ↦ rw e h
  | inr e ↦ rw e (elim (Option-cases (cut_suffix num "%")) [
    | inr (t, p) ↦ rw p (
        added (parse_int t) (λ z. new_assignment name mode (pos 0) z) nag h
          (λ z q. (omega arith, omega arith, parse_int-Int32 t z q)))
    | inl p ↦ rw p (elim (Bool-cases (is_number num)) [
      | inr n ↦ rw n tt
      | inl n ↦ rw n (
          added (parse_int (trim_percent num)) (λ z. new_assignment name mode z (pos 0)) nag h
            (λ z q.
              let r = parse_int-number num z n (rw (p, trim_percent) at q) in
              (r.0, r.1, (omega arith, omega arith))))
    ])
  ])
]

read_argument-Keeps :
    (assign : String) (nag : NodeAssignmentGroup) → Ranged nag → Keeps (read_argument assign nag)
unfolding read_argument argument_fields
read_argument-Keeps assign nag h = go (split_n b':' 3 assign)
  where
    go : (parts : List String) → Keeps (argument_fields parts >>= λ f. add_argument f.0 f.1 f.2 nag)
    go [] = tt
    go (name ∷ []) = add_argument-Keeps name default_number mode_label_only nag h
    go (name ∷ num ∷ []) = add_argument-Keeps name num mode_label_only nag h
    go (name ∷ num ∷ mode ∷ []) = add_argument-Keeps name num mode nag h
    go (name ∷ num ∷ mode ∷ more ∷ rest) = tt

continued :
    (o : Outcome NodeAssignmentGroup) (f : NodeAssignmentGroup → Outcome NodeAssignmentGroup)
    → Keeps o
    → ((nag : NodeAssignmentGroup) → Ranged nag → Keeps (f nag))
    → Keeps (o >>= f)
continued (ok nag) f k h = h nag k
continued (err e) f k h = tt
continued panic f k h = tt
continued exit f k h = tt

read_arguments-Keeps :
    (args : List String) (nag : NodeAssignmentGroup) → Ranged nag → Keeps (read_arguments args nag)
unfolding read_arguments
read_arguments-Keeps [] nag h = h
read_arguments-Keeps (a ∷ rest) nag h =
    continued (read_argument a nag) (read_arguments rest) (read_argument-Keeps a nag h)
      (λ nag' k. read_arguments-Keeps rest nag' k)

module _ (tool : Tool) where
  -- In a group that groupCreate makes of its flags, counts are from 0 to the largest int32, and
  -- percentages are int32, which may be negative.
  pub described_group-InRange :
      (flags : Flags) (nag : NodeAssignmentGroup)
      → described_group tool flags ≡ ok nag
      → All InRange nag.assignments
  unfolding described_group
  described_group-InRange flags nag h =
      subst Keeps h (from (tool.selector_to_labels flags.group_target_labels))
    where
      from :
          (r : Reply (Map String))
          → Keeps (
              or_exit r >>= λ labels.
              read_arguments flags.group_assignments (new_group flags.group_name labels))
      from (reply labels) =
          read_arguments-Keeps flags.group_assignments (new_group flags.group_name labels) tt
      from (failed e) = tt
