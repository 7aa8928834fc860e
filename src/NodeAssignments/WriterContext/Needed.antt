-- ===== src/NodeAssignments/WriterContext/Needed.antt =====
-- The map of needed changes: for each assignment the desired number less the current one.
use kube_valet.Prelude.{
  ℕ, String, ◌≡◌, refl, false, List, [], ◌∷◌, ◌==◌, arith, eq_iff, if◌then◌else◌, map, elem, ℤ, pos,
  ◌-ℤ◌, eqb_ℤ, Map, lookup, insert, All, Bool-cases, inl, inr,
}
use kube_valet.Assignments.Types.{NodeAssignment}
use kube_valet.NodeAssignments.WriterContext.{get_int, desired, needed_changes}
use kube_valet.NodeAssignments.WriterContext.Changes.{get_int-insert, zero_of_eqb}

abbrev pub names : List NodeAssignment → List String
names = map (λ a. a.name)

-- No two assignments share a name.
abbrev pub DistinctNames : List NodeAssignment → Type 0
DistinctNames [] = Unit
DistinctNames (a ∷ rest) = (elem a.name (names rest) ≡ false) × DistinctNames rest

module _ (targeted : ℕ) (current : Map ℤ) where
  abbrev needed : NodeAssignment → ℤ
  needed a = desired targeted a -ℤ get_int a.name current

  -- One round of the loop writes the key of its assignment only.
  round :
      (a : NodeAssignment) (m : Map ℤ) (j : String)
      → get_int j (if eqb_ℤ (needed a) (pos 0) then m else insert a.name (needed a) m) ≡ (
          if eqb_ℤ (needed a) (pos 0)
          then get_int j m
          else if a.name == j
          then needed a
          else get_int j m)
  round a m j = elim (Bool-cases (eqb_ℤ (needed a) (pos 0))) [
    | inl z ↦ rw z
    | inr z ↦ rw z (get_int-insert a.name j (needed a) m)
  ]

  needed_changes_other :
      (l : List NodeAssignment) (m : Map ℤ) (j : String)
      → elem j (names l) ≡ false
      → get_int j (needed_changes targeted current l m) ≡ get_int j m
  unfolding needed_changes
  needed_changes_other [] m j h = refl
  needed_changes_other (a ∷ rest) m j h = ground (
    arith,
    needed_changes_other rest (if eqb_ℤ (needed a) (pos 0) then m else insert a.name (needed a) m)
        j,
    round a m j,
    eq_iff a.name j,
    eq_iff j a.name,
  )

  abbrev Unset : Map ℤ → List NodeAssignment → Type 0
  Unset m = All (λ b. get_int b.name m ≡ pos 0)

  Unset-round :
      (a : NodeAssignment) (m : Map ℤ) (l : List NodeAssignment)
      → elem a.name (names l) ≡ false
      → Unset m l
      → Unset (if eqb_ℤ (needed a) (pos 0) then m else insert a.name (needed a) m) l
  Unset-round a m [] h u = tt
  Unset-round a m (b ∷ l) h u =
      (ground (arith, round a m b.name), Unset-round a m l (ground arith) u.1)

  needed_changes_own :
      (l : List NodeAssignment) (m : Map ℤ)
      → DistinctNames l
      → Unset m l
      → All (λ a. get_int a.name (needed_changes targeted current l m) ≡ needed a) l
  unfolding needed_changes
  needed_changes_own [] m d u = tt
  needed_changes_own (a ∷ rest) m d u =
      let m' = if eqb_ℤ (needed a) (pos 0) then m else insert a.name (needed a) m in
      (
        ground (
          arith,
          needed_changes_other rest m' a.name,
          round a m a.name,
          zero_of_eqb (needed a),
          eq_iff a.name a.name,
        ),
        needed_changes_own rest m' d.1 (Unset-round a m rest d.0 u.1),
      )

  Unset-nil : (l : List NodeAssignment) → Unset [] l
  unfolding get_int lookup
  Unset-nil [] = tt
  Unset-nil (a ∷ l) = (refl, Unset-nil l)

  -- If no two assignments share a name, then from an empty map the loop leaves, for each of them, the
  -- desired number less the current one.
  pub needed_changes_lem :
      (l : List NodeAssignment)
      → DistinctNames l
      → All (λ a. get_int a.name (needed_changes targeted current l []) ≡ needed a) l
  needed_changes_lem l d = needed_changes_own l [] d (Unset-nil l)
