-- ===== src/NodeAssignments/Sets.antt =====
-- The nodes that `updateNodeSets` of writer_context.go puts into the set of targeted nodes, as a
-- function of the nodes that the API server lists.
pub mod Rounds
pub mod Listed
pub mod Cleanup
use mathlib.Core.Bool.{false≢true}
use kube_valet.Prelude.{
  String, ◌≡◌, refl, sym, ap, ◌∙◌, subst, Bool, true, false, ◌||◌, Option, none, some, List, [],
  ◌∷◌, ◌==◌, arith, eq_iff, eq_refl, eq_sym, if◌then◌else◌, elem, map, Map, lookup, insert,
  lookup-insert, All, count, Bool-cases, Option-cases, inl, inr,
}
use kube_valet.Kube.Objects.{Taint, Node}
use kube_valet.Assignments.Types.{NodeAssignment, NodeAssignmentGroup}
use kube_valet.Assignments.Groups.{targets_node, get_assignment, unassign}
use kube_valet.Assignments.Groups.Unassign.{get_assignment-unassign, unassign_rest}
use kube_valet.NodeAssignments.WriterContext.{
  WriterContext, Names, add_names, is_default, update_known_assignments,
}
use kube_valet.NodeAssignments.WriterContext.Changes.{holds}
use kube_valet.NodeAssignments.WriterContext.Needed.{names}
use kube_valet.NodeAssignments.WriterContext.Steps.{has_name}
use kube_valet.NodeAssignments.Plan.Convergence.{is_known}
use kube_valet.NodeAssignments.Reconcile.Loop.{node_names, DistinctNodes}

-- The map of known assignments holds the names that the group knows.
abbrev pub Knows : NodeAssignmentGroup → Names → Type 0
Knows nag known = (c : String) → has_name c known ≡ is_known nag (some c)

has_name-insert : (k j : String) (m : Names) → has_name j (insert k tt m) ≡ (k == j || has_name j m)
has_name-insert k j m = ground (arith, lookup-insert k j tt m)

pub has_name-nil : (k : String) → has_name k [] ≡ false
unfolding lookup
has_name-nil k = refl

has_name-add_names :
    (l : List NodeAssignment) (c : String) (m : Names)
    → has_name c (add_names l m) ≡ (has_name c m || elem c (names l))
unfolding add_names
has_name-add_names [] c m = ground arith
has_name-add_names (a ∷ l) c m = ground (
  arith,
  has_name-add_names l c (insert a.name tt m),
  has_name-insert a.name c m,
  eq_iff a.name c,
  eq_iff c a.name,
)

has_name-listed :
    (l : List NodeAssignment) (c : String) → has_name c (add_names l []) ≡ elem c (names l)
has_name-listed l c = has_name-add_names l c [] ∙ rw (has_name-nil c) refl

pub update_known_assignments-Knows :
    (wc : WriterContext) → Knows wc.nag (update_known_assignments wc).known_assignments
unfolding update_known_assignments
update_known_assignments-Knows wc c = go wc.nag.default_assignment
  where
    go :
        (d : Option NodeAssignment)
        → has_name c (elim d [
          | none ↦ add_names wc.nag.assignments []
          | some a ↦ insert a.name tt (add_names wc.nag.assignments [])
        ])
          ≡ (elim d [ none ↦ false | some a ↦ c == a.name ] || elem c (names wc.nag.assignments))
    go none = has_name-listed wc.nag.assignments c
    go (some a) =
        has_name-insert a.name c (add_names wc.nag.assignments [])
        ∙ rw (has_name-listed wc.nag.assignments c) (rw (eq_sym a.name c) refl)

module _ (match_taint : Taint → Taint → Bool) (nag : NodeAssignmentGroup) where
  -- A node as `updateNodeSets` goes on with it: without an assignment that the group does not know.
  unfoldable pub kept : Node → Node
  kept node = if is_known nag (get_assignment nag node) then node else unassign match_taint nag node

  abbrev pub is_targeted : Node → Bool
  is_targeted node = targets_node nag (kept node)

  unfoldable pub targeted : List Node → List Node
  targeted [] = []
  targeted (n ∷ rest) =
      let others = targeted rest in if is_targeted n then kept n ∷ others else others

  pub kept_name : (n : Node) → (kept n).name ≡ n.name
  unfolding kept
  kept_name n = elim (Bool-cases (is_known nag (get_assignment nag n))) [
    | inl e ↦ rw e refl
    | inr e ↦ rw e (unassign_rest match_taint nag n).0
  ]

  pub kept_unknown : (n : Node) → get_assignment nag (unassign match_taint nag n) ≡ none
  kept_unknown n =
      get_assignment-unassign match_taint nag nag n
      ∙ ap (λ b. if b then none else get_assignment nag n) (eq_refl nag.name)

  pub get_assignment-kept :
      (n : Node)
      → get_assignment nag (kept n)
        ≡ (if is_known nag (get_assignment nag n) then get_assignment nag n else none)
  unfolding kept
  get_assignment-kept n = elim (Bool-cases (is_known nag (get_assignment nag n))) [
    | inl e ↦ rw e refl
    | inr e ↦ rw e (kept_unknown n)
  ]

  kept_known : (n : Node) → is_known nag (get_assignment nag (kept n)) ≡ true
  kept_known n = elim (Bool-cases (is_known nag (get_assignment nag n))) [
    | inl e ↦ rw (get_assignment-kept n) (rw e e)
    | inr e ↦ rw (get_assignment-kept n) (rw e refl)
  ]

  -- What holds of every listed node after this choice holds of the targeted ones.
  pub targeted-All {ℓ} :
      (P : Node → Type ℓ) (nodes : List Node)
      → All (λ n. is_targeted n ≡ true → P (kept n)) nodes
      → All P (targeted nodes)
  unfolding targeted
  targeted-All P [] h = tt
  targeted-All P (n ∷ rest) h = elim (Bool-cases (is_targeted n)) [
    | inl e ↦ rw e (h.0 e, targeted-All P rest h.1)
    | inr e ↦ rw e (targeted-All P rest h.1)
  ]

  every_known :
      (nodes : List Node)
      → All (λ n. is_targeted n ≡ true → is_known nag (get_assignment nag (kept n)) ≡ true) nodes
  every_known [] = tt
  every_known (n ∷ rest) = (λ _. kept_known n, every_known rest)

  known_map :
      (l : List Node)
      → All (λ n. is_known nag (get_assignment nag n) ≡ true) l
      → All (λ c. is_known nag c ≡ true) (map (get_assignment nag) l)
  known_map [] h = tt
  known_map (n ∷ l) h = (h.0, known_map l h.1)

  -- The targeted nodes have only assignments that the group knows.
  pub targeted-Known :
      (nodes : List Node)
      → All (λ c. is_known nag c ≡ true) (map (get_assignment nag) (targeted nodes))
  targeted-Known nodes = known_map (targeted nodes) (targeted-All _ nodes (every_known nodes))

  pub elem-targeted :
      (j : String) (nodes : List Node)
      → elem j (node_names nodes) ≡ false
      → elem j (node_names (targeted nodes)) ≡ false
  unfolding targeted
  elem-targeted j [] h = h
  elem-targeted j (n ∷ rest) h = elim (Bool-cases (is_targeted n)) [
    | inl e ↦ rw e (rw (kept_name n) (ground (arith, elem-targeted j rest)))
    | inr e ↦ rw e (elem-targeted j rest (ground arith))
  ]

  pub targeted-Distinct : (nodes : List Node) → DistinctNodes nodes → DistinctNodes (targeted nodes)
  unfolding targeted
  targeted-Distinct [] d = tt
  targeted-Distinct (n ∷ rest) d = elim (Bool-cases (is_targeted n)) [
    | inl e ↦ rw e (rw (kept_name n) (elem-targeted n.name rest d.0), targeted-Distinct rest d.1)
    | inr e ↦ rw e (targeted-Distinct rest d.1)
  ]

  abbrev Apart : List Node → Node → Type 0
  Apart l n = is_targeted n ≡ false → elem n.name (node_names l) ≡ false

  cons-Apart :
      (m : Node) (ms rest : List Node)
      → elem m.name (node_names rest) ≡ false
      → All (Apart ms) rest
      → All (Apart (m ∷ ms)) rest
  cons-Apart m ms [] h a = tt
  cons-Apart m ms (n ∷ rest) h a = (
    λ u. ground (arith, a.0 u, eq_iff m.name n.name, eq_iff n.name m.name),
    cons-Apart m ms rest (ground arith) a.1,
  )

  targeted_head :
      (n : Node) (rest : List Node)
      → is_targeted n ≡ true
      → targeted (n ∷ rest) ≡ kept n ∷ targeted rest
  unfolding targeted
  targeted_head n rest e = rw e refl

  targeted_tail :
      (n : Node) (rest : List Node) → is_targeted n ≡ false → targeted (n ∷ rest) ≡ targeted rest
  unfolding targeted
  targeted_tail n rest e = rw e refl

  -- The name of a node that is not targeted is not that of a targeted node.
  pub targeted-Apart :
      (nodes : List Node) → DistinctNodes nodes → All (Apart (targeted nodes)) nodes
  targeted-Apart [] d = tt
  targeted-Apart (n ∷ rest) d = elim (Bool-cases (is_targeted n)) [
    | inl e ↦
        subst (λ l. All (Apart l) (n ∷ rest)) (sym (targeted_head n rest e))
          (
            λ u. absurd (false≢true (sym u ∙ e)),
            cons-Apart (kept n) (targeted rest) rest (rw (kept_name n) d.0)
                (targeted-Apart rest d.1),
          )
    | inr e ↦
        subst (λ l. All (Apart l) (n ∷ rest)) (sym (targeted_tail n rest e))
          (λ _. elem-targeted n.name rest d.0, targeted-Apart rest d.1)
  ]

  -- Where the nodes that are not targeted have no assignment, those that have one are counted among
  -- the targeted ones.
  pub count-targeted :
      (f : String → Option String) (a : String) (nodes : List Node)
      → All (λ n. is_targeted n ≡ false → f n.name ≡ none) nodes
      → count (λ n. holds a (f n.name)) nodes
        ≡ count (holds a) (map (λ n. f n.name) (targeted nodes))
  unfolding targeted
  count-targeted f a [] h = refl
  count-targeted f a (n ∷ rest) h = elim (Bool-cases (is_targeted n)) [
    | inl e ↦ rw e (rw (kept_name n) (ground (arith, count-targeted f a rest h.1)))
    | inr e ↦ rw e (rw (h.0 e) (count-targeted f a rest h.1))
  ]
