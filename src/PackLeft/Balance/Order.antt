-- ===== src/PackLeft/Balance/Order.antt =====
-- Sorting and filtering keep which nodes there are.
use kube_valet.Prelude.{
  String, ◌≡◌, refl, ap, ◌∙◌, Bool, false, ◌||◌, List, [], ◌∷◌, ◌==◌, arith, eq_sym, map, elem, All,
  Bool-cases, inl, inr, Map, filter,
}
use kube_valet.Kube.Objects.{Node}
use kube_valet.Kube.Pods.{Pod}
use kube_valet.NodeAssignments.Reconcile.Loop.{node_names, DistinctNodes}
use kube_valet.PackLeft.{node_can_be_balanced}
use kube_valet.PackLeft.Fullness.{Floats}
use kube_valet.PackLeft.Balance.{
  AssignmentContext, balanceable, insert_sorted, sort_slice, is_before,
}

module _ (floats : Floats) where
  abbrev pub context_nodes : List (AssignmentContext floats) → List Node
  context_nodes = map (λ c. c.node)

  elem-insert_sorted :
      (j : String) (a : AssignmentContext floats) (l : List (AssignmentContext floats))
      → elem j (node_names (context_nodes (insert_sorted floats a l)))
        ≡ j == a.node.name || elem j (node_names (context_nodes l))
  elem-insert_sorted j a [] = refl
  elem-insert_sorted j a (b ∷ l) = ground (arith, elem-insert_sorted j a l)

  DistinctNodes-insert_sorted :
      (a : AssignmentContext floats) (l : List (AssignmentContext floats))
      → elem a.node.name (node_names (context_nodes l)) ≡ false
      → DistinctNodes (context_nodes l)
      → DistinctNodes (context_nodes (insert_sorted floats a l))
  DistinctNodes-insert_sorted a [] e d = (refl, tt)
  DistinctNodes-insert_sorted a (b ∷ l) e d = elim (Bool-cases (is_before floats b a)) [
    | inl h ↦ rw h (
      ground (arith, elem-insert_sorted b.node.name a l, eq_sym a.node.name b.node.name),
      DistinctNodes-insert_sorted a l (ground arith) d.1,
    )
    | inr h ↦ rw h (e, d)
  ]

  pub elem-sort_slice :
      (j : String) (l : List (AssignmentContext floats))
      → elem j (node_names (context_nodes (sort_slice floats l)))
        ≡ elem j (node_names (context_nodes l))
  elem-sort_slice j [] = refl
  elem-sort_slice j (a ∷ l) =
      elem-insert_sorted j a (sort_slice floats l)
      ∙ ap (λ b. j == a.node.name || b) (elem-sort_slice j l)

  pub DistinctNodes-sort_slice :
      (l : List (AssignmentContext floats))
      → DistinctNodes (context_nodes l)
      → DistinctNodes (context_nodes (sort_slice floats l))
  DistinctNodes-sort_slice [] d = tt
  DistinctNodes-sort_slice (a ∷ l) d =
      DistinctNodes-insert_sorted a (sort_slice floats l) (elem-sort_slice a.node.name l ∙ d.0)
        (DistinctNodes-sort_slice l d.1)

  module _ {κ} (P : Node → Type κ) where
    All-insert_sorted :
        (a : AssignmentContext floats) (l : List (AssignmentContext floats))
        → P a.node
        → All P (context_nodes l)
        → All P (context_nodes (insert_sorted floats a l))
    All-insert_sorted a [] p h = (p, tt)
    All-insert_sorted a (b ∷ l) p h = elim (Bool-cases (is_before floats b a)) [
      | inl e ↦ rw e (h.0, All-insert_sorted a l p h.1)
      | inr e ↦ rw e (p, h)
    ]

    pub All-sort_slice :
        (l : List (AssignmentContext floats))
        → All P (context_nodes l)
        → All P (context_nodes (sort_slice floats l))
    All-sort_slice [] h = tt
    All-sort_slice (a ∷ l) h = All-insert_sorted a (sort_slice floats l) h.0 (All-sort_slice l h.1)

  -- The contexts are those of the nodes that can be balanced.
  pub nodes-balanceable :
      (pods : Map (List Pod)) (nodes : List Node)
      → context_nodes (balanceable floats pods nodes) ≡ filter node_can_be_balanced nodes
  unfolding balanceable
  nodes-balanceable pods [] = refl
  nodes-balanceable pods (node ∷ nodes) = elim (Bool-cases (node_can_be_balanced node)) [
    | inl e ↦ rw e (ap (λ l. node ∷ l) (nodes-balanceable pods nodes))
    | inr e ↦ rw e (nodes-balanceable pods nodes)
  ]

pub All-filter {κ} :
    (P : Node → Type κ) (p : Node → Bool) (nodes : List Node) → All P nodes → All P (filter p nodes)
All-filter P p [] h = tt
All-filter P p (n ∷ nodes) h = elim (Bool-cases (p n)) [
  | inl e ↦ rw e (h.0, All-filter P p nodes h.1)
  | inr e ↦ rw e (All-filter P p nodes h.1)
]

elem-filter :
    (p : Node → Bool) (j : String) (nodes : List Node)
    → elem j (node_names nodes) ≡ false
    → elem j (node_names (filter p nodes)) ≡ false
elem-filter p j [] h = refl
elem-filter p j (n ∷ nodes) h = ground (arith, elem-filter p j nodes)

pub DistinctNodes-filter :
    (p : Node → Bool) (nodes : List Node) → DistinctNodes nodes → DistinctNodes (filter p nodes)
DistinctNodes-filter p [] d = tt
DistinctNodes-filter p (n ∷ nodes) d = elim (Bool-cases (p n)) [
  | inl e ↦ rw e (elem-filter p n.name nodes d.0, DistinctNodes-filter p nodes d.1)
  | inr e ↦ rw e (DistinctNodes-filter p nodes d.1)
]
