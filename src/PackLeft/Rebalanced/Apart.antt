-- ===== src/PackLeft/Rebalanced/Apart.antt =====
-- The nodes of different assignments of a group are different nodes.
use kube_valet.Prelude.{
  String, ◌≡◌, refl, ◌∙◌, Bool, true, false, ◌&&◌, Option, none, some, List, [], ◌∷◌, ◌==◌, arith,
  eq_iff, eq_sym, elem, filter, All, All-map, All-zip, Map, Bool-cases, inl, inr,
}
use kube_valet.Kube.Objects.{Node}
use kube_valet.Assignments.Types.{NodeAssignmentGroup}
use kube_valet.Assignments.Groups.{targets_node}
use kube_valet.NodeAssignments.WriterContext.Changes.{holds}
use kube_valet.NodeAssignments.Reconcile.Loop.{node_names, DistinctNodes}
use kube_valet.PackLeft.{pack_left_assignment}
use kube_valet.PackLeft.Balance.Order.{All-filter}
use kube_valet.PackLeft.Groups.{is_packed}

-- No node of the list has the name.
abbrev pub Absent : List Node → String → Type 0
Absent l j = elem j (node_names l) ≡ false

module _ (nag : NodeAssignmentGroup) where
  -- The nodes of an assignment that are packed left.
  abbrev pub packed_in : String → Node → Bool
  packed_in a n = targets_node nag n && is_packed nag a n

  packed_once :
      (a b : String) (n : Node) → (a == b) ≡ false → packed_in a n ≡ true → packed_in b n ≡ false
  packed_once a b n d h = go (targets_node nag n) (pack_left_assignment nag n) h
    where
      go : (t : Bool) (o : Option String) → (t && holds a o) ≡ true → (t && holds b o) ≡ false
      go t none h = ground arith
      go t (some c) h = ground (arith, eq_iff a b, eq_iff a c, eq_iff b c, eq_iff c a, eq_iff c b)

  pub filter-Absent :
      (p : Node → Bool) (j : String) (nodes : List Node)
      → Absent nodes j
      → Absent (filter p nodes) j
  filter-Absent p j [] h = refl
  filter-Absent p j (n ∷ nodes) h = ground (arith, filter-Absent p j nodes)

  others_differ :
      (j : String) (nodes : List Node) → Absent nodes j → All (λ n. (n.name == j) ≡ false) nodes
  others_differ j [] h = tt
  others_differ j (n ∷ nodes) h =
      (eq_sym n.name j ∙ ground arith, others_differ j nodes (ground arith))

  -- The nodes of one assignment are not among those of another.
  pub elsewhere-Absent :
      (a b : String) (nodes : List Node)
      → DistinctNodes nodes
      → (a == b) ≡ false
      → All (λ n. Absent (filter (packed_in b) nodes) n.name) (filter (packed_in a) nodes)
  elsewhere-Absent a b [] d h = tt
  elsewhere-Absent a b (n ∷ nodes) d h =
      let later =
        All-map (filter (packed_in a) nodes) (λ m p. absent_more m p.0 p.1)
          (All-zip _ _ (filter (packed_in a) nodes)
            (All-filter (λ m. (m.name == n.name) ≡ false) (packed_in a) nodes
              (others_differ n.name nodes d.0))
            (elsewhere-Absent a b nodes d.1 h)) in
      elim (Bool-cases (packed_in a n)) [
        | inr e ↦ rw e later
        | inl e ↦
            rw e (rw (packed_once a b n h e) (filter-Absent (packed_in b) n.name nodes d.0), later)
      ]
    where
      absent_more :
          (m : Node)
          → (m.name == n.name) ≡ false
          → Absent (filter (packed_in b) nodes) m.name
          → Absent (filter (packed_in b) (n ∷ nodes)) m.name
      absent_more m e k = elim (Bool-cases (packed_in b n)) [
        | inl p ↦ rw p (rw e k)
        | inr p ↦ rw p k
      ]

  abbrev pub Grouped : List Node → Map (List Node) → Type 0
  Grouped nodes groups = All (λ e. e.1 ≡ filter (packed_in e.0) nodes) groups
