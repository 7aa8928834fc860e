-- ===== src/CommandLine/Reports/Table.antt =====
-- The table of groupReportByNag: its columns, and what stands in its rows.
use kube_valet.Prelude.{
  ℕ, ◌≤◌, String, ◌≡◌, refl, ap, ◌∙◌, subst, true, false, some, List, [], ◌∷◌, ◌++◌, map, ◌==◌,
  arith, eq_iff, eq_refl, ◌||◌, if◌then◌else◌, length, elem, Visits, Map, lookup, insert, All,
  All-map, Bool-cases, str-cases, inl, inr,
}
use kube_valet.Kube.Objects.{Node}
use kube_valet.Assignments.Types.{NodeAssignmentGroup}
use kube_valet.Assignments.Groups.{get_assignment}
use kube_valet.NodeAssignments.WriterContext.Changes.{holds, has_assignment}
use kube_valet.PodAssignments.{entries_of}
use kube_valet.CommandLine.Rules.{nag_label}
use kube_valet.CommandLine.Tool.{Tool}
use kube_valet.CommandLine.Reports.{
  get_list, assignment_members, count_rows, is_left, add_member, nag_columns, nag_table,
}
use kube_valet.CommandLine.Reports.Members.{UniqueLabels, nodes_with, get_list-assignment_members}
use kube_valet.CommandLine.Reports.Rows.{DistinctTexts, nth, grid, take_rows-grid}

abbrev keys : Map (List String) → List String
keys m = map (λ e. e.0) m

elem-keys-insert :
    (k j : String) (l : List String) (m : Map (List String))
    → elem j (keys (insert k l m)) ≡ (j == k || elem j (keys m))
unfolding insert
elem-keys-insert k j l [] = refl
elem-keys-insert k j l ((i, v) ∷ m) =
    ground (arith, elem-keys-insert k j l m, eq_iff i k, eq_iff j k, eq_iff j i)

insert-Distinct :
    (k : String) (l : List String) (m : Map (List String))
    → DistinctTexts (keys m)
    → DistinctTexts (keys (insert k l m))
unfolding insert
insert-Distinct k l [] d = (refl, tt)
insert-Distinct k l ((i, v) ∷ m) d = elim (str-cases i k) [
  | inl (e, p) ↦ rw e (subst (λ x. elem x (keys m) ≡ false) p d.0, d.1)
  | inr (e, p) ↦ rw e (elem-keys-insert k i l m ∙ rw e d.0, insert-Distinct k l m d.1)
]

add_member-Distinct :
    (key name : String) (l : Map String) (m : Map (List String))
    → DistinctTexts (keys m)
    → DistinctTexts (keys (add_member key name l m))
unfolding add_member
add_member-Distinct key name [] m d = d
add_member-Distinct key name ((k, v) ∷ l) m d = elim (Bool-cases (k == key)) [
  | inl e ↦
      rw e (add_member-Distinct key name l _ (insert-Distinct v (get_list v m ++ name ∷ []) m d))
  | inr e ↦ rw e (add_member-Distinct key name l m d)
]

members-Distinct :
    (nag : NodeAssignmentGroup) (nodes : List Node) (m : Map (List String))
    → DistinctTexts (keys m)
    → DistinctTexts (keys (assignment_members nag nodes m))
unfolding assignment_members
members-Distinct nag [] m d = d
members-Distinct nag (n ∷ nodes) m d =
    members-Distinct nag nodes _
      (add_member-Distinct (nag_label nag.name) n.name (entries_of n.labels) m d)

le-count_rows : (ls : List (List String)) (n : ℕ) → n ≤ count_rows ls n
unfolding count_rows
le-count_rows [] n = omega arith
le-count_rows (l ∷ ls) n = ground (arith, le-count_rows ls n, le-count_rows ls (length l))

get_list-cons :
    (a k : String) (l : List String) (m : Map (List String))
    → get_list a ((k, l) ∷ m) ≡ (if k == a then l else get_list a m)
unfolding get_list lookup
get_list-cons a k l m = ground arith

-- No list is longer than the number of rows.
length-le-count_rows :
    (a : String) (m : Map (List String)) (n : ℕ)
    → length (get_list a m) ≤ count_rows (map (λ e. e.1) m) n
unfolding count_rows
length-le-count_rows a [] n = unfold get_list lookup in omega arith
length-le-count_rows a ((k, l) ∷ m) n = elim (Bool-cases (k == a)) [
  | inl e ↦ rw (get_list-cons a k l m) (
      rw e (
        ground
          (arith, le-count_rows (map (λ e. e.1) m) n, le-count_rows (map (λ e. e.1) m) (length l))))
  | inr e ↦ rw (get_list-cons a k l m) (rw e (length-le-count_rows a m _))
]

elem-left :
    (a : String) (m : Map (List String)) → is_left (get_list a m) ≡ true → elem a (keys m) ≡ true
unfolding get_list lookup
elem-left a [] h = absurd (cc h)
elem-left a ((k, l) ∷ m) h = ground (arith, eq_iff k a, eq_iff a k, elem-left a m)

members_left :
    (nag : NodeAssignmentGroup) (a : String) (n : Node) (rest : List Node)
    → is_left (nodes_with nag a rest) ≡ true
    → is_left (nodes_with nag a (n ∷ rest)) ≡ true
members_left nag a n rest h = elim (Bool-cases (has_assignment nag a n)) [
  | inl e ↦ rw e refl
  | inr e ↦ rw e h
]

nodes_left :
    (nag : NodeAssignmentGroup) (nodes : List Node)
    → All
        (λ n.
          (a : String) → get_assignment nag n ≡ some a → is_left (nodes_with nag a nodes) ≡ true)
        nodes
nodes_left nag [] = tt
nodes_left nag (n ∷ rest) = (
  λ a e. rw (ap (holds a) e ∙ eq_refl a) refl,
  All-map rest (λ m h a e. members_left nag a n rest (h a e)) (nodes_left nag rest),
)

module _ (tool : Tool) (visit : List String → List String) (visits : Visits visit)
    (once : (l : List String) → DistinctTexts l → DistinctTexts (visit l)) where
  -- If `range` visits every key of a map once, and no node's labels list a key twice, then the table
  -- for a group has a column for every assignment that a node has, and its rows show, from the
  -- first to the last, the names of the nodes with the assignment of each column, in the order of
  -- the nodes, and nothing below them.
  pub nag_table_lem :
      (nag : NodeAssignmentGroup) (nodes : List Node)
      → All UniqueLabels nodes
      → let columns = nag_columns tool visit nag nodes in
        All (λ n. (a : String) → get_assignment nag n ≡ some a → elem a columns ≡ true) nodes
        × ((n : ℕ) × (nag_table tool visit nag nodes
              ≡ grid 0 n columns (λ a. nodes_with nag a nodes))
            × ((a : String) → length (nodes_with nag a nodes) ≤ n))
  unfolding nag_table nag_columns
  nag_table_lem nag nodes u =
      let members = assignment_members nag nodes [] in
      let shown : (a : String) → get_list a members ≡ nodes_with nag a nodes = λ a.
        get_list-assignment_members nag a nodes [] u ∙ nothing_before a (nodes_with nag a nodes) in
      let n = count_rows (map (λ e. e.1) members) 0 in
      (
        All-map nodes
            (λ m h a e.
              visits (keys members) a (elem-left a members (ap is_left (shown a) ∙ h a e)))
            (nodes_left nag nodes),
        (
          n,
          take_rows-grid n 0 (visit (keys members)) (λ a. nodes_with nag a nodes) members
              (once (keys members) (members-Distinct nag nodes [] tt))
              (λ a e k.
                ap (λ l. nth l k) (shown a) ∙ ap (nth (nodes_with nag a nodes)) (omega arith)),
          λ a. subst (λ l. length l ≤ n) (shown a) (length-le-count_rows a members 0),
        ),
      )
    where
      nothing_before : (a : String) (l : List String) → get_list a [] ++ l ≡ l
      nothing_before a l = unfold get_list lookup in refl
