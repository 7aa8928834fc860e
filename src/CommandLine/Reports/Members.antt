-- ===== src/CommandLine/Reports/Members.antt =====
-- The members of the assignments of a group in the report of groupReportByNag.
use mathlib.Core.List.{append_assoc, append-nil}
use kube_valet.Prelude.{
  String, ◌≡◌, refl, sym, ap, ◌∙◌, Bool, true, false, none, some, List, [], ◌∷◌, ◌++◌, map, ◌==◌,
  arith, eq_iff, if◌then◌else◌, filter, Map, lookup, insert, lookup-insert, All, Bool-cases,
  str-cases, inl, inr,
}
use kube_valet.Kube.Objects.{LabelMap, Node}
use kube_valet.Kube.Labels.{get_label}
use kube_valet.Assignments.Types.{NodeAssignmentGroup}
use kube_valet.Assignments.Groups.{assignment_key, get_assignment}
use kube_valet.Assignments.Groups.Targeting.{UniqueKeys}
use kube_valet.NodeAssignments.WriterContext.Changes.{holds, has_assignment}
use kube_valet.PodAssignments.{entries_of}
use kube_valet.CommandLine.Rules.{nag_label}
use kube_valet.CommandLine.Reports.{get_list, add_member, assignment_members}

pub get_list-insert :
    (k j : String) (l : List String) (m : Map (List String))
    → get_list j (insert k l m) ≡ (if k == j then l else get_list j m)
unfolding get_list
get_list-insert k j l m = ground (arith, lookup-insert k j l m)

-- Without the key nothing is added.
add_member_absent :
    (key name : String) (l : Map String) (m : Map (List String))
    → lookup key l ≡ none
    → add_member key name l m ≡ m
unfolding add_member lookup
add_member_absent key name [] m h = refl
add_member_absent key name ((k, v) ∷ l) m h = elim (Bool-cases (k == key)) [
  | inl e ↦ absurd (cc (rw e at h))
  | inr e ↦ rw e (add_member_absent key name l m (rw e at h))
]

abbrev with_name : Bool → List String → String → List String
with_name b l name = if b then l ++ name ∷ [] else l

get_list-add_member :
    (key name a : String) (l : Map String) (m : Map (List String))
    → UniqueKeys l
    → get_list a (add_member key name l m) ≡ with_name (holds a (lookup key l)) (get_list a m) name
unfolding add_member lookup
get_list-add_member key name a [] m u = refl
get_list-add_member key name a ((k, v) ∷ l) m u = elim (str-cases k key) [
  | inl (e, p) ↦ rw e (
      ap (get_list a) (add_member_absent key name l _ (ap (λ x. lookup x l) (sym p) ∙ u.0))
      ∙ get_list-insert v a (get_list v m ++ name ∷ []) m
      ∙ ground (arith, eq_iff v a))
  | inr (e, p) ↦ rw e (get_list-add_member key name a l m u.1)
]

-- The labels of the node list no key twice.
abbrev pub UniqueLabels : Node → Type 0
UniqueLabels n = UniqueKeys (entries_of n.labels)

entry_label :
    (key : String) (labels : LabelMap) → lookup key (entries_of labels) ≡ get_label key labels
unfolding get_label lookup
entry_label key none = refl
entry_label key (some m) = refl

same_key : (nag : NodeAssignmentGroup) → nag_label nag.name ≡ assignment_key nag
unfolding nag_label assignment_key
same_key nag = refl

-- The names of the nodes that have the assignment, in the order of the list.
abbrev pub nodes_with : NodeAssignmentGroup → String → List Node → List String
nodes_with nag a nodes = map (λ n. n.name) (filter (has_assignment nag a) nodes)

-- Where no node's labels list a key twice, the members of an assignment are the nodes that have it.
pub get_list-assignment_members :
    (nag : NodeAssignmentGroup) (a : String) (nodes : List Node) (m : Map (List String))
    → All UniqueLabels nodes
    → get_list a (assignment_members nag nodes m) ≡ get_list a m ++ nodes_with nag a nodes
unfolding assignment_members get_assignment
get_list-assignment_members nag a [] m u = sym (append-nil (get_list a m))
get_list-assignment_members nag a (n ∷ nodes) m u =
    get_list-assignment_members nag a nodes _ u.1
    ∙ ap (λ l. l ++ nodes_with nag a nodes)
        (get_list-add_member (nag_label nag.name) n.name a (entries_of n.labels) m u.0
          ∙ ap (λ o. with_name (holds a o) (get_list a m) n.name)
              (entry_label (nag_label nag.name) n.labels
                ∙ ap (λ k. get_label k n.labels) (same_key nag)))
    ∙ ends (has_assignment nag a n)
  where
    ends :
        (b : Bool)
        → with_name b (get_list a m) n.name ++ nodes_with nag a nodes
          ≡ get_list a m
            ++ map
                (λ x. x.name)
                (if b
                  then n ∷ filter (has_assignment nag a) nodes
                  else filter (has_assignment nag a) nodes)
    ends true = append_assoc (get_list a m) (n.name ∷ []) (nodes_with nag a nodes)
    ends false = refl
