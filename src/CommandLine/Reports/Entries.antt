-- ===== src/CommandLine/Reports/Entries.antt =====
-- The row of a node in the report of groupReportByNode.
use Prim.Native.Char.{Char, code}
use Prim.Native.String
use Prim.Native.String.{String}
use Prim.Native.String.append
use text.Mathlib.TextEquality.{Char-path}
use text.Mathlib.TextLemmas.{append_assoc}
use mathlib.Core.Path.{ap₂}
use mathlib.Core.List
use kube_valet.Prelude.{
  ℕ, ◌≡◌, refl, sym, ap, ◌∙◌, subst, Bool, true, false, Option, none, some, List, [], ◌∷◌, arith,
  eq_refl, nat_eq, if◌then◌else◌, elem, Map, lookup, Bool-cases, Option-cases, str-cases, inl, inr,
}
use kube_valet.Outcome.{ok}
use kube_valet.Kube.Objects.{LabelMap, Taint, Node}
use kube_valet.Kube.Labels.{get_label}
use kube_valet.Assignments.Types.{NodeAssignmentGroup}
use kube_valet.Assignments.Groups.{assignment_key, get_assignment}
use kube_valet.PodAssignments.{entries_of}
use kube_valet.CommandLine.Strings.{cut, before_rest, has_prefix, split_n}
use kube_valet.CommandLine.Strings.Cutting.{cut-append}
use kube_valet.CommandLine.Reports.{
  after_slash, nag_prefix, label_entries, taint_entries, protected_entry, node_entries,
}

-- What is left of a text without a prefix.
abbrev pub cut_prefix : String → String → Option String
cut_prefix s String.[] = some s
cut_prefix String.[] (String.◌∷◌ d t) = none
cut_prefix (String.◌∷◌ c s) (String.◌∷◌ d t) =
    if nat_eq (code c) (code d) then cut_prefix s t else none

abbrev is_found : Option String → Bool
is_found none = false
is_found (some s) = true

has_prefix-cut : (s t : String) → has_prefix s t ≡ is_found (cut_prefix s t)
unfolding has_prefix
has_prefix-cut String.[] String.[] = refl
has_prefix-cut (String.◌∷◌ c s) String.[] = refl
has_prefix-cut String.[] (String.◌∷◌ d t) = refl
has_prefix-cut (String.◌∷◌ c s) (String.◌∷◌ d t) = elim (Bool-cases (nat_eq (code c) (code d))) [
  | inl e ↦ rw e (has_prefix-cut s t)
  | inr e ↦ rw e refl
]

cut_prefix-eq : (s t r : String) → cut_prefix s t ≡ some r → s ≡ String.◌++◌ t r
cut_prefix-eq String.[] String.[] r h = cc h ∙ sym (append.nil r)
cut_prefix-eq (String.◌∷◌ c s) String.[] r h = cc h ∙ sym (append.nil r)
cut_prefix-eq String.[] (String.◌∷◌ d t) r h = absurd (cc h)
cut_prefix-eq (String.◌∷◌ c s) (String.◌∷◌ d t) r h = elim (Bool-cases (nat_eq (code c) (code d))) [
  | inl e ↦
      let same : c ≡ d = Char-path c d (ground arith) in
      ap₂ (λ (x : Char) (y : String). String.◌∷◌ x y) same (cut_prefix-eq s t r (rw e at h))
      ∙ sym (append.cons d t r)
  | inr e ↦ absurd (cc (rw e at h))
]

cut_prefix-append : (t r : String) → cut_prefix (String.◌++◌ t r) t ≡ some r
cut_prefix-append String.[] r = ap some (append.nil r)
cut_prefix-append (String.◌∷◌ d t) r =
    subst (λ x. cut_prefix x (String.◌∷◌ d t) ≡ some r) (sym (append.cons d t r))
      (rw (eq_code (code d)) (cut_prefix-append t r))
  where
    eq_code : (n : ℕ) → nat_eq n n ≡ true
    eq_code n = ground arith

abbrev prefix_end : (g : String) → String.◌++◌ "/" g ≡ String.◌∷◌ "/" g
prefix_end g = append.cons "/" String.[] g ∙ ap (String.◌∷◌ "/") (append.nil g)

prefix_parts :
    (g : String)
    → String.◌++◌ nag_prefix g ≡ String.◌++◌ "nag.assignments.kube-valet.io" (String.◌∷◌ "/" g)
prefix_parts g =
    append_assoc "nag.assignments.kube-valet.io" "/" g
    ∙ ap (String.◌++◌ "nag.assignments.kube-valet.io") (prefix_end g)

-- What stands behind the slash of a key with the prefix is what is left without the prefix.
after_prefix :
    (k g : String) → cut_prefix k nag_prefix ≡ some g → after_slash (split_n b'/' 2 k) ≡ ok g
unfolding split_n
after_prefix k g h =
    ap (λ x. after_slash (before_rest (cut b'/' x) (split_n b'/' 1)))
      (cut_prefix-eq k nag_prefix g h ∙ prefix_parts g)
    ∙ ap (λ p. after_slash (before_rest p (split_n b'/' 1)))
        (cut-append "/" "nag.assignments.kube-valet.io" g refl)

-- One entry for each label of an assignment, GROUP/ASSIGNMENT.
abbrev pub listed_labels : Map String → List String
listed_labels [] = []
listed_labels ((k, v) ∷ rest) = elim (cut_prefix k nag_prefix) [
  | none ↦ listed_labels rest
  | some group ↦ String.◌++◌ group (String.◌++◌ "/" v) ∷ listed_labels rest
]

-- One entry for each taint of an assignment, GROUP/ASSIGNMENT:EFFECT.
abbrev pub listed_taints : List Taint → List String
listed_taints [] = []
listed_taints (t ∷ rest) = elim (cut_prefix t.key nag_prefix) [
  | none ↦ listed_taints rest
  | some group ↦
      String.◌++◌ group (String.◌++◌ "/" (String.◌++◌ t.value (String.◌++◌ ":" t.effect)))
      ∷ listed_taints rest
]

label_entries_lem : (m : Map String) → label_entries m ≡ ok (listed_labels m)
unfolding label_entries
label_entries_lem [] = refl
label_entries_lem ((k, v) ∷ rest) = elim (Option-cases (cut_prefix k nag_prefix)) [
  | inl e ↦ rw (has_prefix-cut k nag_prefix) (rw e (label_entries_lem rest))
  | inr (g, e) ↦
      rw (has_prefix-cut k nag_prefix)
        (rw e (rw (after_prefix k g e) (rw (label_entries_lem rest) refl)))
]

taint_entries_lem : (l : List Taint) → taint_entries l ≡ ok (listed_taints l)
unfolding taint_entries
taint_entries_lem [] = refl
taint_entries_lem (t ∷ rest) = elim (Option-cases (cut_prefix t.key nag_prefix)) [
  | inl e ↦ rw (has_prefix-cut t.key nag_prefix) (rw e (taint_entries_lem rest))
  | inr (g, e) ↦
      rw (has_prefix-cut t.key nag_prefix)
        (rw e (rw (after_prefix t.key g e) (rw (taint_entries_lem rest) refl)))
]

elem-append_right :
    (x : String) (xs ys : List String) → elem x ys ≡ true → elem x (List.◌++◌ xs ys) ≡ true
elem-append_right x [] ys h = h
elem-append_right x (z ∷ xs) ys h = ground (arith, elem-append_right x xs ys h)

listed_of_lookup :
    (g v : String) (m : Map String)
    → lookup (String.◌++◌ nag_prefix g) m ≡ some v
    → elem (String.◌++◌ g (String.◌++◌ "/" v)) (listed_labels m) ≡ true
unfolding lookup
listed_of_lookup g v [] h = absurd (cc h)
listed_of_lookup g v ((k, w) ∷ rest) h = elim (str-cases k (String.◌++◌ nag_prefix g)) [
  | inl (e, p) ↦
      let found : cut_prefix k nag_prefix ≡ some g =
        ap (λ x. cut_prefix x nag_prefix) p ∙ cut_prefix-append nag_prefix g in
      let same : w ≡ v = cc (rw e at h) in
      rw found (rw same (rw (eq_refl (String.◌++◌ g (String.◌++◌ "/" v))) refl))
  | inr (e, p) ↦ further (cut_prefix k nag_prefix) (listed_of_lookup g v rest (rw e at h))
]
  where
    further :
        (o : Option String)
        → elem (String.◌++◌ g (String.◌++◌ "/" v)) (listed_labels rest) ≡ true
        → elem (String.◌++◌ g (String.◌++◌ "/" v)) (elim o [
          | none ↦ listed_labels rest
          | some group ↦ String.◌++◌ group (String.◌++◌ "/" w) ∷ listed_labels rest
        ])
          ≡ true
    further none h = h
    further (some group) h = ground arith

listed_assignment :
    (nag : NodeAssignmentGroup) (labels : LabelMap) (a : String)
    → get_label (assignment_key nag) labels ≡ some a
    → elem (String.◌++◌ nag.name (String.◌++◌ "/" a)) (listed_labels (entries_of labels)) ≡ true
unfolding assignment_key get_label
listed_assignment nag none a h = absurd (cc h)
listed_assignment nag (some m) a h = listed_of_lookup nag.name a m h

-- The row of a node is always made. It lists the labels and the taints whose keys begin with the
-- prefix of assignments, without it and in their order, behind a mark where the node is protected; so
-- every assignment that the node has is listed.
pub node_entries_lem :
    (node : Node)
    → (node_entries node
        ≡ ok (
          List.◌++◌ (protected_entry node) (listed_labels (entries_of node.labels)),
          List.◌++◌ (protected_entry node) (listed_taints node.taints),
        ))
      × ((nag : NodeAssignmentGroup) (a : String)
          → get_assignment nag node ≡ some a
          → elem
              (String.◌++◌ nag.name (String.◌++◌ "/" a))
              (List.◌++◌ (protected_entry node) (listed_labels (entries_of node.labels)))
            ≡ true)
unfolding node_entries get_assignment
node_entries_lem node = (
  rw (label_entries_lem (entries_of node.labels)) (rw (taint_entries_lem node.taints) refl),
  λ nag a h.
      elem-append_right _ (protected_entry node) (listed_labels (entries_of node.labels))
        (listed_assignment nag node.labels a h),
)
