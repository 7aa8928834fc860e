-- ===== src/CommandLine/Rules/Matching.antt =====
-- Which nodes the terms of a rule match and which taints its tolerations tolerate, and the terms for an
-- assignment.
use Prim.Native.Char.{Char}
use Prim.Native.String.{◌++◌, count}
use Prim.Native.String.count
use text.Mathlib.TextLemmas.{length-append}
use kube_valet.Prelude.{
  String, ◌≡◌, refl, ap, Bool, true, false, ◌&&◌, ◌||◌, Option, none, some, List, [], ◌∷◌, map,
  ◌==◌, arith, eq_refl, eq_sym, ne→eq_false, if◌then◌else◌, any, elem, Option-cases, inl, inr,
}
use kube_valet.Outcome.{ok}
use kube_valet.Kube.Objects.{Taint, Node, LabelMap}
use kube_valet.Kube.Labels.{get_label}
use kube_valet.Kube.Scheduling.{Requirement, NodeSelectorTerm, NodeAffinity, Toleration}
use kube_valet.CommandLine.Strings.{split}
use kube_valet.CommandLine.Strings.Cutting.{lacks, split-lacks, split-append}
use kube_valet.CommandLine.Tool.{RuleSpec}
use kube_valet.CommandLine.Rules.{nag_label, requirement, tolerate, assignment_term}

-- How Kubernetes reads the two operators that the tool uses: a label is there, and for `In` its value
-- is one of the given ones.
abbrev pub meets : Requirement → Option String → Bool
meets r none = false
meets r (some v) = if r.operator == "In" then elem v r.values else true

abbrev pub meets_all : List Requirement → LabelMap → Bool
meets_all [] labels = true
meets_all (r ∷ rest) labels = meets r (get_label r.key labels) && meets_all rest labels

-- One of the required terms has to match, if there are any.
abbrev pub required_match : Option NodeAffinity → LabelMap → Bool
required_match none labels = true
required_match (some a) labels = elim a.required [
  | none ↦ true
  | some terms ↦ any (λ t. meets_all t.match_expressions labels) terms
]

-- Whether a pod with the rule's affinity may run on a node.
abbrev pub admits : RuleSpec → Node → Bool
admits spec node = elim spec.scheduling.affinity_rule [
  | none ↦ true
  | some a ↦ required_match a.node_affinity node.labels
]

-- A toleration without an effect tolerates all effects, and `Exists` all values.
abbrev pub tolerates : Toleration → Taint → Bool
tolerates tol taint =
    (tol.effect == "" || (tol.effect == taint.effect))
    && (tol.key == taint.key && (tol.operator == "Exists" || (tol.value == taint.value)))

abbrev pub is_tolerated : RuleSpec → Taint → Bool
is_tolerated spec taint = any (λ tol. tolerates tol taint) spec.scheduling.toleration_rules

-- A group, and some of its assignments where they are given.
abbrev pub target_text : String → Option String → String
target_text group none = group
target_text group (some names) = group ++ String.◌∷◌ "/" names

abbrev pub IsTarget : String → Option String → Type 0
IsTarget group none = (lacks b'/' group ≡ true) × ((group == "") ≡ false)
IsTarget group (some names) = (lacks b'/' group ≡ true) × (lacks b'/' names ≡ true)

-- Whether an assignment of the group is meant.
abbrev pub is_meant : Option String → Option String → Bool
is_meant names none = false
is_meant none (some a) = true
is_meant (some names) (some a) = elem a (split b',' names)

abbrev pub term_of : String → Option String → NodeSelectorTerm
term_of group none = requirement (nag_label group) "Exists" []
term_of group (some names) = requirement (nag_label group) "In" (split b',' names)

abbrev pub tolerations_of : String → Option String → List Toleration
tolerations_of group none = tolerate (nag_label group) "Exists" "" ∷ []
tolerations_of group (some names) = map (tolerate (nag_label group) "Equal") (split b',' names)

pub target_split :
    (group : String) (names : Option String)
    → IsTarget group names
    → assignment_term (split b'/' (target_text group names))
      ≡ ok (term_of group names, tolerations_of group names)
unfolding assignment_term
target_split group none h = rw (split-lacks b'/' group h.0) refl
target_split group (some names) h =
    rw (split-append "/" group names h.0) (rw (split-lacks b'/' names h.1) refl)

pub parts_not_empty : (s : String) (c : Char) (t : String) → (s ++ String.◌∷◌ c t == "") ≡ false
parts_not_empty s c t = ne→eq_false _ "" (λ e.
    absurd (omega (arith, ap count e, count.nil, length-append s (String.◌∷◌ c t), count.cons c t)))

pub target_not_empty :
    (group : String) (names : Option String)
    → IsTarget group names
    → (target_text group names == "") ≡ false
target_not_empty group none h = h.1
target_not_empty group (some names) h = parts_not_empty group "/" names

meant_in :
    (r : Requirement) (o : Option String)
    → (r.operator == "In") ≡ true
    → meets r o ≡ elim o [ none ↦ false | some v ↦ elem v r.values ]
meant_in r none e = refl
meant_in r (some v) e = rw e refl

pub term_meant :
    (group : String) (names : Option String) (labels : LabelMap)
    → (meets_all (term_of group names).match_expressions labels || false)
      ≡ is_meant names (get_label (nag_label group) labels)
term_meant group none labels = elim (Option-cases (get_label (nag_label group) labels)) [
  | inl e ↦ rw e refl
  | inr (a, e) ↦ rw e refl
]
term_meant group (some names) labels = elim (Option-cases (get_label (nag_label group) labels)) [
  | inl e ↦ rw e refl
  | inr (a, e) ↦ rw e (ground arith)
]

tolerated_any :
    (key v effect : String) (l : List String)
    → any
        (λ tol. tolerates tol (record { key = key; value = v; effect = effect }))
        (map (tolerate key "Equal") l)
      ≡ elem v l
tolerated_any key v effect [] = refl
tolerated_any key v effect (a ∷ l) =
    rw (eq_refl key) (rw (eq_sym a v) (rw (tolerated_any key v effect l) refl))

pub tolerated_meant :
    (group : String) (names : Option String) (v effect : String)
    → any
        (λ tol. tolerates tol (record { key = nag_label group; value = v; effect = effect }))
        (tolerations_of group names)
      ≡ is_meant names (some v)
tolerated_meant group none v effect = rw (eq_refl (nag_label group)) refl
tolerated_meant group (some names) v effect =
    tolerated_any (nag_label group) v effect (split b',' names)
