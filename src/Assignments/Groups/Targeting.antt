-- ===== src/Assignments/Groups/Targeting.antt =====
-- Which nodes a group targets.
use kube_valet.Prelude.{
  String, ◌≡◌, refl, ◌↔◌, ◌≢◌, true, none, some, [], ◌∷◌, arith, eq_iff, inl, inr, Option-cases,
  Map, lookup,
}
use kube_valet.Kube.Objects.{LabelMap, Node}
use kube_valet.Kube.Labels.{get_label}
use kube_valet.Assignments.Types.{NodeAssignmentGroup}
use kube_valet.Assignments.Groups.{
  protected_node_label_key, protected_label_value, match_labels, is_protected, targets_node,
}

-- No key has two entries, as in every Go map.
abbrev pub UniqueKeys {ℓ} : {V : Type ℓ} → Map V → Type ℓ
UniqueKeys [] = Unit
UniqueKeys ((k, v) ∷ m) = (lookup k m ≡ none) × UniqueKeys m

-- Every label that is asked for is there, with its value.
abbrev pub Matches : Map String → LabelMap → Type 0
Matches wanted labels = (k v : String) → lookup k wanted ≡ some v → get_label k labels ≡ some v

match→Matches :
    (wanted : Map String) (labels : LabelMap)
    → match_labels wanted labels ≡ true
    → Matches wanted labels
unfolding match_labels lookup
match→Matches [] labels h k v e = ground arith
match→Matches ((j, w) ∷ wanted) labels h k v e = elim (Option-cases (get_label j labels)) [
  | inl gone ↦ ground arith
  | inr (val, here) ↦ ground (
    arith,
    eq_iff w val,
    eq_iff j k,
    match→Matches wanted labels (ground (arith, eq_iff w val)) k v,
  )
]

Matches→match :
    (wanted : Map String) (labels : LabelMap)
    → UniqueKeys wanted
    → Matches wanted labels
    → match_labels wanted labels ≡ true
unfolding match_labels lookup
Matches→match [] labels u m = refl
Matches→match ((j, w) ∷ wanted) labels u m = ground (
  arith,
  eq_iff w w,
  eq_iff j j,
  m j w,
  Matches→match wanted labels u.1 (λ k v e. m k v (ground (arith, u.0, eq_iff j k))),
)

is_protected_iff :
    (labels : LabelMap)
    → (is_protected labels ≡ true)
      ↔ (get_label protected_node_label_key labels ≡ some protected_label_value)
unfolding is_protected
is_protected_iff labels = elim (Option-cases (get_label protected_node_label_key labels)) [
  | inl gone ↦ ground arith
  | inr (val, here) ↦ ground (arith, eq_iff val protected_label_value)
]

-- A node is targeted exactly when it is not protected and has every target label with its value,
-- where no target label is listed twice. This speaks of the keys of the map of target labels alone, so the order in which `range` visits
-- them does not matter.
pub targets_node_iff :
    (nag : NodeAssignmentGroup) (node : Node)
    → UniqueKeys nag.target_labels
    → (targets_node nag node ≡ true) ↔ (
        (get_label protected_node_label_key node.labels ≢ some protected_label_value)
        × Matches nag.target_labels node.labels)
unfolding targets_node
targets_node_iff nag node u = (
  λ t. (
    λ p. ground (arith, (is_protected_iff node.labels).1 p),
    match→Matches nag.target_labels node.labels (ground arith),
  ),
  λ h.
      ground (
        arith,
        is_protected_iff node.labels,
        Matches→match nag.target_labels node.labels u h.1,
        h.0,
      ),
)
