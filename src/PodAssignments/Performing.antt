-- ===== src/PodAssignments/Performing.antt =====
-- JSON patches by RFC 6902, for the operations that the program makes.
use kube_valet.Prelude.{
  String, Bool, true, List, [], ◌∷◌, ◌==◌, if◌then◌else◌, Option, none, some, not, ◌||◌, ◌&&◌,
}
use kube_valet.PodAssignments.{
  PodScheduling, PodAssignmentRuleScheduling, PatchValue, selector_value, affinity_value,
  tolerations_value, JsonPatchOperation, merge_strategy_overwrite_all, get_merge_strategy,
  has_entries, is_set, has_tolerations, apply_to_pod,
}

abbrev pub all {ℓ} : {A : Type ℓ} → (A → Bool) → List A → Bool
all p [] = true
all p (x ∷ xs) = p x && all p xs

module _ (Affinity Toleration : Type 0) where
  abbrev Scheduling : Type 0
  Scheduling = PodScheduling Affinity Toleration

  abbrev Op : Type 0
  Op = JsonPatchOperation Affinity Toleration

  abbrev pub path_of : PatchValue Affinity Toleration → String
  path_of (selector_value m) = "/spec/nodeSelector"
  path_of (affinity_value a) = "/spec/affinity"
  path_of (tolerations_value ts) = "/spec/tolerations"

  -- The field of the path is in the pod's document: an empty one is omitted from it.
  abbrev pub has_field : PatchValue Affinity Toleration → Scheduling → Bool
  has_field (selector_value m) pod = has_entries Affinity Toleration pod.node_selector
  has_field (affinity_value a) pod = is_set Affinity Toleration pod.affinity
  has_field (tolerations_value ts) pod = has_tolerations Affinity Toleration pod.tolerations

  abbrev pub set_field : PatchValue Affinity Toleration → Scheduling → Scheduling
  set_field (selector_value m) pod = record pod { node_selector = m }
  set_field (affinity_value a) pod = record pod { affinity = a }
  set_field (tolerations_value ts) pod = record pod { tolerations = ts }

  -- An operation by RFC 6902, for the kind and the paths that occur: `replace` needs a target that
  -- exists, and it is an error where there is none.
  abbrev pub perform : Op → Scheduling → Option Scheduling
  perform o pod =
      if o.op == "replace" && (o.path == path_of o.value) && has_field o.value pod
      then some (set_field o.value pod)
      else none

  -- An operation that fails ends the whole patch.
  abbrev pub perform_all : List Op → Scheduling → Option Scheduling
  perform_all [] pod = some pod
  perform_all (o ∷ rest) pod = elim (perform o pod) [
    | none ↦ none
    | some changed ↦ perform_all rest changed
  ]

  abbrev pub apply_all :
      List (PodAssignmentRuleScheduling Affinity Toleration) → Scheduling → Scheduling
  apply_all [] pod = pod
  apply_all (s ∷ rest) pod = apply_all rest (apply_to_pod Affinity Toleration s pod)

  -- The pod has every field that the rule sets.
  abbrev pub fits : Scheduling → PodAssignmentRuleScheduling Affinity Toleration → Bool
  fits pod s =
      not (get_merge_strategy Affinity Toleration s == merge_strategy_overwrite_all)
      || ((not (has_entries Affinity Toleration s.selector)
            || has_entries Affinity Toleration pod.node_selector)
          && ((not (is_set Affinity Toleration s.affinity_rule)
                || is_set Affinity Toleration pod.affinity)
              && (not (has_tolerations Affinity Toleration s.toleration_rules)
                  || has_tolerations Affinity Toleration pod.tolerations)))
