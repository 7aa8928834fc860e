-- ===== src/PodAssignments/Patches.antt =====
-- The patches against `ApplyToPod`: what they do to a pod, and in which order rules win.
use mathlib.Core.List.{append-nil, append_assoc}
use kube_valet.Prelude.{
  String, ◌≡◌, refl, ap, ◌∙◌, Bool, true, false, List, [], ◌∷◌, ◌++◌, ◌==◌, Bool-cases, inl, inr,
  if◌then◌else◌, Option, none, some, not, ◌||◌, ◌&&◌, arith, sym,
}
use kube_valet.Kube.Objects.{LabelMap}
use kube_valet.Kube.Pods.{Pod}
use kube_valet.PodAssignments.Performing.{
  all, path_of, has_field, set_field, perform_all, apply_all, fits,
}
use kube_valet.PodAssignments.{
  PodScheduling, PodAssignmentRuleScheduling, PodAssignmentRuleSpec, PatchValue, selector_value,
  affinity_value, tolerations_value, JsonPatchOperation, merge_strategy_overwrite_all,
  get_merge_strategy, has_entries, is_set, has_tolerations, apply_to_pod, get_patch_ops, replace_op,
  matching, get_pod_assignments_scheduling, all_patch_ops, get_pod_scheduling_patches,
  pod_is_protected,
}

all-congr {ℓ} :
    {A : Type ℓ} (p q : A → Bool) (l : List A) → ((x : A) → p x ≡ q x) → all p l ≡ all q l
all-congr p q [] h = refl
all-congr p q (x ∷ l) h = rw (h x, all-congr p q l h) refl

-- What is set only where it is there before is there after exactly when it was before.
kept_field {ℓ} :
    {A : Type ℓ} (has : A → Bool) (new old : A)
    → (not (has new) || has old) ≡ true
    → has (if has new then new else old) ≡ has old
kept_field has new old h = elim (Bool-cases (has new)) [
  | inr e ↦ rw e refl
  | inl e ↦ rw e (ground arith)
]

module _ (Affinity Toleration : Type 0) where
  abbrev Scheduling : Type 0
  Scheduling = PodScheduling Affinity Toleration

  abbrev Op : Type 0
  Op = JsonPatchOperation Affinity Toleration

  -- The operations of a rule that may set a field.
  abbrev op_for : Bool → PatchValue Affinity Toleration → List Op
  op_for b v =
      if b then replace_op Affinity Toleration (path_of Affinity Toleration v) v ∷ [] else []

  abbrev can_perform : Op → Scheduling → Bool
  can_perform o pod =
      o.op == "replace"
      && (o.path == path_of Affinity Toleration o.value)
      && has_field Affinity Toleration o.value pod

  first_op :
      (b : Bool) (o : Op) (rest : List Op) (pod : Scheduling)
      → can_perform o pod ≡ b
      → perform_all Affinity Toleration (o ∷ rest) pod ≡ (
          if b
          then perform_all Affinity Toleration rest (set_field Affinity Toleration o.value pod)
          else none)
  first_op b o rest pod e =
      ap
        (λ c.
          elim (if c then some (set_field Affinity Toleration o.value pod) else none)
            as (λ x. Option Scheduling) [
              | none ↦ none
              | some changed ↦ perform_all Affinity Toleration rest changed
            ])
        e
      ∙ go b
    where
      go :
          (c : Bool)
          → elim (if c then some (set_field Affinity Toleration o.value pod) else none)
              as (λ x. Option Scheduling) [
                | none ↦ none
                | some changed ↦ perform_all Affinity Toleration rest changed
              ]
            ≡ (if c
                then perform_all Affinity Toleration rest
                    (set_field Affinity Toleration o.value pod)
                else none)
      go true = refl
      go false = refl

  perform-selector :
      (b : Bool) (m : LabelMap) (rest : List Op) (pod : Scheduling)
      → perform_all Affinity Toleration (op_for b (selector_value m) ++ rest) pod ≡ (
          if not b || has_entries Affinity Toleration pod.node_selector
          then perform_all Affinity Toleration rest
              (record pod { node_selector = if b then m else pod.node_selector })
          else none)
  perform-selector false m rest pod = refl
  perform-selector true m rest pod =
      first_op _
        (replace_op Affinity Toleration (path_of Affinity Toleration (selector_value m))
          (selector_value m))
        rest pod refl

  perform-affinity :
      (b : Bool) (a : Option Affinity) (rest : List Op) (pod : Scheduling)
      → perform_all Affinity Toleration (op_for b (affinity_value a) ++ rest) pod ≡ (
          if not b || is_set Affinity Toleration pod.affinity
          then perform_all Affinity Toleration rest
              (record pod { affinity = if b then a else pod.affinity })
          else none)
  perform-affinity false a rest pod = refl
  perform-affinity true a rest pod =
      first_op _
        (replace_op Affinity Toleration (path_of Affinity Toleration (affinity_value a))
          (affinity_value a))
        rest pod refl

  perform-tolerations :
      (b : Bool) (ts : List Toleration) (rest : List Op) (pod : Scheduling)
      → perform_all Affinity Toleration (op_for b (tolerations_value ts) ++ rest) pod ≡ (
          if not b || has_tolerations Affinity Toleration pod.tolerations
          then perform_all Affinity Toleration rest
              (record pod { tolerations = if b then ts else pod.tolerations })
          else none)
  perform-tolerations false ts rest pod = refl
  perform-tolerations true ts rest pod =
      first_op _
        (replace_op Affinity Toleration (path_of Affinity Toleration (tolerations_value ts))
          (tolerations_value ts))
        rest pod refl

  overwrite :
      (b c d : Bool) (s : PodAssignmentRuleScheduling Affinity Toleration) (pod : Scheduling)
      (rest : List Op)
      → perform_all Affinity Toleration
          (op_for b (selector_value s.selector)
            ++ (op_for c (affinity_value s.affinity_rule)
                ++ (op_for d (tolerations_value s.toleration_rules) ++ rest)))
          pod
        ≡ (if (not b || has_entries Affinity Toleration pod.node_selector)
              && ((not c || is_set Affinity Toleration pod.affinity)
                  && (not d || has_tolerations Affinity Toleration pod.tolerations))
            then perform_all Affinity Toleration rest (record {
              node_selector = if b then s.selector else pod.node_selector;
              affinity = if c then s.affinity_rule else pod.affinity;
              tolerations = if d then s.toleration_rules else pod.tolerations;
            })
            else none)
  overwrite b c d s pod rest =
      perform-selector b s.selector _ pod
      ∙ elim (Bool-cases (not b || has_entries Affinity Toleration pod.node_selector)) [
        | inr e ↦ rw e refl
        | inl e ↦ rw e (
            perform-affinity c s.affinity_rule _ _
            ∙ elim (Bool-cases (not c || is_set Affinity Toleration pod.affinity)) [
              | inr f ↦ rw f refl
              | inl f ↦ rw f (perform-tolerations d s.toleration_rules rest _)
            ])
      ]

  append-op_for :
      (b c d : Bool) (u v w : PatchValue Affinity Toleration) (rest : List Op)
      → (op_for b u ++ (op_for c v ++ op_for d w)) ++ rest
        ≡ op_for b u ++ (op_for c v ++ (op_for d w ++ rest))
  append-op_for b c d u v w rest =
      append_assoc (op_for b u) (op_for c v ++ op_for d w) rest
      ∙ ap (λ l. op_for b u ++ l) (append_assoc (op_for c v) (op_for d w) rest)

  -- The operations of a rule, and others after them.
  get_patch_ops-append :
      (s : PodAssignmentRuleScheduling Affinity Toleration) (pod : Scheduling) (rest : List Op)
      → perform_all Affinity Toleration (get_patch_ops Affinity Toleration s ++ rest) pod ≡ (
          if fits Affinity Toleration pod s
          then perform_all Affinity Toleration rest (apply_to_pod Affinity Toleration s pod)
          else none)
  unfolding get_patch_ops apply_to_pod
  get_patch_ops-append s pod rest =
      elim (Bool-cases (get_merge_strategy Affinity Toleration s == merge_strategy_overwrite_all)) [
        | inl e ↦ rw e (
            ap (λ l. perform_all Affinity Toleration l pod)
              (append-op_for (has_entries Affinity Toleration s.selector)
                (is_set Affinity Toleration s.affinity_rule)
                (has_tolerations Affinity Toleration s.toleration_rules) (selector_value s.selector)
                (affinity_value s.affinity_rule) (tolerations_value s.toleration_rules) rest)
            ∙ overwrite (has_entries Affinity Toleration s.selector)
                (is_set Affinity Toleration s.affinity_rule)
                (has_tolerations Affinity Toleration s.toleration_rules) s pod rest)
        | inr e ↦ rw e refl
      ]

  -- By RFC 6902, the operations of GetPatchOps for a rule can be performed on a pod exactly when the pod
  -- has every field that the rule sets, and then they do what ApplyToPod does.
  pub get_patch_ops_lem :
      (s : PodAssignmentRuleScheduling Affinity Toleration) (pod : Scheduling)
      → perform_all Affinity Toleration (get_patch_ops Affinity Toleration s) pod ≡ (
          if fits Affinity Toleration pod s
          then some (apply_to_pod Affinity Toleration s pod)
          else none)
  get_patch_ops_lem s pod =
      ap (λ l. perform_all Affinity Toleration l pod)
        (sym (append-nil (get_patch_ops Affinity Toleration s)))
      ∙ get_patch_ops-append s pod []

  -- A rule that a pod fits leaves it with every field that it had.
  fits-apply_to_pod :
      (r s : PodAssignmentRuleScheduling Affinity Toleration) (pod : Scheduling)
      → fits Affinity Toleration pod r ≡ true
      → fits Affinity Toleration (apply_to_pod Affinity Toleration r pod) s
        ≡ fits Affinity Toleration pod s
  unfolding apply_to_pod
  fits-apply_to_pod r s pod h =
      elim (Bool-cases (get_merge_strategy Affinity Toleration r == merge_strategy_overwrite_all)) [
        | inr e ↦ rw e refl
        | inl e ↦
            let x =
              kept_field (has_entries Affinity Toleration) r.selector pod.node_selector
                (ground arith) in
            let y =
              kept_field (is_set Affinity Toleration) r.affinity_rule pod.affinity (ground arith) in
            let z =
              kept_field (has_tolerations Affinity Toleration) r.toleration_rules pod.tolerations
                (ground arith) in
            rw e (rw (x, y, z) refl)
      ]

  all_patch_ops_lem :
      (l : List (PodAssignmentRuleScheduling Affinity Toleration)) (pod : Scheduling)
      → perform_all Affinity Toleration (all_patch_ops Affinity Toleration l) pod ≡ (
          if all (fits Affinity Toleration pod) l
          then some (apply_all Affinity Toleration l pod)
          else none)
  all_patch_ops_lem [] pod = refl
  all_patch_ops_lem (s ∷ rest) pod =
      get_patch_ops-append s pod (all_patch_ops Affinity Toleration rest)
      ∙ elim (Bool-cases (fits Affinity Toleration pod s)) [
        | inr e ↦ rw e refl
        | inl e ↦ rw e (
            all_patch_ops_lem rest (apply_to_pod Affinity Toleration s pod)
            ∙ ap
                (λ b.
                  if b
                  then some
                      (apply_all Affinity Toleration rest (apply_to_pod Affinity Toleration s pod))
                  else none)
                (all-congr _ _ rest (λ r. fits-apply_to_pod s r pod e)))
      ]

  -- By RFC 6902, the patches for a pod do nothing to it if it is protected; otherwise they can be
  -- performed exactly when the pod has every field that one of the rules that target it sets, and then
  -- they do what ApplyToPod does for each of these rules, those of the cluster first and then those of
  -- its namespace, so that where two rules set one field the later one wins.
  pub get_pod_scheduling_patches_lem :
      (cluster_rules : List (PodAssignmentRuleSpec Affinity Toleration))
      (rules : String → List (PodAssignmentRuleSpec Affinity Toleration)) (pod : Pod)
      (spec : Scheduling)
      → let targeting =
          matching Affinity Toleration pod cluster_rules
          ++ matching Affinity Toleration pod (rules pod.namespace) in
        perform_all Affinity Toleration
          (get_pod_scheduling_patches Affinity Toleration cluster_rules rules pod)
          spec
        ≡ (if pod_is_protected pod
            then some spec
            else if all (fits Affinity Toleration spec) targeting
            then some (apply_all Affinity Toleration targeting spec)
            else none)
  unfolding get_pod_scheduling_patches get_pod_assignments_scheduling
  get_pod_scheduling_patches_lem cluster_rules rules pod spec =
      elim (Bool-cases (pod_is_protected pod)) [
        | inl e ↦ rw e refl
        | inr e ↦ rw e (
            all_patch_ops_lem
              (matching Affinity Toleration pod cluster_rules
                ++ matching Affinity Toleration pod (rules pod.namespace))
              spec)
      ]
