-- ===== src/PodAssignments.antt =====
-- The pod rules of pkg/apis/assignments/v1alpha1/helpers.go and
-- pkg/controller/podassignment/manager.go, which turns them into JSON patches. `Affinity` and
-- `Toleration` belong to k8s.io/api/core/v1 and are parameters: the program only passes them on.
pub mod Performing
pub mod Patches
use kube_valet.Prelude.{
  String, Bool, true, false, Option, none, some, List, [], ◌∷◌, ◌++◌, ◌==◌, ◌&&◌, ◌||◌, any,
  if◌then◌else◌, Map,
}
use kube_valet.Kube.Objects.{LabelMap}
use kube_valet.Kube.Labels.{get_label}
use kube_valet.Kube.Pods.{Pod}

abbrev pub merge_strategy_undefined : String
merge_strategy_undefined = ""

abbrev pub merge_strategy_overwrite_all : String
merge_strategy_overwrite_all = "OverwriteAll"

abbrev pub merge_strategy_default : String
merge_strategy_default = "OverwriteAll"

-- The loop over the target labels, which stops at the first that the pod does not have.
unfoldable pub targets_labels : Map String → LabelMap → Bool
targets_labels [] labels = true
targets_labels ((k, v) ∷ rest) labels = elim (get_label k labels) [
  | none ↦ false
  | some val ↦ if v == val then targets_labels rest labels else false
]

abbrev pub pod_protected_label_key : String
pod_protected_label_key = "pod.initializer.kube-valet.io/protected"

abbrev pub pod_protected_label_value : String
pod_protected_label_value = "true"

abbrev pub entries_of : LabelMap → Map String
entries_of none = []
entries_of (some m) = m

unfoldable pub pod_is_protected : Pod → Bool
pod_is_protected pod =
    any (λ e. e.0 == pod_protected_label_key && (e.1 == pod_protected_label_value))
      (entries_of pod.labels)

module _ (Affinity Toleration : Type 0) where
  -- The fields of a pod that a rule can change.
  pub record PodScheduling : Type 0 where
    pub node_selector : LabelMap
    pub affinity : Option Affinity
    pub tolerations : List Toleration

  pub record PodAssignmentRuleScheduling : Type 0 where
    pub merge_strategy : String
    pub selector : LabelMap
    pub affinity_rule : Option Affinity
    pub toleration_rules : List Toleration

  pub record PodAssignmentRuleSpec : Type 0 where
    pub target_pod_labels : Map String
    pub scheduling : PodAssignmentRuleScheduling

  pub data PatchValue : Type 0 where
    selector_value : LabelMap → PatchValue
    affinity_value : Option Affinity → PatchValue
    tolerations_value : List Toleration → PatchValue

  pub record JsonPatchOperation : Type 0 where
    pub op : String
    pub path : String
    pub value : PatchValue

  unfoldable pub targets_pod : PodAssignmentRuleSpec → Pod → Bool
  unfolding targets_labels
  targets_pod spec pod = targets_labels spec.target_pod_labels pod.labels

  unfoldable pub get_merge_strategy : PodAssignmentRuleScheduling → String
  get_merge_strategy s =
      if s.merge_strategy == merge_strategy_undefined
      then merge_strategy_default
      else s.merge_strategy

  abbrev pub has_entries : LabelMap → Bool
  has_entries none = false
  has_entries (some []) = false
  has_entries (some (e ∷ m)) = true

  abbrev pub is_set : Option Affinity → Bool
  is_set none = false
  is_set (some a) = true

  abbrev pub has_tolerations : List Toleration → Bool
  has_tolerations [] = false
  has_tolerations (t ∷ ts) = true

  -- A strategy that the code does not know changes nothing.
  unfoldable pub apply_to_pod : PodAssignmentRuleScheduling → PodScheduling → PodScheduling
  unfolding get_merge_strategy
  apply_to_pod s pod =
      if get_merge_strategy s == merge_strategy_overwrite_all
      then record {
        node_selector = if has_entries s.selector then s.selector else pod.node_selector;
        affinity = if is_set s.affinity_rule then s.affinity_rule else pod.affinity;
        tolerations =
            if has_tolerations s.toleration_rules then s.toleration_rules else pod.tolerations;
      }
      else pod

  abbrev pub replace_op : String → PatchValue → JsonPatchOperation
  replace_op path value = record { op = "replace"; path = path; value = value }

  unfoldable pub get_patch_ops : PodAssignmentRuleScheduling → List JsonPatchOperation
  unfolding get_merge_strategy
  get_patch_ops s =
      if get_merge_strategy s == merge_strategy_overwrite_all
      then (if has_entries s.selector
          then replace_op "/spec/nodeSelector" (selector_value s.selector) ∷ []
          else [])
        ++ ((if is_set s.affinity_rule
              then replace_op "/spec/affinity" (affinity_value s.affinity_rule) ∷ []
              else [])
            ++ (if has_tolerations s.toleration_rules
                then replace_op "/spec/tolerations" (tolerations_value s.toleration_rules) ∷ []
                else []))
      else []

  abbrev pub matching : Pod → List PodAssignmentRuleSpec → List PodAssignmentRuleScheduling
  matching pod [] = []
  matching pod (r ∷ rest) =
      let more = matching pod rest in if targets_pod r pod then r.scheduling ∷ more else more

  -- The rules of the cluster in the order of their store, then those of the pod's namespace.
  unfoldable pub get_pod_assignments_scheduling :
      List PodAssignmentRuleSpec
      → (String → List PodAssignmentRuleSpec)
      → Pod
      → List PodAssignmentRuleScheduling
  unfolding targets_pod
  get_pod_assignments_scheduling cluster_rules rules pod =
      matching pod cluster_rules ++ matching pod (rules pod.namespace)

  abbrev pub all_patch_ops : List PodAssignmentRuleScheduling → List JsonPatchOperation
  all_patch_ops [] = []
  all_patch_ops (s ∷ rest) = get_patch_ops s ++ all_patch_ops rest

  unfoldable pub get_pod_scheduling_patches :
      List PodAssignmentRuleSpec
      → (String → List PodAssignmentRuleSpec)
      → Pod
      → List JsonPatchOperation
  unfolding get_pod_assignments_scheduling get_patch_ops pod_is_protected
  get_pod_scheduling_patches cluster_rules rules pod =
      if pod_is_protected pod
      then []
      else all_patch_ops (get_pod_assignments_scheduling cluster_rules rules pod)
