-- ===== src/Assignments/Types.antt =====
-- pkg/apis/assignments/v1alpha1/types.go: the custom resources. A Go string type with named values
-- stays a text, since a resource may hold any text there. A `TypeMeta` is not kept.
use kube_valet.Prelude.{String, Bool, Option, List, Map, ℤ}

abbrev pub mode_label_only : String
mode_label_only = "LabelOnly"

abbrev pub mode_label_and_taint : String
mode_label_and_taint = "LabelAndTaint"

abbrev pub mode_default : String
mode_default = mode_label_only

abbrev pub mode_undefined : String
mode_undefined = ""

abbrev pub scheduling_pack_left : String
scheduling_pack_left = "PackLeft"

abbrev pub taint_effect_default : String
taint_effect_default = "NoSchedule"

abbrev pub taint_effect_not_specified : String
taint_effect_not_specified = ""

pub record PackLeftScheduling : Type 0 where
  pub full_percent : Option ℤ
  pub num_avoid : ℤ
  pub percent_avoid : Option ℤ

pub record NodeAssignment : Type 0 where
  pub name : String
  pub mode : String
  pub taint_effect : String
  pub num_desired : ℤ
  pub percent_desired : ℤ
  pub scheduling_mode : String
  pub pack_left : Option PackLeftScheduling

-- `deleting` says that the deletion timestamp is set.
pub record NodeAssignmentGroup : Type 0 where
  pub name : String
  pub uid : String
  pub resource_version : String
  pub deleting : Bool
  pub finalizers : List String
  pub target_labels : Map String
  pub default_assignment : Option NodeAssignment
  pub assignments : List NodeAssignment
