-- ===== src/Kube/Objects.antt =====
-- The fields of k8s.io/api/core/v1 objects that the program reads or writes. No code writes another
-- field, so none is kept. Quantities stand for what `Value()` or `ScaledValue(-3)` returns of them.
use kube_valet.Prelude.{String, Bool, Option, List, Map, ℤ}

-- A Go `map[string]string`: `none` is the nil map.
abbrev pub LabelMap : Type 0
LabelMap = Option (Map String)

pub record Taint : Type 0 where
  pub key : String
  pub value : String
  pub effect : String

abbrev pub no_schedule : String
no_schedule = "NoSchedule"

abbrev pub prefer_no_schedule : String
prefer_no_schedule = "PreferNoSchedule"

abbrev pub no_execute : String
no_execute = "NoExecute"

pub record NodeCondition : Type 0 where
  pub kind : String
  pub status : String

pub record Node : Type 0 where
  pub name : String
  pub labels : LabelMap
  pub taints : List Taint
  pub unschedulable : Bool
  pub conditions : List NodeCondition
  pub allocatable_memory : ℤ
  pub allocatable_milli_cpu : ℤ
