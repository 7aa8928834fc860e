-- ===== src/Kube/Pods.antt =====
-- The fields of k8s.io/api/core/v1 pods that the managers read. Quantities stand for what `Value()`
-- or `ScaledValue(-3)` returns of them, which are int64.
use kube_valet.Prelude.{String, List, ℤ}
use kube_valet.Kube.Objects.{LabelMap}

pub record Container : Type 0 where
  pub requested_memory : ℤ
  pub requested_milli_cpu : ℤ

pub record Pod : Type 0 where
  pub name : String
  pub namespace : String
  pub uid : String
  pub resource_version : String
  pub labels : LabelMap
  pub node_name : String
  pub phase : String
  pub containers : List Container

abbrev pub pod_succeeded : String
pod_succeeded = "Succeeded"
