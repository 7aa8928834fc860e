-- ===== src/Kube/Scheduling.antt =====
-- The types of k8s.io/api/core/v1 with which a pod says on which nodes it may run, as far as
-- bin/valetctl.go fills them.
use kube_valet.Prelude.{String, Option, List, ℤ}

-- A requirement on one label of a node, or of a pod where it stands in the term of a pod affinity.
pub record Requirement : Type 0 where
  pub key : String
  pub operator : String
  pub values : List String

pub record NodeSelectorTerm : Type 0 where
  pub match_expressions : List Requirement

pub record PreferredSchedulingTerm : Type 0 where
  pub weight : ℤ
  pub preference : NodeSelectorTerm

-- `required` is nil or the terms of a node selector.
pub record NodeAffinity : Type 0 where
  pub required : Option (List NodeSelectorTerm)
  pub preferred : List PreferredSchedulingTerm

pub record PodAffinityTerm : Type 0 where
  pub label_selector : List Requirement
  pub topology_key : String

pub record WeightedPodAffinityTerm : Type 0 where
  pub weight : ℤ
  pub term : PodAffinityTerm

-- Both PodAffinity and PodAntiAffinity have these fields.
pub record PodAffinity : Type 0 where
  pub required : List PodAffinityTerm
  pub preferred : List WeightedPodAffinityTerm

pub record Affinity : Type 0 where
  pub node_affinity : Option NodeAffinity
  pub pod_affinity : Option PodAffinity
  pub pod_anti_affinity : Option PodAffinity

pub record Toleration : Type 0 where
  pub key : String
  pub operator : String
  pub value : String
  pub effect : String
