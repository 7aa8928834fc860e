-- ===== src/Kube/Cluster.antt =====
-- What the program calls and does not implement: the API server, as the clients of
-- k8s.io/client-go and of pkg/client reach it, and functions of the Kubernetes libraries.
use kube_valet.Prelude.{ℕ, String, Bool, Option, List}
use kube_valet.Kube.Objects.{Taint, Node}
use kube_valet.Assignments.Types.{NodeAssignmentGroup}

pub data Reply {ℓ} (A : Type ℓ) : Type ℓ where
  reply : A → Reply A
  failed : String → Reply A

-- `World` is all that calls of the API server read and change. `get_nag` returns an object beside
-- its error, as the generated client does. `retry_on_conflict` is retry.RetryOnConflict with the
-- default backoff. A `Doc` is the JSON text of an object, a `Patch` that of a strategic merge patch.
pub record Cluster : Type 1 where
  pub World : Type 0
  pub Doc : Type 0
  pub Patch : Type 0
  pub bytes : Patch → List ℕ
  pub list_nodes : World → Reply (List Node) × World
  pub get_node : String → World → Reply Node × World
  pub patch_node : String → Patch → World → Reply Node × World
  pub get_nag : String → World → (NodeAssignmentGroup × Option String) × World
  pub update_nag : NodeAssignmentGroup → World → Option String × World
  pub retry_on_conflict : (World → Option String × World) → World → Option String × World
  pub marshal_node : Node → Reply Doc
  pub create_two_way_merge_patch : Doc → Doc → Reply Patch
  pub match_taint : Taint → Taint → Bool
