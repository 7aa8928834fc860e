-- ===== src/Assignments/Taints.antt =====
pub mod Filter
-- deleteTaintsByKey, deleteTaint and deleteTaints of pkg/apis/assignments/v1alpha1/helpers.go.
-- `Taint.MatchTaint` belongs to k8s.io/api/core/v1 and is a parameter.
use kube_valet.Prelude.{ℕ, String, Bool, true, false, List, [], ◌∷◌, ◌++◌, ◌==◌, ltb, if◌then◌else◌}
use Prim.Native.String.{len}
use kube_valet.Kube.Objects.{Taint}

-- The loop of both deletions, over the test that a taint is to go.
abbrev delete_where : (Taint → Bool) → List Taint → List Taint × Bool
delete_where hit [] = ([], false)
delete_where hit (t ∷ ts) =
    let (kept, deleted) = delete_where hit ts in if hit t then (kept, true) else (t ∷ kept, deleted)

unfoldable pub delete_taints_by_key : List Taint → String → List Taint × Bool
delete_taints_by_key taints key = delete_where (λ t. key == t.key) taints

module _ (match_taint : Taint → Taint → Bool) where
  unfoldable pub delete_taint : List Taint → Taint → List Taint × Bool
  delete_taint taints gone = delete_where (λ t. match_taint gone t) taints

  -- The test on the length of the effect chooses between the two deletions.
  unfoldable pub delete_one : List Taint → Taint → List Taint × Bool
  unfolding delete_taint delete_taints_by_key
  delete_one taints gone =
      if ltb 0 (len gone.effect)
      then delete_taint taints gone
      else delete_taints_by_key taints gone.key

  -- What the loop leaves: the taints, and the taints to remove that it did not find, for each of
  -- which the code appends an error.
  unfoldable pub delete_taints : List Taint → List Taint → List Taint × List Taint
  unfolding delete_one
  delete_taints [] taints = (taints, [])
  delete_taints (gone ∷ more) taints =
      let (kept, removed) = delete_one taints gone in
      let (left, missing) = delete_taints more kept in
      (left, if removed then missing else gone ∷ missing)
