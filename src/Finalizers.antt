-- ===== src/Finalizers.antt =====
-- The finalizers that both managers keep on a group: AddFinalizer and RemoveFinalizer of
-- pkg/controller/nodeassignment/manager.go, ensureFinalizer and RemoveFinalizer of
-- pkg/controller/scheduling/packleft/manager.go.
pub mod Kept
use kube_valet.Prelude.{
  String, Bool, true, false, not, Option, none, some, List, [], ◌∷◌, ◌++◌, ◌==◌, if◌then◌else◌,
  elem,
}
use kube_valet.Outcome.{Outcome, ok, err, Run}
use kube_valet.Kube.Cluster.{Cluster}
use kube_valet.Assignments.Types.{NodeAssignmentGroup}
use kube_valet.Utils.{filter_values}

abbrev pub nag_finalizer : String
nag_finalizer = "nag.finalizer.kube-valet.io"

abbrev pub pack_left_finalizer : String
pack_left_finalizer = "packleft.nag.finalizer.kube-valet.io"

module _ (cluster : Cluster) where
  open cluster use {World, get_nag, update_nag, retry_on_conflict}

  -- One attempt: an error of the read is logged only, and the object beside it is used.
  abbrev pub attempt : (List String → List String) → String → World → Option String × World
  attempt change name w =
      let ((latest, _), w') = get_nag name w in
      update_nag (record latest { finalizers = change latest.finalizers }) w'

  abbrev pub with_result {ℓ} : {A : Type ℓ} → A → Option String × World → Outcome A × World
  with_result a (none, w) = (ok a, w)
  with_result a (some e, w) = (err e, w)

  abbrev pub adding : String → List String → List String
  adding finalizer fs = fs ++ finalizer ∷ []

  abbrev pub removing : String → List String → List String
  removing finalizer fs = filter_values fs (λ v. if finalizer == v then false else true)

  -- Whether the finalizer was added: it is not where the given object has it.
  unfoldable pub add_finalizer : NodeAssignmentGroup → Run World Bool
  add_finalizer nag w =
      if elem nag_finalizer nag.finalizers
      then (ok false, w)
      else with_result true (retry_on_conflict (attempt (adding nag_finalizer) nag.name) w)

  unfoldable pub remove_finalizer : NodeAssignmentGroup → Run World (Unit {0})
  remove_finalizer nag w =
      with_result tt (retry_on_conflict (attempt (removing nag_finalizer) nag.name) w)

  unfoldable pub ensure_finalizer : NodeAssignmentGroup → Run World (Unit {0})
  ensure_finalizer nag w =
      if elem pack_left_finalizer nag.finalizers
      then (ok tt, w)
      else with_result tt (retry_on_conflict (attempt (adding pack_left_finalizer) nag.name) w)

  unfoldable pub remove_pack_left_finalizer : NodeAssignmentGroup → Run World (Unit {0})
  remove_pack_left_finalizer nag w =
      with_result tt (retry_on_conflict (attempt (removing pack_left_finalizer) nag.name) w)
