-- ===== src/Finalizers/Kept.antt =====
-- What the changes of finalizers leave in the API server.
use kube_valet.Prelude.{
  String, ◌≡◌, refl, ap, ◌∙◌, true, false, not, Option, none, some, List, [], ◌∷◌, ◌++◌, ◌==◌,
  arith, eq_iff, eq_refl, if◌then◌else◌, elem, Bool-cases, inl, inr,
}
use kube_valet.Outcome.{ok}
use kube_valet.Kube.Cluster.{Cluster}
use kube_valet.Kube.Cooperation.{Cooperates}
use kube_valet.Assignments.Types.{NodeAssignmentGroup}
use kube_valet.Utils.{filter_values}
use kube_valet.Finalizers.{
  nag_finalizer, pack_left_finalizer, remove_pack_left_finalizer, ensure_finalizer, attempt, adding,
  removing, with_result, add_finalizer, remove_finalizer,
}

-- An API server that answers: a read returns the group that is stored, an update stores the group
-- that it is given, and RetryOnConflict returns the first attempt that has no error.
pub record StoresNags (cluster : Cluster) : Type 0 where
  pub nag_at : cluster.World → String → NodeAssignmentGroup
  pub named : (w : cluster.World) (name : String) → (nag_at w name).name ≡ name
  pub reads :
      (name : String) (w : cluster.World)
      → ((cluster.get_nag name w).0.0 ≡ nag_at w name) × ((cluster.get_nag name w).1 ≡ w)
  pub updates :
      (nag : NodeAssignmentGroup) (w : cluster.World)
      → ((cluster.update_nag nag w).0 ≡ none)
        × ((name : String)
            → nag_at (cluster.update_nag nag w).1 name
              ≡ (if nag.name == name then nag else nag_at w name))
  pub first_success :
      (f : cluster.World → Option String × cluster.World) (w : cluster.World)
      → (f w).0 ≡ none
      → cluster.retry_on_conflict f w ≡ f w

-- Writes of groups leave the labels of nodes alone.
pub record KeepsLabels (cluster : Cluster) (coop : Cooperates cluster) : Type 0 where
  pub updating :
      (nag : NodeAssignmentGroup) (w : cluster.World) (node key : String)
      → coop.label_at (cluster.update_nag nag w).1 node key ≡ coop.label_at w node key

pub elem-removing :
    (f j : String) (xs : List String)
    → elem j (filter_values xs (λ v. if f == v then false else true))
      ≡ (if f == j then false else elem j xs)
unfolding filter_values
elem-removing f j [] = ground arith
elem-removing f j (x ∷ xs) =
    ground (arith, elem-removing f j xs, eq_iff f x, eq_iff j x, eq_iff f j)

module _ (cluster : Cluster) (api : StoresNags cluster) where
  open api use {nag_at}

  -- What the call has done: the stored group of the name has changed finalizers, the others not.
  abbrev pub Changed : (List String → List String) → String → cluster.World → cluster.World → Type 0
  Changed change name w t =
      ((nag_at t name).finalizers ≡ change (nag_at w name).finalizers)
      × ((j : String) → (name == j) ≡ false → nag_at t j ≡ nag_at w j)

  stored :
      (change : List String → List String) (name : String) (w w' : cluster.World)
      (l : NodeAssignmentGroup)
      → l ≡ nag_at w name
      → w' ≡ w
      → let r = cluster.update_nag (record l { finalizers = change l.finalizers }) w' in
        (r.0 ≡ none) × Changed change name w r.1
  stored change name w w' l e same =
      let (sent, kept) = api.updates (record l { finalizers = change l.finalizers }) w' in
      let named : l.name ≡ name = ap (λ n. n.name) e ∙ api.named w name in
      (
        sent,
        (
          ap (λ n. n.finalizers) (kept name)
              ∙ rw (named, eq_refl name) (ap (λ n. change n.finalizers) e),
          λ j h. kept j ∙ rw (named, h) (ap (λ v. nag_at v j) same),
        ),
      )

  attempt_lem :
      (change : List String → List String) (name : String) (w : cluster.World)
      → ((attempt cluster change name w).0 ≡ none)
        × Changed change name w (attempt cluster change name w).1
  attempt_lem change name w =
      stored change name w (cluster.get_nag name w).1 (cluster.get_nag name w).0.0
        (api.reads name w).0 (api.reads name w).1

  with_result_lem {ℓ} :
      {A : Type ℓ} (a : A) (r : Option String × cluster.World)
      → r.0 ≡ none
      → with_result cluster a r ≡ (ok a, r.1)
  with_result_lem a (none, w) h = refl
  with_result_lem a (some e, w) h = absurd (cc h)

  retried_at {ℓ} :
      {A : Type ℓ} (a : A) (change : List String → List String) (name : String) (w : cluster.World)
      → with_result cluster a (cluster.retry_on_conflict (attempt cluster change name) w)
        ≡ (ok a, (attempt cluster change name w).1)
  retried_at a change name w =
      let sent = (attempt_lem change name w).0 in
      ap (with_result cluster a) (api.first_success (attempt cluster change name) w sent)
      ∙ with_result_lem a (attempt cluster change name w) sent

  retried {ℓ} :
      {A : Type ℓ} (a : A) (change : List String → List String) (name : String) (w : cluster.World)
      → (t : cluster.World) × (with_result cluster a
            (cluster.retry_on_conflict (attempt cluster change name) w)
          ≡ (ok a, t))
        × Changed change name w t
  retried a change name w =
      ((attempt cluster change name w).1, retried_at a change name w, (attempt_lem change name w).1)

  -- What the writes of groups leave alone, an attempt leaves alone.
  pub attempt_keeps {ℓ} :
      {B : Type ℓ} (view : cluster.World → B)
      → ((nag : NodeAssignmentGroup) (v : cluster.World)
          → view (cluster.update_nag nag v).1 ≡ view v)
      → (change : List String → List String) (name : String) (w : cluster.World)
      → view (attempt cluster change name w).1 ≡ view w
  attempt_keeps view writes change name w = writes _ _ ∙ ap view (api.reads name w).1

  -- AddFinalizer succeeds. It says whether the given group lacked the finalizer, and if so, the stored
  -- group of the name has it after the others that it had; otherwise nothing is written.
  pub add_finalizer_lem :
      (nag : NodeAssignmentGroup) (w : cluster.World)
      → (t : cluster.World) × (add_finalizer cluster nag w
          ≡ (ok (not (elem nag_finalizer nag.finalizers)), t))
        × Changed
            (λ fs. if elem nag_finalizer nag.finalizers then fs else fs ++ nag_finalizer ∷ [])
            nag.name
            w
            t
  unfolding add_finalizer
  add_finalizer_lem nag w = elim (Bool-cases (elem nag_finalizer nag.finalizers)) [
    | inl e ↦ rw e (w, refl, (refl, λ j h. refl))
    | inr e ↦ rw e (retried true (adding cluster nag_finalizer) nag.name w)
  ]

  -- RemoveFinalizer succeeds, and takes every copy of the finalizer, and no other, out of the stored
  -- group of the name; the other groups stay as they were.
  pub remove_finalizer_lem :
      (nag : NodeAssignmentGroup) (w : cluster.World)
      → (t : cluster.World) × (remove_finalizer cluster nag w ≡ (ok tt, t))
        × ((f : String)
            → elem f (nag_at t nag.name).finalizers
              ≡ (if nag_finalizer == f then false else elem f (nag_at w nag.name).finalizers))
        × ((j : String) → (nag.name == j) ≡ false → nag_at t j ≡ nag_at w j)
  unfolding remove_finalizer
  remove_finalizer_lem nag w =
      let (t, p, (fs, rest)) = retried tt (removing cluster nag_finalizer) nag.name w in
      (
        t,
        p,
        λ f. ap (elem f) fs ∙ elem-removing nag_finalizer f (nag_at w nag.name).finalizers,
        rest,
      )

  -- The pack-left manager's RemoveFinalizer succeeds, and takes every copy of its finalizer, and no
  -- other, out of the stored group of the name; the other groups stay as they were.
  pub remove_pack_left_finalizer_lem :
      (nag : NodeAssignmentGroup) (w : cluster.World)
      → let t = (attempt cluster (removing cluster pack_left_finalizer) nag.name w).1 in
        (remove_pack_left_finalizer cluster nag w ≡ (ok tt, t))
        × ((f : String)
            → elem f (nag_at t nag.name).finalizers
              ≡ (if pack_left_finalizer == f then false else elem f (nag_at w nag.name).finalizers))
        × ((j : String) → (nag.name == j) ≡ false → nag_at t j ≡ nag_at w j)
  unfolding remove_pack_left_finalizer
  remove_pack_left_finalizer_lem nag w =
      let change = removing cluster pack_left_finalizer in
      let (fs, rest) = (attempt_lem change nag.name w).1 in
      (
        retried_at tt change nag.name w,
        λ f. ap (elem f) fs ∙ elem-removing pack_left_finalizer f (nag_at w nag.name).finalizers,
        rest,
      )

  module _ (coop : Cooperates cluster) (labels : KeepsLabels cluster coop) where
    open coop use {label_at}

    -- The pack-left manager's ensureFinalizer succeeds and leaves the labels of all nodes alone.
    pub ensure_finalizer_labels :
        (nag : NodeAssignmentGroup) (w : cluster.World)
        → (t : cluster.World) × (ensure_finalizer cluster nag w ≡ (ok tt, t))
          × ((node key : String) → label_at t node key ≡ label_at w node key)
    unfolding ensure_finalizer
    ensure_finalizer_labels nag w = elim (Bool-cases (elem pack_left_finalizer nag.finalizers)) [
      | inl e ↦ rw e (w, refl, λ node key. refl)
      | inr e ↦ rw e (
        (attempt cluster (adding cluster pack_left_finalizer) nag.name w).1,
        retried_at tt (adding cluster pack_left_finalizer) nag.name w,
        λ node key.
            attempt_keeps (λ v. label_at v node key) (λ g v. labels.updating g v node key)
              (adding cluster pack_left_finalizer) nag.name w,
      )
    ]

    -- The node assignment manager's RemoveFinalizer succeeds and leaves the labels of all nodes alone.
    pub remove_finalizer_labels :
        (nag : NodeAssignmentGroup) (w : cluster.World)
        → (t : cluster.World) × (remove_finalizer cluster nag w ≡ (ok tt, t))
          × ((node key : String) → label_at t node key ≡ label_at w node key)
    unfolding remove_finalizer
    remove_finalizer_labels nag w = (
      (attempt cluster (removing cluster nag_finalizer) nag.name w).1,
      retried_at tt (removing cluster nag_finalizer) nag.name w,
      λ node key.
          attempt_keeps (λ v. label_at v node key) (λ g v. labels.updating g v node key)
            (removing cluster nag_finalizer) nag.name w,
    )
