-- ===== src/Controllers/Released.antt =====
-- What the processing of a group that is being deleted leaves behind in pack-left scheduling.
use kube_valet.Prelude.{
  String, ◌≡◌, refl, sym, ap, ◌∙◌, true, false, ◌||◌, ◌&&◌, not, none, List, [], ◌∷◌, ◌==◌, elem,
  if◌then◌else◌, All, All-map, Bool-cases, inl, inr, Map,
}
use kube_valet.Outcome.{Outcome, ok, err, panic, exit, resume, then_run}
use kube_valet.Kube.Objects.{Node}
use kube_valet.Kube.Pods.{Pod}
use kube_valet.Kube.Labels.{get_label}
use kube_valet.Kube.Cluster.{Cluster}
use kube_valet.Kube.Cooperation.{Cooperates}
use kube_valet.Assignments.Types.{NodeAssignmentGroup}
use kube_valet.Finalizers.{attempt, removing, pack_left_finalizer, remove_pack_left_finalizer}
use kube_valet.Finalizers.Kept.{
  StoresNags, KeepsLabels, attempt_keeps, remove_pack_left_finalizer_lem,
}
use kube_valet.NodeAssignments.Reconcile.Loop.{DistinctNodes}
use kube_valet.NodeAssignments.Deletion.Calls.{KeepsGroups, Same, send_difference-Calm}
use kube_valet.PackLeft.{
  get_label_key, node_can_be_balanced, unassign_node, node_has_pack_left_assignment,
}
use kube_valet.PackLeft.Fullness.{Floats}
use kube_valet.PackLeft.Rebalance.{
  is_stale, clear_node, clean_all_nodes, rebalance_nag, clean_unassigned_nodes,
}
use kube_valet.PackLeft.Clearing.{InStep, cleared_others, clean_all_nodes_lem}
use kube_valet.Controllers.PackLeft.{process_nag}

module _ (cluster : Cluster) (coop : Cooperates cluster) (api : StoresNags cluster)
    (groups : KeepsGroups cluster api) (labels : KeepsLabels cluster coop) where
  open coop use {label_at}
  open api use {nag_at}

  clean_all_nodes-Same :
      (nag : NodeAssignmentGroup) (nodes : List Node) (w : cluster.World)
      → Same cluster NodeAssignmentGroup api.nag_at groups w (clean_all_nodes cluster nag nodes w).1
  unfolding clean_all_nodes
  clean_all_nodes-Same nag [] w = λ name. refl
  clean_all_nodes-Same nag (n ∷ nodes) w =
      elim (Bool-cases (is_stale nag n || not (node_can_be_balanced n))) [
        | inr e ↦ rw e (clean_all_nodes-Same nag nodes w)
        | inl e ↦ rw e (
            go (clear_node cluster nag n w)
              (send_difference-Calm cluster NodeAssignmentGroup api.nag_at groups n
                (unassign_node n (get_label_key nag.name)) w).1
              (λ t. clean_all_nodes-Same nag nodes t))
      ]
    where
      go :
          (r : Outcome (Unit {0}) × cluster.World)
          → Same cluster NodeAssignmentGroup api.nag_at groups w r.1
          → ((t : cluster.World)
              → Same cluster NodeAssignmentGroup api.nag_at groups t
                  (clean_all_nodes cluster nag nodes t).1)
          → Same cluster NodeAssignmentGroup api.nag_at groups w
              (resume r.0 (λ _ v. clean_all_nodes cluster nag nodes v) r.1).1
      go (ok _, t) h later = λ name. later t name ∙ h name
      go (err e, t) h later = h
      go (panic, t) h later = h
      go (exit, t) h later = h

  -- If the API server cooperates, stores groups, and keeps groups and labels apart, the nodes have
  -- different names, and the store agrees with the API server on their labels, then the processing of a
  -- group that is being deleted ends without an error; the nodes of the list that the group packs left
  -- and that can be balanced keep the label of the group, and the others of the list have none; and every
  -- copy of the pack-left finalizer, and no other, is gone from the stored group, while the other groups
  -- are as they were.
  pub process_nag-Released :
      (floats : Floats) (visit : Map (List Node) → Map (List Node)) (nodes : List Node)
      (pods : List Pod) (nag : NodeAssignmentGroup) (w : cluster.World)
      → nag.deleting ≡ true
      → DistinctNodes nodes
      → All (InStep cluster coop nag w) nodes
      → (t : cluster.World) × (process_nag cluster floats visit nodes pods nag w ≡ (ok tt, t))
        × All
            (λ n. label_at t n.name (get_label_key nag.name) ≡ (
              if node_has_pack_left_assignment n nag && node_can_be_balanced n
              then get_label (get_label_key nag.name) n.labels
              else none))
            nodes
        × ((f : String)
            → elem f (nag_at t nag.name).finalizers
              ≡ (if pack_left_finalizer == f then false else elem f (nag_at w nag.name).finalizers))
        × ((j : String) → (nag.name == j) ≡ false → nag_at t j ≡ nag_at w j)
  unfolding process_nag
  process_nag-Released floats visit nodes pods nag w deleted distinct in_step =
      let (v, cleaned, cleared, _) =
        clean_all_nodes_lem cluster coop nag nodes w distinct in_step in
      let kept : Same cluster NodeAssignmentGroup api.nag_at groups w v =
        λ name. sym (ap (λ r. nag_at r.1 name) cleaned) ∙ clean_all_nodes-Same nag nodes w name in
      let (removed, gone, others) = remove_pack_left_finalizer_lem cluster api nag v in
      (
        (attempt cluster (removing cluster pack_left_finalizer) nag.name v).1,
        ap
              (λ b.
                (if b
                    then then_run (clean_all_nodes cluster nag nodes)
                        (λ _. remove_pack_left_finalizer cluster nag)
                    else then_run (rebalance_nag cluster floats nag visit nodes pods)
                        (λ _. clean_unassigned_nodes cluster nag nodes))
                  w)
              deleted
            ∙ ap (λ r. resume r.0 (λ _. remove_pack_left_finalizer cluster nag) r.1) cleaned
            ∙ removed,
        All-map nodes
            (λ n h.
              attempt_keeps cluster api (λ u. label_at u n.name (get_label_key nag.name))
                (λ g u. labels.updating g u n.name (get_label_key nag.name))
                (removing cluster pack_left_finalizer) nag.name v
              ∙ h
              ∙ cleared_others cluster coop nag n)
            cleared,
        λ f.
            gone f
            ∙ ap (λ g. if pack_left_finalizer == f then false else elem f g.finalizers)
                (kept nag.name),
        λ j d. others j d ∙ kept j,
      )
