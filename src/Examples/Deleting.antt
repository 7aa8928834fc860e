-- ===== src/Examples/Deleting.antt =====
-- ReconcileNag of a group that is being deleted, before an API server that stores labels and groups.
use kube_valet.Prelude.{
  String, ◌≡◌, refl, true, none, [], ◌∷◌, ◌==◌, if◌then◌else◌, lookup, All, map,
}
use kube_valet.Outcome.{ok}
use kube_valet.Kube.Objects.{Node}
use kube_valet.Kube.Labels.{get_label}
use kube_valet.Kube.Cluster.{Cluster, reply}
use kube_valet.Kube.Cooperation.{Cooperates}
use kube_valet.Assignments.Types.{NodeAssignmentGroup}
use kube_valet.Finalizers.{nag_finalizer}
use kube_valet.Finalizers.Kept.{StoresNags, KeepsLabels}
use kube_valet.NodeAssignments.WriterContext.Steps.{State}
use kube_valet.NodeAssignments.Manager.{reconcile_nag}
use kube_valet.NodeAssignments.Sets.Cleanup.{ServesNodes, Copies}
use kube_valet.NodeAssignments.Deletion.{Released}
use kube_valet.NodeAssignments.Deletion.Calls.{KeepsGroups}
use kube_valet.NodeAssignments.Deletion.Cleared.{KeepsNodes, Cleared, reconcile_nag-Cleared}
use kube_valet.Examples.Fixture.{pool, by_key_and_effect, stored}
use kube_valet.Examples.Store.{
  Stored, copy_of, names_served, apply_patch, store_patched, store_never_empty, stored_start,
}

abbrev Kept : Type 0
Kept = Stored × (String → NodeAssignmentGroup)

abbrev keeper : Cluster
keeper = record {
  World = Kept;
  Doc = Node;
  Patch = Node × Node;
  bytes = λ p. 1 ∷ 2 ∷ 3 ∷ [];
  list_nodes = λ w. (reply (map (copy_of w.0) names_served), w);
  get_node = λ name w. (reply (copy_of w.0 name), w);
  patch_node = λ name p w. (reply p.1, (apply_patch name p w.0, w.1));
  get_nag = λ name w. ((record (w.1 name) { name = name }, none), w);
  update_nag = λ nag w. (none, (w.0, λ j. if nag.name == j then nag else w.1 j));
  retry_on_conflict = λ f. f;
  marshal_node = λ n. reply n;
  create_two_way_merge_patch = λ x y. reply (x, y);
  match_taint = by_key_and_effect;
}

abbrev keeper-Cooperates : Cooperates keeper
keeper-Cooperates = record {
  label_at = λ w node key. lookup key (w.0 node);
  marshals = λ n. (n, refl);
  diffs = λ x y. ((x, y), refl);
  accepts = λ name p w. (p.1, refl);
  patched = λ old new x y p w. store_patched old new x y p w.0;
  empty = store_never_empty;
}

keeper-Copies :
    (w : Kept) → All (Copies keeper keeper-Cooperates w) (map (copy_of w.0) names_served)
unfolding get_label
keeper-Copies w = (λ key. refl, (λ key. refl, (λ key. refl, tt)))

kept_copy : (w : Kept) (name : String) → Copies keeper keeper-Cooperates w (copy_of w.0 name)
unfolding get_label
kept_copy w name key = refl

abbrev keeper-ServesNodes : ServesNodes keeper keeper-Cooperates
keeper-ServesNodes = record {
  nodes_at = λ w. map (copy_of w.0) names_served;
  lists = λ w. refl;
  listing = λ w node key. refl;
  copies = keeper-Copies;
  named = λ w. (refl, (refl, (refl, tt)));
  gets = λ name w. (refl, kept_copy w name);
  getting = λ name w node key. refl;
}

keeper_stored :
    (nag : NodeAssignmentGroup) (w : Kept) (name : String)
    → record (if nag.name == name then nag else w.1 name) { name = name }
      ≡ (if nag.name == name then nag else record (w.1 name) { name = name })
keeper_stored nag w name = stored nag (record { labels = λ node key. none; nags = w.1 }) name

abbrev keeper-StoresNags : StoresNags keeper
keeper-StoresNags = record {
  nag_at = λ w name. record (w.1 name) { name = name };
  named = λ w name. refl;
  reads = λ name w. (refl, refl);
  updates = λ nag w. (refl, keeper_stored nag w);
  first_success = λ f w h. refl;
}

abbrev keeper-KeepsGroups : KeepsGroups keeper keeper-StoresNags
keeper-KeepsGroups = record {
  lists = λ w. (map (copy_of w.0) names_served, refl);
  listing = λ w name. refl;
  patching = λ node p w name. refl;
}

abbrev keeper-KeepsLabels : KeepsLabels keeper keeper-Cooperates
keeper-KeepsLabels = record { updating = λ nag w node key. refl }

abbrev keeper-KeepsNodes :
    KeepsNodes keeper keeper-Cooperates keeper-StoresNags keeper-KeepsGroups keeper-KeepsLabels
      keeper-ServesNodes
keeper-KeepsNodes = record {
  lists = λ w. (map (copy_of w.0) names_served, refl);
  listing = λ w name. refl;
  patching = λ node p w name. refl;
}

abbrev doomed : NodeAssignmentGroup
doomed = record pool { deleting = true; finalizers = nag_finalizer ∷ [] }

-- Two of the nodes have an assignment.
abbrev before : Kept
before = (stored_start, λ name. doomed)

reconcile_nag-Cleared_example :
    (t : State Kept) × (reconcile_nag keeper doomed (λ names. names) before ≡ (ok tt, t))
    × Cleared keeper keeper-Cooperates keeper-StoresNags keeper-KeepsGroups keeper-KeepsLabels
        keeper-ServesNodes doomed before t.world
    × Released keeper keeper-StoresNags keeper-KeepsGroups doomed before t.world
reconcile_nag-Cleared_example =
    reconcile_nag-Cleared keeper keeper-Cooperates keeper-StoresNags keeper-KeepsGroups
      keeper-KeepsLabels keeper-ServesNodes keeper-KeepsNodes doomed before (λ names. names) refl
