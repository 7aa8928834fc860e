-- ===== src/Examples/Assigning.antt =====
-- The theorems on single nodes at the group of the fixture.
use kube_valet.Kube.Cluster.{reply}
use kube_valet.Queues.{RateLimiting}
use kube_valet.Controllers.Nags.{on_update_node}
use kube_valet.Controllers.Quiet.{on_update_node-assign}
use kube_valet.Prelude.{
  List, String, ◌≡◌, ◌≢◌, ◌↔◌, refl, true, false, not, ◌==◌, none, some, [], ◌∷◌, filter, insert,
  lookup, if◌then◌else◌,
}
use kube_valet.Outcome.{ok, panic}
use kube_valet.Kube.Objects.{Node}
use kube_valet.Kube.Labels.{get_label, put_label}
use kube_valet.Assignments.Types.{NodeAssignmentGroup}
use kube_valet.Assignments.Groups.{
  assignment_key, get_assignment, assign, unassign, targets_node, protected_node_label_key,
  protected_label_value,
}
use kube_valet.Assignments.Groups.Targeting.{Matches, targets_node_iff}
use kube_valet.Assignments.Groups.Unassign.{is_group_taint, taints-unassign}
use kube_valet.Assignments.Groups.Assign.{
  assigned_taints, resolved, assign_nil_labels, get_assignment-assign, unassign-assign,
}
use kube_valet.Utils.{targetable_labels_are_different}
use kube_valet.Utils.Targetable.{SameTargetable, targetable_labels_are_different_iff}
use kube_valet.Examples.Fixture.{web, pool, first, second, by_key_and_effect}

abbrev other : NodeAssignmentGroup
other = record pool { name = "other" }

abbrev bare : Node
bare = record second { labels = none }

abbrev web_node : Node
web_node = record second {
  labels = some (("role", "worker") ∷ ("nag.assignments.kube-valet.io/pool", "web") ∷ []);
  taints =
      record { key = "nag.assignments.kube-valet.io/pool"; value = "web"; effect = "NoSchedule" }
      ∷ [];
}

web_assigned : assign pool second web ≡ ok (web_node, resolved web)
unfolding assign assignment_key put_label insert
web_assigned = refl

unassign-assign_example :
    unassign by_key_and_effect pool web_node ≡ unassign by_key_and_effect pool second
unassign-assign_example =
    unassign-assign by_key_and_effect (λ a b. refl) pool second web_node web (resolved web) refl
      refl web_assigned

get_assignment-assign_example :
    (get_assignment other web_node
      ≡ (if pool.name == other.name then some web.name else get_assignment other second))
    × (web_node.taints ≡ assigned_taints pool second web)
get_assignment-assign_example =
    get_assignment-assign pool other second web_node web (resolved web) refl web_assigned

assign_nil_labels_example : assign pool bare web ≡ panic
assign_nil_labels_example = assign_nil_labels pool bare web refl refl

taints-unassign_example :
    (unassign by_key_and_effect pool web_node).taints
    ≡ filter (λ t. not (is_group_taint pool t)) web_node.taints
taints-unassign_example = taints-unassign by_key_and_effect (λ a b. refl) pool web_node

targets_node_iff_example : (targets_node pool first ≡ true) ↔ (
    (get_label protected_node_label_key first.labels ≢ some protected_label_value)
    × Matches pool.target_labels first.labels)
unfolding lookup
targets_node_iff_example = targets_node_iff pool first (refl, tt)

targetable_labels_are_different_iff_example :
    (targetable_labels_are_different first.labels second.labels ≡ false)
    ↔ SameTargetable first.labels second.labels
unfolding lookup
targetable_labels_are_different_iff_example =
    targetable_labels_are_different_iff first.labels second.labels (refl, (refl, tt)) (refl, tt)

abbrev no_keys : RateLimiting
no_keys = record {
  Queue = List String;
  add = λ k q. k ∷ q;
  get = λ q. (none, q);
  finish = λ k q. q;
  num_requeues = λ k q. 0;
  add_rate_limited = λ k q. k ∷ q;
  forget = λ k q. q;
}

on_update_node-assign_example :
    on_update_node no_keys
      (λ nag. reply nag.name)
      (pool ∷ other ∷ [])
      second
      web_node
      ("other" ∷ [])
    ≡ "other" ∷ []
unfolding lookup
on_update_node-assign_example =
    on_update_node-assign no_keys (λ nag. reply nag.name) (pool ∷ other ∷ []) pool second web_node
      web (resolved web) ("other" ∷ []) refl (refl, tt) web_assigned
