-- ===== src/Examples/Managing.antt =====
-- The theorems on finalizers, on the retrying queue and on pod rules.
use Prim.Native.Nat.{◌%◌}
use kube_valet.Prelude.{
  List, length, ℕ, suc, String, ◌≡◌, refl, true, false, ◌==◌, none, some, [], ◌∷◌, ◌++◌, arith,
  elem, if◌then◌else◌,
}
use kube_valet.Outcome.{ok}
use kube_valet.Kube.Cluster.{reply}
use kube_valet.Kube.Pods.{Pod}
use kube_valet.Finalizers.{nag_finalizer, add_finalizer, remove_finalizer}
use kube_valet.Finalizers.Kept.{Changed, add_finalizer_lem, remove_finalizer_lem}
use kube_valet.Queues.{RateLimiting, run_worker}
use kube_valet.Queues.Drained.{Closes, run_worker-ends}
use kube_valet.Queues.Retries.{CountsRequeues, failures, failures_count}
use kube_valet.PodAssignments.{
  PodScheduling, PodAssignmentRuleScheduling, PodAssignmentRuleSpec, apply_to_pod, get_patch_ops,
  get_merge_strategy, targets_pod, targets_labels, matching, get_pod_scheduling_patches,
  pod_is_protected,
}
use kube_valet.PodAssignments.Performing.{perform_all, apply_all}
use kube_valet.PodAssignments.Patches.{get_patch_ops_lem, get_pod_scheduling_patches_lem}
use kube_valet.Examples.Fixture.{pool, Server, server, server-StoresNags, at_start}

add_finalizer_lem_example :
    (t : Server) × (add_finalizer server pool at_start ≡ (ok true, t))
    × Changed server server-StoresNags (λ fs. fs ++ nag_finalizer ∷ []) "pool" at_start t
add_finalizer_lem_example = add_finalizer_lem server server-StoresNags pool at_start

remove_finalizer_lem_example :
    (t : Server) × (remove_finalizer server pool at_start ≡ (ok tt, t))
    × ((f : String)
        → elem f (t.nags "pool").finalizers ≡ (if nag_finalizer == f then false else false))
    × ((j : String)
        → ("pool" == j) ≡ false
        → record (t.nags j) { name = j } ≡ record (at_start.nags j) { name = j })
remove_finalizer_lem_example = remove_finalizer_lem server server-StoresNags pool at_start

abbrev counters : RateLimiting
counters = record {
  Queue = String → ℕ;
  add = λ k q. q;
  get = λ q. (some "item", q);
  finish = λ k q. q;
  num_requeues = λ k q. q k;
  add_rate_limited = λ k q j. if k == j then suc (q j) else q j;
  forget = λ k q j. if k == j then 0 else q j;
}

counters-CountsRequeues : CountsRequeues counters
counters-CountsRequeues = record {
  limited = λ k j q. refl;
  forgotten = λ k j q. refl;
  got = λ j q. refl;
  finished = λ k j q. refl;
}

abbrev fresh : String → ℕ
fresh k = 0

failures_count_example :
    (failures counters counters-CountsRequeues 7 "no" "item" fresh "item" ≡ 7 % 6)
    × ((j : String)
        → ("item" == j) ≡ false
        → failures counters counters-CountsRequeues 7 "no" "item" fresh j ≡ 0)
failures_count_example = failures_count counters counters-CountsRequeues 7 "no" "item" fresh refl

-- A queue of items that is shut down: nothing is added any more.
abbrev closing : RateLimiting
closing = record {
  Queue = List String;
  add = λ k q. q;
  get = λ q. elim q [ [] ↦ (none, []) | k ∷ l ↦ (some k, l) ];
  finish = λ k q. q;
  num_requeues = λ k q. 0;
  add_rate_limited = λ k q. q;
  forget = λ k q. q;
}

closing-Closes : Closes closing
closing-Closes = record {
  IsClosed = λ q. Unit;
  left = λ q. length q;
  got = λ q h. (tt, taken q);
  finished = λ k q h. (tt, refl);
  limited = λ k q h. (tt, refl);
  forgotten = λ k q h. (tt, refl);
}
  where
    taken :
        (q : List String) (k : String)
        → (closing.get q).0 ≡ some k
        → length q ≡ suc (length (closing.get q).1)
    taken [] k e = absurd (cc e)
    taken (x ∷ l) k e = refl

run_worker-ends_example :
    let worked = λ (fuel : ℕ).
      run_worker closing
        (some (λ k. reply (some k)))
        (λ (k : String) (n : ℕ). (some "no", suc n))
        fuel
        ("a" ∷ "b" ∷ [])
        0 in
    ((worked 9).0 ≡ false) × (worked 9 ≡ worked 3)
unfolding closing-Closes
run_worker-ends_example =
    run_worker-ends closing closing-Closes (some (λ k. reply (some k)))
      (λ (k : String) (n : ℕ). (some "no", suc n)) 9 ("a" ∷ "b" ∷ []) 0 tt (omega arith)

abbrev rule : PodAssignmentRuleScheduling String String
rule = record {
  merge_strategy = "";
  selector = some (("zone", "a") ∷ []);
  affinity_rule = none;
  toleration_rules = "all" ∷ [];
}

abbrev everywhere : PodAssignmentRuleSpec String String
everywhere = record { target_pod_labels = []; scheduling = rule }

abbrev app : Pod
app = record {
  name = "app";
  namespace = "default";
  uid = "u";
  resource_version = "3";
  labels = some (("app", "web") ∷ []);
  node_name = "";
  phase = "Pending";
  containers = [];
}

-- A pod that has the fields of the rule.
abbrev scheduled : PodScheduling String String
scheduled = record {
  node_selector = some (("zone", "b") ∷ []);
  affinity = none;
  tolerations = "some" ∷ [];
}

get_patch_ops_lem_example :
    perform_all String String (get_patch_ops String String rule) scheduled
    ≡ some (apply_to_pod String String rule scheduled)
unfolding get_merge_strategy
get_patch_ops_lem_example = get_patch_ops_lem String String rule scheduled

get_pod_scheduling_patches_lem_example :
    perform_all String String
      (get_pod_scheduling_patches String String
        (everywhere ∷ [])
        (λ namespace. everywhere ∷ [])
        app)
      scheduled
    ≡ (if pod_is_protected app
        then some scheduled
        else some (
            apply_all String String
              (matching String String app (everywhere ∷ [])
                ++ matching String String app (everywhere ∷ []))
              scheduled))
unfolding get_merge_strategy targets_pod targets_labels
get_pod_scheduling_patches_lem_example =
    get_pod_scheduling_patches_lem String String (everywhere ∷ []) (λ namespace. everywhere ∷ [])
      app scheduled
