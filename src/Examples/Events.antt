-- ===== src/Examples/Events.antt =====
-- The theorems on events, elections and the webhook.
use kube_valet.Prelude.{
  pos, ◌≡◌, ◌↔◌, refl, String, Bool, true, false, ◌&&◌, ◌||◌, ◌==◌, none, some, List, [], ◌∷◌, any,
}
use kube_valet.Outcome.{panic}
use kube_valet.Kube.Cluster.{Reply, reply}
use kube_valet.Kube.Pods.{Pod}
use kube_valet.Assignments.Types.{NodeAssignmentGroup}
use kube_valet.Utils.{node_targeting_has_changed}
use kube_valet.Queues.{RateLimiting}
use kube_valet.Controllers.Nags.{on_update_node}
use kube_valet.Controllers.PackLeft.{get_node_hosting_pod, on_delete_pod}
use kube_valet.Controllers.Queueing.{
  HoldsAdded, packs_host, is_queued-on_update_node, is_queued-on_delete_pod,
}
use kube_valet.Controllers.Watching.{ValetConfig}
use kube_valet.Webhook.{
  AdmissionRequest, AdmissionReview, HttpRequest, Codec, mutate_handler, read_body,
}
use kube_valet.Webhook.Answers.{is_json, has_no_request, mutate_handler-panics}
use kube_valet.Examples.Fixture.{pool, first, second, nodes}

-- A queue as the list of the keys that it holds.
abbrev keys : RateLimiting
keys = record {
  Queue = List String;
  add = λ k q. k ∷ q;
  get = λ q. (none, q);
  finish = λ k q. q;
  num_requeues = λ k q. 0;
  add_rate_limited = λ k q. k ∷ q;
  forget = λ k q. q;
}

-- The test `any` compares from the left.
abbrev holds_key : String → List String → Bool
holds_key j = any (λ k. k == j)

keys-HoldsAdded : HoldsAdded keys
keys-HoldsAdded = record { is_queued = holds_key; added = λ k j q. refl }

abbrev nag_key : NodeAssignmentGroup → Reply String
nag_key nag = reply nag.name

abbrev groups : List NodeAssignmentGroup
groups = pool ∷ record pool { name = "other" } ∷ []

abbrev hosted : Pod
hosted = record {
  name = "p";
  namespace = "default";
  uid = "u";
  resource_version = "3";
  labels = none;
  node_name = "n2";
  phase = "Running";
  containers = [];
}

is_queued-on_update_node_example :
    keys-HoldsAdded.is_queued "pool" (on_update_node keys nag_key groups first second [])
    ≡ node_targeting_has_changed first second && any (λ g. g.name == "pool") groups
      || keys-HoldsAdded.is_queued "pool" []
is_queued-on_update_node_example =
    is_queued-on_update_node keys keys-HoldsAdded nag_key (λ nag. refl) groups first second "pool"
      []

is_queued-on_delete_pod_example :
    keys-HoldsAdded.is_queued "pool" (on_delete_pod keys nag_key groups nodes hosted [])
    ≡ packs_host keys keys-HoldsAdded nag_key
        (λ nag. refl)
        (get_node_hosting_pod hosted nodes)
        groups
        "pool"
      || keys-HoldsAdded.is_queued "pool" []
is_queued-on_delete_pod_example =
    is_queued-on_delete_pod keys keys-HoldsAdded nag_key (λ nag. refl) groups nodes hosted "pool" []

abbrev all_run : ValetConfig
all_run = record {
  run_par = true;
  run_nag = true;
  run_pl = true;
  par_threads = pos 1;
  nag_threads = pos 1;
  pl_threads = pos 1;
}

abbrev asked : AdmissionRequest
asked = record { uid = "17"; kind = "Pod"; namespace = "default"; raw = "pod" }

abbrev asks : AdmissionReview
asks = record { request = some asked; response = none }

abbrev asks_nothing : AdmissionReview
asks_nothing = record { request = none; response = none }

abbrev codec : Codec
codec = record {
  decode = λ text. elim (text == "review") [
    | true ↦ (none, asks)
    | false ↦ (some "no review", asks_nothing)
  ];
  decode_pod = λ text. reply hosted;
  patches = λ pod. reply "[]";
  encode = λ ar. reply "answer";
  write_error = none;
}

abbrev broken : HttpRequest
broken = record { body = some (reply "garbage"); content_type = "application/json" }

abbrev posted : HttpRequest
posted = record { body = some (reply "review"); content_type = "application/json" }

mutate_handler-panics_example :
    (mutate_handler codec broken ≡ panic)
    ↔ (is_json codec broken && has_no_request codec (codec.decode (read_body broken.body)).1 ≡ true)
mutate_handler-panics_example = mutate_handler-panics codec broken
