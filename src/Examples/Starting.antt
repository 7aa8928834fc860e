-- ===== src/Examples/Starting.antt =====
-- The process before a host whose caches get in step or do not, and a registry of gauges that are named
-- by their groups.
use kube_valet.Prelude.{
  ap, eq_sym, subst, Bool-cases, str-cases, inl, String, ◌≡◌, refl, Bool, true, false, not, ◌||◌,
  ◌==◌, none, List, [], ◌∷◌, map, elem, All, inr, pos, if◌then◌else◌,
}
use kube_valet.Outcome.{ok}
use kube_valet.Kube.Cluster.{reply}
use kube_valet.Controllers.Watching.{
  idle, elected, start_elected_components, stop_elected_components, one_more, no_term, terms_lem,
}
use kube_valet.Controllers.Startup.{
  cpar_informer, Informer, serves_metrics, run_watcher, in_order, wait_for_cache_sync,
}
use kube_valet.Controllers.Startup.Synced.{processes, prepared}
use kube_valet.Metrics.{Prometheus, Registry, new_registry}
use kube_valet.Metrics.Registered.{
  Refuses, is_held, get_each, gauge_of, get_pack_left_percent_full_lem,
}
use kube_valet.Process.{ValetFlags, ProcessState, Host, config_of, main, start, run, new_state}
use kube_valet.Process.Started.{main-unsynced}

abbrev started : Bool → ValetFlags
started led = record {
  log_level = "NOTICE";
  in_cluster = true;
  kubeconfig = "";
  node_assignment = true;
  pack_left = true;
  pod_assignment = true;
  num_pod_threads = pos 1;
  leader_election = led;
  elect_duration = pos 30;
  elect_deadline = pos 10;
  elect_resource = "configmaps";
  elect_retry = pos 2;
  elect_name = "kube-valet-election";
  elect_id = "";
  elect_namespace = "kube-system";
  listen = ":443";
  tls_cert_path = "tls.crt";
  tls_key_path = "tls.key";
}

-- Whether the last cache gets in step is given.
abbrev in_step : Bool → Informer → Bool
in_step b cpar_informer = b
in_step b _ = true

-- The election is won once and then lost.
abbrev host : Bool → Bool → Host
host led b = record {
  Config = String;
  parse = λ args. reply (started led);
  hostname = "node-1";
  is_log_level = λ level. level == "NOTICE";
  in_cluster_config = reply "cluster";
  build_config = λ path. reply path;
  new_kube_client = λ config. reply tt;
  new_valet_client = λ config. reply tt;
  synced = in_step b;
  new_lock = λ resource namespace name identity. none;
  run_or_die = λ c kd. (ok tt, c.on_stopped_leading (c.on_started_leading kd));
}

abbrev unserved : ProcessState
unserved = record {
  watcher = idle (config_of (started false));
  trace = prepared (in_step false) (config_of (started false)) (serves_metrics ∷ []);
}

main-unsynced_example :
    (processes unserved.trace ≡ false) × (unserved.watcher ≡ idle (config_of (started false)))
unfolding main start run run_watcher in_order wait_for_cache_sync new_state
main-unsynced_example = main-unsynced (host false false) (started false) [] unserved refl refl refl

-- A gauge is the name of its group, and the state is the list of the gauges that are registered.
abbrev gauges : Prometheus
gauges = record {
  World = List String;
  GaugeVec = String;
  new_gauge_vec = λ name w. (name, w);
  register = λ g w. if elem g w then (false, w) else (true, g ∷ w);
}

gauges-Refuses : Refuses gauges
gauges-Refuses = record {
  group_of = λ g. g;
  is_registered = λ w j. elem j w;
  made = λ name w. (refl, λ j. refl);
  registers = λ g w. registered g w;
}
  where
    registered :
        (g : String) (w : List String)
        → ((gauges.register g w).0 ≡ not (elem g w))
          × ((j : String) → elem j (gauges.register g w).1 ≡ ((g == j) || elem j w))
    registered g w = elim (Bool-cases (elem g w)) [
      | inr e ↦ (rw e refl, λ j. rw e (ap (λ b. b || elem j w) (eq_sym j g)))
      | inl e ↦ (
        rw e refl,
        λ j. elim (str-cases g j) [
          | inl (h, p) ↦ rw e (rw h (subst (λ k. elem k w ≡ true) p e))
          | inr (h, p) ↦ rw e (rw h refl)
        ],
      )
    ]

get_pack_left_percent_full_lem_example :
    (r : Registry gauges) × (get_each gauges gauges-Refuses
        ("pool" ∷ "other" ∷ "pool" ∷ [])
        (new_registry gauges [])
      ≡ (ok (map (gauge_of gauges gauges-Refuses r) ("pool" ∷ "other" ∷ "pool" ∷ [])), r))
    × All
        (λ n. is_held (gauge_of gauges gauges-Refuses r n) ≡ true)
        ("pool" ∷ "other" ∷ "pool" ∷ [])
unfolding gauges-Refuses
get_pack_left_percent_full_lem_example =
    get_pack_left_percent_full_lem gauges gauges-Refuses ("pool" ∷ "other" ∷ "pool" ∷ []) []
      (λ j. refl)

-- Two elections are over.
terms_lem_example :
    let once =
      stop_elected_components (start_elected_components (idle (config_of (started true)))) in
    let twice = stop_elected_components (start_elected_components once) in
    (twice ≡ idle (config_of (started true)))
    × (start_elected_components twice ≡ elected (config_of (started true)))
terms_lem_example = terms_lem (config_of (started true)) _ (one_more _ (one_more _ no_term))
