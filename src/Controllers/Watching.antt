-- ===== src/Controllers/Watching.antt =====
-- pkg/controller/resource_watcher.go: which controllers get the events, from election to election. The
-- resync that an election asks for is left out: it makes the informers send events.
use kube_valet.Prelude.{
  ℤ, ap, ◌∙◌, ◌≡◌, refl, Bool, true, false, List, [], ◌∷◌, ◌++◌, if◌then◌else◌,
}

-- The controllers, by the fields of the watcher that hold them.
pub data Controller : Type 0 where
  par_controller : Controller
  nag_controller : Controller
  pl_controller : Controller

-- `ShouldRun` and `Threads` of the three controllers
pub record ValetConfig : Type 0 where
  pub run_par : Bool
  pub run_nag : Bool
  pub run_pl : Bool
  pub par_threads : ℤ
  pub nag_threads : ℤ
  pub pl_threads : ℤ

pub record ResourceWatcher : Type 0 where
  pub config : ValetConfig
  pub node_controllers : List Controller
  pub nag_controllers : List Controller
  pub pod_controllers : List Controller

unfoldable pub clear_all_controllers : ResourceWatcher → ResourceWatcher
clear_all_controllers rw = record rw {
  node_controllers = [];
  nag_controllers = [];
  pod_controllers = [];
}

abbrev pub add_node_controller : Controller → ResourceWatcher → ResourceWatcher
add_node_controller c rw = record rw { node_controllers = rw.node_controllers ++ c ∷ [] }

abbrev pub add_nag_controller : Controller → ResourceWatcher → ResourceWatcher
add_nag_controller c rw = record rw { nag_controllers = rw.nag_controllers ++ c ∷ [] }

abbrev pub add_pod_controller : Controller → ResourceWatcher → ResourceWatcher
add_pod_controller c rw = record rw { pod_controllers = rw.pod_controllers ++ c ∷ [] }

abbrev pub add_par : ResourceWatcher → ResourceWatcher
add_par rw = if rw.config.run_par then add_pod_controller par_controller rw else rw

abbrev pub add_nag : ResourceWatcher → ResourceWatcher
add_nag rw =
    if rw.config.run_nag
    then add_nag_controller nag_controller (add_node_controller nag_controller rw)
    else rw

abbrev pub add_pl : ResourceWatcher → ResourceWatcher
add_pl rw =
    if rw.config.run_pl
    then add_pod_controller pl_controller
        (add_nag_controller pl_controller (add_node_controller pl_controller rw))
    else rw

unfoldable pub start_elected_components : ResourceWatcher → ResourceWatcher
start_elected_components rw = add_pl (add_nag (add_par rw))

unfoldable pub stop_elected_components : ResourceWatcher → ResourceWatcher
unfolding clear_all_controllers
stop_elected_components rw = clear_all_controllers rw

-- One event: every controller of a list handles it, in the order of the list.
abbrev pub dispatch {ℓ} : {S : Type ℓ} → List Controller → (Controller → S → S) → S → S
dispatch [] handle s = s
dispatch (c ∷ rest) handle s = dispatch rest handle (handle c s)

-- No controller gets events.
abbrev pub idle : ValetConfig → ResourceWatcher
idle config = record {
  config = config;
  node_controllers = [];
  nag_controllers = [];
  pod_controllers = [];
}

-- What an election gives to an idle watcher: every list has the controllers that are to run, once each.
abbrev pub elected : ValetConfig → ResourceWatcher
elected config = record {
  config = config;
  node_controllers =
      (if config.run_nag then nag_controller ∷ [] else [])
      ++ (if config.run_pl then pl_controller ∷ [] else []);
  nag_controllers =
      (if config.run_nag then nag_controller ∷ [] else [])
      ++ (if config.run_pl then pl_controller ∷ [] else []);
  pod_controllers =
      (if config.run_par then par_controller ∷ [] else [])
      ++ (if config.run_pl then pl_controller ∷ [] else []);
}

-- From `rw` the watcher has been elected and has lost the election some number of times.
pub data Terms (rw : ResourceWatcher) : ResourceWatcher → Type 0 where
  no_term : Terms rw rw
  one_more :
      (s : ResourceWatcher)
      → Terms rw s
      → Terms rw (stop_elected_components (start_elected_components s))

start-idle :
    (config : ValetConfig) (a b c : Bool)
    → let chosen : ValetConfig = record config { run_par = a; run_nag = b; run_pl = c } in
      start_elected_components (idle chosen) ≡ elected chosen
unfolding start_elected_components
start-idle config true true true = refl
start-idle config true true false = refl
start-idle config true false true = refl
start-idle config true false false = refl
start-idle config false true true = refl
start-idle config false true false = refl
start-idle config false false true = refl
start-idle config false false false = refl

stop-start :
    (config : ValetConfig)
    → stop_elected_components (start_elected_components (idle config)) ≡ idle config
unfolding stop_elected_components
stop-start config =
    ap stop_elected_components (start-idle config config.run_par config.run_nag config.run_pl)

-- From a watcher that gives events to no controller, after any number of elections that are won and lost
-- again no controller gets events, and the next election gives every
-- list the controllers that the configuration runs, each of them once.
pub terms_lem :
    (config : ValetConfig) (s : ResourceWatcher)
    → Terms (idle config) s
    → (s ≡ idle config) × (start_elected_components s ≡ elected config)
terms_lem config s no_term = (refl, start-idle config config.run_par config.run_nag config.run_pl)
terms_lem config s (one_more t terms) =
    let (same, _) = terms_lem config t terms in
    let now =
      ap (λ u. stop_elected_components (start_elected_components u)) same ∙ stop-start config in
    (
      now,
      ap start_elected_components now
          ∙ start-idle config config.run_par config.run_nag config.run_pl,
    )
