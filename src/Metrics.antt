-- ===== src/Metrics.antt =====
-- pkg/metrics/registry.go: one gauge for each group. Prometheus is a parameter: how a gauge is made, and
-- the registration, which panics where it is refused.
pub mod Registered
use kube_valet.Prelude.{String, Bool, [], Option, none, some, if◌then◌else◌, Map, lookup, insert}
use kube_valet.Outcome.{Outcome, ok, panic, Run}

-- `new_gauge_vec` makes the gauge with the name of a group as its constant label; `register` says whether
-- a gauge is accepted.
pub record Prometheus : Type 1 where
  pub World : Type 0
  pub GaugeVec : Type 0
  pub new_gauge_vec : String → World → GaugeVec × World
  pub register : GaugeVec → World → Bool × World

module _ (prometheus : Prometheus) where
  open prometheus use {World, GaugeVec, new_gauge_vec, register}

  pub record Registry : Type 0 where
    pub pack_left_percent_full_by_nag : Map GaugeVec
    pub world : World

  abbrev pub new_registry : World → Registry
  new_registry w = record { pack_left_percent_full_by_nag = []; world = w }

  -- The gauge of a group is made and registered by the first call for it. It is kept before it is
  -- registered; the gauge that the map then holds is returned, `none` for nil.
  unfoldable pub get_pack_left_percent_full : String → Run Registry (Option GaugeVec)
  get_pack_left_percent_full name r = elim (lookup name r.pack_left_percent_full_by_nag) [
    | some gauge ↦ (ok (some gauge), r)
    | none ↦
        let (gauge, made) = new_gauge_vec name r.world in
        let held = insert name gauge r.pack_left_percent_full_by_nag in
        let (accepted, registered) = register gauge made in
        let r' : Registry = record { pack_left_percent_full_by_nag = held; world = registered } in
        if accepted then (ok (lookup name held), r') else (panic, r')
  ]
