-- ===== src/Metrics/Registered.antt =====
-- What the registry answers to a sequence of calls.
use mathlib.Core.Bool.{true≢false}
use kube_valet.Prelude.{
  String, ◌≡◌, refl, sym, ap, ◌∙◌, Bool, true, false, not, Option, none, some, List, [], ◌∷◌, ◌==◌,
  ◌||◌, eq_refl, map, All, if◌then◌else◌, lookup, insert, lookup-insert, Bool-cases, str-cases,
  Option-cases, inl, inr,
}
use kube_valet.Outcome.{ok, Run, then_run}
use kube_valet.Metrics.{Prometheus, Registry, new_registry, get_pack_left_percent_full}

abbrev pub is_held {ℓ} : {A : Type ℓ} → Option A → Bool
is_held none = false
is_held (some a) = true

-- Prometheus refuses a gauge exactly when one for the same group is registered, and a gauge that is
-- accepted is registered from then on.
pub record Refuses (prometheus : Prometheus) : Type 0 where
  pub group_of : prometheus.GaugeVec → String
  pub is_registered : prometheus.World → String → Bool
  pub made :
      (name : String) (w : prometheus.World)
      → (group_of (prometheus.new_gauge_vec name w).0 ≡ name)
        × ((j : String) → is_registered (prometheus.new_gauge_vec name w).1 j ≡ is_registered w j)
  pub registers :
      (g : prometheus.GaugeVec) (w : prometheus.World)
      → ((prometheus.register g w).0 ≡ not (is_registered w (group_of g)))
        × ((j : String)
            → is_registered (prometheus.register g w).1 j
              ≡ ((group_of g == j) || is_registered w j))

module _ (prometheus : Prometheus) (refuses : Refuses prometheus) where
  open prometheus use {World, GaugeVec, new_gauge_vec, register}
  open refuses use {group_of, is_registered, made, registers}

  -- The calls for these groups, in this order, and what they answer.
  abbrev pub get_each : List String → Run (Registry prometheus) (List (Option GaugeVec))
  get_each [] r = (ok [], r)
  get_each (name ∷ rest) r =
      then_run (get_pack_left_percent_full prometheus name)
        (λ g. then_run (get_each rest) (λ gs r'. (ok (g ∷ gs), r'))) r

  abbrev pub gauge_of : Registry prometheus → String → Option GaugeVec
  gauge_of r name = lookup name r.pack_left_percent_full_by_nag

  -- The gauges that are held are the ones that are registered.
  abbrev Tracks : Registry prometheus → Type 0
  Tracks r = (j : String) → is_registered r.world j ≡ is_held (gauge_of r j)

  abbrev Keeps : Registry prometheus → Registry prometheus → Type 0
  Keeps r r' = (j : String) → is_held (gauge_of r j) ≡ true → gauge_of r' j ≡ gauge_of r j

  get_pack_left_percent_full-Tracks :
      (name : String) (r : Registry prometheus)
      → Tracks r
      → (r' : Registry prometheus) × (get_pack_left_percent_full prometheus name r
          ≡ (ok (gauge_of r' name), r'))
        × (is_held (gauge_of r' name) ≡ true)
        × Tracks r'
        × Keeps r r'
  unfolding get_pack_left_percent_full
  get_pack_left_percent_full-Tracks name r t = elim (Option-cases (gauge_of r name)) [
    | inr (g, e) ↦ (r, rw (e, get_pack_left_percent_full) refl, rw e refl, t, λ j h. refl)
    | inl e ↦
        let g = (new_gauge_vec name r.world).0 in
        let w = (new_gauge_vec name r.world).1 in
        let (named, same) = made name r.world in
        let (answer, after) = registers g w in
        let held = insert name g r.pack_left_percent_full_by_nag in
        let found : lookup name held ≡ some g =
          lookup-insert name name g r.pack_left_percent_full_by_nag ∙ rw (eq_refl name) refl in
        let accepted : (register g w).0 ≡ true =
          answer ∙ rw named (rw (same name) (rw (t name) (rw e refl))) in
        (
          record { pack_left_percent_full_by_nag = held; world = (register g w).1 },
          rw (e, get_pack_left_percent_full) (rw accepted refl),
          rw found refl,
          λ j.
              after j
              ∙ rw named (
                  rw (same j) (
                    rw (t j) (
                      tracked j g (gauge_of r j)
                      ∙ ap is_held
                          (sym (lookup-insert name j g r.pack_left_percent_full_by_nag))))),
          λ j h. lookup-insert name j g r.pack_left_percent_full_by_nag ∙ kept j g e h,
        )
  ]
    where
      tracked :
          (j : String) (g : GaugeVec) (o : Option GaugeVec)
          → (name == j || is_held o) ≡ is_held (if name == j then some g else o)
      tracked j g o = elim (Bool-cases (name == j)) [ inl h ↦ rw h refl | inr h ↦ rw h refl ]

      kept :
          (j : String) (g : GaugeVec)
          → gauge_of r name ≡ none
          → is_held (gauge_of r j) ≡ true
          → (if name == j then some g else gauge_of r j) ≡ gauge_of r j
      kept j g e h = elim (str-cases name j) [
        | inl (b, p) ↦ absurd (true≢false (sym h ∙ ap is_held (ap (gauge_of r) (sym p) ∙ e)))
        | inr (b, p) ↦ rw b refl
      ]

  abbrev Answered : List String → Registry prometheus → Type 0
  Answered names r =
      (r' : Registry prometheus) × (get_each names r ≡ (ok (map (gauge_of r') names), r'))
      × All (λ n. is_held (gauge_of r' n) ≡ true) names
      × Keeps r r'

  get_each-Answered : (names : List String) (r : Registry prometheus) → Tracks r → Answered names r
  get_each-Answered [] r t = (r, refl, tt, λ j h. refl)
  get_each-Answered (name ∷ rest) r t =
      let (s, got, held, t', kept) = get_pack_left_percent_full-Tracks name r t in
      let (r', all, each, kept') = get_each-Answered rest s t' in
      (
        r',
        rw (got, get_each)
            (rw (all, get_each)
              (ap (λ g. (ok (g ∷ map (gauge_of r') rest), r')) (sym (kept' name held)))),
        (ap is_held (kept' name held) ∙ held, each),
        λ j h. kept' j (ap is_held (kept j h) ∙ h) ∙ kept j h,
      )

  -- If Prometheus refuses a gauge exactly when one for the same group is registered, and none is at
  -- first, then no sequence of calls panics; each call answers with the gauge, not nil, that is held for
  -- its group in the end, so that calls for one group answer with the same gauge.
  pub get_pack_left_percent_full_lem :
      (names : List String) (w : World)
      → ((j : String) → is_registered w j ≡ false)
      → (r : Registry prometheus) × (get_each names (new_registry prometheus w)
          ≡ (ok (map (gauge_of r) names), r))
        × All (λ n. is_held (gauge_of r n) ≡ true) names
  unfolding lookup
  get_pack_left_percent_full_lem names w none_yet =
      let (r, all, each, _) = get_each-Answered names (new_registry prometheus w) none_yet in
      (r, all, each)
