-- ===== src/Assignments/Taints/Filter.antt =====
-- The deletions of taints as filters.
use Prim.Native.String.{len}
use kube_valet.Prelude.{
  ◌≡◌, refl, ap, ◌∙◌, Bool, true, false, not, ◌&&◌, ◌||◌, List, [], ◌∷◌, ◌==◌, ltb, if◌then◌else◌,
  arith, filter, any, filter-filter, filter-congr, filter_all, sym,
}
use kube_valet.Kube.Objects.{Taint}
use kube_valet.Assignments.Taints.{delete_where, delete_one, delete_taints}

not-or : (a b : Bool) → not a && not b ≡ not (a || b)
not-or true b = refl
not-or false b = refl

pub delete_where-eq_filter :
    (hit : Taint → Bool) (ts : List Taint)
    → delete_where hit ts ≡ (filter (λ t. not (hit t)) ts, any hit ts)
delete_where-eq_filter hit [] = refl
delete_where-eq_filter hit (t ∷ ts) = ground (arith, delete_where-eq_filter hit ts)

delete_choice :
    (c : Bool) (p q : Taint → Bool) (ts : List Taint)
    → (if c then delete_where p ts else delete_where q ts)
      ≡ (filter (λ t. not (if c then p t else q t)) ts, any (λ t. if c then p t else q t) ts)
delete_choice true p q ts = delete_where-eq_filter p ts
delete_choice false p q ts = delete_where-eq_filter q ts

module _ (match_taint : Taint → Taint → Bool) where
  -- The test by which `deleteTaints` takes a taint for one to remove.
  abbrev pub hits : Taint → Taint → Bool
  hits gone t = if ltb 0 (len gone.effect) then match_taint gone t else gone.key == t.key

  pub delete_one-eq_filter :
      (gone : Taint) (ts : List Taint)
      → delete_one match_taint ts gone ≡ (filter (λ t. not (hits gone t)) ts, any (hits gone) ts)
  unfolding delete_one
  delete_one-eq_filter gone ts =
      delete_choice (ltb 0 (len gone.effect)) (match_taint gone) (λ t. gone.key == t.key) ts

  pub delete_taints-eq_filter :
      (gone ts : List Taint)
      → (delete_taints match_taint gone ts).0 ≡ filter (λ t. not (any (λ g. hits g t) gone)) ts
  unfolding delete_taints
  delete_taints-eq_filter [] ts = sym (filter_all _ ts (λ t. refl))
  delete_taints-eq_filter (g ∷ gone) ts =
      delete_taints-eq_filter gone (delete_one match_taint ts g).0
      ∙ ap (filter (λ t. not (any (λ h. hits h t) gone)))
          (ap (λ r. r.0) (delete_one-eq_filter g ts))
      ∙ filter-filter _ _ ts
      ∙ filter-congr _ _ ts (λ t. not-or (hits g t) (any (λ h. hits h t) gone))
