-- ===== src/NodeAssignments/Reconcile/Satisfied.antt =====
-- What a reconciliation reaches, from the changes that `Update` computes.
use kube_valet.Prelude.{
  ℕ, suc, ◌≤◌, String, ◌≡◌, refl, sym, ap, ◌∙◌, Bool, true, false, Option, List, [], ◌∷◌, arith,
  map, count, elem, length, All, All-map, All-zip, lookup, ℤ, pos, negsuc, pos_part, neg_part, ◌+ℤ◌,
  ◌-ℤ◌, ◌≤ℤ◌, int_laws,
}
use kube_valet.Outcome.{ok}
use kube_valet.Kube.Objects.{Node}
use kube_valet.Kube.Cluster.{Cluster}
use kube_valet.Kube.Cooperation.{Cooperates}
use kube_valet.Assignments.Types.{NodeAssignment, NodeAssignmentGroup}
use kube_valet.Assignments.Groups.{get_assignment}
use kube_valet.NodeAssignments.WriterContext.{
  WriterContext, is_default, get_int, count_current, desired, update_current_assignments,
  update_assignment_changes,
}
use kube_valet.NodeAssignments.WriterContext.Changes.{
  holds, has_assignment, desired_pos, get_int-count_current,
}
use kube_valet.NodeAssignments.WriterContext.Needed.{DistinctNames, needed_changes_lem}
use kube_valet.NodeAssignments.WriterContext.Steps.{State, reconcile_nodes}
use kube_valet.NodeAssignments.Plan.{plan}
use kube_valet.NodeAssignments.Plan.Totals.{total}
use kube_valet.NodeAssignments.Plan.Convergence.{is_known, Wants, plan_within, plan_exact}
use kube_valet.NodeAssignments.Reconcile.Steps.{ModesKnown}
use kube_valet.NodeAssignments.Reconcile.Views.{effective}
use kube_valet.NodeAssignments.Reconcile.Rounds.{Ready}
use kube_valet.NodeAssignments.Reconcile.Loop.{
  node_names, DistinctNodes, effects, reconcile_nodes_lem,
}

-- The context with the current numbers and the needed changes computed.
abbrev pub refreshed : WriterContext → WriterContext
refreshed wc = update_assignment_changes (update_current_assignments wc)

-- The number of nodes that an assignment is to have, which is not negative.
abbrev pub target : WriterContext → NodeAssignment → ℕ
target wc a = pos_part (desired (length wc.targeted_nodes) a)

-- The assignments of a group as it should be written: distinct names, none of them the default's,
-- and percentages that are not negative.
pub record WellFormed (nag : NodeAssignmentGroup) : Type 0 where
  pub distinct : DistinctNames nag.assignments
  pub apart : All (λ a. is_default nag a.name ≡ false) nag.assignments
  pub percents : All (λ a. pos 0 ≤ℤ a.percent_desired) nag.assignments
  pub modes : ModesKnown nag

count-map :
    (f : Node → Option String) (p : Option String → Bool) (nodes : List Node)
    → count p (map f nodes) ≡ count (λ n. p (f n)) nodes
count-map f p [] = refl
count-map f p (n ∷ nodes) = ground (arith, count-map f p nodes)

length-map : (f : Node → Option String) (nodes : List Node) → length (map f nodes) ≡ length nodes
length-map f [] = refl
length-map f (n ∷ nodes) = ap suc (length-map f nodes)

wants_parts :
    (n : ℕ) (x c d : ℤ)
    → pos 1 ≤ℤ d
    → x ≡ d -ℤ c
    → c ≡ pos 0 +ℤ pos n
    → pos n +ℤ x ≡ pos (pos_part d)
wants_parts n x c (pos d) h e f =
    omega (int_laws, ap pos_part e, ap neg_part e, ap pos_part f, ap neg_part f)
wants_parts n x c (negsuc d) h e f = absurd (omega (int_laws, h))

get_int-nil : (k : String) → get_int k [] ≡ pos 0
unfolding get_int lookup
get_int-nil k = refl

module _ (wc : WriterContext) where
  abbrev pub now : List (Option String)
  now = map (get_assignment wc.nag) wc.targeted_nodes

  current_number :
      (a : NodeAssignment)
      → is_default wc.nag a.name ≡ false
      → get_int a.name (count_current wc.nag wc.targeted_nodes [])
        ≡ pos 0 +ℤ pos (count (holds a.name) now)
  current_number a h =
      get_int-count_current wc.nag wc.targeted_nodes [] a.name h
      ∙ ap (λ x. x +ℤ pos (count (has_assignment wc.nag a.name) wc.targeted_nodes))
          (get_int-nil a.name)
      ∙ ap (λ n. pos 0 +ℤ pos n)
          (sym (count-map (get_assignment wc.nag) (holds a.name) wc.targeted_nodes))

  -- The changes that `Update` computes are the desired numbers less the current ones.
  pub refreshed-Wants :
      WellFormed wc.nag
      → All (Wants wc.nag (refreshed wc).assignment_changes now (target wc)) wc.nag.assignments
  unfolding update_assignment_changes update_current_assignments
  refreshed-Wants formed =
      All-map wc.nag.assignments
        (λ a h. wants_parts _ _ _ _ (desired_pos _ a h.1.1) h.0 (current_number a h.1.0))
        (All-zip _ _ wc.nag.assignments
          (needed_changes_lem (length wc.targeted_nodes) (count_current wc.nag wc.targeted_nodes [])
            wc.nag.assignments formed.distinct)
          (All-zip _ _ wc.nag.assignments formed.apart formed.percents))

module _ (cluster : Cluster) (coop : Cooperates cluster) (wc : WriterContext)
    (w : cluster.World) where
  abbrev pub start : State cluster.World
  start = record { wc = refreshed wc; world = w }

  -- The assignments that the plan gives to the targeted nodes.
  abbrev pub planned : List (Option String)
  planned = (plan wc.nag (refreshed wc).assignment_changes (now wc)).0

  pub performed :
      WellFormed wc.nag
      → DistinctNodes wc.targeted_nodes
      → All (Ready cluster coop start) wc.targeted_nodes
      → (t : State cluster.World) × (reconcile_nodes cluster wc.targeted_nodes start ≡ (ok tt, t))
        × (t.wc.nag ≡ wc.nag)
        × (effects cluster coop t wc.targeted_nodes ≡ planned)
        × ((j : String)
            → elem j (node_names wc.targeted_nodes) ≡ false
            → effective cluster coop t j ≡ effective cluster coop start j)
  unfolding update_assignment_changes update_current_assignments
  performed formed distinct ready =
      let (t, p, l) =
        reconcile_nodes_lem cluster coop wc.targeted_nodes start formed.modes distinct ready in
      (t, p, l.group, l.effect, l.others)

  pub planned_within :
      WellFormed wc.nag → All (λ a. count (holds a.name) planned ≤ target wc a) wc.nag.assignments
  planned_within formed =
      plan_within wc.nag (refreshed wc).assignment_changes (now wc) (target wc) wc.nag.assignments
        formed.apart (refreshed-Wants wc formed)

  pub planned_exact :
      WellFormed wc.nag
      → All (λ c. is_known wc.nag c ≡ true) (now wc)
      → total (target wc) wc.nag.assignments ≤ length wc.targeted_nodes
      → All (λ a. count (holds a.name) planned ≡ target wc a) wc.nag.assignments
  planned_exact formed known enough =
      plan_exact wc.nag (refreshed wc).assignment_changes (now wc) (target wc) formed.distinct
        formed.apart known (refreshed-Wants wc formed)
        (omega (arith, enough, length-map (get_assignment wc.nag) wc.targeted_nodes))
