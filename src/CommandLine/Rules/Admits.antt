-- ===== src/CommandLine/Rules/Admits.antt =====
-- The rules that `valetctl assignment create` makes for an assignment, and the nodes of the assignment.
use Prim.Native.String.{◌++◌}
use mathlib.Core.List.{append-nil}
use kube_valet.Prelude.{
  String, ◌≡◌, refl, sym, ap, ◌∙◌, true, not, Option, some, ◌==◌, eq_refl, filter, filter-append,
  Bool-cases, Map, inl, inr,
}
use kube_valet.Outcome.{ok}
use kube_valet.Kube.Objects.{Node}
use kube_valet.Kube.Labels.{get_label}
use kube_valet.Kube.Cluster.{reply}
use kube_valet.Assignments.Types.{NodeAssignment, NodeAssignmentGroup, mode_label_and_taint}
use kube_valet.Assignments.Groups.{assignment_key, get_assignment, assign}
use kube_valet.Assignments.Groups.Assign.{
  is_known_mode, chosen_effect, assigned_taints, get_assignment-assign,
}
use kube_valet.CommandLine.Tool.{RuleSpec, Flags, Tool}
use kube_valet.CommandLine.Rules.{
  nag_label, requiring, with_affinity, with_tolerations, new_spec, apply_term_to_spec,
  add_node_assignment, described_rule,
}
use kube_valet.CommandLine.Rules.Matching.{
  admits, is_tolerated, target_text, IsTarget, is_meant, term_of, tolerations_of, target_split,
  target_not_empty, term_meant, tolerated_meant,
}

module _ (tool : Tool) (visit : Map String → Map String) (flags : Flags) (labels : Map String)
    (selected : tool.selector_to_labels flags.rule_target_labels ≡ reply labels) where
  module _ (group : String) (names : Option String) (target : IsTarget group names)
      (given : flags.rule_assignment ≡ target_text group names)
      (mode : flags.rule_mode ≡ "require") where
    abbrev assigned : RuleSpec
    assigned =
        with_affinity (requiring (term_of group names))
          (with_tolerations (tolerations_of group names) (new_spec labels))

    add_node_assignment-eq : add_node_assignment flags (new_spec labels) ≡ ok assigned
    unfolding add_node_assignment apply_term_to_spec
    add_node_assignment-eq = rw mode (
        rw given
          (rw (target_not_empty group names target) (rw (target_split group names target) refl)))

    module _ (alone : flags.rule_node_affinity ≡ "") where
      described : described_rule tool visit flags ≡ ok assigned
      unfolding described_rule
      described =
          rw selected (rw (add_node_assignment-eq, described_rule) (rw mode (rw alone refl)))

      module _ (nag : NodeAssignmentGroup) (named : nag.name ≡ group) where
        same_key : nag_label group ≡ assignment_key nag
        unfolding nag_label assignment_key
        same_key = ap (λ n. "nag.assignments.kube-valet.io/" ++ n) (sym named)

        admits-assigned :
            (node : Node) → admits assigned node ≡ is_meant names (get_assignment nag node)
        unfolding get_assignment
        admits-assigned node =
            term_meant group names node.labels
            ∙ ap (λ k. is_meant names (get_label k node.labels)) same_key

        is_tolerated-assigned :
            (v effect : String)
            → is_tolerated assigned
                (record { key = assignment_key nag; value = v; effect = effect })
              ≡ is_meant names (some v)
        is_tolerated-assigned v effect =
            ap (λ k. is_tolerated assigned (record { key = k; value = v; effect = effect }))
              (sym same_key)
            ∙ tolerated_meant group names v effect

        untolerated_kept :
            (node : Node) (na : NodeAssignment)
            → is_meant names (some na.name) ≡ true
            → filter (λ x. not (is_tolerated assigned x)) (assigned_taints nag node na)
              ≡ filter (λ x. not (is_tolerated assigned x)) node.taints
        untolerated_kept node na m = elim (Bool-cases (na.mode == mode_label_and_taint)) [
          | inr e ↦ rw e
          | inl e ↦ rw e (
              filter-append _ node.taints _
              ∙ rw (is_tolerated-assigned na.name (chosen_effect na) ∙ m) (append-nil _))
        ]

        -- A rule made for a required assignment selects exactly the nodes that have one of the given
        -- assignments of the group, or any where none is given; and it tolerates every taint that
        -- `Assign` puts on such a node.
        pub described_rule-admits :
            (t : RuleSpec) × (described_rule tool visit flags ≡ ok t)
            × ((node : Node) → admits t node ≡ is_meant names (get_assignment nag node))
            × ((node node' : Node) (na na' : NodeAssignment)
                → is_known_mode na.mode ≡ true
                → assign nag node na ≡ ok (node', na')
                → is_meant names (some na.name) ≡ true
                → (admits t node' ≡ true)
                  × (filter (λ x. not (is_tolerated t x)) node'.taints
                      ≡ filter (λ x. not (is_tolerated t x)) node.taints))
        described_rule-admits = (
          assigned,
          described,
          admits-assigned,
          λ node node' na na' k e m.
              let (labelled, tainted) = get_assignment-assign nag nag node node' na na' k e in
              (
                admits-assigned node'
                    ∙ ap (is_meant names) {y = some na.name} (labelled ∙ rw (eq_refl nag.name) refl)
                    ∙ m,
                ap (filter (λ x. not (is_tolerated assigned x))) tainted
                    ∙ untolerated_kept node na m,
              ),
        )
