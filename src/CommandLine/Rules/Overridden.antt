-- ===== src/CommandLine/Rules/Overridden.antt =====
-- The rules that `valetctl assignment create` makes where an assignment and a node affinity are given.
use Prim.Native.String.{◌++◌}
use kube_valet.Prelude.{
  String, ◌≡◌, refl, sym, ◌∙◌, subst, Bool, true, false, some, ◌==◌, arith, Map, Option-cases, inl,
  inr,
}
use kube_valet.Outcome.{Outcome, ok, err, panic, exit, ◌>>=◌}
use kube_valet.Kube.Objects.{Node}
use kube_valet.Kube.Labels.{get_label}
use kube_valet.Kube.Cluster.{reply}
use kube_valet.Kube.Scheduling.{NodeSelectorTerm}
use kube_valet.CommandLine.Strings.{split}
use kube_valet.CommandLine.Strings.Cutting.{lacks, split-lacks, split-append}
use kube_valet.CommandLine.Tool.{RuleSpec, Flags, Tool}
use kube_valet.CommandLine.Rules.{
  requirement, requiring, with_affinity, new_spec, affinity_term, apply_term_to_spec,
  add_node_assignment, add_node_affinity, add_node_selector, add_others, described_rule,
}
use kube_valet.CommandLine.Rules.Matching.{admits, is_meant, parts_not_empty}

module _ (tool : Tool) (visit : Map String → Map String) (flags : Flags) (labels : Map String)
    (selected : tool.selector_to_labels flags.rule_target_labels ≡ reply labels) where
  module _ (key values : String) (bare_key : lacks b'=' key ≡ true)
      (bare_values : lacks b'=' values ≡ true)
      (given : flags.rule_node_affinity ≡ key ++ String.◌∷◌ "=" values)
      (mode : flags.rule_mode ≡ "require") where
    abbrev attracting : NodeSelectorTerm
    attracting = requirement key "In" (split b',' values)

    given_not_empty : (key ++ String.◌∷◌ "=" values == "") ≡ false
    given_not_empty = parts_not_empty key "=" values

    affinity_parts : affinity_term (split b'=' (key ++ String.◌∷◌ "=" values)) ≡ ok attracting
    unfolding affinity_term
    affinity_parts =
        rw (split-append "=" key values bare_key) (rw (split-lacks b'=' values bare_values) refl)

    abbrev named_nodes : Node → Bool
    named_nodes node = is_meant (some values) (get_label key node.labels)

    abbrev finished : RuleSpec → Outcome RuleSpec
    finished spec = add_node_affinity flags spec >>= λ attracted.
        add_node_selector tool visit flags attracted >>= λ selecting.
        ok (add_others visit flags labels selecting)

    replaced : (spec : RuleSpec) → finished spec ≡ ok (with_affinity (requiring attracting) spec)
    unfolding add_node_affinity add_node_selector add_others apply_term_to_spec
    replaced spec = rw mode (rw given (rw given_not_empty (rw affinity_parts refl)))

    named_admitted :
        (spec : RuleSpec) (node : Node)
        → admits (with_affinity (requiring attracting) spec) node ≡ named_nodes node
    named_admitted spec node = elim (Option-cases (get_label key node.labels)) [
      | inl e ↦ rw e refl
      | inr (a, e) ↦ rw e (ground arith)
    ]

    from_assigned :
        (o : Outcome RuleSpec) (t : RuleSpec)
        → (o >>= finished) ≡ ok t
        → (node : Node) → admits t node ≡ named_nodes node
    from_assigned (ok spec) t e node =
        let same : with_affinity (requiring attracting) spec ≡ t = cc (e, replaced spec) in
        subst (λ x. admits x node ≡ named_nodes node) same (named_admitted spec node)
    from_assigned (err x) t e node = absurd (cc e)
    from_assigned panic t e node = absurd (cc e)
    from_assigned exit t e node = absurd (cc e)

    described_from :
        described_rule tool visit flags ≡ (add_node_assignment flags (new_spec labels) >>= finished)
    unfolding described_rule
    described_from = rw selected refl

    -- Where a node affinity is given, the rule that is made admits the nodes that it names, whatever
    -- assignment is given beside it.
    pub described_rule-overridden :
        (t : RuleSpec)
        → described_rule tool visit flags ≡ ok t
        → (node : Node) → admits t node ≡ is_meant (some values) (get_label key node.labels)
    described_rule-overridden t e node =
        from_assigned (add_node_assignment flags (new_spec labels)) t (sym described_from ∙ e) node
