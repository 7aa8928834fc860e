-- ===== src/Examples/Reconciling.antt =====
-- The theorems on reconciliation at the group of the fixture.
use kube_valet.Prelude.{◌≡◌, refl, [], ◌∷◌, lookup, ℤ, pos, negsuc, All, Map}
use kube_valet.NodeAssignments.WriterContext.{WriterContext}
use kube_valet.NodeAssignments.Reconcile.Loop.{Performs, plan_for, reconcile_nodes_lem}
use kube_valet.Outcome.{ok}
use kube_valet.Kube.Labels.{get_label}
use kube_valet.Assignments.Groups.{assignment_key, get_assignment}
use kube_valet.NodeAssignments.WriterContext.Steps.{State, reconcile_nodes}
use kube_valet.NodeAssignments.Reconcile.Rounds.{Ready}
use kube_valet.Examples.Fixture.{pool, nodes, Server, server, server-Cooperates, at_start}

abbrev sets : WriterContext
sets = record {
  nag = pool;
  known_assignments = ("web", tt) ∷ ("batch", tt) ∷ ("spare", tt) ∷ [];
  targeted_nodes = nodes;
  current_assignments = [];
  assignment_changes = [];
  unassigned_node_names = [];
}

-- The plan moves one node from `batch` to `web` and gives the free one to the default.
abbrev needs : Map ℤ
needs = ("web", pos 1) ∷ ("batch", negsuc 0) ∷ []

abbrev at_need : State Server
at_need = record { wc = record sets { assignment_changes = needs }; world = at_start }

at_need-Ready : All (Ready server server-Cooperates at_need) nodes
unfolding get_assignment assignment_key get_label lookup
at_need-Ready = (
  record { writable = (_, refl); in_step = refl },
  (
    record { writable = (_, refl); in_step = refl },
    (record { writable = (_, refl); in_step = refl }, tt),
  ),
)

reconcile_nodes_lem_example :
    (t : State Server) × (reconcile_nodes server nodes at_need ≡ (ok tt, t))
    × Performs server server-Cooperates at_need t nodes (plan_for pool needs nodes)
reconcile_nodes_lem_example =
    reconcile_nodes_lem server server-Cooperates nodes at_need ((refl, (refl, tt)), λ d e. cc e)
      (refl, (refl, (refl, tt))) at_need-Ready
