-- ===== src/PackLeft/Balance.antt =====
-- balanceNodes of pkg/controller/scheduling/packleft/manager.go. The gauge that `assignNode` sets is
-- left out, and with it the assignment that a context keeps for it.
pub mod Choices
pub mod Order
pub mod Texts
pub mod Sorted
pub mod Unique
pub mod Results
use Prim.Native.String.{compare}
use text.Mathlib.Text.{is_lt}
use kube_valet.Prelude.{
  ℕ, suc, String, Bool, true, false, Option, none, some, List, [], ◌∷◌, if◌then◌else◌, length, ℤ,
  pos, ltb_ℤ, quot, mul_ℕ, Map,
}
use kube_valet.Outcome.{Outcome, ok, err, panic, exit, Run, then_run}
use kube_valet.Kube.Objects.{Node}
use kube_valet.Kube.Pods.{Pod}
use kube_valet.Kube.Cluster.{Cluster}
use kube_valet.Kube.Sending.{send_difference}
use kube_valet.Assignments.Types.{PackLeftScheduling}
use kube_valet.PackLeft.{
  NodePackLeftState, node_use, node_avoid, node_deny, node_can_be_balanced, assign_node,
}
use kube_valet.PackLeft.Fullness.{Floats, get_pods_on_nodes, percent_full}

-- Rounded down. The code computes int(float32(total) * float32(percent) / 100.0), which is the exact
-- quotient while the product is below 2 ^ 24.
abbrev pub avoid_share : ℕ → Option ℤ → ℤ
avoid_share total none = pos 0
avoid_share total (some percent) = quot (mul_ℕ total percent) 100

abbrev pub avoid_wish : ℕ → Option PackLeftScheduling → ℤ
avoid_wish total none = pos 0
avoid_wish total (some p) =
    let share = avoid_share total p.percent_avoid in
    if ltb_ℤ share p.num_avoid then p.num_avoid else share

-- At least 1.
unfoldable pub avoid_buffer_size : ℕ → Option PackLeftScheduling → ℤ
avoid_buffer_size total pack_left =
    let size = avoid_wish total pack_left in if ltb_ℤ size (pos 1) then pos 1 else size

-- `avoidCount` after a node
abbrev pub count_avoid : NodePackLeftState → ℕ → ℕ
count_avoid node_use n = n
count_avoid node_avoid n = suc n
count_avoid node_deny n = n

-- An error of `patchNodeState` is dropped.
abbrev pub drop_err {ℓ} : {W : Type ℓ} → Outcome (Unit {ℓ}) × W → Outcome (Unit {ℓ}) × W
drop_err (ok _, w) = (ok tt, w)
drop_err (err _, w) = (ok tt, w)
drop_err (panic, w) = (panic, w)
drop_err (exit, w) = (exit, w)

module _ (cluster : Cluster) where
  abbrev pub send_assigned_node : Node → Outcome Node → Run cluster.World (Unit {0})
  send_assigned_node node (ok new) w = drop_err (send_difference cluster node new w)
  send_assigned_node node (err e) w = (err e, w)
  send_assigned_node node panic w = (panic, w)
  send_assigned_node node exit w = (exit, w)

  -- `assignNode` and `patchNodeState` for one node
  unfoldable pub mark_node : String → Node → NodePackLeftState → Run cluster.World (Unit {0})
  mark_node key node state w = send_assigned_node node (assign_node node state key) w

module _ (floats : Floats) where
  open floats use {Float, of_int, quotient, gtb, eqb, eight_tenths}

  pub record AssignmentContext : Type 0 where
    pub percent : floats.Float
    pub node : Node

  unfoldable pub balanceable : Map (List Pod) → List Node → List AssignmentContext
  balanceable pods [] = []
  balanceable pods (node ∷ rest) =
      let more = balanceable pods rest in
      if node_can_be_balanced node
      then record { percent = percent_full floats node pods; node = node } ∷ more
      else more

  -- The order of `sort.Slice`: the fuller node first, and of two equally full the later name.
  unfoldable pub is_before : AssignmentContext → AssignmentContext → Bool
  is_before a b =
      if eqb a.percent b.percent
      then is_lt (compare b.node.name a.node.name)
      else gtb a.percent b.percent

  abbrev pub insert_sorted : AssignmentContext → List AssignmentContext → List AssignmentContext
  insert_sorted a [] = a ∷ []
  insert_sorted a (b ∷ rest) =
      let more = insert_sorted a rest in if is_before b a then b ∷ more else a ∷ b ∷ rest

  -- `sort.Slice` with this order, as an insertion sort.
  abbrev pub sort_slice : List AssignmentContext → List AssignmentContext
  sort_slice [] = []
  sort_slice (a ∷ rest) = insert_sorted a (sort_slice rest)

  -- 80 percent where the assignment does not say.
  unfoldable pub full_percent : Option PackLeftScheduling → Float
  full_percent none = eight_tenths
  full_percent (some p) = elim p.full_percent [
    | none ↦ eight_tenths
    | some x ↦ quotient (of_int x) (of_int (pos 100))
  ]

  -- The state of a node after the first, given how many nodes are to be avoided already.
  unfoldable pub choose_state : Float → ℤ → ℕ → Float → NodePackLeftState
  choose_state full size avoided percent =
      if gtb percent full
      then node_use
      else if ltb_ℤ (pos avoided) size
      then node_avoid
      else node_deny

  module _ (cluster : Cluster) where
    unfoldable pub balance_rest :
        String → Float → ℤ → ℕ → List AssignmentContext → Run cluster.World (Unit {0})
    unfolding mark_node choose_state
    balance_rest key full size avoided [] w = (ok tt, w)
    balance_rest key full size avoided (c ∷ rest) w =
        let state = choose_state full size avoided c.percent in
        then_run (mark_node cluster key c.node state)
          (λ _. balance_rest key full size (count_avoid state avoided) rest) w

    abbrev pub balance_sorted :
        String → Float → ℤ → List AssignmentContext → Run cluster.World (Unit {0})
    balance_sorted key full size [] w = (ok tt, w)
    balance_sorted key full size (c ∷ rest) w =
        then_run (mark_node cluster key c.node node_use) (λ _. balance_rest key full size 0 rest) w

    -- The buffer size is a share of all nodes of the assignment, the unschedulable ones included.
    unfoldable pub balance_nodes :
        List Pod → List Node → String → Option PackLeftScheduling → Run cluster.World (Unit {0})
    unfolding get_pods_on_nodes balanceable full_percent avoid_buffer_size balance_rest
    balance_nodes pods nodes key pack_left =
        balance_sorted key (full_percent pack_left) (avoid_buffer_size (length nodes) pack_left)
          (sort_slice (balanceable (get_pods_on_nodes pods) nodes))
