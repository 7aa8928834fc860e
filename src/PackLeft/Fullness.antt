-- ===== src/PackLeft/Fullness.antt =====
-- pkg/controller/scheduling/packleft/manager.go: how full a node is, by the requests of its pods.
use kube_valet.Prelude.{
  ℕ, ◌-◌, ◌*◌, String, ◌≡◌, sym, ◌∙◌, Bool, List, [], ◌∷◌, ◌++◌, ◌==◌, if◌then◌else◌, filter, ℤ,
  pos, negsuc, ◌+ℤ◌, ltb, Map, lookup, slice_at, append_at, slice_at-append_at,
}
use Prim.Native.Nat.{◌%◌}
use kube_valet.Kube.Objects.{Node}
use kube_valet.Kube.Pods.{Container, Pod, pod_succeeded}
use mathlib.Core.List.{append-nil}

-- Go's float64, as far as the manager uses it: conversions of integers, division, `>` and `==`.
pub record Floats : Type 1 where
  pub Float : Type 0
  pub of_int : ℤ → Float
  pub quotient : Float → Float → Float
  pub gtb : Float → Float → Bool
  pub eqb : Float → Float → Bool
  pub eight_tenths : Float

-- The sum of two int64, which wraps around at 2 ^ 63.
abbrev two_63 : ℕ
two_63 = 9223372036854775808

abbrev pub wrap_64 : ℤ → ℤ
wrap_64 (pos n) =
    let m = n % (2 * two_63) in if ltb m two_63 then pos m else negsuc (2 * two_63 - m - 1)
wrap_64 (negsuc n) =
    let m = n % (2 * two_63) in if ltb m two_63 then negsuc m else pos (2 * two_63 - 1 - m)

abbrev pub add_64 : ℤ → ℤ → ℤ
add_64 a b = wrap_64 (a +ℤ b)

abbrev pub group_pods : List Pod → Map (List Pod) → Map (List Pod)
group_pods [] m = m
group_pods (pod ∷ rest) m = group_pods rest (append_at pod.node_name pod m)

unfoldable pub get_pods_on_nodes : List Pod → Map (List Pod)
get_pods_on_nodes pods = group_pods pods []

abbrev pub sum_containers : (Container → ℤ) → List Container → ℤ → ℤ
sum_containers f [] n = n
sum_containers f (c ∷ rest) n = sum_containers f rest (add_64 n (f c))

-- Completed pods do not count.
abbrev pub sum_pods : (Container → ℤ) → List Pod → ℤ → ℤ
sum_pods f [] n = n
sum_pods f (pod ∷ rest) n =
    sum_pods f rest (if pod.phase == pod_succeeded then n else sum_containers f pod.containers n)

module _ (floats : Floats) where
  open floats use {Float, of_int, quotient, gtb}

  unfoldable pub get_node_percent_full_memory : Node → Map (List Pod) → Float
  get_node_percent_full_memory node pods =
      quotient (of_int (sum_pods (λ c. c.requested_memory) (slice_at node.name pods) (pos 0)))
        (of_int node.allocatable_memory)

  unfoldable pub get_node_percent_full_cpu : Node → Map (List Pod) → Float
  get_node_percent_full_cpu node pods =
      quotient (of_int (sum_pods (λ c. c.requested_milli_cpu) (slice_at node.name pods) (pos 0)))
        (of_int node.allocatable_milli_cpu)

  -- The larger of both.
  unfoldable pub percent_full : Node → Map (List Pod) → Float
  unfolding get_node_percent_full_memory get_node_percent_full_cpu
  percent_full node pods =
      let memory = get_node_percent_full_memory node pods in
      let cpu = get_node_percent_full_cpu node pods in if gtb memory cpu then memory else cpu

group_pods_lem :
    (pods : List Pod) (m : Map (List Pod)) (name : String)
    → slice_at name (group_pods pods m) ≡ slice_at name m ++ filter (λ p. p.node_name == name) pods
group_pods_lem [] m name = sym (append-nil _)
group_pods_lem (pod ∷ pods) m name =
    group_pods_lem pods (append_at pod.node_name pod m) name
    ∙ slice_at-append_at pod.node_name name pod m _

-- The pods that the map holds for a node are those on it, in the order of the store.
pub get_pods_on_nodes_lem :
    (pods : List Pod) (name : String)
    → slice_at name (get_pods_on_nodes pods) ≡ filter (λ p. p.node_name == name) pods
unfolding get_pods_on_nodes lookup
get_pods_on_nodes_lem pods name = group_pods_lem pods [] name
