-- ===== src/Examples/Packing.antt =====
-- The theorems on pack-left scheduling, with fractions in place of floating-point numbers.
use kube_valet.PackLeft.Balance.{sort_slice, is_before, AssignmentContext, avoid_buffer_size}
use kube_valet.PackLeft.Balance.Sorted.{Compares, MayStand, Ordered, names, sort_slice-Ranked}
use mathlib.Core.List.{Perm}
use kube_valet.Finalizers.{pack_left_finalizer}
use kube_valet.Controllers.PackLeft.{process_nag}
use kube_valet.Controllers.Released.{process_nag-Released}
use kube_valet.PackLeft.Rebalance.{rebalance_nag}
use kube_valet.PackLeft.{get_assignment_by_name}
use kube_valet.PackLeft.Rebalanced.{Chosen}
use kube_valet.PackLeft.Rebalanced.Apart.{Absent, packed_in}
use kube_valet.PackLeft.Rebalanced.Visited.{VisitsEntries, rebalance_nag_lem}
use kube_valet.Prelude.{filter}
use kube_valet.Prelude.{
  true, false, ℕ, suc, ◌*◌, ◌/◌, String, ◌≡◌, refl, not, ◌==◌, none, some, List, [], ◌∷◌, count,
  elem, lookup, ltb, ◌&&◌, nat_eq, if◌then◌else◌, pos, pos_part, ◌≤ℤ◌, All,
}
use kube_valet.Outcome.{ok}
use kube_valet.Kube.Objects.{Node}
use kube_valet.Kube.Pods.{Pod}
use kube_valet.Kube.Labels.{get_label}
use kube_valet.Assignments.Types.{NodeAssignment, NodeAssignmentGroup, PackLeftScheduling}
use kube_valet.PackLeft.{get_label_key, node_can_be_balanced, node_has_pack_left_assignment}
use kube_valet.PackLeft.Fullness.{Floats}
use kube_valet.PackLeft.Balance.Choices.{
  is_use, is_avoid, min, AvoidsFirst, all_choices, is_full, all_choices_lem,
}
use kube_valet.Examples.Fixture.{
  server-StoresNags, server-KeepsGroups, server-KeepsLabels, web, pool, labelled, Server, server,
  server-Cooperates,
}

abbrev fractions : Floats
fractions = record {
  Float = ℕ × ℕ;
  of_int = λ n. (pos_part n, 1);
  quotient = λ a b. (a.0 * b.1, a.1 * b.0);
  gtb = λ a b. ltb (b.0 * a.1) (a.0 * b.1);
  eqb = λ a b. nat_eq (b.0 * a.1) (a.0 * b.1);
  eight_tenths = (8, 10);
}

abbrev packed : NodeAssignmentGroup
packed = record pool { assignments = record web { scheduling_mode = "PackLeft" } ∷ [] }

abbrev ready : String → Node
ready name =
    record (labelled name
      (("role", "worker") ∷ ("nag.assignments.kube-valet.io/pool", "web") ∷ [])) {
        conditions = record { kind = "Ready"; status = "True" } ∷ [];
      }

abbrev key : String
key = "nag.packleft.scheduling.kube-valet.io/pool"

abbrev marked : Node
marked = record (ready "n2") {
  labels = some ((key, "Deny") ∷ []);
  taints = record { key = key; value = "Deny"; effect = "NoSchedule" } ∷ [];
}

abbrev both : List Node
both = ready "n1" ∷ marked ∷ []

abbrev work : Pod
work = record {
  name = "p";
  namespace = "default";
  uid = "u";
  resource_version = "3";
  labels = none;
  node_name = "n1";
  phase = "Running";
  containers = record { requested_memory = pos 900; requested_milli_cpu = pos 10 } ∷ [];
}

abbrev packing : PackLeftScheduling
packing = record { full_percent = none; num_avoid = pos 2; percent_avoid = none }

abbrev before : Server
before = record {
  labels = λ node k. if node == "n2" then (if key == k then some "Deny" else none) else none;
  nags = λ name. pool;
}

abbrev avoided : Node
avoided = record marked {
  labels = some ((key, "Avoid") ∷ []);
  taints = record { key = key; value = "Avoid"; effect = "PreferNoSchedule" } ∷ [];
}

abbrev context : ℕ → String → AssignmentContext fractions
context n name = record { percent = (n, 100); node = ready name }

abbrev others : List (AssignmentContext fractions)
others = context 85 "n2" ∷ context 50 "n3" ∷ context 20 "n4" ∷ context 10 "n5" ∷ []

all_choices_lem_example :
    (pos 1 ≤ℤ avoid_buffer_size 5 (some packing))
    × (count is_use (
          all_choices fractions
            (8, 10)
            (avoid_buffer_size 5 (some packing))
            (context 90 "n1" ∷ others))
        ≡ suc (count (is_full fractions (8, 10)) others))
    × (count is_avoid (
          all_choices fractions
            (8, 10)
            (avoid_buffer_size 5 (some packing))
            (context 90 "n1" ∷ others))
        ≡ min
            (pos_part (avoid_buffer_size 5 (some packing)))
            (count (λ d. not (is_full fractions (8, 10) d)) others))
    × AvoidsFirst (
        all_choices fractions
          (8, 10)
          (avoid_buffer_size 5 (some packing))
          (context 90 "n1" ∷ others))
all_choices_lem_example =
    all_choices_lem fractions (8, 10) 5 (some packing) (context 90 "n1") others

identity-VisitsEntries : VisitsEntries (λ groups. groups)
identity-VisitsEntries = record { same = λ k m. refl; once = λ m u. u }

rebalance_nag_lem_example :
    (t : Server) × (rebalance_nag server fractions packed (λ groups. groups) both (work ∷ []) before
      ≡ (ok tt, t))
    × ((name : String) (a : NodeAssignment)
        → get_assignment_by_name name packed ≡ some a
        → Chosen server server-Cooperates fractions packed
            (work ∷ [])
            t
            (filter (packed_in packed name) both)
            a)
    × ((j : String)
        → ((name : String)
            → Absent (filter node_can_be_balanced (filter (packed_in packed name) both)) j)
        → t.labels j (get_label_key packed.name) ≡ before.labels j (get_label_key packed.name))
unfolding get_label lookup get_label_key
rebalance_nag_lem_example =
    rebalance_nag_lem packed both (λ groups. groups) identity-VisitsEntries server server-Cooperates
      server-StoresNags server-KeepsLabels fractions (work ∷ []) before (refl, (refl, tt))
      (
        record { writable = (_, refl); in_step = refl },
        (record { writable = (_, refl); in_step = refl }, tt),
      )

abbrev doomed : NodeAssignmentGroup
doomed = record packed { deleting = true }

process_nag-Released_example :
    (t : Server) × (process_nag server fractions (λ groups. groups) both (work ∷ []) doomed before
      ≡ (ok tt, t))
    × All
        (λ n. t.labels n.name (get_label_key doomed.name) ≡ (
          if node_has_pack_left_assignment n doomed && node_can_be_balanced n
          then get_label (get_label_key doomed.name) n.labels
          else none))
        both
    × ((f : String)
        → elem f (t.nags doomed.name).finalizers ≡ (
            if pack_left_finalizer == f
            then false
            else elem f (before.nags doomed.name).finalizers))
    × ((j : String)
        → (doomed.name == j) ≡ false
        → record (t.nags j) { name = j } ≡ record (before.nags j) { name = j })
unfolding get_label lookup get_label_key
process_nag-Released_example =
    process_nag-Released server server-Cooperates server-StoresNags server-KeepsGroups
      server-KeepsLabels fractions (λ groups. groups) both (work ∷ []) doomed before refl
      (refl, (refl, tt)) (refl, (refl, tt))

-- Fixed-point numbers, in thousandths.
abbrev thousandths : Floats
thousandths = record {
  Float = ℕ;
  of_int = λ n. 1000 * pos_part n;
  quotient = λ a b. 1000 * a / b;
  gtb = λ a b. ltb b a;
  eqb = λ a b. nat_eq a b;
  eight_tenths = 800;
}

abbrev thousandths-Compares : Compares thousandths
thousandths-Compares = record {
  is_number = λ a. true;
  place = λ a. a;
  greater = λ a b x y. refl;
  equal = λ a b x y. refl;
}

abbrev filled : ℕ → String → AssignmentContext thousandths
filled percent name = record { percent = percent; node = ready name }

abbrev entries : List (AssignmentContext thousandths)
entries = filled 200 "n1" ∷ filled 850 "n2" ∷ filled 200 "n3" ∷ []

sort_slice-Ranked_example :
    Perm (sort_slice thousandths entries) entries
    × Ordered thousandths thousandths-Compares
        (MayStand thousandths thousandths-Compares)
        (sort_slice thousandths entries)
    × ((m : List (AssignmentContext thousandths))
        → Perm m entries
        → Ordered thousandths thousandths-Compares (MayStand thousandths thousandths-Compares) m
        → names thousandths thousandths-Compares m ≡ "n2" ∷ "n3" ∷ "n1" ∷ [])
unfolding is_before
sort_slice-Ranked_example =
    sort_slice-Ranked thousandths thousandths-Compares entries (refl, (refl, (refl, tt)))
