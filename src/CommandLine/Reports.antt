-- ===== src/CommandLine/Reports.antt =====
-- groupReportByNag and groupReportByNode of bin/valetctl.go. A `visit` is the order in which `range`
-- visits the keys of a map.
pub mod Members
pub mod Rows
pub mod Table
pub mod Entries
use Prim.Native.String.{◌++◌}
use mathlib.Core.List
use kube_valet.Prelude.{
  ℕ, zero, suc, String, Bool, true, false, ◌&&◌, Option, none, some, List, [], ◌∷◌, map, ◌==◌, leb,
  if◌then◌else◌, length, Map, lookup, insert,
}
use kube_valet.Outcome.{Outcome, ok, err, panic, exit, Run, ◌>>=◌}
use kube_valet.Kube.Objects.{LabelMap, Taint, Node}
use kube_valet.Kube.Labels.{get_label}
use kube_valet.Kube.Cluster.{Reply, reply, failed}
use kube_valet.Assignments.Types.{NodeAssignmentGroup}
use kube_valet.Assignments.Groups.{is_protected}
use kube_valet.PodAssignments.{entries_of}
use kube_valet.CommandLine.Strings.{has_prefix, split_n, join}
use kube_valet.CommandLine.Tool.{Flags, Tool}
use kube_valet.CommandLine.Rules.{nag_label}

-- `m[k]` of a `map[string][]string`: nil where the key is missing.
unfoldable pub get_list : String → Map (List String) → List String
get_list k m = elim (lookup k m) [ none ↦ [] | some l ↦ l ]

-- The loop over the labels of one node.
unfoldable pub add_member : String → String → Map String → Map (List String) → Map (List String)
add_member key name [] members = members
add_member key name ((lk, lv) ∷ rest) members =
    add_member key name rest (
      if lk == key
      then insert lv (List.◌++◌ (get_list lv members) (name ∷ [])) members
      else members)

-- The names of the nodes of each assignment of a group.
unfoldable pub assignment_members :
    NodeAssignmentGroup → List Node → Map (List String) → Map (List String)
unfolding add_member
assignment_members nag [] members = members
assignment_members nag (node ∷ rest) members =
    assignment_members nag rest
      (add_member (nag_label nag.name) node.name (entries_of node.labels) members)

-- The number of rows: the length of the longest list.
unfoldable pub count_rows : List (List String) → ℕ → ℕ
count_rows [] n = n
count_rows (l ∷ rest) n = count_rows rest (if leb (length l) n then n else length l)

abbrev pub head_text : List String → String
head_text [] = ""
head_text (x ∷ l) = x

abbrev pub tail_of : List String → List String
tail_of [] = []
tail_of (x ∷ l) = l

-- `len(l) > 0`
abbrev pub is_left : List String → Bool
is_left [] = false
is_left (x ∷ l) = true

-- One row: the first member that is left of each assignment, or nothing.
unfoldable pub take_row : List String → Map (List String) → List String × Map (List String)
take_row [] members = ([], members)
take_row (a ∷ rest) members =
    let l = get_list a members in
    let (cells, members') =
      take_row rest (if is_left l then insert a (tail_of l) members else members) in
    (head_text l ∷ cells, members')

unfoldable pub take_rows : ℕ → List String → Map (List String) → List (List String)
unfolding take_row
take_rows zero names members = []
take_rows (suc n) names members =
    let (cells, members') = take_row names members in cells ∷ take_rows n names members'

abbrev pub row_text : List String → String
row_text [] = "\t\n"
row_text (c ∷ cells) = c ++ ("\t" ++ row_text cells)

abbrev pub rows_text : List (List String) → String
rows_text [] = ""
rows_text (r ∷ rest) = row_text r ++ rows_text rest

-- What follows "nag.assignments.kube-valet.io/" in a key.
abbrev pub after_slash : List String → Outcome String
after_slash (p ∷ q ∷ rest) = ok q
after_slash _ = panic

abbrev pub nag_prefix : String
nag_prefix = "nag.assignments.kube-valet.io/"

-- The loop over the labels of a node.
unfoldable pub label_entries : Map String → Outcome (List String)
label_entries [] = ok []
label_entries ((lk, lv) ∷ rest) =
    let others = label_entries rest in
    if has_prefix lk nag_prefix
    then (do
      group ← after_slash (split_n b'/' 2 lk)
      more ← others
      ok ((group ++ ("/" ++ lv)) ∷ more))
    else others

unfoldable pub taint_entries : List Taint → Outcome (List String)
taint_entries [] = ok []
taint_entries (t ∷ rest) =
    let others = taint_entries rest in
    if has_prefix t.key nag_prefix
    then (do
      group ← after_slash (split_n b'/' 2 t.key)
      more ← others
      ok ((group ++ ("/" ++ (t.value ++ (":" ++ t.effect)))) ∷ more))
    else others

abbrev pub protected_entry : Node → List String
protected_entry node = if is_protected node.labels then "PROTECTED" ∷ [] else []

-- The assignments and the taints of a node, as its row lists them.
unfoldable pub node_entries : Node → Outcome (List String × List String)
unfolding label_entries taint_entries is_protected
node_entries node = do
  labels ← label_entries (entries_of node.labels)
  taints ← taint_entries node.taints
  ok (List.◌++◌ (protected_entry node) labels, List.◌++◌ (protected_entry node) taints)

unfoldable pub node_rows : List Node → Outcome String
unfolding node_entries
node_rows [] = ok ""
node_rows (node ∷ rest) = do
  (labels, taints) ← node_entries node
  more ← node_rows rest
  ok (node.name ++ ("\t" ++ (join "," labels ++ ("\t" ++ (join "," taints ++ ("\t\n" ++ more))))))

module _ (tool : Tool) (visit : List String → List String) where
  open tool use {World, tabulate, print, print_error, list_nags, get_nag, list_nodes, get_node}

  -- The loop that fetches objects by name: an error is kept under the name.
  unfoldable pub fetch_each :
      {A : Type 0}
      → (String → World → Reply A × World)
      → List String
      → List A × Map String
      → World
      → (List A × Map String) × World
  fetch_each get [] got w = (got, w)
  fetch_each get (name ∷ rest) got w =
      let (r, w') = get name w in
      fetch_each get rest
        (elim r [
          | reply a ↦ (List.◌++◌ got.0 (a ∷ []), got.1)
          | failed e ↦ (got.0, insert name e got.1)
        ])
        w'

  -- All objects where no name is given.
  unfoldable pub fetch :
      {A : Type 0}
      → (World → Reply (List A) × World)
      → (String → World → Reply A × World)
      → List String
      → Run World (List A × Map String)
  unfolding fetch_each
  fetch list get [] w =
      let (r, w') = list w in elim r [ reply l ↦ (ok (l, []), w') | failed e ↦ (exit, w') ]
  fetch list get (name ∷ names) w =
      let (r, w') = fetch_each get (name ∷ names) ([], []) w in (ok r, w')

  abbrev pub print_errors : Map String → World → World
  print_errors [] w = w
  print_errors ((k, e) ∷ rest) w =
      print_errors rest (print_error ("Error fetching " ++ (k ++ (": " ++ (e ++ "\n")))) w)

  -- The columns of the table for a group, and its rows.
  unfoldable pub nag_columns : NodeAssignmentGroup → List Node → List String
  unfolding assignment_members
  nag_columns nag nodes = visit (map (λ e. e.0) (assignment_members nag nodes []))

  unfoldable pub nag_table : NodeAssignmentGroup → List Node → List (List String)
  unfolding nag_columns count_rows take_rows
  nag_table nag nodes =
      let members = assignment_members nag nodes [] in
      take_rows (count_rows (map (λ e. e.1) members) 0) (nag_columns nag nodes) members

  unfoldable pub report_nag : List Node → Map String → NodeAssignmentGroup → World → World
  unfolding nag_table
  report_nag nodes errors nag w =
      let title = "========= NAG " ++ (nag.name ++ " Assignments =========\n") in
      let header = "--" ++ (join "--\t--" (nag_columns nag nodes) ++ "--\t\n") in
      print_errors errors
        (print "\n" (print (tabulate (header ++ rows_text (nag_table nag nodes))) (print title w)))

  unfoldable pub report_nags : List Node → Map String → List NodeAssignmentGroup → World → World
  unfolding report_nag
  report_nags nodes errors [] w = w
  report_nags nodes errors (nag ∷ rest) w =
      report_nags nodes errors rest (report_nag nodes errors nag w)

  abbrev pub report_found :
      Outcome (List NodeAssignmentGroup × Map String) × World → Outcome (Unit {0}) × World
  report_found (ok ([], errors), w) = (ok tt, print "No resources found.\n" w)
  report_found (ok (nag ∷ nags, errors), w) =
      let (r, w') = list_nodes w in
      elim r [
        | failed e ↦ (exit, w')
        | reply nodes ↦ (ok tt, report_nags nodes errors (nag ∷ nags) w')
      ]
  report_found (err e, w) = (err e, w)
  report_found (panic, w) = (panic, w)
  report_found (exit, w) = (exit, w)

  unfoldable pub group_report_by_nag : Flags → Run World (Unit {0})
  unfolding fetch report_nags
  group_report_by_nag flags w = report_found (fetch list_nags get_nag flags.reported_nags w)

  abbrev pub report_node_rows : Outcome String → Run World (Unit {0})
  report_node_rows (ok rows) w =
      (ok tt, print (tabulate ("NODE\tNAG-ASSIGNMENTS\tNAG-TAINTS\t\n" ++ rows)) w)
  report_node_rows (err e) w = (err e, w)
  report_node_rows panic w = (panic, w)
  report_node_rows exit w = (exit, w)

  -- The errors of nodes that could not be fetched are dropped.
  abbrev pub report_nodes : Outcome (List Node × Map String) × World → Outcome (Unit {0}) × World
  report_nodes (ok (nodes, errors), w) = report_node_rows (node_rows nodes) w
  report_nodes (err e, w) = (err e, w)
  report_nodes (panic, w) = (panic, w)
  report_nodes (exit, w) = (exit, w)

  unfoldable pub group_report_by_node : Flags → Run World (Unit {0})
  unfolding fetch node_rows
  group_report_by_node flags w = report_nodes (fetch list_nodes get_node flags.reported_nodes w)
