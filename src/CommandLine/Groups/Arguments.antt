-- ===== src/CommandLine/Groups/Arguments.antt =====
-- The arguments of `valetctl group create`, written down and read again.
use mathlib.Core.Bool.{false≢true}
use Prim.Native.String.{◌++◌}
use kube_valet.Prelude.{
  ℕ, ◌≤◌, String, ◌≡◌, refl, sym, ap, ◌∙◌, true, false, none, some, List, [], ◌∷◌, arith,
  ne→eq_false, map, Map, All, pos,
}
use kube_valet.Outcome.{ok}
use kube_valet.Kube.Cluster.{reply}
use kube_valet.Assignments.Types.{NodeAssignmentGroup}
use kube_valet.CommandLine.Strings.{cut_suffix, is_number, parse_int}
use kube_valet.CommandLine.Strings.Cutting.{lacks, split_n_three, lacks-append, cut_suffix-append}
use kube_valet.CommandLine.Strings.Numbers.{
  show_nat, show_nat_lem, all_digits_of_number, digits-lacks, digits_no_percent, parse_int-digits,
}
use kube_valet.CommandLine.Tool.{Flags, Tool, report_created}
use kube_valet.CommandLine.Groups.{
  argument_fields, new_assignment, add_assignment, trim_percent, add_argument, read_argument,
  read_arguments, new_group, described_group, submit_group, group_create,
}

pub data Share : Type 0 where
  by_default : Share
  by_count : ℕ → Share
  by_percent : ℕ → Share

pub record Argument : Type 0 where
  pub name : String
  pub share : Share
  pub mode : String

abbrev pub share_text : Share → String
share_text by_default = "DEFAULT"
share_text (by_count n) = show_nat n
share_text (by_percent n) = show_nat n ++ "%"

-- NAME:NUM:MODE
abbrev pub written : Argument → String
written a = a.name ++ String.◌∷◌ ":" (share_text a.share ++ String.◌∷◌ ":" a.mode)

-- The number fits into an int32.
abbrev pub Fits : Share → Type 0
Fits by_default = Unit
Fits (by_count n) = n ≤ 2147483647
Fits (by_percent n) = n ≤ 2147483647

-- An argument that can be written down.
abbrev pub IsWritable : Argument → Type 0
IsWritable a = (lacks b':' a.name ≡ true) × Fits a.share

-- What the argument is to do to the group.
abbrev pub meaning : String → Share → String → NodeAssignmentGroup → NodeAssignmentGroup
meaning name by_default mode nag = record nag {
  default_assignment = some (new_assignment name mode (pos 0) (pos 0));
}
meaning name (by_count n) mode nag = add_assignment (new_assignment name mode (pos n) (pos 0)) nag
meaning name (by_percent n) mode nag = add_assignment (new_assignment name mode (pos 0) (pos n)) nag

abbrev pub meant : List Argument → NodeAssignmentGroup → NodeAssignmentGroup
meant [] nag = nag
meant (a ∷ rest) nag = meant rest (meaning a.name a.share a.mode nag)

shown_lacks : (n : ℕ) → lacks b':' (show_nat n) ≡ true
shown_lacks n = digits-lacks (show_nat n) (all_digits_of_number (show_nat n) (show_nat_lem n).0)

shown_percent_lacks : (n : ℕ) → lacks b':' (show_nat n ++ "%") ≡ true
shown_percent_lacks n = lacks-append b':' (show_nat n) "%" (shown_lacks n) refl

parse_shown : (n : ℕ) → n ≤ 2147483647 → parse_int (show_nat n) ≡ reply (pos n)
parse_shown n h =
    let (digits, spelt) = show_nat_lem n in
    parse_int-digits (show_nat n) digits (omega (arith, spelt)) ∙ ap (λ k. reply (pos k)) spelt

default_no_number : is_number "DEFAULT" ≡ false
unfolding is_number
default_no_number = refl

default_no_percent : cut_suffix "DEFAULT" "%" ≡ none
unfolding cut_suffix
default_no_percent = refl

shown_no_percent : (n : ℕ) → cut_suffix (show_nat n) "%" ≡ none
shown_no_percent n =
    digits_no_percent (show_nat n) (all_digits_of_number (show_nat n) (show_nat_lem n).0)

parse_trimmed : (n : ℕ) → n ≤ 2147483647 → parse_int (trim_percent (show_nat n)) ≡ reply (pos n)
parse_trimmed n h = rw (shown_no_percent n, trim_percent) (parse_shown n h)

add_share :
    (name mode : String) (share : Share) (nag : NodeAssignmentGroup)
    → Fits share
    → add_argument name (share_text share) mode nag ≡ ok (meaning name share mode nag)
unfolding add_argument
add_share name mode by_default nag h = refl
add_share name mode (by_count n) nag h =
    let (digits, spelt) = show_nat_lem n in
    rw
      (ne→eq_false (show_nat n) "DEFAULT"
        (λ e. false≢true (sym default_no_number ∙ ap is_number (sym e) ∙ digits)))
      (rw (shown_no_percent n) (rw digits (rw (parse_trimmed n h) refl)))
add_share name mode (by_percent n) nag h =
    rw
      (ne→eq_false (show_nat n ++ "%") "DEFAULT" (λ e.
        cc (default_no_percent, ap (λ s. cut_suffix s "%") e, cut_suffix-append (show_nat n) "%")))
      (rw (cut_suffix-append (show_nat n) "%") (rw (parse_shown n h) refl))

share_lacks : (share : Share) → lacks b':' (share_text share) ≡ true
share_lacks by_default = refl
share_lacks (by_count n) = shown_lacks n
share_lacks (by_percent n) = shown_percent_lacks n

read-written :
    (a : Argument) (nag : NodeAssignmentGroup)
    → IsWritable a
    → read_argument (written a) nag ≡ ok (meaning a.name a.share a.mode nag)
unfolding read_argument argument_fields
read-written a nag h =
    rw (split_n_three ":" a.name (share_text a.share) a.mode h.0 (share_lacks a.share))
      (add_share a.name a.mode a.share nag h.1)

-- The loop over arguments that were written down does what they mean, in their order.
read_arguments-written :
    (args : List Argument) (nag : NodeAssignmentGroup)
    → All IsWritable args
    → read_arguments (map written args) nag ≡ ok (meant args nag)
unfolding read_arguments
read_arguments-written [] nag h = refl
read_arguments-written (a ∷ rest) nag h =
    rw (read-written a nag h.0)
      (read_arguments-written rest (meaning a.name a.share a.mode nag) h.1)

module _ (tool : Tool) where
  open tool use {World, selector_to_labels, create_nag}

  -- If the target labels are a selector that is read as labels, and the arguments are written down
  -- from names without a colon and numbers that fit an int32, then groupCreate, but for a dry run,
  -- sends to the API server exactly the group that they mean, and reports it or ends on an error.
  pub group_create-written :
      (flags : Flags) (args : List Argument) (labels : Map String) (w : World)
      → flags.dry_run ≡ false
      → flags.group_assignments ≡ map written args
      → selector_to_labels flags.group_target_labels ≡ reply labels
      → All IsWritable args
      → group_create tool flags w
        ≡ report_created tool
            ("NodeAssignmentGroup " ++ (flags.group_name ++ " created\n"))
            (create_nag (meant args (new_group flags.group_name labels)) w)
  unfolding group_create described_group
  group_create-written flags args labels w wet written_down selected h = rw selected (
      ap (λ l. submit_group tool flags (read_arguments l (new_group flags.group_name labels)) w)
        written_down
      ∙ ap (λ o. submit_group tool flags o w) (read_arguments-written args _ h)
      ∙ rw wet refl)
