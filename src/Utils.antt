-- ===== src/Utils.antt =====
-- pkg/utils/utils.go.
pub mod Targetable
use text.Mathlib.Text.{find?}
use kube_valet.Prelude.{
  ℕ, String, Bool, true, false, Option, none, some, List, [], ◌∷◌, ◌==◌, ◌||◌, nat_eq, length,
  if◌then◌else◌, Map, filter,
}
use kube_valet.Kube.Objects.{LabelMap, Node}
use kube_valet.Kube.Labels.{get_label}

-- A patch is a slice of bytes.
unfoldable pub is_empty_patch : List ℕ → Bool
is_empty_patch b = nat_eq (length b) 2 || nat_eq (length b) 0

-- `strings.Contains`
abbrev pub contains : String → String → Bool
contains s sub = elim (find? s sub) [ none ↦ false | some _ ↦ true ]

-- A key that kube-valet itself sets.
unfoldable pub is_valet_key : String → Bool
is_valet_key k = contains k "kube-valet.io"

-- One of the two loops: an entry that the other map has not, or has with another value.
unfoldable pub has_difference : Map String → LabelMap → Bool
has_difference [] other = false
has_difference ((k, v) ∷ rest) other =
    let more = has_difference rest other in
    if is_valet_key k
    then more
    else elim (get_label k other) [ none ↦ true | some w ↦ if v == w then more else true ]

-- The entries that `range` visits: a nil map has none.
abbrev pub entries : LabelMap → Map String
entries none = []
entries (some m) = m

unfoldable pub targetable_labels_are_different : LabelMap → LabelMap → Bool
unfolding has_difference
targetable_labels_are_different m₁ m₂ =
    has_difference (entries m₁) m₂ || has_difference (entries m₂) m₁

unfoldable pub node_targeting_has_changed : Node → Node → Bool
node_targeting_has_changed old new = targetable_labels_are_different old.labels new.labels

unfoldable pub filter_values : List String → (String → Bool) → List String
filter_values vs f = filter f vs
