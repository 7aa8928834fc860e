-- ===== src/Utils/Targetable.antt =====
-- When a change of a node's labels counts as a change of targeting.
use kube_valet.Prelude.{
  String, ◌≡◌, refl, sym, ◌∙◌, ◌↔◌, false, none, some, [], ◌∷◌, arith, eq_iff, inl, inr,
  Option-cases, Map, lookup,
}
use kube_valet.Kube.Objects.{LabelMap}
use kube_valet.Kube.Labels.{get_label}
use kube_valet.Assignments.Groups.Targeting.{UniqueKeys}
use kube_valet.Utils.{is_valet_key, has_difference, entries, targetable_labels_are_different}

abbrev Included : Map String → LabelMap → Type 0
Included m other =
    (k v : String) → is_valet_key k ≡ false → lookup k m ≡ some v → get_label k other ≡ some v

has_difference→Included :
    (m : Map String) (other : LabelMap) → has_difference m other ≡ false → Included m other
unfolding has_difference lookup
has_difference→Included [] other h k v own e = ground arith
has_difference→Included ((j, w) ∷ m) other h k v own e = elim (Option-cases (get_label j other)) [
  | inl gone ↦ ground (arith, eq_iff j k, has_difference→Included m other (ground arith) k v)
  | inr (val, here) ↦ ground (
    arith,
    eq_iff w val,
    eq_iff j k,
    has_difference→Included m other (ground (arith, eq_iff w val)) k v,
  )
]

Included→has_difference :
    (m : Map String) (other : LabelMap)
    → UniqueKeys m
    → Included m other
    → has_difference m other ≡ false
unfolding has_difference lookup
Included→has_difference [] other u i = refl
Included→has_difference ((j, w) ∷ m) other u i = ground (
  arith,
  eq_iff w w,
  eq_iff j j,
  i j w,
  Included→has_difference m other u.1 (λ k v own e. i k v own (ground (arith, u.0, eq_iff j k))),
)

get_label-entries : (k : String) (m : LabelMap) → get_label k m ≡ lookup k (entries m)
unfolding get_label lookup
get_label-entries k none = refl
get_label-entries k (some m) = refl

-- Both maps have the same entries, apart from the keys that kube-valet sets.
abbrev pub SameTargetable : LabelMap → LabelMap → Type 0
SameTargetable m₁ m₂ = (k : String) → is_valet_key k ≡ false → get_label k m₁ ≡ get_label k m₂

Included→same :
    (m₁ m₂ : LabelMap) → Included (entries m₁) m₂ → Included (entries m₂) m₁ → SameTargetable m₁ m₂
Included→same m₁ m₂ i₁ i₂ k own = elim (Option-cases (get_label k m₁)) [
  | inr (v, e) ↦ e ∙ sym (i₁ k v own (sym (get_label-entries k m₁) ∙ e))
  | inl e ↦ elim (Option-cases (get_label k m₂)) [
    | inl f ↦ e ∙ sym f
    | inr (v, f) ↦ i₂ k v own (sym (get_label-entries k m₂) ∙ f) ∙ sym f
  ]
]

-- Where neither map lists a key twice, the two loops find no difference exactly when the maps agree on
-- every key that is not kube-valet's own.
pub targetable_labels_are_different_iff :
    (m₁ m₂ : LabelMap)
    → UniqueKeys (entries m₁)
    → UniqueKeys (entries m₂)
    → (targetable_labels_are_different m₁ m₂ ≡ false) ↔ SameTargetable m₁ m₂
unfolding targetable_labels_are_different
targetable_labels_are_different_iff m₁ m₂ u₁ u₂ = (
  λ h.
      Included→same m₁ m₂ (has_difference→Included (entries m₁) m₂ (ground arith))
        (has_difference→Included (entries m₂) m₁ (ground arith)),
  λ s. ground (
    arith,
    Included→has_difference (entries m₁) m₂ u₁
        (λ k v own e. sym (s k own) ∙ get_label-entries k m₁ ∙ e),
    Included→has_difference (entries m₂) m₁ u₂ (λ k v own e. s k own ∙ get_label-entries k m₂ ∙ e),
  ),
)
