-- ===== src/Assignments/Groups/Keys.antt =====
-- The two keys under which a group marks nodes.
use Prim.Native.String.{◌++◌}
use text.Mathlib.TextLemmas.{append_cancel_left, append_assoc}
use kube_valet.Prelude.{
  String, ◌≡◌, refl, sym, ap, ◌∙◌, ◌≢◌, false, ◌==◌, arith, eq_iff, append-ne, ne→eq_false,
}
use kube_valet.Assignments.Types.{NodeAssignmentGroup}
use kube_valet.Assignments.Groups.{assignment_key, pack_left_key}

beginnings_differ : ◌≢◌ {A = String} "nag.a" "nag.p"
beginnings_differ h = ground (arith, eq_iff "nag.a" "nag.p")

-- An assignment label is never a pack-left label, not even one of another group.
pub assignment_key-ne-pack_left_key :
    (nag other : NodeAssignmentGroup) → assignment_key nag ≢ pack_left_key other
unfolding assignment_key pack_left_key
assignment_key-ne-pack_left_key nag other h =
    append-ne "nag.a" "nag.p" ("ssignments.kube-valet.io/" ++ nag.name)
      ("ackleft.scheduling.kube-valet.io/" ++ other.name) refl beginnings_differ
      (sym (append_assoc "nag.a" "ssignments.kube-valet.io/" nag.name)
        ∙ h
        ∙ append_assoc "nag.p" "ackleft.scheduling.kube-valet.io/" other.name)

pub pack_left_apart :
    (nag other : NodeAssignmentGroup) → (pack_left_key nag == assignment_key other) ≡ false
pack_left_apart nag other = ne→eq_false _ _ (λ p. assignment_key-ne-pack_left_key other nag (sym p))

-- Groups that use one key have one name.
pub assignment_key-injective :
    (nag other : NodeAssignmentGroup)
    → assignment_key nag ≡ assignment_key other
    → nag.name ≡ other.name
unfolding assignment_key
assignment_key-injective nag other h = append_cancel_left _ nag.name other.name h

-- The tests on the keys and on the names agree.
pub assignment_key_iff :
    (nag other : NodeAssignmentGroup)
    → (assignment_key nag == assignment_key other) ≡ (nag.name == other.name)
unfolding assignment_key
assignment_key_iff nag other = ground (
  arith,
  eq_iff (assignment_key nag) (assignment_key other),
  eq_iff nag.name other.name,
  assignment_key-injective nag other,
  λ (p : nag.name ≡ other.name). ap (λ n. "nag.assignments.kube-valet.io/" ++ n) p,
)
