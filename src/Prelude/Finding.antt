-- ===== src/Prelude/Finding.antt =====
-- A text that is put together around another contains it.
use Prim.Native.Nat.{ℕ, ◌+◌, ◌≤◌, compare as compare_ℕ}
use Prim.Native.Char.{code, len_utf8}
use Prim.Native.String.{String, [], ◌∷◌, ◌++◌, len, find, same, begins}
use Prim.Native.String.append
use Prim.Native.String.find
use Prim.Native.String.len
use mathlib.Core.Path.{◌≡◌, refl, sym, ap, ◌∙◌, subst}
use mathlib.Core.Logic.{inl, inr}
use mathlib.Core.Bool.{true, false}
use mathlib.Core.Option.{none, some}
use native.Mathlib.Omega.{arith}
use text.Mathlib.Text.{is_le, find?, when}
use text.Mathlib.TextFind.{begins_cases}
use text.Mathlib.TextPositions.{compare_self}

begins_self : (t v : String) (y n : ℕ) → begins (t ++ v) t y n ≡ y
begins_self [] v y n = refl
begins_self (c ∷ t) v y n =
    ap (λ w. begins w (c ∷ t) y n) (append.cons c t v)
    ∙ ap (λ o. same o (begins (t ++ v) t y n) n) (compare_self (code c))
    ∙ begins_self t v y n

find_prefix : (x t v : String) → x ≡ t ++ v → find x t ≡ 0
find_prefix [] t v e = find.nil t ∙ ap (λ w. begins w t 0 1) e ∙ begins_self t v 0 1
find_prefix (c ∷ s) t v e =
    find.cons c s t ∙ ap (λ w. begins w t 0 (len_utf8 c + find s t)) e ∙ begins_self t v 0 _

find_le : (u t v : String) → find (u ++ (t ++ v)) t ≤ len (u ++ (t ++ v))
find_le [] t v =
    subst (λ w. find w t ≤ len w) (sym (append.nil (t ++ v)))
      (omega (arith, find_prefix (t ++ v) t v refl))
find_le (c ∷ u) t v =
    subst (λ w. find w t ≤ len w) (sym (append.cons c u (t ++ v)))
      (further (u ++ (t ++ v)) (find_le u t v))
  where
    further : (s : String) → find s t ≤ len s → find (c ∷ s) t ≤ len (c ∷ s)
    further s h = elim (begins_cases (c ∷ s) t 0 (len_utf8 c + find s t)) [
      | inl (e, _) ↦ omega (arith, find.cons c s t ∙ e)
      | inr e ↦ omega (arith, find.cons c s t ∙ e, len.cons c s)
    ]

-- `strings.Contains`
pub find?-middle :
    (u t v : String) → elim (find? (u ++ (t ++ v)) t) [ none ↦ false | some _ ↦ true ] ≡ true
find?-middle u t v = go (find (u ++ (t ++ v)) t) (len (u ++ (t ++ v))) (find_le u t v)
  where
    go :
        (a b : ℕ)
        → a ≤ b
        → elim (when (is_le (compare_ℕ a b)) a) [ none ↦ false | some _ ↦ true ] ≡ true
    go a b h = ground arith
