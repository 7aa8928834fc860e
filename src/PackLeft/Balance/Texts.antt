-- ===== src/PackLeft/Balance/Texts.antt =====
-- The order of texts by `<`, as far as the ranking of nodes needs it.
use Prim.Native.Nat.{Ordering, compare as compare_ℕ}
use Prim.Native.Char.{code}
use Prim.Native.String.{then as otherwise, compare}
use Prim.Native.String.compare
use text.Mathlib.Text.{is_lt}
use kube_valet.Prelude.{ℕ, String, ◌≡◌, sym, ap, ◌∙◌, true, false, arith}

then_asym :
    (m n : ℕ) (x y : Ordering)
    → (is_lt x ≡ true → is_lt y ≡ false)
    → is_lt (otherwise (compare_ℕ m n) x) ≡ true
    → is_lt (otherwise (compare_ℕ n m) y) ≡ false
then_asym m n x y h k = ground arith

pub text_asym : (s t : String) → is_lt (compare s t) ≡ true → is_lt (compare t s) ≡ false
text_asym String.[] String.[] h = ap is_lt compare.nil-nil
text_asym String.[] (String.◌∷◌ d t) h = ap is_lt (compare.cons-nil d t)
text_asym (String.◌∷◌ c s) String.[] h = absurd (cc (h, ap is_lt (compare.cons-nil c s)))
text_asym (String.◌∷◌ c s) (String.◌∷◌ d t) h =
    ap is_lt (compare.cons-cons d c t s)
    ∙ then_asym (code c) (code d) (compare s t) (compare t s) (text_asym s t)
        (sym (ap is_lt (compare.cons-cons c d s t)) ∙ h)

then_trans :
    (l m n : ℕ) (x y z : Ordering)
    → (is_lt x ≡ false → is_lt y ≡ false → is_lt z ≡ false)
    → is_lt (otherwise (compare_ℕ l m) x) ≡ false
    → is_lt (otherwise (compare_ℕ m n) y) ≡ false
    → is_lt (otherwise (compare_ℕ l n) z) ≡ false
then_trans l m n x y z h p q = ground arith

-- A text that is not less than one that is not less than a third is not less than the third.
pub text_trans :
    (s t u : String)
    → is_lt (compare s t) ≡ false
    → is_lt (compare t u) ≡ false
    → is_lt (compare s u) ≡ false
text_trans String.[] String.[] u h k = k
text_trans String.[] (String.◌∷◌ d t) u h k = absurd (cc (h, ap is_lt (compare.nil-cons d t)))
text_trans (String.◌∷◌ c s) t String.[] h k = ap is_lt (compare.cons-nil c s)
text_trans (String.◌∷◌ c s) String.[] (String.◌∷◌ e u) h k =
    absurd (cc (k, ap is_lt (compare.nil-cons e u)))
text_trans (String.◌∷◌ c s) (String.◌∷◌ d t) (String.◌∷◌ e u) h k =
    ap is_lt (compare.cons-cons c e s u)
    ∙ then_trans (code c) (code d) (code e) (compare s t) (compare t u) (compare s u)
        (text_trans s t u) (sym (ap is_lt (compare.cons-cons c d s t)) ∙ h)
        (sym (ap is_lt (compare.cons-cons d e t u)) ∙ k)

then_equal :
    (m n : ℕ) (x y : Ordering)
    → (is_lt x ≡ false → is_lt y ≡ false → x ≡ Ordering.eq)
    → is_lt (otherwise (compare_ℕ m n) x) ≡ false
    → is_lt (otherwise (compare_ℕ n m) y) ≡ false
    → otherwise (compare_ℕ m n) x ≡ Ordering.eq
then_equal m n x y h p q = ground arith

-- Of two different texts one is less.
pub text_equal :
    (s t : String)
    → is_lt (compare s t) ≡ false
    → is_lt (compare t s) ≡ false
    → compare s t ≡ Ordering.eq
text_equal String.[] String.[] h k = compare.nil-nil
text_equal String.[] (String.◌∷◌ d t) h k = absurd (cc (h, ap is_lt (compare.nil-cons d t)))
text_equal (String.◌∷◌ c s) String.[] h k = absurd (cc (k, ap is_lt (compare.nil-cons c s)))
text_equal (String.◌∷◌ c s) (String.◌∷◌ d t) h k =
    compare.cons-cons c d s t
    ∙ then_equal (code c) (code d) (compare s t) (compare t s) (text_equal s t)
        (sym (ap is_lt (compare.cons-cons c d s t)) ∙ h)
        (sym (ap is_lt (compare.cons-cons d c t s)) ∙ k)
