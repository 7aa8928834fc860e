-- ===== src/CommandLine/Strings/Cutting.antt =====
-- What the functions on texts do to texts that are put together with separators.
use Prim.Native.Char.{Char, code}
use Prim.Native.String.{String, ◌++◌, count}
use Prim.Native.String.append
use Prim.Native.String.count
use text.Mathlib.TextLemmas.{length-append}
use kube_valet.Prelude.{
  ℕ, ◌≡◌, ◌≢◌, refl, sym, ap, ◌∙◌, subst, Bool, true, not, ◌&&◌, none, some, [], ◌∷◌, arith,
  eq_refl, ne→eq_false, nat_eq,
}
use kube_valet.CommandLine.Strings.{cut, split_n, split, before_rest, cut_suffix}

abbrev pub lacks : ℕ → String → Bool
lacks sep String.[] = true
lacks sep (String.◌∷◌ c s) = not (nat_eq (code c) sep) && lacks sep s

pub cut-lacks : (sep : ℕ) (s : String) → lacks sep s ≡ true → cut sep s ≡ (s, none)
unfolding cut
cut-lacks sep String.[] h = refl
cut-lacks sep (String.◌∷◌ c s) h = ground (arith, cut-lacks sep s)

pub cut-append :
    (c : Char) (s t : String)
    → lacks (code c) s ≡ true
    → cut (code c) (s ++ String.◌∷◌ c t) ≡ (s, some t)
unfolding cut
cut-append c String.[] t h = rw (append.nil (String.◌∷◌ c t)) (ground arith)
cut-append c (String.◌∷◌ d s) t h =
    rw (append.cons d s (String.◌∷◌ c t)) (ground (arith, cut-append c s t))

module _ (c : Char) (a b r : String) (bare_a : lacks (code c) a ≡ true)
    (bare_b : lacks (code c) b ≡ true) where
  -- Two separators make three parts, whatever the last part holds.
  pub split_n_three : split_n (code c) 3 (a ++ String.◌∷◌ c (b ++ String.◌∷◌ c r)) ≡ a ∷ b ∷ r ∷ []
  unfolding split_n
  split_n_three =
      ap (λ p. before_rest p (split_n (code c) 2)) (cut-append c a (b ++ String.◌∷◌ c r) bare_a)
      ∙ ap (λ p. a ∷ before_rest p (split_n (code c) 1)) (cut-append c b r bare_b)

longer_ne : (c : Char) (s t : String) → String.◌∷◌ c s ++ t ≢ t
longer_ne c s t h =
    omega
      (arith, ap count h, ap count (append.cons c s t), count.cons c (s ++ t), length-append s t)

-- A suffix is found where a text ends in it.
pub cut_suffix-append : (s t : String) → cut_suffix (s ++ t) t ≡ some s
unfolding cut_suffix
cut_suffix-append String.[] t = rw (append.nil t) (cut_self t)
  where
    cut_self : (t : String) → cut_suffix t t ≡ some String.[]
    cut_self String.[] = refl
    cut_self (String.◌∷◌ c s) = rw (eq_refl (String.◌∷◌ c s)) refl
cut_suffix-append (String.◌∷◌ c s) t =
    subst (λ x. cut_suffix x t ≡ some (String.◌∷◌ c s)) (sym (append.cons c s t))
      (rw (ne→eq_false _ _ (λ e. longer_ne c s t (append.cons c s t ∙ e)))
        (rw (cut_suffix-append s t) refl))

pub lacks-append :
    (sep : ℕ) (s t : String) → lacks sep s ≡ true → lacks sep t ≡ true → lacks sep (s ++ t) ≡ true
lacks-append sep String.[] t h k = rw (append.nil t) k
lacks-append sep (String.◌∷◌ c s) t h k =
    rw (append.cons c s t) (ground (arith, lacks-append sep s t))

pub split-lacks : (sep : ℕ) (s : String) → lacks sep s ≡ true → split sep s ≡ s ∷ []
unfolding split
split-lacks sep String.[] h = refl
split-lacks sep (String.◌∷◌ c s) h = rw (split-lacks sep s (ground arith)) (ground arith)

pub split-append :
    (c : Char) (s t : String)
    → lacks (code c) s ≡ true
    → split (code c) (s ++ String.◌∷◌ c t) ≡ s ∷ split (code c) t
unfolding split
split-append c String.[] t h = rw (append.nil (String.◌∷◌ c t)) (ground arith)
split-append c (String.◌∷◌ d s) t h =
    rw (append.cons d s (String.◌∷◌ c t)) (rw (split-append c s t (ground arith)) (ground arith))
