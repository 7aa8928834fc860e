-- ===== src/Prelude/Slices.antt =====
-- Maps of slices, as the code fills them with `append`.
use Prim.Native.String.{String}
use mathlib.Core.Path.{◌≡◌, refl, ap, ◌∙◌, sym, subst}
use mathlib.Core.Option.{none, some}
use mathlib.Core.List.{List, [], ◌∷◌, ◌++◌, append_assoc}
use native.Mathlib.Omega.{arith}
use text.Mathlib.Text.{◌==◌}
use mathlib.Core.Logic.{inl, inr}
use text.Mathlib.TextPositions.{eq_refl}
use kube_valet.Prelude.Tests.{if◌then◌else◌, str-cases}
use kube_valet.Prelude.Maps.{Map, lookup, insert, lookup-insert}

module _ {ℓ} {A : Type ℓ} where
  -- `m[k]` of a map of slices, which is the nil slice where the key is missing.
  abbrev pub slice_at : String → Map (List A) → List A
  slice_at k m = elim (lookup k m) [ none ↦ [] | some xs ↦ xs ]

  -- `m[k] = append(m[k], x)`
  abbrev pub append_at : String → A → Map (List A) → Map (List A)
  append_at k x m = insert k (slice_at k m ++ x ∷ []) m

  slice_at-insert :
      (k j : String) (xs : List A) (m : Map (List A))
      → slice_at j (insert k xs m) ≡ (if k == j then xs else slice_at j m)
  slice_at-insert k j xs m = ground (arith, lookup-insert k j xs m)

  -- What is appended at one key comes before what follows it there, and is not seen elsewhere.
  pub slice_at-append_at :
      (k j : String) (x : A) (m : Map (List A)) (rest : List A)
      → slice_at j (append_at k x m) ++ rest ≡ slice_at j m ++ (if k == j then x ∷ rest else rest)
  slice_at-append_at k j x m rest =
      ap (λ xs. xs ++ rest) (slice_at-insert k j (slice_at k m ++ x ∷ []) m) ∙ joined
    where
      joined :
          (if k == j then slice_at k m ++ x ∷ [] else slice_at j m) ++ rest
          ≡ slice_at j m ++ (if k == j then x ∷ rest else rest)
      joined = elim (str-cases k j) [
        | inl (e, p) ↦
            subst
              (λ i.
                (if i == j then slice_at i m ++ x ∷ [] else slice_at j m) ++ rest
                ≡ slice_at j m ++ (if i == j then x ∷ rest else rest))
              (sym p) (rw (eq_refl j) (append_assoc (slice_at j m) (x ∷ []) rest))
        | inr (e, p) ↦ rw e refl
      ]
