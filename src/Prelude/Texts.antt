-- ===== src/Prelude/Texts.antt =====
-- Texts that are put together by `++`.
use Prim.Native.String.{String, len, slice, ◌++◌}
use mathlib.Core.Path.{◌≡◌, ap, sym, ◌∙◌}
use mathlib.Core.Logic.{◌≢◌}
use text.Mathlib.TextPositions.{slice-append_left}

-- Texts whose beginnings have one length and differ are different.
pub append-ne : (p q s t : String) → len p ≡ len q → p ≢ q → p ++ s ≢ q ++ t
append-ne p q s t e d h = d (
    sym (slice-append_left p s)
    ∙ ap (λ x. slice x 0 (len p)) h
    ∙ ap (λ k. slice (q ++ t) 0 k) e
    ∙ slice-append_left q t)
