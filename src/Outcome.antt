-- ===== src/Outcome.antt =====
-- How a Go call ends, and calls that read and write a state.
use kube_valet.Prelude.{String}

-- `err` is an `error` other than nil, `panic` a run-time panic, such as a write to a nil map, and
-- `exit` the end of the process by `log.Fatal`.
pub data Outcome {ℓ} (A : Type ℓ) : Type ℓ where
  ok : A → Outcome A
  err : String → Outcome A
  panic : Outcome A
  exit : Outcome A

infixl 5 ◌>>=◌
abbrev pub ◌>>=◌ {ℓ κ} : {A : Type ℓ} {B : Type κ} → Outcome A → (A → Outcome B) → Outcome B
ok a >>= f = f a
err e >>= f = err e
panic >>= f = panic
exit >>= f = exit

-- A call whose effects on the state stay, also where it ends in an error.
abbrev pub Run {ℓ} : Type ℓ → Type ℓ → Type ℓ
Run S A = S → Outcome A × S

module _ {ℓ} {S A B : Type ℓ} where
  abbrev pub resume : Outcome A → (A → Run S B) → Run S B
  resume (ok a) f s = f a s
  resume (err e) f s = (err e, s)
  resume panic f s = (panic, s)
  resume exit f s = (exit, s)

  -- The rest runs only where the first part returned without an error.
  abbrev pub then_run : Run S A → (A → Run S B) → Run S B
  then_run m f s = let (r, s') = m s in resume r f s'

  abbrev pub handle_err : Outcome A → (A → Run S B) → (String → Run S B) → Run S B
  handle_err (ok a) f g s = f a s
  handle_err (err e) f g s = g e s
  handle_err panic f g s = (panic, s)
  handle_err exit f g s = (exit, s)

  -- `if err := m; err != nil { g(err) } else { f }`
  abbrev pub on_err : Run S A → (A → Run S B) → (String → Run S B) → Run S B
  on_err m f g s = let (r, s') = m s in handle_err r f g s'
