-- ===== src/CommandLine/Strings/Numbers.antt =====
-- Decimal numbers, printed and read again.
use Prim.Native.Nat.{◌%◌}
use mathlib.Core.Bool.{false≢true}
use Prim.Native.Char.{Char, code}
use Prim.Native.String.{String}
use kube_valet.Prelude.{
  ℕ, zero, suc, ◌+◌, ◌/◌, ◌≤◌, ◌<◌, ◌≡◌, refl, sym, ap, ◌∙◌, true, none, arith, nat_eq, ne→eq_false,
  if◌then◌else◌, Bool-cases, inl, inr, ◌≢◌, pos,
}
use kube_valet.Kube.Cluster.{reply}
use kube_valet.CommandLine.Strings.{cut_suffix, all_digits, is_number, value, parse_int}
use kube_valet.CommandLine.Strings.Cutting.{lacks}

digit_char : ℕ → Char
digit_char zero = "0"
digit_char (suc zero) = "1"
digit_char (suc (suc zero)) = "2"
digit_char (suc (suc (suc zero))) = "3"
digit_char (suc (suc (suc (suc zero)))) = "4"
digit_char (suc (suc (suc (suc (suc zero))))) = "5"
digit_char (suc (suc (suc (suc (suc (suc zero)))))) = "6"
digit_char (suc (suc (suc (suc (suc (suc (suc zero))))))) = "7"
digit_char (suc (suc (suc (suc (suc (suc (suc (suc zero)))))))) = "8"
digit_char (suc (suc (suc (suc (suc (suc (suc (suc (suc n))))))))) = "9"

code-digit_char : (d : ℕ) → d < 10 → code (digit_char d) ≡ b'0' + d
unfolding digit_char
code-digit_char zero h = refl
code-digit_char (suc zero) h = refl
code-digit_char (suc (suc zero)) h = refl
code-digit_char (suc (suc (suc zero))) h = refl
code-digit_char (suc (suc (suc (suc zero)))) h = refl
code-digit_char (suc (suc (suc (suc (suc zero))))) h = refl
code-digit_char (suc (suc (suc (suc (suc (suc zero)))))) h = refl
code-digit_char (suc (suc (suc (suc (suc (suc (suc zero))))))) h = refl
code-digit_char (suc (suc (suc (suc (suc (suc (suc (suc zero)))))))) h = refl
code-digit_char (suc (suc (suc (suc (suc (suc (suc (suc (suc n))))))))) h = omega arith

-- Puts the digits of `n` before a text; `n` rounds are always enough.
emit : ℕ → ℕ → String → String
emit zero n out = out
emit (suc fuel) n out =
    let rest = emit fuel (n / 10) (String.◌∷◌ (digit_char (n % 10)) out) in
    if nat_eq n 0 then out else rest

-- The decimal text of a number.
unfoldable pub show_nat : ℕ → String
unfolding emit digit_char
show_nat n = if nat_eq n 0 then "0" else emit n n String.[]

value-digit :
    (n : ℕ) (out : String) → value (n / 10) (String.◌∷◌ (digit_char (n % 10)) out) ≡ value n out
unfolding value
value-digit n out = ap (λ k. value k out) (omega (arith, code-digit_char (n % 10) (omega arith)))

value-emit : (fuel n : ℕ) (out : String) → n ≤ fuel → value 0 (emit fuel n out) ≡ value n out
unfolding emit
value-emit zero n out h = ap (λ k. value k out) (omega arith)
value-emit (suc fuel) n out h = elim (Bool-cases (nat_eq n 0)) [
  | inl e ↦ rw e (ap (λ k. value k out) (ground arith))
  | inr e ↦ rw e (value-emit fuel (n / 10) _ (ground arith) ∙ value-digit n out)
]

pub all_digits_of_number : (s : String) → is_number s ≡ true → all_digits s ≡ true
unfolding is_number
all_digits_of_number String.[] h = refl
all_digits_of_number (String.◌∷◌ c s) h = h

is_number-digit :
    (n : ℕ) (out : String)
    → all_digits out ≡ true
    → is_number (String.◌∷◌ (digit_char (n % 10)) out) ≡ true
unfolding is_number
is_number-digit n out h = ground (arith, code-digit_char (n % 10) (omega arith))

is_number-emit :
    (fuel n : ℕ) (out : String) → is_number out ≡ true → is_number (emit fuel n out) ≡ true
unfolding emit
is_number-emit zero n out h = h
is_number-emit (suc fuel) n out h = elim (Bool-cases (nat_eq n 0)) [
  | inl e ↦ rw e h
  | inr e ↦
      rw e (is_number-emit fuel (n / 10) _ (is_number-digit n out (all_digits_of_number out h)))
]

emits :
    (n : ℕ) → n ≢ 0 → (is_number (emit n n String.[]) ≡ true) × (value 0 (emit n n String.[]) ≡ n)
unfolding emit all_digits value
emits zero h = absurd (h refl)
emits (suc n) h = elim (Bool-cases (nat_eq (suc n) 0)) [
  | inl e ↦ absurd (ground arith)
  | inr e ↦ rw e (
    is_number-emit n (suc n / 10) _ (is_number-digit (suc n) String.[] refl),
    value-emit n (suc n / 10) _ (omega arith) ∙ value-digit (suc n) String.[],
  )
]

zero_shown : (is_number "0" ≡ true) × (value 0 "0" ≡ 0)
unfolding is_number value
zero_shown = (refl, refl)

-- A printed number is digits that spell it.
pub show_nat_lem : (n : ℕ) → (is_number (show_nat n) ≡ true) × (value 0 (show_nat n) ≡ n)
unfolding show_nat
show_nat_lem n = elim (Bool-cases (nat_eq n 0)) [
  | inl e ↦ rw e (zero_shown.0, zero_shown.1 ∙ ground arith)
  | inr e ↦ rw e (emits n (ground arith))
]

-- Digits are read as the number that they spell, unless it is too large for an int32.
pub parse_int-digits :
    (s : String)
    → is_number s ≡ true
    → value 0 s ≤ 2147483647
    → parse_int s ≡ reply (pos (value 0 s))
unfolding parse_int is_number
parse_int-digits String.[] h fits = cc h
parse_int-digits (String.◌∷◌ c s) h fits = ground arith

pub digits-lacks : (s : String) → all_digits s ≡ true → lacks b':' s ≡ true
unfolding all_digits
digits-lacks String.[] h = refl
digits-lacks (String.◌∷◌ c s) h = ground (arith, digits-lacks s)

pub digits_no_percent : (s : String) → all_digits s ≡ true → cut_suffix s "%" ≡ none
unfolding cut_suffix all_digits
digits_no_percent String.[] h = refl
digits_no_percent (String.◌∷◌ c s) h =
    rw (ne→eq_false (String.◌∷◌ c s) "%" (λ e. false≢true (ap all_digits (sym e) ∙ h)))
      (rw (digits_no_percent s (ground arith)) refl)
