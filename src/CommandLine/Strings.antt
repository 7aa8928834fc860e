-- ===== src/CommandLine/Strings.antt =====
-- The functions of Go's strings, strconv and regexp that bin/valetctl.go calls, on texts.
pub mod Cutting
pub mod Numbers
use Prim.Native.Char.{Char, code}
use Prim.Native.String
use Prim.Native.String.{String}
use kube_valet.Prelude.{
  ℕ, zero, suc, ◌+◌, ◌-◌, ◌*◌, Bool, true, false, ◌&&◌, Option, none, some, List, [], ◌∷◌, ◌==◌,
  ltb, leb, nat_eq, if◌then◌else◌, ℤ, pos, negsuc,
}
use kube_valet.Kube.Cluster.{Reply, reply, failed}

-- The text before the first separator, and what follows it.
unfoldable pub cut : ℕ → String → String × Option String
cut sep String.[] = (String.[], none)
cut sep (String.◌∷◌ c s) =
    let (head, rest) = cut sep s in
    if nat_eq (code c) sep then (String.[], some s) else (String.◌∷◌ c head, rest)

abbrev pub before_rest : String × Option String → (String → List String) → List String
before_rest (head, none) more = head ∷ []
before_rest (head, some rest) more = head ∷ more rest

-- strings.SplitN for a separator of one character: at most so many parts, the last one uncut.
unfoldable pub split_n : ℕ → ℕ → String → List String
unfolding cut
split_n sep zero s = []
split_n sep (suc zero) s = s ∷ []
split_n sep (suc (suc n)) s = before_rest (cut sep s) (split_n sep (suc n))

abbrev pub push : Char → List String → List String
push c [] = String.◌∷◌ c String.[] ∷ []
push c (p ∷ ps) = String.◌∷◌ c p ∷ ps

-- strings.Split for a separator of one character.
unfoldable pub split : ℕ → String → List String
split sep String.[] = String.[] ∷ []
split sep (String.◌∷◌ c s) =
    let parts = split sep s in if nat_eq (code c) sep then String.[] ∷ parts else push c parts

-- strings.HasPrefix
unfoldable pub has_prefix : String → String → Bool
has_prefix s String.[] = true
has_prefix String.[] (String.◌∷◌ d t) = false
has_prefix (String.◌∷◌ c s) (String.◌∷◌ d t) = nat_eq (code c) (code d) && has_prefix s t

-- strings.Join
unfoldable pub join : String → List String → String
join sep [] = String.[]
join sep (p ∷ []) = p
join sep (p ∷ q ∷ ps) = String.◌++◌ p (String.◌++◌ sep (join sep (q ∷ ps)))

-- The text without the suffix, if it has it: strings.HasSuffix and strings.TrimSuffix.
unfoldable pub cut_suffix : String → String → Option String
cut_suffix String.[] t = if String.[] == t then some String.[] else none
cut_suffix (String.◌∷◌ c s) t =
    let rest = cut_suffix s t in
    if String.◌∷◌ c s == t
    then some String.[]
    else elim rest [ none ↦ none | some r ↦ some (String.◌∷◌ c r) ]

unfoldable pub is_digit : Char → Bool
is_digit c = leb b'0' (code c) && leb (code c) b'9'

unfoldable pub all_digits : String → Bool
unfolding is_digit
all_digits String.[] = true
all_digits (String.◌∷◌ c s) = is_digit c && all_digits s

-- The regular expression `^\d+$`.
unfoldable pub is_number : String → Bool
unfolding all_digits
is_number String.[] = false
is_number (String.◌∷◌ c s) = all_digits (String.◌∷◌ c s)

-- The number that digits spell behind `n`.
unfoldable pub value : ℕ → String → ℕ
value n String.[] = n
value n (String.◌∷◌ c s) = value (n * 10 + (code c - b'0')) s

-- The digits of a number after its sign, at most `most`.
unfoldable pub parse_digits : ℕ → (ℕ → ℤ) → String → Reply ℤ
unfolding is_number value
parse_digits most sign s =
    if is_number s
    then if leb (value 0 s) most then reply (sign (value 0 s)) else failed "value out of range"
    else failed "invalid syntax"

abbrev pub negated : ℕ → ℤ
negated zero = pos zero
negated (suc n) = negsuc n

-- strconv.ParseInt(s, 10, 32): an optional sign and digits, in the range of an int32.
unfoldable pub parse_int : String → Reply ℤ
unfolding parse_digits
parse_int String.[] = failed "invalid syntax"
parse_int (String.◌∷◌ c s) =
    if nat_eq (code c) b'-'
    then parse_digits 2147483648 negated s
    else if nat_eq (code c) b'+'
    then parse_digits 2147483647 pos s
    else parse_digits 2147483647 pos (String.◌∷◌ c s)
