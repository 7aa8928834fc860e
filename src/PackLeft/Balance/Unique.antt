-- ===== src/PackLeft/Balance/Unique.antt =====
-- Why the order of `balanceNodes` leaves only one ranking.
use Prim.Native.String.{compare}
use text.Mathlib.Text.{is_lt}
use text.Mathlib.TextEquality.{path_by_compare}
use text.Mathlib.TextPositions.{compare_refl}
use mathlib.Core.Path.{ap₂}
use mathlib.Core.List.{Mem, Perm, forall_mem-cons, mem-cons_self, not-mem-nil}
use mathlib.Core.List.Perm
use kube_valet.PackLeft.Balance.Texts.{text_equal}
use kube_valet.Prelude.{
  ℕ, String, ◌≡◌, sym, Bool, true, false, not, ◌&&◌, ◌||◌, List, [], ◌∷◌, arith, ltb, nat_eq, map,
  All, Bool-cases, inl, inr,
}

-- What the order looks at: the place of the fullness, and the name.
abbrev pub Key : Type 0
Key = ℕ × String

-- The first may stand before the second.
abbrev pub stands : Key → Key → Bool
stands x y = not (ltb x.0 y.0) && (not (nat_eq x.0 y.0) || not (is_lt (compare x.1 y.1)))

stands_refl : (x : Key) → stands x x ≡ true
stands_refl x = ground (arith, compare_refl x.1)

stands_antisym : (x y : Key) → stands x y ≡ true → stands y x ≡ true → x ≡ y
stands_antisym x y h k =
    let place : x.0 ≡ y.0 = ground arith in
    let first : is_lt (compare x.1 y.1) ≡ false = ground arith in
    let second : is_lt (compare y.1 x.1) ≡ false = ground arith in
    ap₂ (λ (n : ℕ) (t : String). (n, t)) place
      (path_by_compare x.1 y.1 (text_equal x.1 y.1 first second))

-- The key stands before every key of the list.
abbrev pub StandsBefore : Key → List Key → Type 0
StandsBefore x l = (y : Key) → Mem y l → stands x y ≡ true

stands_prop : (x y : Key) → IsProp (stands x y ≡ true)
stands_prop x y = hlevel

abbrev pub InOrder : List Key → Type 0
InOrder [] = Unit
InOrder (x ∷ l) = StandsBefore x l × InOrder l

head_stands :
    (x y : Key) (l r : List Key) → InOrder (x ∷ l) → Perm (y ∷ r) (x ∷ l) → stands x y ≡ true
head_stands x y l r o p =
    (forall_mem-cons (stands_prop x)).1 (stands_refl x, o.0) y ((Perm.mem_iff p).0 mem-cons_self)

-- There is only one order of the keys of a list.
pub InOrder-unique : (l r : List Key) → InOrder l → InOrder r → Perm l r → l ≡ r
InOrder-unique [] r o q p = Perm.nil-eq p
InOrder-unique (x ∷ l) [] o q p = Perm.eq-nil p
InOrder-unique (x ∷ l) (y ∷ r) o q p =
    let same : x ≡ y =
      stands_antisym x y (head_stands x y l r o (Perm.symm p)) (head_stands y x r l q p) in
    let rest : Perm l r = Perm.cons_inv (Perm.trans (Perm.cons' (sym same) Perm.rfl) p) in
    ap₂ (λ (k : Key) (m : List Key). k ∷ m) same (InOrder-unique l r o.1 q.1 rest)

pub stands_by :
    (x y : Key)
    → ltb x.0 y.0 ≡ false
    → (nat_eq x.0 y.0 ≡ true → is_lt (compare x.1 y.1) ≡ false)
    → stands x y ≡ true
stands_by x y h k = elim (Bool-cases (nat_eq x.0 y.0)) [
  | inl e ↦ let less : is_lt (compare x.1 y.1) ≡ false = k e in ground arith
  | inr e ↦ ground arith
]

pub each_before {ℓ} :
    {A : Type ℓ} (key : A → Key) (x : Key) (l : List A)
    → All (λ a. stands x (key a) ≡ true) l
    → StandsBefore x (map key l)
each_before key x [] h = λ y m. absurd (not-mem-nil m)
each_before key x (a ∷ l) h = (forall_mem-cons (stands_prop x)).1 (h.0, each_before key x l h.1)

-- A test that holds of all of a list holds of all of a permutation of it.
module _ {ℓ} {A : Type ℓ} (test : A → Bool) where
  tested : (a : A) → IsProp (test a ≡ true)
  tested a = hlevel

  member : (l : List A) → All (λ a. test a ≡ true) l → (a : A) → Mem a l → test a ≡ true
  member [] t = λ a n. absurd (not-mem-nil n)
  member (b ∷ l) t = (forall_mem-cons tested).1 (t.0, member l t.1)

  gather : (l : List A) → ((a : A) → Mem a l → test a ≡ true) → All (λ a. test a ≡ true) l
  gather [] t = tt
  gather (b ∷ l) t = let (x, y) = (forall_mem-cons tested).0 t in (x, gather l y)

  pub All-perm : (m l : List A) → Perm m l → All (λ a. test a ≡ true) l → All (λ a. test a ≡ true) m
  All-perm m l p h = gather m (λ a n. member l h a ((Perm.mem_iff p).0 n))
