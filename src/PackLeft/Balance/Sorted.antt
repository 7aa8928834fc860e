-- ===== src/PackLeft/Balance/Sorted.antt =====
-- The order in which `balanceNodes` ranks the nodes.
use Prim.Native.String.{compare}
use text.Mathlib.Text.{is_lt}
use mathlib.Core.List.{Perm}
use mathlib.Core.List.Perm
use kube_valet.PackLeft.Balance.Unique.{
  Key, stands, stands_by, each_before, All-perm, InOrder, InOrder-unique,
}
use kube_valet.PackLeft.Balance.Texts.{text_asym, text_trans}
use kube_valet.Prelude.{
  map, All, All-map, All-zip, refl, if◌then◌else◌, ltb, nat_eq, Bool, ℕ, String, ◌≡◌, sym, ap, ◌∙◌,
  true, false, List, [], ◌∷◌, arith, Bool-cases, inl, inr,
}
use kube_valet.PackLeft.Fullness.{Floats}
use kube_valet.PackLeft.Balance.{AssignmentContext, is_before, insert_sorted, sort_slice}

-- Go's `==` and `>` on the values of float64 that are numbers: they compare as natural numbers do, by the
-- place of a value among the finitely many in order.
pub record Compares (floats : Floats) : Type 0 where
  pub is_number : floats.Float → Bool
  pub place : floats.Float → ℕ
  pub greater :
      (a b : floats.Float)
      → is_number a ≡ true
      → is_number b ≡ true
      → floats.gtb a b ≡ ltb (place b) (place a)
  pub equal :
      (a b : floats.Float)
      → is_number a ≡ true
      → is_number b ≡ true
      → floats.eqb a b ≡ nat_eq (place a) (place b)

module _ (floats : Floats) (compares : Compares floats) where
  open compares use {is_number, place}

  abbrev Numbered : AssignmentContext floats → Type 0
  Numbered a = is_number a.percent ≡ true

  -- `a` may stand before `b`: `b` is not fuller, and if both are equally full, the name of `b` is not the
  -- later one.
  abbrev pub MayStand : AssignmentContext floats → AssignmentContext floats → Type 0
  MayStand a b =
      (floats.gtb b.percent a.percent ≡ false)
      × (floats.eqb a.percent b.percent ≡ true → is_lt (compare a.node.name b.node.name) ≡ false)

  -- The same by the places of the values.
  abbrev Placed : AssignmentContext floats → AssignmentContext floats → Type 0
  Placed a b =
      (ltb (place a.percent) (place b.percent) ≡ false)
      × (nat_eq (place a.percent) (place b.percent) ≡ true
          → is_lt (compare a.node.name b.node.name) ≡ false)

  Placed-MayStand :
      (a b : AssignmentContext floats) → Numbered a → Numbered b → Placed a b → MayStand a b
  Placed-MayStand a b x y p = (
    compares.greater b.percent a.percent y x ∙ p.0,
    λ e. p.1 (sym (compares.equal a.percent b.percent x y) ∙ e),
  )

  -- The names decide among places that are equal.
  placed_trans :
      (l m n : ℕ) (x y z : Bool)
      → (x ≡ false → y ≡ false → z ≡ false)
      → (ltb l m ≡ false) × (nat_eq l m ≡ true → x ≡ false)
      → (ltb m n ≡ false) × (nat_eq m n ≡ true → y ≡ false)
      → (ltb l n ≡ false) × (nat_eq l n ≡ true → z ≡ false)
  placed_trans l m n x y z h p q = (ground arith, λ e. h (p.1 (ground arith)) (q.1 (ground arith)))

  Placed-trans : (a b c : AssignmentContext floats) → Placed a b → Placed b c → Placed a c
  Placed-trans a b c =
      placed_trans (place a.percent) (place b.percent) (place c.percent) _ _ _
        (text_trans a.node.name b.node.name c.node.name)

  before_places :
      (m n : ℕ) (x y : Bool)
      → (x ≡ true → y ≡ false)
      → (if nat_eq m n then x else ltb n m) ≡ true
      → (ltb m n ≡ false) × (nat_eq m n ≡ true → y ≡ false)
  before_places m n x y h k = (ground arith, λ e. h (rw e at k))

  after_places :
      (m n : ℕ) (x : Bool)
      → (if nat_eq m n then x else ltb n m) ≡ false
      → (ltb n m ≡ false) × (nat_eq n m ≡ true → x ≡ false)
  after_places m n x k = (ground arith, λ e. ground arith)

  is_before-places :
      (a b : AssignmentContext floats)
      → Numbered a
      → Numbered b
      → is_before floats a b ≡ (
          if nat_eq (place a.percent) (place b.percent)
          then is_lt (compare b.node.name a.node.name)
          else ltb (place b.percent) (place a.percent))
  unfolding is_before
  is_before-places a b x y =
      rw (compares.equal a.percent b.percent x y, compares.greater a.percent b.percent x y) refl

  before_Placed :
      (a b : AssignmentContext floats)
      → Numbered a
      → Numbered b
      → is_before floats a b ≡ true
      → Placed a b
  before_Placed a b x y h =
      before_places (place a.percent) (place b.percent) _ _ (text_asym b.node.name a.node.name)
        (sym (is_before-places a b x y) ∙ h)

  after_Placed :
      (a b : AssignmentContext floats)
      → Numbered a
      → Numbered b
      → is_before floats b a ≡ false
      → Placed a b
  after_Placed a b x y h =
      after_places (place b.percent) (place a.percent) _ (sym (is_before-places b a y x) ∙ h)

  -- Every entry before every other that follows it.
  abbrev pub Ordered {κ} :
      (AssignmentContext floats → AssignmentContext floats → Type κ)
      → List (AssignmentContext floats)
      → Type κ
  Ordered R [] = Unit
  Ordered R (a ∷ l) = All (R a) l × Ordered R l

  insert_sorted-All {κ} :
      (P : AssignmentContext floats → Type κ) (a : AssignmentContext floats)
      (l : List (AssignmentContext floats))
      → P a
      → All P l
      → All P (insert_sorted floats a l)
  insert_sorted-All P a [] p h = (p, tt)
  insert_sorted-All P a (b ∷ l) p h = elim (Bool-cases (is_before floats b a)) [
    | inl e ↦ rw e (h.0, insert_sorted-All P a l p h.1)
    | inr e ↦ rw e (p, h)
  ]

  sort_slice-All {κ} :
      (P : AssignmentContext floats → Type κ) (l : List (AssignmentContext floats))
      → All P l
      → All P (sort_slice floats l)
  sort_slice-All P [] h = tt
  sort_slice-All P (a ∷ l) h =
      insert_sorted-All P a (sort_slice floats l) h.0 (sort_slice-All P l h.1)

  insert_sorted-Ordered :
      (a : AssignmentContext floats) (l : List (AssignmentContext floats))
      → Numbered a
      → All Numbered l
      → Ordered Placed l
      → Ordered Placed (insert_sorted floats a l)
  insert_sorted-Ordered a [] x n o = (tt, tt)
  insert_sorted-Ordered a (b ∷ l) x n o = elim (Bool-cases (is_before floats b a)) [
    | inl e ↦ rw e (
      insert_sorted-All (Placed b) a l (before_Placed b a n.0 x e) o.0,
      insert_sorted-Ordered a l x n.1 o.1,
    )
    | inr e ↦
        let first = after_Placed a b x n.0 e in
        rw e ((first, All-map l (λ c h. Placed-trans a b c first h) o.0), o)
  ]

  sort_slice-Placed :
      (l : List (AssignmentContext floats)) → All Numbered l → Ordered Placed (sort_slice floats l)
  sort_slice-Placed [] n = tt
  sort_slice-Placed (a ∷ l) n =
      insert_sorted-Ordered a (sort_slice floats l) n.0 (sort_slice-All Numbered l n.1)
        (sort_slice-Placed l n.1)

  Ordered-MayStand :
      (l : List (AssignmentContext floats)) → All Numbered l → Ordered Placed l → Ordered MayStand l
  Ordered-MayStand [] n o = tt
  Ordered-MayStand (a ∷ l) n o = (
    All-map l (λ b h. Placed-MayStand a b n.0 h.0 h.1) (All-zip _ _ l n.1 o.0),
    Ordered-MayStand l n.1 o.1,
  )

  insert_sorted-Perm :
      (a : AssignmentContext floats) (l : List (AssignmentContext floats))
      → Perm (insert_sorted floats a l) (a ∷ l)
  insert_sorted-Perm a [] = Perm.refl (a ∷ [])
  insert_sorted-Perm a (b ∷ l) = elim (Bool-cases (is_before floats b a)) [
    | inl e ↦ rw e (Perm.trans (Perm.cons b (insert_sorted-Perm a l)) (Perm.swap a b l))
    | inr e ↦ rw e (Perm.refl (a ∷ b ∷ l))
  ]

  sort_slice-Perm : (l : List (AssignmentContext floats)) → Perm (sort_slice floats l) l
  sort_slice-Perm [] = Perm.refl []
  sort_slice-Perm (a ∷ l) =
      Perm.trans (insert_sorted-Perm a (sort_slice floats l)) (Perm.cons a (sort_slice-Perm l))

  abbrev key_of : AssignmentContext floats → Key
  key_of a = (place a.percent, a.node.name)

  MayStand-stands :
      (a b : AssignmentContext floats)
      → Numbered a
      → Numbered b
      → MayStand a b
      → stands (key_of a) (key_of b) ≡ true
  MayStand-stands a b x y h =
      stands_by (key_of a) (key_of b) (sym (compares.greater b.percent a.percent y x) ∙ h.0)
        (λ e. h.1 (compares.equal a.percent b.percent x y ∙ e))

  Ordered-InOrder :
      (l : List (AssignmentContext floats))
      → All Numbered l
      → Ordered MayStand l
      → InOrder (map key_of l)
  Ordered-InOrder [] n o = tt
  Ordered-InOrder (a ∷ l) n o = (
    each_before key_of (key_of a) l
        (All-map l (λ b h. MayStand-stands a b n.0 h.0 h.1) (All-zip _ _ l n.1 o.0)),
    Ordered-InOrder l n.1 o.1,
  )

  abbrev pub names : List (AssignmentContext floats) → List String
  names l = map (λ a. a.node.name) l

  names_of_keys : (l : List (AssignmentContext floats)) → map (λ k. k.1) (map key_of l) ≡ names l
  names_of_keys [] = refl
  names_of_keys (a ∷ l) = ap (λ m. a.node.name ∷ m) (names_of_keys l)

  -- Two permutations of a list that are in order have the names in the same order.
  same_names :
      (l r : List (AssignmentContext floats))
      → All Numbered l
      → All Numbered r
      → Ordered MayStand l
      → Ordered MayStand r
      → Perm l r
      → names l ≡ names r
  same_names l r x y o q p =
      sym (names_of_keys l)
      ∙ ap (map (λ k. k.1)) (
          InOrder-unique (map key_of l) (map key_of r) (Ordered-InOrder l x o)
            (Ordered-InOrder r y q) (Perm.map key_of p))
      ∙ names_of_keys r

  -- Where the fullness of every node is a number, the ranking is a permutation of the nodes in which no
  -- node, however far behind, is fuller than one before it, and of two equally full nodes the one with
  -- the later name comes first; and every permutation of which this holds ranks the names in this order,
  -- so that it does not matter by which algorithm they are sorted.
  pub sort_slice-Ranked :
      (l : List (AssignmentContext floats))
      → All (λ a. is_number a.percent ≡ true) l
      → Perm (sort_slice floats l) l
        × Ordered MayStand (sort_slice floats l)
        × ((m : List (AssignmentContext floats))
            → Perm m l
            → Ordered MayStand m
            → names m ≡ names (sort_slice floats l))
  sort_slice-Ranked l n =
      let sorted = sort_slice-All Numbered l n in
      let ordered = Ordered-MayStand (sort_slice floats l) sorted (sort_slice-Placed l n) in
      (
        sort_slice-Perm l,
        ordered,
        λ m p o.
            same_names m (sort_slice floats l) (All-perm (λ a. is_number a.percent) m l p n) sorted
              o ordered (Perm.trans p (Perm.symm (sort_slice-Perm l))),
      )
