-- ===== src/CommandLine/Reports/Rows.antt =====
-- The rows of the table of groupReportByNag, as the loop takes them out of the map of members.
use mathlib.Core.Path.{ap₂}
use kube_valet.Prelude.{
  ℕ, zero, suc, ◌+◌, String, ◌≡◌, refl, sym, ap, ◌∙◌, subst, true, false, List, [], ◌∷◌, map, ◌==◌,
  arith, eq_refl, eq_sym, ◌||◌, if◌then◌else◌, elem, Map, insert, str-cases, inl, inr,
}
use kube_valet.CommandLine.Reports.{get_list, head_text, tail_of, is_left, take_row, take_rows}
use kube_valet.CommandLine.Reports.Members.{get_list-insert}

-- No name is listed twice.
abbrev pub DistinctTexts : List String → Type 0
DistinctTexts [] = Unit
DistinctTexts (a ∷ rest) = (elem a rest ≡ false) × DistinctTexts rest

-- The entry at a place, or nothing behind the end.
abbrev pub nth : List String → ℕ → String
nth [] i = ""
nth (x ∷ l) zero = x
nth (x ∷ l) (suc i) = nth l i

-- `n` rows from row `i` on, of the columns with these names and contents.
abbrev pub grid : ℕ → ℕ → List String → (String → List String) → List (List String)
grid i zero names f = []
grid i (suc n) names f = map (λ a. nth (f a) i) names ∷ grid (suc i) n names f

taken :
    (a b : String) (m : Map (List String))
    → let l = get_list a m in
      get_list b (if is_left l then insert a (tail_of l) m else m)
      ≡ (if a == b then tail_of (get_list b m) else get_list b m)
taken a b m = go (get_list a m) refl
  where
    go :
        (l : List String)
        → get_list a m ≡ l
        → get_list b (if is_left l then insert a (tail_of l) m else m)
          ≡ (if a == b then tail_of (get_list b m) else get_list b m)
    go [] e = elim (str-cases a b) [
      | inl (h, p) ↦
          let none_left = subst (λ k. get_list k m ≡ []) p e in
          rw h (none_left ∙ ap tail_of (sym none_left))
      | inr (h, p) ↦ rw h refl
    ]
    go (x ∷ l) e = elim (str-cases a b) [
      | inl (h, p) ↦
          get_list-insert a b l m ∙ rw h (ap tail_of (subst (λ k. x ∷ l ≡ get_list k m) p (sym e)))
      | inr (h, p) ↦ get_list-insert a b l m ∙ rw h refl
    ]

abbrev left_after : String → Map (List String) → Map (List String)
left_after a m = if is_left (get_list a m) then insert a (tail_of (get_list a m)) m else m

heads_kept :
    (a : String) (names : List String) (m : Map (List String))
    → elem a names ≡ false
    → map (λ b. head_text (get_list b (left_after a m))) names
      ≡ map (λ b. head_text (get_list b m)) names
heads_kept a [] m h = refl
heads_kept a (b ∷ names) m h =
    ap₂ (λ (x : String) (l : List String). x ∷ l)
      (ap head_text {y = get_list b m} (taken a b m ∙ rw (eq_sym a b) (rw (first h) refl)))
      (heads_kept a names m (ground arith))
  where
    first : (a == b || elem a names) ≡ false → (b == a) ≡ false
    first e = rw (eq_sym b a) (ground arith)

-- A row shows the first members that are left of its columns.
take_row_cells :
    (names : List String) (m : Map (List String))
    → DistinctTexts names
    → (take_row names m).0 ≡ map (λ a. head_text (get_list a m)) names
unfolding take_row
take_row_cells [] m d = refl
take_row_cells (a ∷ rest) m d =
    ap (λ l. head_text (get_list a m) ∷ l)
      (take_row_cells rest (left_after a m) d.1 ∙ heads_kept a rest m d.0)

-- It takes them off, and leaves the other lists.
take_row_left :
    (names : List String) (m : Map (List String)) (b : String)
    → DistinctTexts names
    → get_list b (take_row names m).1
      ≡ (if elem b names then tail_of (get_list b m) else get_list b m)
unfolding take_row
take_row_left [] m b d = refl
take_row_left (a ∷ rest) m b d = take_row_left rest (left_after a m) b d.1 ∙ elim (str-cases b a) [
  | inl (e, p) ↦
      let gone : elem b rest ≡ false = subst (λ x. elem x rest ≡ false) (sym p) d.0 in
      rw e (rw gone (taken a b m ∙ rw (eq_sym a b) (rw e refl)))
  | inr (e, p) ↦
      let same : get_list b (left_after a m) ≡ get_list b m =
        taken a b m ∙ rw (eq_sym a b) (rw e refl) in
      rw e (rw same refl)
]

nth-tail : (l : List String) (i : ℕ) → nth (tail_of l) i ≡ nth l (suc i)
nth-tail [] i = refl
nth-tail (x ∷ l) i = refl

nth-head : (l : List String) → nth l 0 ≡ head_text l
nth-head [] = refl
nth-head (x ∷ l) = refl

-- The lists that are left show the given contents from row `i` on.
abbrev From : ℕ → List String → (String → List String) → Map (List String) → Type 0
From i names f m =
    (a : String) → elem a names ≡ true → (k : ℕ) → nth (get_list a m) k ≡ nth (f a) (k + i)

row_of :
    (i : ℕ) (all names : List String) (f : String → List String) (m : Map (List String))
    → From i all f m
    → ((a : String) → elem a names ≡ true → elem a all ≡ true)
    → map (λ a. head_text (get_list a m)) names ≡ map (λ a. nth (f a) i) names
row_of i all [] f m h sub = refl
row_of i all (a ∷ names) f m h sub =
    ap₂ (λ (x : String) (l : List String). x ∷ l)
      (sym (nth-head (get_list a m))
        ∙ h a (sub a (rw (eq_refl a) refl)) 0
        ∙ ap (nth (f a)) (omega arith))
      (row_of i all names f m h (λ b e. sub b (ground arith)))

-- The rows of the table are those of the grid.
pub take_rows-grid :
    (n i : ℕ) (names : List String) (f : String → List String) (m : Map (List String))
    → DistinctTexts names
    → From i names f m
    → take_rows n names m ≡ grid i n names f
unfolding take_rows
take_rows-grid zero i names f m d h = refl
take_rows-grid (suc n) i names f m d h =
    ap₂ (λ (r : List String) (t : List (List String)). r ∷ t)
      (take_row_cells names m d ∙ row_of i names names f m h (λ a e. e))
      (take_rows-grid n (suc i) names f (take_row names m).1 d (λ a e k.
        ap (λ l. nth l k) (take_row_left names m a d ∙ rw e refl)
        ∙ nth-tail (get_list a m) k
        ∙ h a e (suc k)
        ∙ ap (nth (f a)) (omega arith)))
