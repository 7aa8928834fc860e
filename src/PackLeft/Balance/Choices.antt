-- ===== src/PackLeft/Balance/Choices.antt =====
-- The states that the loop of `balanceNodes` chooses, apart from the writes.
use kube_valet.Prelude.{
  ℕ, suc, ◌+◌, ◌≤◌, ◌≡◌, refl, ap, subst, Bool, true, false, not, Option, List, [], ◌∷◌, arith,
  if◌then◌else◌, count, leb, Bool-cases, inl, inr, ℤ, pos, negsuc, pos_part, ltb_ℤ, ◌≤ℤ◌,
}
use kube_valet.Assignments.Types.{PackLeftScheduling}
use kube_valet.PackLeft.{NodePackLeftState, node_use, node_avoid, node_deny}
use kube_valet.PackLeft.Fullness.{Floats}
use kube_valet.PackLeft.Balance.{AssignmentContext, choose_state, count_avoid, avoid_buffer_size}

abbrev pub is_use : NodePackLeftState → Bool
is_use node_use = true
is_use node_avoid = false
is_use node_deny = false

abbrev pub is_avoid : NodePackLeftState → Bool
is_avoid node_use = false
is_avoid node_avoid = true
is_avoid node_deny = false

abbrev pub is_deny : NodePackLeftState → Bool
is_deny node_use = false
is_deny node_avoid = false
is_deny node_deny = true

abbrev pub min : ℕ → ℕ → ℕ
min a b = if leb a b then a else b

-- No node to deny comes before a node to avoid.
abbrev pub AvoidsFirst : List NodePackLeftState → Type 0
AvoidsFirst [] = Unit
AvoidsFirst (s ∷ rest) = ((if is_deny s then count is_avoid rest else 0) ≡ 0) × AvoidsFirst rest

pub buffer_positive :
    (total : ℕ) (p : Option PackLeftScheduling) → pos 1 ≤ℤ avoid_buffer_size total p
unfolding avoid_buffer_size
buffer_positive total p = ground arith

module _ (floats : Floats) where
  -- The states for some nodes, given how many are to be avoided already.
  abbrev pub choices :
      floats.Float → ℤ → ℕ → List (AssignmentContext floats) → List NodePackLeftState
  choices full size n [] = []
  choices full size n (c ∷ rest) =
      let s = choose_state floats full size n c.percent in
      s ∷ choices full size (count_avoid s n) rest

  -- The states for all nodes in their order: the first is used however full it is.
  abbrev pub all_choices :
      floats.Float → ℤ → List (AssignmentContext floats) → List NodePackLeftState
  all_choices full size [] = []
  all_choices full size (c ∷ rest) = node_use ∷ choices full size 0 rest

  abbrev pub is_full : floats.Float → AssignmentContext floats → Bool
  is_full full c = floats.gtb c.percent full

  module _ (full : floats.Float) (size : ℕ) where
    abbrev room : ℕ → Bool
    room n = ltb_ℤ (pos n) (pos size)

    uses :
        (n : ℕ) (cs : List (AssignmentContext floats))
        → count is_use (choices full (pos size) n cs) ≡ count (is_full full) cs
    unfolding choose_state
    uses n [] = refl
    uses n (c ∷ cs) = elim (Bool-cases (is_full full c)) [
      | inl e ↦ rw e (ap suc (uses n cs))
      | inr e ↦
          rw e (elim (Bool-cases (room n)) [
            | inl b ↦ rw b (uses (suc n) cs)
            | inr b ↦ rw b (uses n cs)
          ])
    ]

    avoids :
        (n : ℕ) (cs : List (AssignmentContext floats))
        → n ≤ size
        → n + count is_avoid (choices full (pos size) n cs)
          ≡ min size (n + count (λ c. not (is_full full c)) cs)
    unfolding choose_state
    avoids n [] h = ground arith
    avoids n (c ∷ cs) h = elim (Bool-cases (is_full full c)) [
      | inl e ↦ rw e (avoids n cs h)
      | inr e ↦ rw e (elim (Bool-cases (room n)) [
        | inl b ↦ rw b (ground (arith, avoids (suc n) cs))
        | inr b ↦ rw b (ground (arith, avoids n cs h))
      ])
    ]

    no_more :
        (n : ℕ) (cs : List (AssignmentContext floats))
        → room n ≡ false
        → count is_avoid (choices full (pos size) n cs) ≡ 0
    unfolding choose_state
    no_more n [] b = refl
    no_more n (c ∷ cs) b = elim (Bool-cases (is_full full c)) [
      | inl e ↦ rw e (no_more n cs b)
      | inr e ↦ rw e (rw b (no_more n cs b))
    ]

    ordered :
        (n : ℕ) (cs : List (AssignmentContext floats)) → AvoidsFirst (choices full (pos size) n cs)
    unfolding choose_state
    ordered n [] = tt
    ordered n (c ∷ cs) = elim (Bool-cases (is_full full c)) [
      | inl e ↦ rw e (refl, ordered n cs)
      | inr e ↦ rw e (elim (Bool-cases (room n)) [
        | inl b ↦ rw b (refl, ordered (suc n) cs)
        | inr b ↦ rw b (no_more n cs b, ordered n cs)
      ])
    ]

    all_choices_counts :
        (c : AssignmentContext floats) (cs : List (AssignmentContext floats))
        → let states = all_choices full (pos size) (c ∷ cs) in
          (count is_use states ≡ suc (count (is_full full) cs))
          × (count is_avoid states ≡ min size (count (λ d. not (is_full full d)) cs))
          × AvoidsFirst states
    all_choices_counts c cs =
        (ap suc (uses 0 cs), ground (arith, avoids 0 cs), (refl, ordered 0 cs))

  -- Of the ranked nodes, with the buffer size that the code computes: the first and those fuller than
  -- the limit are to be used; of the others as many as the buffer holds, or all if they are fewer, are
  -- to be avoided, before any is to be denied; and the buffer holds at least one.
  pub all_choices_lem :
      (full : floats.Float) (total : ℕ) (p : Option PackLeftScheduling)
      (c : AssignmentContext floats) (cs : List (AssignmentContext floats))
      → (pos 1 ≤ℤ avoid_buffer_size total p)
        × (count is_use (all_choices full (avoid_buffer_size total p) (c ∷ cs))
            ≡ suc (count (is_full full) cs))
        × (count is_avoid (all_choices full (avoid_buffer_size total p) (c ∷ cs))
            ≡ min (pos_part (avoid_buffer_size total p)) (count (λ d. not (is_full full d)) cs))
        × AvoidsFirst (all_choices full (avoid_buffer_size total p) (c ∷ cs))
  all_choices_lem full total p c cs =
      let counted =
        subst
          (λ z.
            (count is_use (all_choices full z (c ∷ cs)) ≡ suc (count (is_full full) cs))
            × (count is_avoid (all_choices full z (c ∷ cs))
                ≡ min (pos_part (avoid_buffer_size total p)) (count (λ d. not (is_full full d)) cs))
            × AvoidsFirst (all_choices full z (c ∷ cs)))
          (as_pos (avoid_buffer_size total p) (buffer_positive total p))
          (all_choices_counts full (pos_part (avoid_buffer_size total p)) c cs) in
      (buffer_positive total p, counted.0, counted.1, counted.2)
    where
      as_pos : (z : ℤ) → pos 1 ≤ℤ z → pos (pos_part z) ≡ z
      as_pos (pos n) h = refl
      as_pos (negsuc n) h = absurd (omega arith)
