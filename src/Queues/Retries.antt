-- ===== src/Queues/Retries.antt =====
-- How often an item is tried again.
use Prim.Native.Nat.{◌%◌}
use kube_valet.Prelude.{
  ℕ, zero, suc, ◌≤◌, String, ◌≡◌, refl, sym, ◌∙◌, subst, false, Option, none, some, ◌==◌, arith,
  eq_iff, eq_refl, ltb, if◌then◌else◌, Bool-cases, inl, inr,
}
use kube_valet.Kube.Cluster.{Reply, reply, failed}
use kube_valet.Queues.{
  RateLimiting, handle_err, process_stored, process_key, process_got, process_next_item,
}

-- NumRequeues counts, for each key, the calls of AddRateLimited since the last Forget, and nothing
-- else changes it.
pub record CountsRequeues (queues : RateLimiting) : Type 0 where
  pub limited :
      (k j : String) (q : queues.Queue)
      → queues.num_requeues j (queues.add_rate_limited k q)
        ≡ (if k == j then suc (queues.num_requeues j q) else queues.num_requeues j q)
  pub forgotten :
      (k j : String) (q : queues.Queue)
      → queues.num_requeues j (queues.forget k q) ≡ (if k == j then 0 else queues.num_requeues j q)
  pub got :
      (j : String) (q : queues.Queue)
      → queues.num_requeues j (queues.get q).1 ≡ queues.num_requeues j q
  pub finished :
      (k j : String) (q : queues.Queue)
      → queues.num_requeues j (queues.finish k q) ≡ queues.num_requeues j q

module _ (queues : RateLimiting) (counts : CountsRequeues queues) where
  open queues use {Queue, num_requeues}

  -- No key has been tried again more than five times.
  abbrev pub AtMostFive : Queue → Type 0
  AtMostFive q = (k : String) → num_requeues k q ≤ 5

  handle_err-count :
      (e : String) (k j : String) (q : Queue)
      → num_requeues j (handle_err queues (some e) k q) ≡ (
          if k == j
          then (if ltb (num_requeues k q) 5 then suc (num_requeues j q) else 0)
          else num_requeues j q)
  unfolding handle_err
  handle_err-count e k j q = elim (Bool-cases (ltb (num_requeues k q) 5)) [
    | inl h ↦ rw h (counts.limited k j q)
    | inr h ↦ rw h (counts.forgotten k j q)
  ]

  handle_err_bound :
      (e : Option String) (k : String) (q : Queue)
      → AtMostFive q
      → AtMostFive (handle_err queues e k q)
  unfolding handle_err
  handle_err_bound none k q h j = ground (arith, counts.forgotten k j q, h j)
  handle_err_bound (some e) k q h j = ground (arith, handle_err-count e k j q, eq_iff k j, h j)

  abbrev pub failures : ℕ → String → String → Queue → Queue
  failures zero e k q = q
  failures (suc n) e k q = handle_err queues (some e) k (failures n e k q)

  next_count : (n : ℕ) → (if ltb (n % 6) 5 then suc (n % 6) else 0) ≡ suc n % 6
  next_count n = ground arith

  -- A key whose item fails every time is tried again five times and then dropped: after n failures,
  -- from none, its number of retries is n modulo 6; the numbers of other keys stay.
  pub failures_count :
      (n : ℕ) (e k : String) (q : Queue)
      → num_requeues k q ≡ 0
      → (num_requeues k (failures n e k q) ≡ n % 6)
        × ((j : String) → (k == j) ≡ false → num_requeues j (failures n e k q) ≡ num_requeues j q)
  failures_count zero e k q h = (h ∙ omega arith, λ j d. refl)
  failures_count (suc n) e k q h =
      let (own, others) = failures_count n e k q h in
      let step = λ (j : String). handle_err-count e k j (failures n e k q) in
      (step k ∙ rw (eq_refl k) (rw own (next_count n)), λ j d. step j ∙ rw d (others j d))

  module _ {A S : Type 0} (indexer : Option (String → Reply (Option A)))
      (business : A → S → Option String × S) where
    process_stored_bound :
        (k : String) (r : Reply (Option A)) (q : Queue) (s : S)
        → AtMostFive q
        → AtMostFive (process_stored queues indexer business k r q s).0
    process_stored_bound k (failed e) q s h = handle_err_bound (some e) k q h
    process_stored_bound k (reply none) q s h = handle_err_bound none k q h
    process_stored_bound k (reply (some x)) q s h = handle_err_bound (business x s).0 k q h

    process_key_bound :
        (k : String) (q : Queue) (s : S)
        → AtMostFive q
        → AtMostFive (process_key queues indexer business k q s).0
    process_key_bound k q s h = go indexer
      where
        go :
            (i : Option (String → Reply (Option A)))
            → AtMostFive (process_key queues i business k q s).0
        go none =
            handle_err_bound (some "indexer has not been set yet deferring to retry logic") k q h
        go (some by_key) = process_stored_bound k (by_key k) q s h

    process_got_bound :
        (r : Option String × Queue) (s : S)
        → AtMostFive r.1
        → AtMostFive (process_got queues indexer business r s).1
    process_got_bound (none, q) s h = h
    process_got_bound (some k, q) s h =
        λ j. subst (λ n. n ≤ 5) (sym (counts.finished k j _)) (process_key_bound k q s h j)

    -- Whatever the indexer and the function answer, one round of a worker keeps every key at no more
    -- than five retries, if NumRequeues counts them.
    pub process_next_item_bound :
        (q : Queue) (s : S)
        → AtMostFive q
        → AtMostFive (process_next_item queues indexer business q s).1
    unfolding process_next_item
    process_next_item_bound q s h =
        process_got_bound (queues.get q) s (λ j. subst (λ n. n ≤ 5) (sym (counts.got j q)) (h j))
