-- ===== src/Queues/Drained.antt =====
-- How the loop of a worker ends once its queue is shut down.
use kube_valet.Prelude.{
  ℕ, zero, suc, ◌<◌, String, ◌≡◌, refl, Bool, true, false, Option, none, some, arith, ltb,
  if◌then◌else◌, Bool-cases, inl, inr,
}
use kube_valet.Kube.Cluster.{Reply, reply, failed}
use kube_valet.Queues.{
  RateLimiting, handle_err, process_stored, process_key, process_got, process_next_item, run_worker,
}

-- A queue that is shut down takes no new item, and a call of Get takes one of those that are left.
pub record Closes (queues : RateLimiting) : Type 1 where
  pub IsClosed : queues.Queue → Type 0
  pub left : queues.Queue → ℕ
  pub got :
      (q : queues.Queue)
      → IsClosed q
      → IsClosed (queues.get q).1
        × ((k : String) → (queues.get q).0 ≡ some k → left q ≡ suc (left (queues.get q).1))
  pub finished :
      (k : String) (q : queues.Queue)
      → IsClosed q
      → IsClosed (queues.finish k q) × (left (queues.finish k q) ≡ left q)
  pub limited :
      (k : String) (q : queues.Queue)
      → IsClosed q
      → IsClosed (queues.add_rate_limited k q) × (left (queues.add_rate_limited k q) ≡ left q)
  pub forgotten :
      (k : String) (q : queues.Queue)
      → IsClosed q
      → IsClosed (queues.forget k q) × (left (queues.forget k q) ≡ left q)

module _ (queues : RateLimiting) (closes : Closes queues) where
  open closes use {IsClosed, left, got, finished, limited, forgotten}
  open queues use {Queue}

  -- The queue is still closed and as many items are left.
  abbrev Stays : Queue → Queue → Type 0
  Stays q q' = IsClosed q' × (left q' ≡ left q)

  handle_err-Stays :
      (e : Option String) (k : String) (q : Queue) → IsClosed q → Stays q (handle_err queues e k q)
  unfolding handle_err
  handle_err-Stays none k q h = forgotten k q h
  handle_err-Stays (some e) k q h = elim (Bool-cases (ltb (queues.num_requeues k q) 5)) [
    | inl b ↦ rw b (limited k q h)
    | inr b ↦ rw b (forgotten k q h)
  ]

  module _ {A S : Type 0} (indexer : Option (String → Reply (Option A)))
      (business : A → S → Option String × S) where
    process_stored-Stays :
        (k : String) (r : Reply (Option A)) (q : Queue) (s : S)
        → IsClosed q
        → Stays q (process_stored queues indexer business k r q s).0
    process_stored-Stays k (failed e) q s h = handle_err-Stays (some e) k q h
    process_stored-Stays k (reply none) q s h = handle_err-Stays none k q h
    process_stored-Stays k (reply (some x)) q s h = handle_err-Stays (business x s).0 k q h

    process_key-Stays :
        (k : String) (q : Queue) (s : S)
        → IsClosed q
        → Stays q (process_key queues indexer business k q s).0
    process_key-Stays k q s h = go indexer
      where
        go :
            (i : Option (String → Reply (Option A)))
            → Stays q (process_key queues i business k q s).0
        go none =
            handle_err-Stays (some "indexer has not been set yet deferring to retry logic") k q h
        go (some by_key) = process_stored-Stays k (by_key k) q s h

    -- A round ends the loop, or leaves one item less.
    abbrev Shrinks : Queue → Bool × Queue × S → Type 0
    Shrinks q (false, q', s) = IsClosed q'
    Shrinks q (true, q', s) = IsClosed q' × (left q ≡ suc (left q'))

    process_got-Shrinks :
        (q : Queue) (r : Option String × Queue) (s : S)
        → IsClosed r.1
        → ((k : String) → r.0 ≡ some k → left q ≡ suc (left r.1))
        → Shrinks q (process_got queues indexer business r s)
    process_got-Shrinks q (none, q') s h f = h
    process_got-Shrinks q (some k, q') s h f =
        let (closed, same) = process_key-Stays k q' s h in
        let (closed', same') = finished k _ closed in
        (closed', omega (arith, f k refl, same, same'))

    next-Shrinks :
        (q : Queue) (s : S) → IsClosed q → Shrinks q (process_next_item queues indexer business q s)
    unfolding process_next_item
    next-Shrinks q s h = process_got-Shrinks q (queues.get q) s (got q h).0 (got q h).1

    run_worker-same :
        (n m : ℕ) (q : Queue) (s : S)
        → IsClosed q
        → left q < n
        → left q < m
        → ((run_worker queues indexer business n q s).0 ≡ false)
          × (run_worker queues indexer business n q s ≡ run_worker queues indexer business m q s)
    unfolding run_worker
    run_worker-same zero m q s h l k = absurd (omega (arith, l))
    run_worker-same (suc n) zero q s h l k = absurd (omega (arith, k))
    run_worker-same (suc n) (suc m) q s h l k =
        go (process_next_item queues indexer business q s) (next-Shrinks q s h)
          (λ q' s' c i j. run_worker-same n m q' s' c i j)
      where
        go :
            (r : Bool × Queue × S)
            → Shrinks q r
            → ((q' : Queue) (s' : S)
                → IsClosed q'
                → left q' < n
                → left q' < m
                → ((run_worker queues indexer business n q' s').0 ≡ false)
                  × (run_worker queues indexer business n q' s'
                      ≡ run_worker queues indexer business m q' s'))
            → let after : ℕ → Bool × Queue × S = λ i.
              if r.0 then run_worker queues indexer business i r.1 r.2 else (false, r.1, r.2) in
              ((after n).0 ≡ false) × (after n ≡ after m)
        go (false, q', s') c later = (refl, refl)
        go (true, q', s') c later = later q' s' c.0 (omega (arith, c.1, l)) (omega (arith, c.1, k))

    -- From a queue that is shut down, the loop of a worker ends after at most one round more than there
    -- are items left, whatever the processing of the items answers: with any fuel that is greater than
    -- their number, the loop has ended, and its result is the one after so many rounds.
    pub run_worker-ends :
        (n : ℕ) (q : Queue) (s : S)
        → IsClosed q
        → left q < n
        → ((run_worker queues indexer business n q s).0 ≡ false)
          × (run_worker queues indexer business n q s
              ≡ run_worker queues indexer business (suc (left q)) q s)
    run_worker-ends n q s h l = run_worker-same n (suc (left q)) q s h l (omega arith)
