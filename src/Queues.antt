-- ===== src/Queues.antt =====
-- pkg/queues/retrying_work_queue.go: the queue whose items are processed again after an error. The
-- rate limiting queue and the indexer belong to k8s.io/client-go and are parameters, as is the
-- function that processes an item. Log messages are left out.
pub mod Retries
pub mod Drained
use kube_valet.Prelude.{
  ℕ, zero, suc, String, Bool, true, false, Option, none, some, ltb, if◌then◌else◌,
}
use kube_valet.Kube.Cluster.{Reply, reply, failed}

-- `get` answers `none` where the queue is shut down.
pub record RateLimiting : Type 1 where
  pub Queue : Type 0
  pub add : String → Queue → Queue
  pub get : Queue → Option String × Queue
  pub finish : String → Queue → Queue
  pub num_requeues : String → Queue → ℕ
  pub add_rate_limited : String → Queue → Queue
  pub forget : String → Queue → Queue

module _ (queues : RateLimiting) where
  open queues use {Queue, add, get, finish, num_requeues, add_rate_limited, forget}

  -- The key of an object, which cache.DeletionHandlingMetaNamespaceKeyFunc computes or refuses.
  unfoldable pub add_item : Reply String → Queue → Queue
  add_item (reply key) q = add key q
  add_item (failed e) q = q

  unfoldable pub handle_err : Option String → String → Queue → Queue
  handle_err none key q = forget key q
  handle_err (some e) key q =
      if ltb (num_requeues key q) 5 then add_rate_limited key q else forget key q

  -- The stored object of a key, `none` where there is none, or an error; `none` for a nil indexer.
  module _ {A S : Type 0} (indexer : Option (String → Reply (Option A)))
      (business_logic : A → S → Option String × S) where
    abbrev pub process_stored : String → Reply (Option A) → Queue → S → Queue × S
    process_stored key (failed e) q s = (handle_err (some e) key q, s)
    process_stored key (reply none) q s = (handle_err none key q, s)
    process_stored key (reply (some obj)) q s =
        let (e, s') = business_logic obj s in (handle_err e key q, s')

    abbrev pub process_key : String → Queue → S → Queue × S
    process_key key q s = elim indexer [
      | none ↦ (handle_err (some "indexer has not been set yet deferring to retry logic") key q, s)
      | some by_key ↦ process_stored key (by_key key) q s
    ]

    -- The deferred `Done` comes last.
    abbrev pub process_got : Option String × Queue → S → Bool × Queue × S
    process_got (none, q) s = (false, q, s)
    process_got (some key, q) s = let (q', s') = process_key key q s in (true, finish key q', s')

    unfoldable pub process_next_item : Queue → S → Bool × Queue × S
    unfolding handle_err
    process_next_item q s = process_got (get q) s

    -- `runWorker`, for as many rounds as the fuel allows: the loop of the code ends only when the
    -- queue is shut down.
    unfoldable pub run_worker : ℕ → Queue → S → Bool × Queue × S
    unfolding process_next_item
    run_worker zero q s = (true, q, s)
    run_worker (suc n) q s =
        let (more, q', s') = process_next_item q s in
        let rest = run_worker n q' s' in if more then rest else (false, q', s')
