-- ===== src/Limits/Queue.antt =====
-- The compacting task queue of `MessagingRateLimiter`, free-claude-code/messaging/limiter.py. Each
-- operation runs under the lock of `_condition`, so a run is a sequence of operations. A task's
-- function is of any type `F`, a future is its number.
pub mod Kept
pub mod Runs
pub mod Futures
mod Tests
use vega_claude.Prelude.{
  ℕ, String, Option, none, some, Bool, true, false, List, [], ◌∷◌, ◌++◌, Dict, get, put, remove,
  string_eq, if◌then◌else◌,
}

pub record TaskQueue (F : Type 0) : Type 0 where
  pub queue_list : List String
  pub queue_map : Dict String (F × List ℕ)

-- What the worker gets: nothing (it waits), a task, or a KeyError.
pub data Got (F : Type 0) : Type 0 where
  waits : Got F
  task : String → F → List ℕ → TaskQueue F → Got F
  key_error : Got F

module _ {F : Type 0} where
  abbrev pub new_queue : TaskQueue F
  new_queue = record { queue_list = []; queue_map = [] }

  -- With the entry that `_queue_map` has under the key.
  unfoldable pub enqueue_in :
      F → List ℕ → String → Bool → Option (F × List ℕ) → TaskQueue F → TaskQueue F
  enqueue_in func futures dedup_key front (some (old_func, old_futures)) q = record q {
    queue_map = put dedup_key (func, old_futures ++ futures) q.queue_map;
  }
  enqueue_in func futures dedup_key front none q = record {
    queue_list = if front then dedup_key ∷ q.queue_list else q.queue_list ++ dedup_key ∷ [];
    queue_map = put dedup_key (func, futures) q.queue_map;
  }

  unfoldable pub enqueue_internal_multi : F → List ℕ → String → Bool → TaskQueue F → TaskQueue F
  unfolding enqueue_in
  enqueue_internal_multi func futures dedup_key front q =
      enqueue_in func futures dedup_key front (get dedup_key q.queue_map) q

  abbrev pub enqueue_internal : F → ℕ → String → Bool → TaskQueue F → TaskQueue F
  enqueue_internal func future dedup_key front q =
      enqueue_internal_multi func (future ∷ []) dedup_key front q

  abbrev pub pop_entry : String → List String → Option (F × List ℕ) → TaskQueue F → Got F
  pop_entry dedup_key rest none q = key_error
  pop_entry dedup_key rest (some (func, futures)) q =
      task dedup_key func futures
        (record { queue_list = rest; queue_map = remove dedup_key q.queue_map })

  unfoldable pub get_from : List String → TaskQueue F → Got F
  get_from [] q = waits
  get_from (dedup_key ∷ rest) q = pop_entry dedup_key rest (get dedup_key q.queue_map) q

  -- `popleft` and `pop` of the worker.
  unfoldable pub get_task : TaskQueue F → Got F
  unfolding get_from
  get_task q = get_from q.queue_list q
