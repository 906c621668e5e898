-- ===== src/Concurrency/BoundedQueue.antt =====
-- include/netpulse/concurrency/bounded_queue.hpp. Each operation holds the mutex from its first to its
-- last access of the queue, so it is one step; the notifications, which come after the mutex is
-- released, are steps of their own in ThreadPool/System.antt.
pub mod Fifo
use net_pulse.Base.{
  ℕ, List, [], ◌∷◌, ◌++◌, Bool, true, false, Option, none, some, length, leb, ◌==◌, if◌then◌else◌,
}

pub data QueuePushStatus : Type 0 where
  success full closed : QueuePushStatus

pub record BoundedQueue {ℓ} (A : Type ℓ) : Type ℓ where
  pub limit : ℕ
  pub queue : List A
  pub is_closed : Bool

module _ {ℓ} (A : Type ℓ) where
  -- The constructor; `none` is the exception `std::invalid_argument`.
  unfoldable pub make : ℕ → Option (BoundedQueue A)
  make limit =
      if limit == 0 then none else some (record { limit = limit; queue = []; is_closed = false })

module _ {ℓ} {A : Type ℓ} where
  unfoldable pub try_push : BoundedQueue A → A → QueuePushStatus × BoundedQueue A
  try_push q value =
      if q.is_closed
      then (closed, q)
      else if leb q.limit (length q.queue)
      then (full, q)
      else (success, record q { queue = q.queue ++ value ∷ [] })

  -- `none`: the predicate of the wait is false, and the caller sleeps. `some (none, q)`: the queue is
  -- closed and empty.
  abbrev pub pop_front : BoundedQueue A → List A → Option (Option A × BoundedQueue A)
  pop_front q [] = if q.is_closed then some (none, q) else none
  pop_front q (value ∷ rest) = some (some value, record q { queue = rest })

  unfoldable pub wait_pop : BoundedQueue A → Option (Option A × BoundedQueue A)
  wait_pop q = pop_front q q.queue

  unfoldable pub close : BoundedQueue A → BoundedQueue A
  close q = record q { is_closed = true }

  unfoldable pub size : BoundedQueue A → ℕ
  size q = length q.queue

  unfoldable pub capacity : BoundedQueue A → ℕ
  capacity q = q.limit
