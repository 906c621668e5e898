-- ===== src/Server/Dispatcher/Submit.antt =====
-- What `trySubmit` of the dispatcher does with a task, on every branch.
use net_pulse.Base.{
  ◌<◌, ◌≤◌, ◌≡◌, ◌≢◌, ◌⊎◌, inl, inr, refl, [], ◌∷◌, ◌++◌, true, false, nonneg, ◌==◌, ==_iff, length,
  Bool-cases,
}
use net_pulse.Concurrency.BoundedQueue.Fifo.{try_push-cases}
use net_pulse.Concurrency.ThreadPool
use net_pulse.Concurrency.ThreadPool.{success, queue_full, stopped, invalid_task}
use net_pulse.Server.Processing.{ProcessingTask}
use net_pulse.Server.Dispatcher.{Dispatcher, valid, try_submit}

-- What the pool's queue does with a task that the dispatcher lets through.
abbrev pub Queues : Dispatcher → ProcessingTask → Type 0
Queues d task =
    let q = d.pool.tasks in
    ((q.is_closed ≡ false)
      × (length q.queue < q.limit)
      × (try_submit d task ≡ (
        success,
        record d { pool = record (d.pool) { tasks = record q { queue = q.queue ++ task ∷ [] } } },
      )))
    ⊎ ((q.is_closed ≡ true) × (try_submit d task ≡ (stopped, d)))
    ⊎ ((q.is_closed ≡ false) × (q.limit ≤ length q.queue) × (try_submit d task ≡ (queue_full, d)))

pub queues :
    (d : Dispatcher) (task : ProcessingTask)
    → nonneg task.client_fd ≡ true
    → (task.connection_id == 0) ≡ false
    → valid d ≡ true
    → Queues d task
unfolding try_submit ThreadPool.try_submit ThreadPool.to_submit_status
queues d task n i v = elim (try_push-cases d.pool.tasks task) [
  | inl (o, room, e) ↦ inl (o, room, rw (n, i, v, e) refl)
  | inr (inl (c, e)) ↦ inr (inl (c, rw (n, i, v, e) refl))
  | inr (inr (o, full, e)) ↦ inr (inr (o, full, rw (n, i, v, e) refl))
]

-- A task with a negative descriptor or with id 0 is refused as invalid. Any other is refused as `stopped`
-- while the dispatcher is not valid. The others go to the pool's queue: at its end if the queue is
-- open and has room, and else they are refused, as `stopped` if it is closed and as `queue_full` if
-- it is full. A task that is refused changes nothing.
pub try_submit-cases :
    (d : Dispatcher) (task : ProcessingTask)
    → (((nonneg task.client_fd ≡ false) ⊎ (task.connection_id ≡ 0))
        × (try_submit d task ≡ (invalid_task, d)))
      ⊎ ((nonneg task.client_fd ≡ true)
          × (task.connection_id ≢ 0)
          × (valid d ≡ false)
          × (try_submit d task ≡ (stopped, d)))
      ⊎ ((nonneg task.client_fd ≡ true)
          × (task.connection_id ≢ 0)
          × (valid d ≡ true)
          × Queues d task)
unfolding try_submit
try_submit-cases d task = elim (Bool-cases (nonneg task.client_fd)) [
  | inr n ↦ inl (inl n, rw n refl)
  | inl n ↦ elim (Bool-cases (task.connection_id == 0)) [
    | inl z ↦ inl (inr ((==_iff task.connection_id 0).0 z), rw (n, z) refl)
    | inr i ↦
        let nonzero : task.connection_id ≢ 0 = λ h. cc ((==_iff task.connection_id 0).1 h) in
        elim (Bool-cases (valid d)) [
          | inr bad ↦ inr (inl (n, nonzero, bad, rw (n, i, bad) refl))
          | inl v ↦ inr (inr (n, nonzero, v, queues d task n i v))
        ]
  ]
]
