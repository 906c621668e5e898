-- ===== src/Server/Wiring/Parts.antt =====
-- What the constructors of the members of the event loop leave: the epoll, the notifier, the pool and the
-- dispatcher.
use net_pulse.Base.{
  ℕ, ℤ, ◌≡◌, ◌≢◌, ◌⊎◌, inl, inr, refl, sym, ap, ◌∙◌, List, [], ◌∷◌, ◌++◌, true, false, nonneg,
  if◌then◌else◌, Bool-cases, subst, ne→not-==,
}
use net_pulse.Os.Sockets.{SysResult, done, failed}
use net_pulse.Os.Descriptors.{Descriptors}
use net_pulse.Os.Startup.{Startup, TableLaws, MemberLaws, epoll_cloexec}
use net_pulse.Network.Epoll
use net_pulse.Network.Epoll.{Epoll}
use net_pulse.Network.Ownership.{push}
use net_pulse.Network.EventFd
use net_pulse.Network.EventFd.{EventFd}
use net_pulse.Concurrency.BoundedQueue
use net_pulse.Concurrency.ThreadPool
use net_pulse.Concurrency.ThreadPool.{ThreadPool}
use net_pulse.Server.Processing.{ProcessingTask}
use net_pulse.Server.Dispatcher
use net_pulse.Server.Dispatcher.{Dispatcher}

pub not_real : true ≡ false → ⊥
not_real h = cc

-- What `push` puts in front.
abbrev pub front : ℤ → List ℤ
front fd = if nonneg fd then fd ∷ [] else []

pub push-front : (fd : ℤ) (held : List ℤ) → push fd held ≡ front fd ++ held
push-front fd held = elim (Bool-cases (nonneg fd)) [
  | inl good ↦ rw good refl
  | inr bad ↦ rw bad refl
]

-- A pool that no task has been given to.
abbrev pub fresh_pool : ℕ → ℕ → ThreadPool ProcessingTask
fresh_pool worker_count capacity = record {
  tasks = record { limit = capacity; queue = []; is_closed = false };
  workers = worker_count;
  is_stopped = false;
}

pub construct-fresh :
    (worker_count capacity : ℕ)
    → worker_count ≢ 0
    → capacity ≢ 0
    → ThreadPool.construct ProcessingTask worker_count capacity
      ≡ ThreadPool.made (fresh_pool worker_count capacity)
unfolding ThreadPool.construct BoundedQueue.make
construct-fresh worker_count capacity h k =
    rw (ne→not-== capacity 0 k, ne→not-== worker_count 0 h) refl

-- A dispatcher is valid if its notifier is, and else it has the notifier's error.
pub init-valid :
    (n : EventFd) (pool : ThreadPool ProcessingTask)
    → ((EventFd.valid n ≡ true)
        × (Dispatcher.valid (Dispatcher.init n pool) ≡ true)
        × (Dispatcher.init n pool
            ≡ record { notifier = n; completed = []; error_number = 0; pool = pool }))
      ⊎ ((EventFd.valid n ≡ false) × (Dispatcher.valid (Dispatcher.init n pool) ≡ false))
unfolding Dispatcher.init Dispatcher.valid
init-valid n pool = elim (Bool-cases (EventFd.valid n)) [
  | inl good ↦ inl (good, rw (good, good) refl, rw good refl)
  | inr bad ↦ inr (bad, rw (bad, bad) refl)
]

pub init-error :
    (n : EventFd) (pool : ThreadPool ProcessingTask)
    → n.error_number ≢ 0
    → EventFd.valid n ≡ false
    → Dispatcher.error_code (Dispatcher.init n pool) ≢ 0
unfolding Dispatcher.init Dispatcher.error_code
init-error n pool h bad = rw (bad, ne→not-== n.error_number 0 h) h

pub init-notifier :
    (n : EventFd) (pool : ThreadPool ProcessingTask) → (Dispatcher.init n pool).notifier ≡ n
unfolding Dispatcher.init
init-notifier n pool = elim (Bool-cases (EventFd.valid n)) [
  | inl good ↦ rw good refl
  | inr bad ↦ rw bad refl
]

module _ {K : Type 0} (startup : Startup K) (os : Descriptors K)
    (table : TableLaws startup os.close) (members : MemberLaws startup os table) where
  open table use {held}

  pub epoll-made :
      (w : K)
      → let (e, w1) = Epoll.init startup w in
        ((Epoll.valid e ≡ true) ⊎ (startup.errno w1 ≢ 0)) × (held w1 ≡ push e.fd (held w))
  unfolding Epoll.init Epoll.valid
  epoll-made w = by_result (startup.epoll_create1 w epoll_cloexec) refl
    where
      by_result :
          (res : SysResult × K)
          → startup.epoll_create1 w epoll_cloexec ≡ res
          → let (e, w1) = Epoll.of_result res in
            ((Epoll.valid e ≡ true) ⊎ (startup.errno w1 ≢ 0)) × (held w1 ≡ push e.fd (held w))
      by_result (done n, w1) eq = (inl refl, members.epoll_done w w1 epoll_cloexec n eq)
      by_result (failed e, w1) eq =
          let (h, why) = members.epoll_fails w w1 epoll_cloexec e eq in (inr why, h)

  -- `b` is a descriptor that is held before.
  pub notifier-made :
      (w : K) (b : ℤ) (front rest : List ℤ)
      → nonneg b ≡ true
      → held w ≡ front ++ b ∷ rest
      → let (n, w1) = EventFd.init os w 0 in
        (held w1 ≡ push n.fd (held w))
        × (b ≢ n.fd)
        × ((EventFd.valid n ≡ true) ⊎ ((EventFd.valid n ≡ false) × (n.error_number ≢ 0)))
        × (startup.errno w ≢ 0 → startup.errno w1 ≢ 0)
  unfolding EventFd.init EventFd.valid
  notifier-made w b front rest real has = by_result (os.eventfd w 0) refl
    where
      by_result :
          (res : SysResult × K)
          → os.eventfd w 0 ≡ res
          → let (n, w1) = EventFd.of_result res in
            (held w1 ≡ push n.fd (held w))
            × (b ≢ n.fd)
            × ((EventFd.valid n ≡ true) ⊎ ((EventFd.valid n ≡ false) × (n.error_number ≢ 0)))
            × (startup.errno w ≢ 0 → startup.errno w1 ≢ 0)
      by_result (done n, w1) eq = (
        members.eventfd_done w w1 0 n eq,
        members.eventfd_fresh w w1 0 n b front rest eq has,
        inl refl,
        λ h. subst (λ x. startup.errno x ≢ 0) (ap (λ x. x.1) eq) (members.eventfd_errno w 0 h),
      )
      by_result (failed e, w1) eq =
          let (why, h) = members.eventfd_fails w w1 0 e eq in
          (
            h,
            (λ same. not_real (sym real ∙ ap nonneg same)),
            inr (refl, why),
            λ h'.
                subst (λ x. startup.errno x ≢ 0) (ap (λ x. x.1) eq) (members.eventfd_errno w 0 h'),
          )
