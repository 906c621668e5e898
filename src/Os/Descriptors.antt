-- ===== src/Os/Descriptors.antt =====
-- `close(2)`, `accept4(2)`, `fcntl(2)`, `epoll(7)` and `eventfd(2)`.
use net_pulse.Base.{ℕ, ℤ, ◌+◌, ◌≤◌, ◌<◌, ◌≡◌, ◌≢◌, List, Option, some, none}
use net_pulse.Os.Errno.{eintr, eagain}
use net_pulse.Os.Sockets.{SysResult, done, failed}

-- The operations of `epoll_ctl`; a deletion passes no event.
pub data EpollOp : Type 0 where
  ctl_add : EpollOp
  ctl_mod : EpollOp
  ctl_del : EpollOp

-- An `epoll_event` as the program reads it.
pub record Event : Type 0 where
  pub events : ℕ
  pub ready_fd : ℤ

-- `epoll_wait` returns the events that it put into the buffer, or -1 with `errno`.
pub data WaitResult : Type 0 where
  waited : List Event → WaitResult
  wait_failed : ℕ → WaitResult

-- `read` on an eventfd returns a count of bytes and, behind the pointer, a value.
pub data ReadResult : Type 0 where
  read_done : ℕ → ℕ → ReadResult
  read_failed : ℕ → ReadResult

pub record Descriptors (W : Type 0) : Type 0 where
  pub close : W → ℤ → W
  -- a new client of the listening socket
  pub accept4 : W → ℤ → SysResult × W
  -- the flags of a descriptor, and new ones
  pub fcntl_getfl : W → ℤ → SysResult × W
  pub fcntl_setfl : W → ℤ → ℕ → SysResult × W
  -- epoll descriptor, operation, watched descriptor, mask
  pub epoll_ctl : W → ℤ → EpollOp → ℤ → Option ℕ → SysResult × W
  -- epoll descriptor, size of the buffer, and whether to wait without end
  pub epoll_wait : W → ℤ → ℕ → ℤ → WaitResult × W
  pub eventfd : W → ℕ → SysResult × W
  pub write : W → ℤ → ℕ → SysResult × W
  pub read : W → ℤ → ReadResult × W

-- What `eventfd(2)` promises: a counter, to which a write adds and which a read takes and resets.
pub record EventFdLaws {W : Type 0} (os : Descriptors W) : Type 0 where
  pub counter : W → ℤ → ℕ
  pub signals : W → ℕ
  pub write_done :
      (w w' : W) (fd : ℤ) (value n : ℕ)
      → os.write w fd value ≡ (done n, w')
      → (n ≡ 8) × (counter w' fd ≡ counter w fd + value) × (signals w' ≤ signals w)
  pub write_fails :
      (w w' : W) (fd : ℤ) (value e : ℕ)
      → os.write w fd value ≡ (failed e, w')
      → (e ≢ 0) × (counter w' fd ≡ counter w fd) × (signals w' ≤ signals w)
  -- a write of a value that the counter has no room for
  pub write_full :
      (w w' : W) (fd : ℤ) (value : ℕ) → os.write w fd value ≡ (failed eagain, w') → 0 < counter w fd
  pub write_interrupted :
      (w w' : W) (fd : ℤ) (value : ℕ)
      → os.write w fd value ≡ (failed eintr, w')
      → signals w' < signals w
  pub read_returns :
      (w w' : W) (fd : ℤ) (n value : ℕ)
      → os.read w fd ≡ (read_done n value, w')
      → (n ≡ 8)
        × (value ≡ counter w fd)
        × (0 < value)
        × (counter w' fd ≡ 0)
        × (signals w' ≤ signals w)
  pub read_fails :
      (w w' : W) (fd : ℤ) (e : ℕ)
      → os.read w fd ≡ (read_failed e, w')
      → (e ≢ 0) × (counter w' fd ≡ counter w fd) × (signals w' ≤ signals w)
  pub read_interrupted :
      (w w' : W) (fd : ℤ) → os.read w fd ≡ (read_failed eintr, w') → signals w' < signals w

-- What `epoll_ctl(2)` promises of a call that succeeds: `interest` is the mask that an epoll
-- descriptor has for a watched one.
pub record EpollLaws {W : Type 0} (os : Descriptors W) : Type 0 where
  pub interest : W → ℤ → ℤ → Option ℕ
  pub add_done :
      (w w' : W) (epfd fd : ℤ) (mask n : ℕ)
      → os.epoll_ctl w epfd ctl_add fd (some mask) ≡ (done n, w')
      → interest w' epfd fd ≡ some mask
  pub mod_done :
      (w w' : W) (epfd fd : ℤ) (mask n : ℕ)
      → os.epoll_ctl w epfd ctl_mod fd (some mask) ≡ (done n, w')
      → interest w' epfd fd ≡ some mask
  pub del_done :
      (w w' : W) (epfd fd : ℤ) (n : ℕ)
      → os.epoll_ctl w epfd ctl_del fd none ≡ (done n, w')
      → interest w' epfd fd ≡ none
  -- and of the other watched descriptors
  pub add_others :
      (w w' : W) (epfd fd b : ℤ) (mask n : ℕ)
      → fd ≢ b
      → os.epoll_ctl w epfd ctl_add fd (some mask) ≡ (done n, w')
      → interest w' epfd b ≡ interest w epfd b

-- A call that fails sets `errno`.
pub record ErrnoLaws {W : Type 0} (os : Descriptors W) : Type 0 where
  pub ctl_fails :
      (w w' : W) (epfd fd : ℤ) (op : EpollOp) (mask : Option ℕ) (e : ℕ)
      → os.epoll_ctl w epfd op fd mask ≡ (failed e, w')
      → e ≢ 0
  pub getfl_fails : (w w' : W) (fd : ℤ) (e : ℕ) → os.fcntl_getfl w fd ≡ (failed e, w') → e ≢ 0
  pub setfl_fails :
      (w w' : W) (fd : ℤ) (flags e : ℕ) → os.fcntl_setfl w fd flags ≡ (failed e, w') → e ≢ 0

-- What bounds a loop around `accept4(2)`: each call that brings a client, or that a signal interrupts,
-- uses up one of finitely many `arrivals`, and `epoll_ctl` and `close` bring no more of them.
pub record AcceptLaws {W : Type 0} (os : Descriptors W) : Type 0 where
  pub arrivals : W → ℕ
  pub accept_done :
      (w w' : W) (fd : ℤ) (n : ℕ) → os.accept4 w fd ≡ (done n, w') → arrivals w' < arrivals w
  pub accept_interrupted :
      (w w' : W) (fd : ℤ) → os.accept4 w fd ≡ (failed eintr, w') → arrivals w' < arrivals w
  pub ctl_calm :
      (w : W) (epfd fd : ℤ) (op : EpollOp) (mask : Option ℕ)
      → arrivals (os.epoll_ctl w epfd op fd mask).1 ≤ arrivals w
  pub close_calm : (w : W) (fd : ℤ) → arrivals (os.close w fd) ≤ arrivals w
