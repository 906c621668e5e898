-- ===== src/Os/Startup.antt =====
-- `socket(2)`, `setsockopt(2)`, `bind(2)`, `listen(2)`, `connect(2)` and `inet_pton(3)`, with the constants
-- of <sys/socket.h> and <netinet/in.h> as Linux defines them.
use net_pulse.Base.{ℕ, ℤ, pos, ◌++◌, ◌≢◌, ◌≤◌, ◌≡◌, ◌/◌, ◌%◌, ◌^◌, List, [], ◌∷◌, Option, some}
use net_pulse.Os.Descriptors.{Descriptors, EpollOp}
use net_pulse.Os.Sockets.{Sockets, SendLaws, RecvLaws, SysResult, done, failed}

abbrev pub af_inet : ℕ
af_inet = 2

abbrev pub sock_stream : ℕ
sock_stream = 1

abbrev pub sock_cloexec : ℕ
sock_cloexec = 0x80000

abbrev pub epoll_cloexec : ℕ
epoll_cloexec = 0x80000

abbrev pub sol_socket : ℕ
sol_socket = 1

abbrev pub so_reuseaddr : ℕ
so_reuseaddr = 2

-- The bytes of `htonl(INADDR_ANY)`.
abbrev pub inaddr_any : List ℕ
inaddr_any = 0 ∷ 0 ∷ 0 ∷ 0 ∷ []

-- The bytes of a port in network order.
unfoldable pub htons : ℕ → List ℕ
htons port = port / 2 ^ 8 % 2 ^ 8 ∷ port % 2 ^ 8 ∷ []

-- A `sockaddr_in`; the port and the address are the bytes in it.
pub record Address : Type 0 where
  pub sin_family : ℕ
  pub sin_port : List ℕ
  pub sin_addr : List ℕ

pub record Startup (W : Type 0) : Type 0 where
  -- domain, type and protocol
  pub socket : W → ℕ → ℕ → ℕ → SysResult × W
  -- descriptor, level, option and the integer that it is set to
  pub setsockopt : W → ℤ → ℕ → ℕ → ℕ → SysResult × W
  pub bind : W → ℤ → Address → SysResult × W
  -- descriptor and backlog
  pub listen : W → ℤ → ℕ → SysResult × W
  pub connect : W → ℤ → Address → SysResult × W
  -- flags
  pub epoll_create1 : W → ℕ → SysResult × W
  -- the thread's `errno`
  pub errno : W → ℕ
  -- the address of a text, if the function returns 1
  pub inet_pton : ℕ → List ℕ → Option (List ℕ)

-- What the calls promise of the process's table of descriptors: `held` are those that it has, the
-- last one opened first.
pub record TableLaws {W : Type 0} (os : Startup W) (close : W → ℤ → W) : Type 0 where
  pub held : W → List ℤ
  pub socket_done :
      (w w' : W) (domain kind protocol n : ℕ)
      → os.socket w domain kind protocol ≡ (done n, w')
      → held w' ≡ pos n ∷ held w
  pub socket_fails :
      (w w' : W) (domain kind protocol e : ℕ)
      → os.socket w domain kind protocol ≡ (failed e, w')
      → held w' ≡ held w
  pub setsockopt_keeps :
      (w : W) (fd : ℤ) (level option value : ℕ)
      → held (os.setsockopt w fd level option value).1 ≡ held w
  pub bind_keeps : (w : W) (fd : ℤ) (a : Address) → held (os.bind w fd a).1 ≡ held w
  pub listen_keeps : (w : W) (fd : ℤ) (backlog : ℕ) → held (os.listen w fd backlog).1 ≡ held w
  pub connect_keeps : (w : W) (fd : ℤ) (a : Address) → held (os.connect w fd a).1 ≡ held w
  pub close_closes :
      (w : W) (fd : ℤ) (rest : List ℤ) → held w ≡ fd ∷ rest → held (close w fd) ≡ rest

-- What the calls promise beside their own results: how they leave what the other calls are about.
pub record PeerLaws {W : Type 0} (os : Startup W) (close : W → ℤ → W) (sockets : Sockets W)
    (table : TableLaws os close) (sending : SendLaws sockets) (receiving : RecvLaws sockets)
    : Type 0 where
  pub socket_calm :
      (w : W) (domain kind protocol : ℕ)
      → (sending.signals (os.socket w domain kind protocol).1 ≤ sending.signals w)
        × (receiving.signals (os.socket w domain kind protocol).1 ≤ receiving.signals w)
  pub connect_calm :
      (w : W) (fd : ℤ) (a : Address)
      → (sending.signals (os.connect w fd a).1 ≤ sending.signals w)
        × (receiving.signals (os.connect w fd a).1 ≤ receiving.signals w)
  -- nothing has been sent on a new connection
  pub connect_done :
      (w w' : W) (fd : ℤ) (a : Address) (n : ℕ)
      → os.connect w fd a ≡ (done n, w')
      → sending.wire w' fd ≡ []
  pub send_keeps :
      (w : W) (fd b : ℤ) (bytes : List ℕ)
      → (table.held (sockets.send w fd bytes).1 ≡ table.held w)
        × (receiving.inbound (sockets.send w fd bytes).1 b ≡ receiving.inbound w b)
        × (receiving.signals (sockets.send w fd bytes).1 ≤ receiving.signals w)
  pub recv_keeps :
      (w : W) (fd b : ℤ) (size : ℕ)
      → (table.held (sockets.recv w fd size).1 ≡ table.held w)
        × (sending.wire (sockets.recv w fd size).1 b ≡ sending.wire w b)
  pub close_keeps : (w : W) (fd b : ℤ) → sending.wire (close w fd) b ≡ sending.wire w b

-- What the calls that the server makes between its start and its first event promise of the table and
-- of `errno`. A new descriptor is none of those that the process holds, and no call resets `errno`.
pub record MemberLaws {W : Type 0} (startup : Startup W) (os : Descriptors W)
    (table : TableLaws startup os.close) : Type 0 where
  pub epoll_done :
      (w w' : W) (flags n : ℕ)
      → startup.epoll_create1 w flags ≡ (done n, w')
      → table.held w' ≡ pos n ∷ table.held w
  pub epoll_fails :
      (w w' : W) (flags e : ℕ)
      → startup.epoll_create1 w flags ≡ (failed e, w')
      → (table.held w' ≡ table.held w) × (startup.errno w' ≢ 0)
  pub eventfd_done :
      (w w' : W) (initial n : ℕ)
      → os.eventfd w initial ≡ (done n, w')
      → table.held w' ≡ pos n ∷ table.held w
  pub eventfd_fresh :
      (w w' : W) (initial n : ℕ) (b : ℤ) (front rest : List ℤ)
      → os.eventfd w initial ≡ (done n, w')
      → table.held w ≡ front ++ b ∷ rest
      → b ≢ pos n
  pub eventfd_fails :
      (w w' : W) (initial e : ℕ)
      → os.eventfd w initial ≡ (failed e, w')
      → (e ≢ 0) × (table.held w' ≡ table.held w)
  pub eventfd_errno :
      (w : W) (initial : ℕ) → startup.errno w ≢ 0 → startup.errno (os.eventfd w initial).1 ≢ 0
  pub getfl_keeps : (w : W) (fd : ℤ) → table.held (os.fcntl_getfl w fd).1 ≡ table.held w
  pub setfl_keeps :
      (w : W) (fd : ℤ) (flags : ℕ) → table.held (os.fcntl_setfl w fd flags).1 ≡ table.held w
  pub ctl_keeps :
      (w : W) (epfd fd : ℤ) (op : EpollOp) (mask : Option ℕ)
      → table.held (os.epoll_ctl w epfd op fd mask).1 ≡ table.held w

-- What `bind(2)` and `listen(2)` promise of a call that succeeds: the address that a socket is bound to,
-- and how many connections may wait on it.
pub record ListenLaws {W : Type 0} (os : Startup W) : Type 0 where
  pub bound : W → ℤ → Option Address
  pub backlog : W → ℤ → Option ℕ
  pub bind_done :
      (w w' : W) (fd : ℤ) (a : Address) (n : ℕ)
      → os.bind w fd a ≡ (done n, w')
      → bound w' fd ≡ some a
  pub listen_done :
      (w w' : W) (fd : ℤ) (size n : ℕ)
      → os.listen w fd size ≡ (done n, w')
      → (backlog w' fd ≡ some size) × (bound w' fd ≡ bound w fd)
