-- ===== src/Os/Errno.antt =====
-- The constants of <cerrno> and <sys/epoll.h> that the sources name, as Linux defines them.
use net_pulse.Base.{ℕ}

abbrev pub enoent : ℕ
enoent = 2

abbrev pub eintr : ℕ
eintr = 4

abbrev pub eio : ℕ
eio = 5

abbrev pub ebadf : ℕ
ebadf = 9

abbrev pub eagain : ℕ
eagain = 11

abbrev pub ewouldblock : ℕ
ewouldblock = 11

abbrev pub einval : ℕ
einval = 22

abbrev pub emfile : ℕ
emfile = 24

abbrev pub epipe : ℕ
epipe = 32

abbrev pub epollin : ℕ
epollin = 0x1

abbrev pub epollout : ℕ
epollout = 0x4

abbrev pub epollerr : ℕ
epollerr = 0x8

abbrev pub epollhup : ℕ
epollhup = 0x10

abbrev pub epollrdhup : ℕ
epollrdhup = 0x2000

abbrev pub o_nonblock : ℕ
o_nonblock = 0x800
