-- ===== src/Os/Scripted.antt =====
-- A system that keeps the promises of Os/Sockets.antt and Os/Descriptors.antt: one peer, which takes and
-- gives at most three bytes a call, and a number of signals, each of which interrupts a call.
use net_pulse.Base.{
  ℕ, ℤ, ◌+◌, ◌-◌, ◌≤◌, ◌<◌, ◌≡◌, ◌≢◌, min, List, ◌++◌, length, take, drop, ltb, ◌==◌, if◌then◌else◌,
  arith, length-take, take-append-drop,
}
use net_pulse.Os.Errno.{eintr, eagain}
use net_pulse.Os.Sockets.{
  Sockets, SendLaws, RecvLaws, SysResult, done, failed, RecvResult, received, recv_failed,
}
use net_pulse.Os.Descriptors.{
  Descriptors, EventFdLaws, AcceptLaws, ReadResult, read_done, read_failed, wait_failed,
}

pub record World : Type 0 where
  pub sent : List ℕ
  pub to_read : List ℕ
  pub interrupts : ℕ
  pub count : ℕ
  pub waiting : ℕ

abbrev pub interrupted : World → World
interrupted w = record w { interrupts = w.interrupts - 1 }

abbrev pub send : World → ℤ → List ℕ → SysResult × World
send w fd bytes = if ltb 0 w.interrupts then (failed eintr, interrupted w) else (
  done (min 3 (length bytes)),
  record w { sent = w.sent ++ take (min 3 (length bytes)) bytes },
)

-- The reads end with EAGAIN when nothing is there.
abbrev pub recv : World → ℤ → ℕ → RecvResult × World
recv w fd size =
    if ltb 0 w.interrupts
    then (recv_failed eintr, interrupted w)
    else if length w.to_read == 0
    then (recv_failed eagain, w)
    else (
      received (take (min 3 size) w.to_read),
      record w { to_read = drop (min 3 size) w.to_read },
    )

abbrev pub sockets : Sockets World
sockets = record { send = send; recv = recv }

pub send-done :
    (w w' : World) (fd : ℤ) (bytes : List ℕ) (n : ℕ)
    → send w fd bytes ≡ (done n, w')
    → (n ≤ length bytes) × (w'.sent ≡ w.sent ++ take n bytes) × (w'.interrupts ≤ w.interrupts)
send-done w w' fd bytes n e = ground arith

pub send-failed :
    (w w' : World) (fd : ℤ) (bytes : List ℕ) (e : ℕ)
    → send w fd bytes ≡ (failed e, w')
    → (e ≢ 0) × (w'.sent ≡ w.sent) × (w'.interrupts ≤ w.interrupts)
send-failed w w' fd bytes e h = ground arith

pub send-interrupted :
    (w w' : World) (fd : ℤ) (bytes : List ℕ)
    → send w fd bytes ≡ (failed eintr, w')
    → w'.interrupts < w.interrupts
send-interrupted w w' fd bytes h = ground arith

abbrev pub send_laws : SendLaws sockets
send_laws = record {
  wire = λ w fd. w.sent;
  signals = λ w. w.interrupts;
  send_done = send-done;
  send_failed = send-failed;
  send_interrupted = send-interrupted;
}

pub recv-received :
    (w w' : World) (fd : ℤ) (size : ℕ) (bytes : List ℕ)
    → recv w fd size ≡ (received bytes, w')
    → (length bytes ≤ size) × (w.to_read ≡ bytes ++ w'.to_read) × (w'.interrupts ≤ w.interrupts)
recv-received w w' fd size bytes e =
    ground (arith, length-take (min 3 size) w.to_read, take-append-drop (min 3 size) w.to_read)

pub recv-fails :
    (w w' : World) (fd : ℤ) (size e : ℕ)
    → recv w fd size ≡ (recv_failed e, w')
    → (e ≢ 0) × (w'.to_read ≡ w.to_read) × (w'.interrupts ≤ w.interrupts)
recv-fails w w' fd size e h = ground arith

pub recv-interrupted :
    (w w' : World) (fd : ℤ) (size : ℕ)
    → recv w fd size ≡ (recv_failed eintr, w')
    → w'.interrupts < w.interrupts
recv-interrupted w w' fd size h = ground arith

abbrev pub recv_laws : RecvLaws sockets
recv_laws = record {
  inbound = λ w fd. w.to_read;
  signals = λ w. w.interrupts;
  recv_received = recv-received;
  recv_fails = recv-fails;
  recv_interrupted = recv-interrupted;
}

abbrev pub write : World → ℤ → ℕ → SysResult × World
write w fd value =
    if ltb 0 w.interrupts
    then (failed eintr, interrupted w)
    else (done 8, record w { count = w.count + value })

abbrev pub read : World → ℤ → ReadResult × World
read w fd =
    if ltb 0 w.interrupts
    then (read_failed eintr, interrupted w)
    else if w.count == 0
    then (read_failed eagain, w)
    else (read_done 8 w.count, record w { count = 0 })

-- A new client has the number of those that still wait, plus 10, as its descriptor.
abbrev pub accept4 : World → ℤ → SysResult × World
accept4 w fd =
    if ltb 0 w.interrupts
    then (failed eintr, interrupted w)
    else if w.waiting == 0
    then (failed eagain, w)
    else (done (9 + w.waiting), record w { waiting = w.waiting - 1 })

-- `epoll_ctl` always succeeds.
abbrev pub descriptors : Descriptors World
descriptors = record {
  close = λ w fd. w;
  accept4 = accept4;
  fcntl_getfl = λ w fd. (done 0, w);
  fcntl_setfl = λ w fd flags. (done 0, w);
  epoll_ctl = λ w epfd op fd mask. (done 0, w);
  epoll_wait = λ w epfd size timeout. (wait_failed eintr, w);
  eventfd = λ w n. (done 9, w);
  write = write;
  read = read;
}

pub write-done :
    (w w' : World) (fd : ℤ) (value n : ℕ)
    → write w fd value ≡ (done n, w')
    → (n ≡ 8) × (w'.count ≡ w.count + value) × (w'.interrupts ≤ w.interrupts)
write-done w w' fd value n e = ground arith

pub write-fails :
    (w w' : World) (fd : ℤ) (value e : ℕ)
    → write w fd value ≡ (failed e, w')
    → (e ≢ 0) × (w'.count ≡ w.count) × (w'.interrupts ≤ w.interrupts)
write-fails w w' fd value e h = ground arith

pub write-full :
    (w w' : World) (fd : ℤ) (value : ℕ) → write w fd value ≡ (failed eagain, w') → 0 < w.count
write-full w w' fd value e = ground arith

pub write-interrupted :
    (w w' : World) (fd : ℤ) (value : ℕ)
    → write w fd value ≡ (failed eintr, w')
    → w'.interrupts < w.interrupts
write-interrupted w w' fd value h = ground arith

pub read-returns :
    (w w' : World) (fd : ℤ) (n value : ℕ)
    → read w fd ≡ (read_done n value, w')
    → (n ≡ 8) × (value ≡ w.count) × (0 < value) × (w'.count ≡ 0) × (w'.interrupts ≤ w.interrupts)
read-returns w w' fd n value e = ground arith

pub read-fails :
    (w w' : World) (fd : ℤ) (e : ℕ)
    → read w fd ≡ (read_failed e, w')
    → (e ≢ 0) × (w'.count ≡ w.count) × (w'.interrupts ≤ w.interrupts)
read-fails w w' fd e h = ground arith

pub read-interrupted :
    (w w' : World) (fd : ℤ) → read w fd ≡ (read_failed eintr, w') → w'.interrupts < w.interrupts
read-interrupted w w' fd h = ground arith

abbrev pub eventfd_laws : EventFdLaws descriptors
eventfd_laws = record {
  counter = λ w fd. w.count;
  signals = λ w. w.interrupts;
  write_done = write-done;
  write_fails = write-fails;
  write_full = write-full;
  write_interrupted = write-interrupted;
  read_returns = read-returns;
  read_fails = read-fails;
  read_interrupted = read-interrupted;
}

pub accept-done :
    (w w' : World) (fd : ℤ) (n : ℕ)
    → accept4 w fd ≡ (done n, w')
    → w'.waiting + w'.interrupts < w.waiting + w.interrupts
accept-done w w' fd n e = ground arith

pub accept-interrupted :
    (w w' : World) (fd : ℤ)
    → accept4 w fd ≡ (failed eintr, w')
    → w'.waiting + w'.interrupts < w.waiting + w.interrupts
accept-interrupted w w' fd e = ground arith

abbrev pub accept_laws : AcceptLaws descriptors
accept_laws = record {
  arrivals = λ w. w.waiting + w.interrupts;
  accept_done = accept-done;
  accept_interrupted = accept-interrupted;
  ctl_calm = λ w epfd fd op mask. omega arith;
  close_calm = λ w fd. omega arith;
}
