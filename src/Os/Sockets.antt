-- ===== src/Os/Sockets.antt =====
-- `send(2)` and `recv(2)` on a connected stream socket.
use net_pulse.Base.{ℕ, ℤ, ◌≤◌, ◌<◌, ◌≡◌, ◌≢◌, List, ◌++◌, length, take}
use net_pulse.Os.Errno.{eintr}

-- A call that returns a count, or -1 with `errno`.
pub data SysResult : Type 0 where
  done : ℕ → SysResult
  failed : ℕ → SysResult

-- `recv` returns the bytes that it put into the buffer (none: the peer has closed), or -1 with `errno`.
pub data RecvResult : Type 0 where
  received : List ℕ → RecvResult
  recv_failed : ℕ → RecvResult

pub record Sockets (W : Type 0) : Type 0 where
  -- descriptor and bytes
  pub send : W → ℤ → List ℕ → SysResult × W
  -- descriptor and size of the buffer
  pub recv : W → ℤ → ℕ → RecvResult × W

-- What `send(2)` promises. `wire` is what the kernel has accepted for the peer of a descriptor, in
-- order; `signals` is the number of signals that are still to interrupt a call.
pub record SendLaws {W : Type 0} (os : Sockets W) : Type 0 where
  pub wire : W → ℤ → List ℕ
  pub signals : W → ℕ
  pub send_done :
      (w w' : W) (fd : ℤ) (bytes : List ℕ) (n : ℕ)
      → os.send w fd bytes ≡ (done n, w')
      → (n ≤ length bytes) × (wire w' fd ≡ wire w fd ++ take n bytes) × (signals w' ≤ signals w)
  pub send_failed :
      (w w' : W) (fd : ℤ) (bytes : List ℕ) (e : ℕ)
      → os.send w fd bytes ≡ (failed e, w')
      → (e ≢ 0) × (wire w' fd ≡ wire w fd) × (signals w' ≤ signals w)
  pub send_interrupted :
      (w w' : W) (fd : ℤ) (bytes : List ℕ)
      → os.send w fd bytes ≡ (failed eintr, w')
      → signals w' < signals w

-- What `recv(2)` promises. `inbound` is what the peer of a descriptor has sent and will have sent, less
-- what has been read.
pub record RecvLaws {W : Type 0} (os : Sockets W) : Type 0 where
  pub inbound : W → ℤ → List ℕ
  pub signals : W → ℕ
  pub recv_received :
      (w w' : W) (fd : ℤ) (size : ℕ) (bytes : List ℕ)
      → os.recv w fd size ≡ (received bytes, w')
      → (length bytes ≤ size) × (inbound w fd ≡ bytes ++ inbound w' fd) × (signals w' ≤ signals w)
  pub recv_fails :
      (w w' : W) (fd : ℤ) (size e : ℕ)
      → os.recv w fd size ≡ (recv_failed e, w')
      → (e ≢ 0) × (inbound w' fd ≡ inbound w fd) × (signals w' ≤ signals w)
  pub recv_interrupted :
      (w w' : W) (fd : ℤ) (size : ℕ)
      → os.recv w fd size ≡ (recv_failed eintr, w')
      → signals w' < signals w
