-- ===== src/Apps/Server.antt =====
-- apps/server/main.cpp: the server. A line that `main` writes to `std::cout` or to `std::cerr` is a value;
-- what the loop logs is left out.
pub mod Starts
use net_pulse.Base.{bit_or, ℕ, ℤ, pos, List, [], ◌∷◌, Option, none, some, not, if◌then◌else◌}
use net_pulse.Os.Sockets.{Sockets, SysResult, done, failed}
use net_pulse.Os.Descriptors.{Descriptors}
use net_pulse.Os.Startup.{
  Startup, Address, af_inet, sock_stream, sock_cloexec, sol_socket, so_reuseaddr, inaddr_any, htons,
}
use net_pulse.Network.Socket
use net_pulse.Network.Socket.{Socket, no_fd}
use net_pulse.Concurrency.ThreadPool.{ConstructError}
use net_pulse.Server.Dispatcher
use net_pulse.Server.Dispatcher.{Dispatcher}
use net_pulse.Server.EventLoop.{EventLoop}
use net_pulse.Server.EventLoop.Run.{run}
use net_pulse.Server.Wiring.{env_of, interleaved}
use net_pulse.Server.Wiring.Create
use net_pulse.Server.Wiring.Create.{Created, create}

abbrev pub server_port : ℕ
server_port = 9000

abbrev pub listen_backlog : ℕ
listen_backlog = 128

abbrev pub worker_count : ℕ
worker_count = 4

abbrev pub task_queue_capacity : ℕ
task_queue_capacity = 1024

-- A line of `std::cout`: the port, the workers and the capacity.
pub data Line : Type 0 where
  listening_on : ℕ → ℕ → ℕ → Line

-- A line of `std::cerr`, with the error number in it.
pub data Failure : Type 0 where
  no_socket no_reuse_address not_bound not_listening not_initialized : ℕ → Failure
  not_created : ConstructError → Failure

pub record Ended : Type 0 where
  pub code : ℕ
  pub out : List Line
  pub err : List Failure

abbrev pub fails : Failure → Ended
fails f = record { code = 1; out = []; err = f ∷ [] }

abbrev pub any_address : Address
any_address = record { sin_family = af_inet; sin_port = htons server_port; sin_addr = inaddr_any }

-- `workers` is what the threads of the pool do between two calls of the loop, and before they are
-- joined; the loop runs for at most so many `rounds`.
module _ {K : Type 0} (startup : Startup K) (sockets : Sockets K) (os : Descriptors K)
    (workers : Dispatcher × K → Dispatcher × K) (rounds fuel : ℕ) where
  -- A `return` of `main`, which destroys `listener`.
  abbrev pub returns : Socket → Ended → K → Option (Ended × K)
  returns listener e w = some (e, Socket.destroy os.close w listener)

  abbrev pub after_run : Socket → Option (ℕ × EventLoop × (Dispatcher × K)) → Option (Ended × K)
  after_run listener none = none
  after_run listener (some (code, l, w)) =
      let (d, k) = workers w in
      returns listener
        (record {
          code = code;
          out = listening_on server_port worker_count task_queue_capacity ∷ [];
          err = [];
        })
        (Create.destroy startup sockets os fuel k l d)

  abbrev pub after_create : Socket → Created × K → Option (Ended × K)
  after_create listener (Created.throws e, w) = returns listener (fails (not_created e)) w
  after_create listener (Created.made l d, w) =
      if not l.initialized
      then returns listener (fails (not_initialized l.error_number))
          (Create.destroy startup sockets os fuel w l d)
      else after_run listener (
          run (interleaved workers (env_of sockets os fuel (Dispatcher.notification_fd d))) rounds
            fuel (d, w) l)

  -- The loop gets the socket, and `listener` is left without it.
  abbrev pub after_listen : Socket → SysResult × K → Option (Ended × K)
  after_listen listener (failed e, w) = returns listener (fails (not_listening e)) w
  after_listen listener (done n, w) =
      let (owner, emptied) = Socket.move listener in
      after_create emptied (create startup sockets os fuel w owner worker_count task_queue_capacity)

  abbrev pub after_bind : Socket → SysResult × K → Option (Ended × K)
  after_bind listener (failed e, w) = returns listener (fails (not_bound e)) w
  after_bind listener (done n, w) =
      after_listen listener (startup.listen w (Socket.fd listener) listen_backlog)

  abbrev pub after_setsockopt : Socket → SysResult × K → Option (Ended × K)
  after_setsockopt listener (failed e, w) = returns listener (fails (no_reuse_address e)) w
  after_setsockopt listener (done n, w) =
      after_bind listener (startup.bind w (Socket.fd listener) any_address)

  abbrev pub after_socket : SysResult × K → Option (Ended × K)
  after_socket (failed e, w) = returns (Socket.of_fd no_fd) (fails (no_socket e)) w
  after_socket (done n, w) =
      after_setsockopt (Socket.of_fd (pos n))
        (startup.setsockopt w (pos n) sol_socket so_reuseaddr 1)

  unfoldable pub main : K → Option (Ended × K)
  main w = after_socket (startup.socket w af_inet (bit_or sock_stream sock_cloexec) 0)
