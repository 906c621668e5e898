-- ===== src/Server/Wiring.antt =====
-- The event loop over its dispatcher, as the members of include/netpulse/server/event_loop.hpp put them
-- together: what is outside the loop is the dispatcher and the kernel, `K`. The fuel is that of the
-- loop around `read` in `consumeNotifications`.
pub mod Deliver
pub mod Submit
pub mod Create
pub mod Parts
pub mod Start
pub mod Requests
use net_pulse.Base.{ℕ, ℤ, Option, none, some}
use net_pulse.Os.Sockets.{Sockets}
use net_pulse.Os.Descriptors.{Descriptors}
use net_pulse.Server.Dispatcher
use net_pulse.Server.Dispatcher.{Dispatcher}
use net_pulse.Server.EventLoop.{Dispatch, Env}

module _ {K : Type 0} where
  -- A call of the kernel leaves the dispatcher alone.
  abbrev pub beside : {R : Type 0} → Dispatcher → R × K → R × (Dispatcher × K)
  beside d (r, k) = (r, (d, k))

  abbrev pub beside_option :
      {R : Type 0} → Dispatcher → Option (R × K) → Option (R × (Dispatcher × K))
  beside_option d none = none
  beside_option d (some (r, k)) = some (r, (d, k))

  -- A call of the dispatcher leaves the kernel alone.
  abbrev pub above : {R : Type 0} → K → R × Dispatcher → R × (Dispatcher × K)
  above k (r, d) = (r, (d, k))

  abbrev pub sockets_of : Sockets K → Sockets (Dispatcher × K)
  sockets_of os = record {
    send = λ w fd bytes. beside w.0 (os.send w.1 fd bytes);
    recv = λ w fd size. beside w.0 (os.recv w.1 fd size);
  }

  abbrev pub descriptors_of : Descriptors K → Descriptors (Dispatcher × K)
  descriptors_of os = record {
    close = λ w fd. (w.0, os.close w.1 fd);
    accept4 = λ w fd. beside w.0 (os.accept4 w.1 fd);
    fcntl_getfl = λ w fd. beside w.0 (os.fcntl_getfl w.1 fd);
    fcntl_setfl = λ w fd flags. beside w.0 (os.fcntl_setfl w.1 fd flags);
    epoll_ctl = λ w epfd op fd mask. beside w.0 (os.epoll_ctl w.1 epfd op fd mask);
    epoll_wait = λ w epfd size timeout. beside w.0 (os.epoll_wait w.1 epfd size timeout);
    eventfd = λ w n. beside w.0 (os.eventfd w.1 n);
    write = λ w fd value. beside w.0 (os.write w.1 fd value);
    read = λ w fd. beside w.0 (os.read w.1 fd);
  }

  -- `dispatcher_`, whose notifier has the descriptor `fd`.
  abbrev pub dispatch_of : Descriptors K → ℕ → ℤ → Dispatch (Dispatcher × K)
  dispatch_of os fuel fd = record {
    notification_fd = fd;
    dispatcher_valid = λ w. Dispatcher.valid w.0;
    dispatcher_error = λ w. Dispatcher.error_code w.0;
    try_submit = λ w task. above w.1 (Dispatcher.try_submit w.0 task);
    consume_notifications =
        λ w. beside_option w.0 (Dispatcher.consume_notifications os fuel w.1 w.0);
    take_completed = λ w. above w.1 (Dispatcher.take_completed w.0);
  }

  abbrev pub env_of : Sockets K → Descriptors K → ℕ → ℤ → Env (Dispatcher × K)
  env_of sockets os fuel fd = record {
    sockets = sockets_of sockets;
    descriptors = descriptors_of os;
    dispatch = dispatch_of os fuel fd;
  }

  -- The same with what the workers do, `others`, before each call.
  abbrev pub interleaved :
      (Dispatcher × K → Dispatcher × K) → Env (Dispatcher × K) → Env (Dispatcher × K)
  interleaved others env = record {
    sockets = record {
      send = λ w fd bytes. env.sockets.send (others w) fd bytes;
      recv = λ w fd size. env.sockets.recv (others w) fd size;
    };
    descriptors = record {
      close = λ w fd. env.descriptors.close (others w) fd;
      accept4 = λ w fd. env.descriptors.accept4 (others w) fd;
      fcntl_getfl = λ w fd. env.descriptors.fcntl_getfl (others w) fd;
      fcntl_setfl = λ w fd flags. env.descriptors.fcntl_setfl (others w) fd flags;
      epoll_ctl = λ w epfd op fd mask. env.descriptors.epoll_ctl (others w) epfd op fd mask;
      epoll_wait = λ w epfd size timeout. env.descriptors.epoll_wait (others w) epfd size timeout;
      eventfd = λ w n. env.descriptors.eventfd (others w) n;
      write = λ w fd value. env.descriptors.write (others w) fd value;
      read = λ w fd. env.descriptors.read (others w) fd;
    };
    dispatch = record {
      notification_fd = env.dispatch.notification_fd;
      dispatcher_valid = env.dispatch.dispatcher_valid;
      dispatcher_error = env.dispatch.dispatcher_error;
      try_submit = λ w task. env.dispatch.try_submit (others w) task;
      consume_notifications = λ w. env.dispatch.consume_notifications (others w);
      take_completed = λ w. env.dispatch.take_completed (others w);
    };
  }
