-- ===== src/Server/Dispatcher/System.antt =====
-- The workers that publish results and the event loop that takes them, as interleaved steps. A step is
-- what a thread does while it holds the mutex of the completed results, or one call of the notifier.
-- A call that signals interrupt more often than its fuel allows has not ended: it changes nothing, and
-- can be made again.
use net_pulse.Base.{
  ℕ, ◌+◌, ◌-◌, List, [], ◌∷◌, ◌++◌, Bool, false, Option, none, some, ltb, if◌then◌else◌,
}
use net_pulse.Os.Descriptors.{Descriptors}
use net_pulse.Network.EventFd
use net_pulse.Network.EventFd.{EventFdReadResult}
use net_pulse.Server.Processing.{ProcessingResult}
use net_pulse.Server.Dispatcher.{
  Dispatcher, after_notify, keep, take_completed, consume_notifications,
}

pub record System (W : Type 0) : Type 0 where
  pub dispatcher : Dispatcher
  pub world : W
  -- workers that have kept a result and have not yet called `notify`
  pub to_notify : ℕ
  -- the event loop has consumed the notifications, and is about to take the results
  pub taking : Bool
  -- what has happened: the results that workers have kept, and those that the loop has taken
  pub published : List ProcessingResult
  pub taken : List ProcessingResult

-- `fuel` is that of the loop around `write` or `read`.
pub data Move : Type 0 where
  keeps : ProcessingResult → Move
  notifies : (fuel : ℕ) → Move
  consumes : (fuel : ℕ) → Move
  takes : Move

module _ {W : Type 0} where
  unfoldable pub start : Dispatcher → W → System W
  start d w = record {
    dispatcher = d;
    world = w;
    to_notify = 0;
    taking = false;
    published = d.completed;
    taken = [];
  }

  unfoldable pub keep_result : System W → ProcessingResult → System W
  keep_result s result = record s {
    dispatcher = keep s.dispatcher result;
    to_notify = s.to_notify + 1;
    published = s.published ++ result ∷ [];
  }

  abbrev pub notified_system : System W → Option (Dispatcher × W) → System W
  notified_system s none = s
  notified_system s (some (d, w)) = record s {
    dispatcher = d;
    world = w;
    to_notify = s.to_notify - 1;
  }

  abbrev pub consumed_system : System W → Option (EventFdReadResult × W) → System W
  consumed_system s none = s
  consumed_system s (some (r, w)) = record s { world = w; taking = r.success }

  unfoldable pub take_results : System W → System W
  take_results s =
      if s.taking
      then (let (results, d) = take_completed s.dispatcher in
          record s { dispatcher = d; taking = false; taken = s.taken ++ results })
      else s

module _ {W : Type 0} (os : Descriptors W) where
  unfoldable pub notify : System W → ℕ → System W
  notify s fuel =
      if ltb 0 s.to_notify
      then notified_system s
          (after_notify s.dispatcher (EventFd.notify os fuel s.world s.dispatcher.notifier 1))
      else s

  unfoldable pub consume : System W → ℕ → System W
  consume s fuel =
      if s.taking then s else consumed_system s (consume_notifications os fuel s.world s.dispatcher)

  unfoldable pub step : System W → Move → System W
  step s (keeps result) = keep_result s result
  step s (notifies fuel) = notify s fuel
  step s (consumes fuel) = consume s fuel
  step s takes = take_results s

  unfoldable pub run : System W → List Move → System W
  run s [] = s
  run s (m ∷ ms) = run (step s m) ms
