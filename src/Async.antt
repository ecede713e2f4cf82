-- ===== src/Async.antt =====
-- include/rtac_asio/AsyncService.h and src/AsyncService.cpp: the service's thread. A step is what a
-- thread does between two points where others can come in: a block under `waitMutex_`, a call of the
-- io_context, a store to a flag.
pub mod Exclusive
pub mod Wake
pub mod Start
pub mod Stop
pub mod Race
pub mod Guard
pub mod Busy
mod Tests
use rtac_asio.Prelude.{Bool, true, false, Option, none, some, List, [], ◌∷◌, if◌then◌else◌}

-- `isRunning_`, `waiterWasNotified_` and the io_context's own flag: `stop` sets it, `restart` resets it.
pub record Flags : Type 0 where
  pub is_running : Bool
  pub waiter_was_notified : Bool
  pub stopped : Bool

-- Where a thread is in `run`: before the block under `waitMutex_`, between it and `restart`, in
-- `service_.run()`, behind that, or out of `run`.
pub data Place : Type 0 where
  entering restarting looping leaving returned : Place

-- Where the holder of `startMutex_` is: nobody holds it, in `start` before its thread is made, at the
-- `join` of an old one, at the wait for `waitStart_`, or at the `join` of `stop`.
pub data Client : Type 0 where
  idle making rejoining waiting joining : Client

-- `thread_` with the place of the thread, and the place of a thread that calls `run` itself.
pub record Async : Type 0 where
  pub flags : Flags
  pub thread : Option Place
  pub caller : Place
  pub client : Client

-- `timer_` keeps `service_.run()` busy, so it returns only when the io_context is stopped.
unfoldable pub run : Flags → Place → Flags × Place
run f entering =
    if f.is_running
    then (f, returned)
    else (record f { is_running = true; waiter_was_notified = true }, restarting)
run f restarting = (record f { stopped = false }, looping)
run f looping = if f.stopped then (f, leaving) else (f, looping)
run f leaving = (record f { is_running = false }, returned)
run f returned = (f, returned)

-- A call of `start`, up to its first `join` or the making of the thread.
unfoldable pub start : Async → Async
start a = if a.flags.is_running then a else elim a.thread [
  | none ↦ record a { client = making }
  | some _ ↦ record a { flags = record a.flags { stopped = true }; client = rejoining }
]

-- A call of `stop`, up to its `join`.
unfoldable pub stop : Async → Async
stop a = record a {
  flags = record a.flags { stopped = true };
  client = elim a.thread [ none ↦ idle | some _ ↦ joining ];
}

-- A `join` returns when the thread is out of `run`.
unfoldable pub join : Async → Client → Async
join a next = elim a.thread [ some returned ↦ record a { thread = none; client = next } | _ ↦ a ]

-- The holder of `startMutex_` goes on, if it can.
unfoldable pub client_moves : Async → Client → Async
client_moves a idle = a
client_moves a making = record a {
  flags = record a.flags { waiter_was_notified = false };
  thread = some entering;
  client = waiting;
}
client_moves a rejoining = join a making
client_moves a waiting = if a.flags.waiter_was_notified then record a { client = idle } else a
client_moves a joining = join a idle

pub data Event : Type 0 where
  start_called stop_called run_called client_goes_on thread_goes_on caller_goes_on : Event
  -- A function that the io_context calls in the caller's `run` throws.
  caller_throws : Event

-- A call of `start` or `stop` waits for `startMutex_`.
unfoldable pub step : Event → Async → Async
step start_called a = elim a.client [ idle ↦ start a | _ ↦ a ]
step stop_called a = elim a.client [ idle ↦ stop a | _ ↦ a ]
step run_called a = elim a.caller [ returned ↦ record a { caller = entering } | _ ↦ a ]
step client_goes_on a = client_moves a a.client
step thread_goes_on a = elim a.thread [
  | none ↦ a
  | some p ↦ let (f, p') = run a.flags p in record a { flags = f; thread = some p' }
]
step caller_goes_on a = let (f, p') = run a.flags a.caller in record a { flags = f; caller = p' }
-- The `catch` does what follows the `try`, `isRunning_ = false`, and throws on, out of `run`.
step caller_throws a = elim a.caller [ looping ↦ record a { caller = leaving } | _ ↦ a ]

unfoldable pub steps : List Event → Async → Async
steps [] a = a
steps (e ∷ es) a = steps es (step e a)

-- The constructor; `waiterWasNotified_` is left uninitialised.
unfoldable pub construct : Bool → Async
construct raw = record {
  flags = record { is_running = false; waiter_was_notified = raw; stopped = false };
  thread = none;
  caller = returned;
  client = idle;
}
