-- ===== src/Async/Tests.antt =====
-- The service of src/AsyncService.cpp in runs from its constructor.
use rtac_asio.Prelude.{◌+◌, ◌≡◌, refl, true, false, none, some, List, [], ◌∷◌, if◌then◌else◌}
use rtac_asio.Async.{
  entering, restarting, looping, returned, idle, making, waiting, joining, Async, run, start,
  client_moves, Event, start_called, stop_called, run_called, client_goes_on, thread_goes_on,
  caller_goes_on, step, steps, construct,
}
use rtac_asio.Async.Exclusive.{steps-exclusive, in_run, thread_in_run}
use rtac_asio.Async.Start.{start_returns}
use rtac_asio.Async.Race.{start_hangs, stop_hangs}
use rtac_asio.Async.Stop.{last_turns, stop_returns}

-- `start` has returned.
abbrev started : List Event
started = start_called ∷ client_goes_on ∷ thread_goes_on ∷ client_goes_on ∷ []

abbrev just_started : Async
just_started = record {
  flags = record { is_running = true; waiter_was_notified = true; stopped = false };
  thread = some restarting;
  caller = returned;
  client = idle;
}

started-runs : steps started (construct false) ≡ just_started
unfolding steps step start run client_moves construct
started-runs = refl

-- `start` has made its thread.
abbrev start_made : List Event
start_made = start_called ∷ client_goes_on ∷ []

start_made-waits : (steps start_made (construct false)).client ≡ waiting
unfolding steps step start client_moves construct
start_made-waits = refl

-- Another thread calls `run` at the same time.
abbrev raced : List Event
raced = start_called ∷ run_called ∷ []

raced-runs : steps raced (construct false) ≡ record {
  flags = record { is_running = false; waiter_was_notified = false; stopped = false };
  thread = none;
  caller = entering;
  client = making;
}
unfolding steps step start construct
raced-runs = refl

steps-exclusive_example :
    let a = steps started (construct false) in
    thread_in_run a.thread + in_run a.caller ≡ (if a.flags.is_running then 1 else 0)
steps-exclusive_example = steps-exclusive started false

start_returns_example :
    (steps (thread_goes_on ∷ client_goes_on ∷ []) (steps start_made (construct false))).client
    ≡ idle
start_returns_example = start_returns start_made false tt start_made-waits

start_hangs_example :
    (steps
      (caller_goes_on ∷ client_goes_on ∷ thread_goes_on ∷ stop_called ∷ client_goes_on ∷ [])
      (record {
        flags = record { is_running = false; waiter_was_notified = false; stopped = false };
        thread = none;
        caller = entering;
        client = making;
      })).client
    ≡ waiting
start_hangs_example = start_hangs false false (stop_called ∷ client_goes_on ∷ []) (tt, (tt, tt))

stop_hangs_example :
    (steps (stop_called ∷ thread_goes_on ∷ client_goes_on ∷ []) just_started).client ≡ joining
stop_hangs_example = stop_hangs true false (client_goes_on ∷ [])

stop_returns_example :
    steps last_turns (
      steps (stop_called ∷ client_goes_on ∷ thread_goes_on ∷ []) (record {
        flags = record { is_running = true; waiter_was_notified = true; stopped = false };
        thread = some looping;
        caller = returned;
        client = idle;
      }))
    ≡ record {
      flags = record { is_running = false; waiter_was_notified = true; stopped = true };
      thread = none;
      caller = returned;
      client = idle;
    }
stop_returns_example = stop_returns true returned false (false ∷ true ∷ [])
