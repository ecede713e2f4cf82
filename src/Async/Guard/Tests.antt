-- ===== src/Async/Guard/Tests.antt =====
-- The timer of src/AsyncService.cpp that keeps the service busy, and its queue, in runs.
use rtac_asio.Prelude.{ℕ, ◌+◌, ◌≤◌, ◌≡◌, ◌≢◌, refl, List, [], ◌∷◌, arith}
use rtac_asio.Async.Guard.{
  guard, Context, Event, runs, elapses, serves, counted_timer, construct, end_waits, timer_callback,
  guard_run, serve, step, steps,
}
use rtac_asio.Async.Busy.{guards, steps-guards, steps-spin}

-- The service's first second: the wait ends, and the next one starts.
abbrev first_run : List Event
first_run = runs ∷ elapses ∷ serves 0 ∷ []

first_run-sleeps :
    steps first_run (construct {T = ℕ}) ≡ record { timer = 1; queue = []; called = [] }
unfolding steps step guard_run timer_callback end_waits serve construct
first_run-sleeps = refl

-- It is stopped, and run again.
abbrev second_run : List Event
second_run = runs ∷ serves 0 ∷ runs ∷ serves 0 ∷ serves 0 ∷ []

second_run-spins :
    steps second_run (construct {T = ℕ}) ≡ record { timer = 1; queue = guard 125 ∷ []; called = [] }
unfolding steps step guard_run timer_callback end_waits serve construct
second_run-spins = refl

steps-guards_example :
    let c : Context ℕ = steps first_run construct in (c.timer ≤ 1) × (c.timer + guards c.queue ≡ 1)
steps-guards_example = steps-guards ℕ first_run

steps-spin_example : let c : Context ℕ = steps second_run construct in c.queue ≢ []
steps-spin_example = steps-spin ℕ second_run (omega arith)
