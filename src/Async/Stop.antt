-- ===== src/Async/Stop.antt =====
-- src/AsyncService.cpp, `stop`: what it leaves.
use rtac_asio.Prelude.{◌≡◌, refl, Bool, true, false, none, some, List, [], ◌∷◌, if◌then◌else◌}
use rtac_asio.Async.{
  Place, looping, leaving, returned, idle, joining, Async, run, stop, join, client_moves, Event,
  stop_called, client_goes_on, thread_goes_on, step, steps,
}
use rtac_asio.Async.Exclusive.{at}

-- Whose turn it is: the thread's, or the caller's of `stop`.
abbrev pub turns : List Bool → List Event
turns [] = []
turns (threads_turn ∷ ts) = (if threads_turn then thread_goes_on else client_goes_on) ∷ turns ts

-- Turns that are enough from any stage of a `stop`.
abbrev pub last_turns : List Event
last_turns = thread_goes_on ∷ thread_goes_on ∷ client_goes_on ∷ []

module _ (n : Bool) (c : Place) where
  abbrev Ends : Async → List Bool → Type 0
  Ends a ts = steps last_turns (steps (turns ts) a) ≡ at false n true c none idle

  stopped-Ends : (ts : List Bool) → Ends (at false n true c none idle) ts
  unfolding steps step client_moves
  stopped-Ends [] = refl
  stopped-Ends (true ∷ ts) = stopped-Ends ts
  stopped-Ends (false ∷ ts) = stopped-Ends ts

  returned-Ends : (ts : List Bool) → Ends (at false n true c (some returned) joining) ts
  unfolding steps step run client_moves join
  returned-Ends [] = refl
  returned-Ends (true ∷ ts) = returned-Ends ts
  returned-Ends (false ∷ ts) = stopped-Ends ts

  leaving-Ends : (ts : List Bool) → Ends (at true n true c (some leaving) joining) ts
  unfolding steps step run client_moves join
  leaving-Ends [] = refl
  leaving-Ends (true ∷ ts) = returned-Ends ts
  leaving-Ends (false ∷ ts) = leaving-Ends ts

  looping-Ends : (ts : List Bool) → Ends (at true n true c (some looping) joining) ts
  unfolding steps step run client_moves join
  looping-Ends [] = refl
  looping-Ends (true ∷ ts) = leaving-Ends ts
  looping-Ends (false ∷ ts) = looping-Ends ts

  -- Where the service's thread runs the io_context, `stop` ends it: however the thread and the caller
  -- take turns, two more of the thread's and one of the caller's are enough, and then `stop` has
  -- returned, with no thread, the service not running and the io_context stopped.
  pub stop_returns :
      (s : Bool) (ts : List Bool)
      → steps last_turns (steps (stop_called ∷ turns ts) (at true n s c (some looping) idle))
        ≡ at false n true c none idle
  unfolding steps step stop
  stop_returns s ts = looping-Ends ts
