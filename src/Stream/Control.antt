-- ===== src/Stream/Control.antt =====
-- src/Stream.cpp, `start`, `stop` and `run`: the calls of the services that the reader's and the
-- writer's streams belong to, and the ways in which a Stream is made.
use rtac_asio.Prelude.{ℕ, ◌≡◌, ◌≢◌, ◌⊎◌, true, Option, none, some, List, ◌∷◌, if◌then◌else◌, ◌==◌}
use rtac_asio.Async.{Async, Client, idle, Event, start_called, stop_called, run_called, steps}
use rtac_asio.Async

-- The services by their addresses.
abbrev pub Services : Type 0
Services = ℕ → Async

-- What happens on one service.
abbrev pub at_service : ℕ → List Event → Services → Services
at_service p es σ q = if p == q then steps es (σ q) else σ q

-- `r` and `w` are `reader_.stream()->service().get()` and `writer_.stream()->service().get()`; the
-- lists are what happens on each service until its call returns.
unfoldable pub start : ℕ → ℕ → List Event → List Event → Services → Services
start r w es es' σ =
    let σ' = at_service r (start_called ∷ es) σ in
    if w == r then σ' else at_service w (start_called ∷ es') σ'

unfoldable pub stop : ℕ → ℕ → List Event → List Event → Services → Services
stop r w es es' σ =
    let σ' = at_service r (stop_called ∷ es) σ in
    if w == r then σ' else at_service w (stop_called ∷ es') σ'

-- `none` is the exception; the warning about different services changes nothing.
unfoldable pub run : ℕ → ℕ → List Event → Services → Option Services
run r w es σ = if (σ r).flags.is_running then none else some (at_service r (run_called ∷ es) σ)

-- Once the call of `start` has returned, the service runs.
abbrev Started : Async → Type 0
Started a = (a.client ≢ idle) ⊎ (a.flags.is_running ≡ true)
