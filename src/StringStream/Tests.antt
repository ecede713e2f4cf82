-- ===== src/StringStream/Tests.antt =====
-- The stream of include/rtac_asio/StringStream.h on the buffer of CircularBuffer.antt.
use rtac_asio.Prelude.{List, ℕ, ◌≡◌, [], ◌∷◌}
use rtac_asio.Memory.{fill}
use rtac_asio.Service.{Env}
use rtac_asio.CircularBuffer.{Bounded, bounded_buffer}
use rtac_asio.StringStream.Refine.{
  Operation, reads, writes, flushes, run, view, spec_run, run-refines,
}

-- Bytes 7, 8 and 9 stand at address 50. Handlers are numbers.
abbrev world : Env ℕ
world = record {
  mem = fill (λ _. 0) 50 (7 ∷ 8 ∷ 9 ∷ []);
  posted = [];
  pending = [];
  waits = [];
  files = λ _. [];
}

abbrev dry : Bounded
dry = record { bytes = []; most = 4 }

abbrev held : Bounded
held = record { bytes = 1 ∷ 2 ∷ 3 ∷ []; most = 4 }

-- Three bytes into the four, one too many, a read of five, a flush and a read of nothing.
abbrev operations : List (Operation ℕ)
operations =
    writes 3 50 5 ∷ writes 2 50 6 ∷ reads 5 100 7 ∷ writes 1 52 8 ∷ flushes ∷ reads 2 100 9 ∷ []

run-refines_example :
    (view (run operations (dry, world)) ≡ spec_run 4 operations ([], world))
    × ((run operations (dry, world)).0.most ≡ 4)
run-refines_example = run-refines operations dry world
