-- ===== src/Reader/Waiter.antt =====
-- src/StreamReader.cpp, `read`: what its wait sees of an earlier call's callback.
use rtac_asio.Prelude.{ℕ, ◌+◌, ◌^◌, ◌<◌, ◌≡◌, ◌≢◌, refl, true, none, some, List, [], ◌∷◌, arith}
use rtac_asio.Service.{Task, submit, arm-mem, arm-posted}
use rtac_asio.Streambuf.{Streambuf}
use rtac_asio.Reader.{read_callback, Handler, call, Reader, read_begin, read_end}
use rtac_asio.Reader.Run.{serves, step, serve, run_handler, invoke}
use rtac_asio.Reader.Whole.{async_read-begun}

module _ {B : Type 0} ⦃s : Streambuf B⦄ where
  -- A call of the synchronous `read` that timed out has left its own callback at the head of the
  -- service's queue, the reader is idle, with nothing buffered. Then the next `read` is
  -- accepted, its caller is blocked, and when the service runs that callback its wait ends: it
  -- returns 0, with its read still in progress and no byte of it delivered.
  pub read_end_early :
      (r : Reader B) (n a millis : ℕ) (err k : ℕ) (ts : List (Task Handler))
      → r.read_id ≡ 0
      → s.contents r.read_buffer ≡ []
      → r.read_counter + 1 < 2 ^ 32
      → r.posted ≡ record { handler = call read_callback; err = err; count = k } ∷ ts
      → let (started, waiting) = read_begin r n a millis in
        let woken = step serves waiting in
        (started ≡ true)
        × (read_end waiting ≡ none)
        × (read_end woken ≡ some 0)
        × (woken.read_id ≢ 0)
        × (woken.mem ≡ r.mem)
  unfolding read_begin read_end step serve run_handler invoke submit
  read_end_early r n a millis err k ts idle dry small left =
      rw
        (
          async_read-begun r n a read_callback millis idle dry small,
          arm-posted r.env millis (r.read_counter + 1),
          left,
        )
        (refl, refl, refl, (λ e. absurd (omega arith)), arm-mem _ millis (r.read_counter + 1))
