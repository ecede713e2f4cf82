-- ===== src/Writer/Run.antt =====
-- The writer under its environment: what its handlers do when they are called, and schedules of calls
-- by the program, completions by the stream, timer waits and rounds of the service.
use rtac_asio.Prelude.{ℕ, Bool, true, Option, none, some, List, [], ◌∷◌, ◌++◌, get_elem?, erase_idx}
use rtac_asio.Memory.{peek}
use rtac_asio.Service.{ErrorCode, Task, Request}
use rtac_asio.Writer.{
  Callback, user, write_callback, Handler, call, write_some_continue, write_continue, dump_callback,
  Writer, timeout_reached, async_write_some_continue, dump_bytes, enable_dump, disable_dump,
  async_write_some, async_write, async_write_continue, write_begin,
}

pub data Event : Type 0 where
  -- Calls, with count, address, callback and timeout.
  write_some write_all : ℕ → ℕ → Callback → ℕ → Event
  -- The synchronous `write`, up to its wait: count, address, timeout.
  sync_write : ℕ → ℕ → ℕ → Event
  dump_to : ℕ → Bool → Bool → Event
  dump_off : Event
  -- The stream ends the operation at an index, having taken that many bytes.
  completes : ℕ → ℕ → ErrorCode → Event
  -- The wait at an index is over, or was cancelled: its handler is called.
  timer : ℕ → Event
  -- The service runs the oldest posted function.
  serves : Event

-- A user's callback, of which only the call is seen, or `write_callback`.
unfoldable pub invoke : Writer → Callback → ErrorCode → ℕ → Writer
invoke w (user k) err n = record w {
  called = w.called ++ record { handler = user k; err = err; count = n } ∷ [];
}
invoke w write_callback err n = record w {
  called = w.called ++ record { handler = write_callback; err = err; count = n } ∷ [];
  waiter_notified = true;
}

unfoldable pub run_handler : Handler → Writer → ErrorCode → ℕ → Writer
run_handler (call c) w err n = invoke w c err n
run_handler (write_some_continue id) w err n = async_write_some_continue w id err n
run_handler (write_continue id) w err n = async_write_continue w id err n
run_handler (dump_callback h addr) w err n = run_handler h (dump_bytes w addr err n) err n

unfoldable pub complete_at : Writer → ℕ → Option (Request Handler) → ℕ → ErrorCode → Writer
complete_at w k none n err = w
complete_at w k (some q) n err =
    run_handler q.handler
      (record w {
        sent = w.sent ++ peek w.mem q.addr n;
        env = record w.env { pending = erase_idx w.pending k };
      })
      err n

unfoldable pub timer_at : Writer → ℕ → Option ℕ → Writer
timer_at w k none = w
timer_at w k (some id) =
    timeout_reached (record w { env = record w.env { waits = erase_idx w.waits k } }) id

unfoldable pub serve : Writer → List (Task Handler) → Writer
serve w [] = w
serve w (t ∷ ts) =
    run_handler t.handler (record w { env = record w.env { posted = ts } }) t.err t.count

unfoldable pub step : Event → Writer → Writer
step (write_some count addr c millis) w = (async_write_some w count addr c millis).1
step (write_all count addr c millis) w = (async_write w count addr c millis).1
step (sync_write count addr millis) w = (write_begin w count addr millis).1
step (dump_to name append opens) w = enable_dump w name append opens
step dump_off w = disable_dump w
step (completes k n err) w = complete_at w k (get_elem? w.pending k) n err
step (timer k) w = timer_at w k (get_elem? w.waits k)
step serves w = serve w w.posted

unfoldable pub run : List Event → Writer → Writer
run [] w = w
run (e ∷ es) w = run es (step e w)
