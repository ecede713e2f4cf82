-- ===== src/Reader/Run.antt =====
-- The reader under its environment: what its handlers do when they are called, and schedules of
-- calls by the program, completions by the stream, timer waits and rounds of the service.
use rtac_asio.Prelude.{
  ℕ, Bool, true, Option, none, some, List, [], ◌∷◌, ◌++◌, get_elem?, erase_idx, length,
}
use rtac_asio.Memory.{fill}
use rtac_asio.Service.{ErrorCode, Task, Request}
use rtac_asio.Streambuf.{Streambuf}
use rtac_asio.Reader.{
  Callback, user, read_callback, Handler, call, read_some_continue, read_continue,
  read_until_continue, dump_callback, Reader, timeout_reached, async_read_some_continue, dump_bytes,
  flush, enable_dump, disable_dump, async_read_some, async_read, async_read_continue, read_begin,
}
use rtac_asio.Reader.Until.{async_read_until, async_read_until_continue, read_until_begin}

pub data Event : Type 0 where
  -- Calls, with count, address, (delimiter,) callback and timeout.
  read_some read_all : ℕ → ℕ → Callback → ℕ → Event
  read_until : ℕ → ℕ → ℕ → Callback → ℕ → Event
  -- Synchronous calls, up to their wait: count, address, (delimiter,) timeout.
  sync_read : ℕ → ℕ → ℕ → Event
  sync_read_until : ℕ → ℕ → ℕ → ℕ → Event
  flushes : Event
  dump_to : ℕ → Bool → Bool → Event
  dump_off : Event
  -- The stream ends the operation at an index: it has filled the buffer with these bytes.
  completes : ℕ → List ℕ → ErrorCode → Event
  -- The wait at an index is over, or was cancelled: its handler is called.
  timer : ℕ → Event
  -- The service runs the oldest posted function.
  serves : Event

module _ {B : Type 0} where
  -- A user's callback, of which only the call is seen, or `read_callback`.
  unfoldable pub invoke : Reader B → Callback → ErrorCode → ℕ → Reader B
  invoke r (user k) err n = record r {
    called = r.called ++ record { handler = user k; err = err; count = n } ∷ [];
  }
  invoke r read_callback err n = record r {
    called = r.called ++ record { handler = read_callback; err = err; count = n } ∷ [];
    waiter_notified = true;
  }

module _ {B : Type 0} ⦃s : Streambuf B⦄ where
  unfoldable pub run_handler : Handler → Reader B → ErrorCode → ℕ → Reader B
  run_handler (call c) r err n = invoke r c err n
  run_handler (read_some_continue id) r err n = async_read_some_continue r id err n
  run_handler (read_continue id) r err n = async_read_continue r id err n
  run_handler (read_until_continue id delimiter) r err n =
      async_read_until_continue r id delimiter err n
  run_handler (dump_callback h addr) r err n = run_handler h (dump_bytes r addr err n) err n

  unfoldable pub complete_at :
      Reader B → ℕ → Option (Request Handler) → List ℕ → ErrorCode → Reader B
  complete_at r k none bs err = r
  complete_at r k (some q) bs err =
      run_handler q.handler
        (record r {
          env = record r.env { mem = fill r.mem q.addr bs; pending = erase_idx r.pending k };
        })
        err (length bs)

  unfoldable pub timer_at : Reader B → ℕ → Option ℕ → Reader B
  timer_at r k none = r
  timer_at r k (some id) =
      timeout_reached (record r { env = record r.env { waits = erase_idx r.waits k } }) id

  unfoldable pub serve : Reader B → List (Task Handler) → Reader B
  serve r [] = r
  serve r (t ∷ ts) =
      run_handler t.handler (record r { env = record r.env { posted = ts } }) t.err t.count

  unfoldable pub step : Event → Reader B → Reader B
  step (read_some count addr c millis) r = (async_read_some r count addr c millis).1
  step (read_all count addr c millis) r = (async_read r count addr c millis).1
  step (read_until max addr delimiter c millis) r =
      (async_read_until r max addr delimiter c millis).1
  step (sync_read count addr millis) r = (read_begin r count addr millis).1
  step (sync_read_until max addr delimiter millis) r =
      (read_until_begin r max addr delimiter millis).1
  step flushes r = flush r
  step (dump_to name append opens) r = enable_dump r name append opens
  step dump_off r = disable_dump r
  step (completes k bs err) r = complete_at r k (get_elem? r.pending k) bs err
  step (timer k) r = timer_at r k (get_elem? r.waits k)
  step serves r = serve r r.posted

  unfoldable pub run : List Event → Reader B → Reader B
  run [] r = r
  run (e ∷ es) r = run es (step e r)
