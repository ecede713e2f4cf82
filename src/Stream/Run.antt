-- ===== src/Stream/Run.antt =====
-- src/Stream.cpp under its environment: the service runs the functions of its queue, the stream ends
-- operations that it kept in hand, timers expire.
use rtac_asio.Prelude.{
  ℕ, zero, suc, Bool, Option, none, some, List, [], ◌∷◌, ◌++◌, length, get_elem?, erase_idx, ◌>>=◌,
}
use rtac_asio.Memory.{fill, peek}
use rtac_asio.Service.{ErrorCode, Task, Request}
use rtac_asio.Streambuf.{Streambuf}
use rtac_asio.Interface.{StreamInterface}
use rtac_asio.Reader.{Reader}
use rtac_asio.Reader
use rtac_asio.Reader.Run as ReaderRun
use rtac_asio.Writer.{Writer}
use rtac_asio.Writer
use rtac_asio.Writer.Run as WriterRun
use mathlib.Core.Option
use rtac_asio.Stream.{
  Side, reading, writing, Stream, after_reader, after_writer, shared_writer, async_read_some,
  async_read, async_read_until, async_write_some, async_write, read_begin, write_begin,
  read_until_begin, flush, reset, enable_io_dump, disable_io_dump,
}

pub data Event : Type 0 where
  -- Calls, with count, address, (delimiter,) callback and timeout.
  read_some read_all : ℕ → ℕ → Reader.Callback → ℕ → Event
  read_until : ℕ → ℕ → ℕ → Reader.Callback → ℕ → Event
  write_some write_all : ℕ → ℕ → Writer.Callback → ℕ → Event
  -- Synchronous calls, up to their wait: count, address, (delimiter,) timeout.
  sync_read sync_write : ℕ → ℕ → ℕ → Event
  sync_read_until : ℕ → ℕ → ℕ → ℕ → Event
  flushes resets dump_off : Event
  dump_to : ℕ → ℕ → Bool → Bool → Bool → Event
  -- The stream ends the operation at an index: of the reader, with these bytes, or of the writer,
  -- having taken that many.
  read_completes : ℕ → List ℕ → ErrorCode → Event
  write_completes : ℕ → ℕ → ErrorCode → Event
  -- The wait at an index is over, or was cancelled.
  read_timer write_timer : ℕ → Event
  -- The service runs the oldest function of its queue.
  serves : Event

module _ {B D : Type 0} ⦃b : Streambuf B⦄ ⦃i : StreamInterface D⦄ where
  -- The service runs the reader's or the writer's oldest function; `q` is the queue behind it.
  unfoldable pub serve_reader :
      Stream B D → List Side → List (Task Reader.Handler) → Option (Stream B D)
  serve_reader s q [] = some (record s { queue = q })
  serve_reader s q (t ∷ ts) =
      let r : Reader B = record s.reader { env = record s.reader.env { posted = ts } } in
      after_reader (record s { reader = r; queue = q })
        (ReaderRun.run_handler t.handler r t.err t.count)

  unfoldable pub serve_writer :
      Stream B D → List Side → List (Task Writer.Handler) → Option (Stream B D)
  serve_writer s q [] = some (record s { queue = q })
  serve_writer s q (t ∷ ts) =
      let w : Writer = record s.writer { env = record s.writer.env { posted = ts } } in
      let s' : Stream B D = record s { writer = w; queue = q } in
      after_writer s' (WriterRun.run_handler t.handler (shared_writer s') t.err t.count)

  -- One round of `AsyncService::run`. `none` is the use of a null pointer.
  unfoldable pub serve : Stream B D → List Side → Option (Stream B D)
  serve s [] = some s
  serve s (reading ∷ q) = serve_reader s q s.reader.posted
  serve s (writing ∷ q) = serve_writer s q s.writer.posted

  unfoldable pub rounds : ℕ → Stream B D → Option (Stream B D)
  rounds zero s = some s
  rounds (suc n) s = serve s s.queue >>= rounds n

  -- The stream ends the reader's or the writer's operation that it has in hand at an index.
  unfoldable pub complete_read :
      Stream B D → ℕ → Option (Request Reader.Handler) → List ℕ → ErrorCode → Option (Stream B D)
  complete_read s k none bs err = some s
  complete_read s k (some q) bs err =
      let r : Reader B = record s.reader {
        env = record s.reader.env {
          mem = fill s.reader.mem q.addr bs;
          pending = erase_idx s.reader.pending k;
        };
      } in
      after_reader (record s { reader = r }) (ReaderRun.run_handler q.handler r err (length bs))

  unfoldable pub complete_write :
      Stream B D → ℕ → Option (Request Writer.Handler) → ℕ → ErrorCode → Option (Stream B D)
  complete_write s k none n err = some s
  complete_write s k (some q) n err =
      let w : Writer = record s.writer {
        sent = s.writer.sent ++ peek s.reader.mem q.addr n;
        env = record s.writer.env { pending = erase_idx s.writer.pending k };
      } in
      let s' : Stream B D = record s { writer = w } in
      after_writer s' (WriterRun.run_handler q.handler (shared_writer s') err n)

  -- A wait at an index is over, or was cancelled.
  unfoldable pub reader_timer : Stream B D → ℕ → Option (Stream B D)
  reader_timer s k = after_reader s (ReaderRun.timer_at s.reader k (get_elem? s.reader.waits k))

  unfoldable pub writer_timer : Stream B D → ℕ → Option (Stream B D)
  writer_timer s k =
      after_writer s (WriterRun.timer_at (shared_writer s) k (get_elem? s.writer.waits k))

  unfoldable pub step : Event → Stream B D → Option (Stream B D)
  step (read_some n a c millis) s = Option.map (λ x. x.1) (async_read_some s n a c millis)
  step (read_all n a c millis) s = Option.map (λ x. x.1) (async_read s n a c millis)
  step (read_until n a d c millis) s = Option.map (λ x. x.1) (async_read_until s n a d c millis)
  step (write_some n a c millis) s = Option.map (λ x. x.1) (async_write_some s n a c millis)
  step (write_all n a c millis) s = Option.map (λ x. x.1) (async_write s n a c millis)
  step (sync_read n a millis) s = Option.map (λ x. x.1) (read_begin s n a millis)
  step (sync_write n a millis) s = Option.map (λ x. x.1) (write_begin s n a millis)
  step (sync_read_until n a d millis) s = Option.map (λ x. x.1) (read_until_begin s n a d millis)
  step flushes s = flush s
  step resets s = some (reset s).1
  step dump_off s = some (disable_io_dump s)
  step (dump_to rx tx append rx_opens tx_opens) s =
      some (enable_io_dump s rx tx append rx_opens tx_opens)
  step (read_completes k bs err) s = complete_read s k (get_elem? s.reader.pending k) bs err
  step (write_completes k n err) s = complete_write s k (get_elem? s.writer.pending k) n err
  step (read_timer k) s = reader_timer s k
  step (write_timer k) s = writer_timer s k
  step serves s = serve s s.queue

  unfoldable pub run : List Event → Stream B D → Option (Stream B D)
  run [] s = some s
  run (e ∷ es) s = step e s >>= run es
