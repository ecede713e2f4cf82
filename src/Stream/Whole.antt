-- ===== src/Stream/Whole.antt =====
-- src/Stream.cpp over include/rtac_asio/StringStream.h from end to end.
use rtac_asio.Prelude.{
  ℕ, ◌+◌, ◌*◌, ◌^◌, ◌<◌, ◌≤◌, ◌≡◌, ◌⊎◌, refl, ap, ◌∙◌, Bool, true, Option, none, some, [], ◌∷◌,
  ◌++◌, ◌>>=◌, min, arith,
}
use rtac_asio.Memory.{Bytes, peek, fill}
use rtac_asio.Service.{success}
use rtac_asio.Streambuf.{Streambuf}
use rtac_asio.CircularBuffer.{CircularBuffer}
use rtac_asio.StringStream.{StringStream, Loop, read_loop, write_loop, string_stream}
use rtac_asio.StringStream.Fifo.{read_loop-write_loop}
use rtac_asio.Reader.{Reader}
use rtac_asio.Reader
use rtac_asio.Reader.Run as ReaderRun
use rtac_asio.Writer.{Writer}
use rtac_asio.Writer
use rtac_asio.Writer.Run as WriterRun
use rtac_asio.Stream.{reading, writing, Stream, async_read, async_write}
use rtac_asio.Stream.Run.{rounds}
use rtac_asio.Stream.Turns.{reader_at, writer_at}
use rtac_asio.Stream.Exchange.{written, got, exchange, finished}
use rtac_asio.Stream.Begin.{
  counted_reader, counted_writer, resting, async_write-resting, async_read-resting, one_writing,
}
use rtac_asio.Stream.Loopback.{rounds-Copied}

-- What calling a callback leaves.
reader_told :
    {B : Type 0} (r : Reader B) (n : ℕ) (c : Reader.Callback)
    → let r' = ReaderRun.invoke r c success n in
      (r'.env ≡ r.env)
      × (r'.called ≡ r.called ++ record { handler = c; err = success; count = n } ∷ [])
      × (r'.read_id ≡ r.read_id)
      × (r'.processed ≡ r.processed)
unfolding ReaderRun.invoke
reader_told r n (Reader.user x) = (refl, refl, refl, refl)
reader_told r n Reader.read_callback = (refl, refl, refl, refl)

writer_told :
    (w : Writer) (n : ℕ) (c : Writer.Callback)
    → let w' = WriterRun.invoke w c success n in
      (w'.called ≡ w.called ++ record { handler = c; err = success; count = n } ∷ [])
      × (w'.write_id ≡ w.write_id)
      × (w'.processed ≡ w.processed)
unfolding WriterRun.invoke
writer_told w n (Writer.user x) = (refl, refl, refl)
writer_told w n Writer.write_callback = (refl, refl, refl)

module _ {B K : Type 0} ⦃b : Streambuf B⦄ ⦃k : CircularBuffer K⦄ where
  -- A stream on which nothing is under way: no operation, no function in the service's queue, no dump,
  -- nothing kept by `read_until` or held by `buffer_`, and both counters below their last value.
  pub record IsResting (s : Stream B (StringStream K)) : Type 0 where
    pub read_idle : s.reader.read_id ≡ 0
    pub write_idle : s.writer.write_id ≡ 0
    pub undumped : s.reader.rx_dump ≡ none
    pub unrecorded : s.writer.tx_dump ≡ none
    pub dry : b.contents s.reader.read_buffer ≡ []
    pub empty : k.contents s.stream.buffer ≡ []
    pub reader_posted : s.reader.posted ≡ []
    pub writer_posted : s.writer.posted ≡ []
    pub reader_pending : s.reader.pending ≡ []
    pub writer_pending : s.writer.pending ≡ []
    pub queue : s.queue ≡ []
    pub read_counter : s.reader.read_counter + 1 < 2 ^ 32
    pub write_counter : s.writer.write_counter + 1 < 2 ^ 32

  resting_lem :
      (s : Stream B (StringStream K)) → IsResting s → s ≡ resting s.reader s.writer s.stream.buffer
  resting_lem s v = λ i. record s {
    reader = record s.reader {
      read_id = v.read_idle i;
      rx_dump = v.undumped i;
      env = record s.reader.env { posted = v.reader_posted i; pending = v.reader_pending i };
    };
    writer = record s.writer {
      write_id = v.write_idle i;
      tx_dump = v.unrecorded i;
      env = record s.writer.env { posted = v.writer_posted i; pending = v.writer_pending i };
    };
    queue = v.queue i;
  }

  -- `async_write`, `async_read`, then `fuel` functions of the service's queue, as far as there are any.
  abbrev pub write_then_read :
      Stream B (StringStream K)
      → ℕ
      → ℕ
      → ℕ
      → Writer.Callback
      → Reader.Callback
      → ℕ
      → ℕ
      → ℕ
      → Option (Bool × Bool × Stream B (StringStream K))
  write_then_read s n a d c c' millis millis' fuel = do
    (wrote, s1) ← async_write s n a c millis
    (read, s2) ← async_read s1 n d c' millis'
    s3 ← rounds fuel s2
    some (wrote, read, s3)

  module _ (r : Reader B) (w : Writer) (o : K) (n a d : ℕ) (c : Writer.Callback)
      (c' : Reader.Callback) (millis millis' fuel : ℕ) where
    resting-Copied :
        b.contents r.read_buffer ≡ []
        → k.contents o ≡ []
        → r.read_counter + 1 < 2 ^ 32
        → w.write_counter + 1 < 2 ^ 32
        → 0 < k.capacity o
        → n < 2 ^ 64
        → (d + n ≤ a) ⊎ (a + n ≤ d)
        → 2 * n + 4 ≤ fuel
        → (o' : K) × (write_then_read (resting r w o) n a d c c' millis millis' fuel
            ≡ some (
              true,
              true,
              finished
                  (counted_reader r millis')
                  (counted_writer w millis)
                  n
                  a
                  d
                  c
                  c'
                  (fill r.mem d (peek r.mem a n))
                  o',
            ))
          × (k.contents o' ≡ [])
          × (k.capacity o' ≡ k.capacity o)
    resting-Copied dry empty small small' room fits apart enough =
        let (wrote, took, copied, left, kept) = read_loop-write_loop n a d r.mem o empty in
        let (o', done, nothing, same) =
          rounds-Copied (counted_reader r millis') (counted_writer w millis) n a d c c'
            (w.write_counter + 1) (r.read_counter + 1) r.mem fuel 0 (min n (k.capacity o)) l'.memory
            r.mem l'.rest dry fits (λ e. absurd (omega arith)) (λ e. absurd (omega arith)) apart
            left (omega (arith, kept)) (omega arith)
            (copied ∙ ap (λ x. fill r.mem d (peek r.mem a x)) (from_zero (min n (k.capacity o))))
            (omega arith) in
        (
          o',
          ap (λ x. x >>= read_next) (async_write-resting r w o n a c millis small')
              ∙ ap (λ x. x >>= run_next true)
                  (async_read-resting r w (one_writing r w o n a c millis).writer o l.rest
                    (writing ∷ []) n d c' millis' dry small)
              ∙ (λ i.
                  rounds fuel (
                    exchange (counted_reader r millis') (counted_writer w millis) n a d c c'
                      (w.write_counter + 1) (r.read_counter + 1) 0 0
                      (written (w.write_counter + 1) (wrote i) ∷ [])
                      (got (r.read_counter + 1) (took i) ∷ []) l'.memory r.mem l'.rest
                      (writing ∷ reading ∷ []))
                  >>= finish true true)
              ∙ ap (λ x. x >>= finish true true) done,
          nothing,
          same ∙ kept,
        )
      where
        l : Loop K
        l = write_loop n 0 a r.mem o

        l' : Loop K
        l' = read_loop n 0 d r.mem l.rest

        from_zero : (x : ℕ) → x ≡ 0 + x
        from_zero x = omega arith

        finish :
            Bool
            → Bool
            → Stream B (StringStream K)
            → Option (Bool × Bool × Stream B (StringStream K))
        finish wrote read s = some (wrote, read, s)

        run_next :
            Bool
            → Bool × Stream B (StringStream K)
            → Option (Bool × Bool × Stream B (StringStream K))
        run_next wrote x = rounds fuel x.1 >>= finish wrote x.0

        read_next :
            Bool × Stream B (StringStream K) → Option (Bool × Bool × Stream B (StringStream K))
        read_next x = async_read x.1 n d c' millis' >>= run_next x.0

  -- On a stream over a StringStream where nothing is under way, an `async_write` of `n` bytes and an
  -- `async_read` of as many to another place end together, whatever the capacity of the buffer, if it
  -- is not 0: both calls are accepted, and 2n + 4 functions of the service's queue are enough for
  -- all that follows, with no null pointer used. Then the reader's buffer holds the written bytes and
  -- no other byte of memory has changed, each callback has been called once, with success and `n`,
  -- both sides are idle with `n` as the count that the synchronous operations return, and nothing is
  -- left in the queue or in the stream.
  pub async_read-async_write :
      (s : Stream B (StringStream K)) (n a d : ℕ) (c : Writer.Callback) (c' : Reader.Callback)
      (millis millis' fuel : ℕ)
      → IsResting s
      → 0 < k.capacity s.stream.buffer
      → n < 2 ^ 64
      → (d + n ≤ a) ⊎ (a + n ≤ d)
      → 2 * n + 4 ≤ fuel
      → (t : Stream B (StringStream K)) × (write_then_read s n a d c c' millis millis' fuel
          ≡ some (true, true, t))
        × (t.reader.mem ≡ fill s.reader.mem d (peek s.reader.mem a n))
        × (t.writer.called
            ≡ s.writer.called ++ record { handler = c; err = success; count = n } ∷ [])
        × (t.reader.called
            ≡ s.reader.called ++ record { handler = c'; err = success; count = n } ∷ [])
        × (t.writer.write_id ≡ 0)
        × (t.reader.read_id ≡ 0)
        × (t.writer.processed ≡ n)
        × (t.reader.processed ≡ n)
        × (t.queue ≡ [])
        × (k.contents t.stream.buffer ≡ [])
  async_read-async_write s n a d c c' millis millis' fuel v room fits apart enough =
      let (o', done, nothing, _) =
        resting-Copied s.reader s.writer s.stream.buffer n a d c c' millis millis' fuel v.dry
          v.empty v.read_counter v.write_counter room fits apart enough in
      let m : Bytes = fill s.reader.mem d (peek s.reader.mem a n) in
      let (env, told, idle, counted) =
        reader_told (reader_at (counted_reader s.reader millis') n d c' 0 n [] m) n c' in
      let (told', idle', counted') =
        writer_told (writer_at (counted_writer s.writer millis) n a c 0 n [] m s.reader.files) n
          c in
      (
        finished (counted_reader s.reader millis') (counted_writer s.writer millis) n a d c c' m o',
        ap (λ x. write_then_read x n a d c c' millis millis' fuel) (resting_lem s v) ∙ done,
        ap (λ e. e.mem) env,
        told',
        told,
        idle',
        idle,
        counted',
        counted,
        refl,
        nothing,
      )
