-- ===== src/Stream/Liveness.antt =====
-- Schedules of src/Stream.cpp over any stream that answers its calls.
use mathlib.Core.Option
use native.Mathlib.Decide.{ℕ_discrete}
use rtac_asio.Prelude.{◌≤◌, ◌≡◌, inl, inr, refl, subst, some, List, [], ◌∷◌, length, Option-cases}
use rtac_asio.Streambuf.{Streambuf}
use rtac_asio.Interface.{StreamInterface, IsLawful}
use rtac_asio.Reader.Run as ReaderRun
use rtac_asio.Reader.Liveness as ReaderLiveness
use rtac_asio.Writer.Run as WriterRun
use rtac_asio.Writer.Liveness as WriterLiveness
use rtac_asio.Stream.{
  reading, writing, Stream, shared_writer, async_read_some, async_read, async_read_until,
  async_write_some, async_write, read_begin, read_until_begin, write_begin, reader_reset, reset,
}
use rtac_asio.Stream.Run.{
  Event, read_some, read_all, read_until, write_some, write_all, sync_read, sync_write,
  sync_read_until, flushes, resets, dump_off, dump_to, read_completes, write_completes, read_timer,
  write_timer, serves, reader_timer, writer_timer, step, run,
}
use rtac_asio.Stream.Kept.{
  started_some, serve-IsLive, complete_read-IsLive, complete_write-IsLive, flush-IsLive,
  dump_off-IsLive, dump_to-IsLive,
}
use rtac_asio.Stream.Total.{IsTotal, run-IsSome}
use rtac_asio.Stream.Attended.{IsLive, turns, after_reader-IsLive, after_writer-IsLive}

module _ {B D : Type 0} ⦃b : Streambuf B⦄ ⦃i : StreamInterface D⦄ (law : IsLawful D) where
  step-IsLive : (e : Event) (s t : Stream B D) → step e s ≡ some t → IsLive s → IsLive t
  unfolding step async_read_some async_read async_read_until async_write_some async_write read_begin
      read_until_begin write_begin reset reader_reset reader_timer writer_timer shared_writer
      ReaderRun.step WriterRun.step
  step-IsLive (read_some n a c millis) s t eq v =
      after_reader-IsLive law s t _ (started_some _ _ t eq)
        (ReaderLiveness.step-IsLive (ReaderRun.read_some n a c millis) s.reader v.reader) v.writer
        v.reads v.writes
  step-IsLive (read_all n a c millis) s t eq v =
      after_reader-IsLive law s t _ (started_some _ _ t eq)
        (ReaderLiveness.step-IsLive (ReaderRun.read_all n a c millis) s.reader v.reader) v.writer
        v.reads v.writes
  step-IsLive (read_until n a d c millis) s t eq v =
      after_reader-IsLive law s t _ (started_some _ _ t eq)
        (ReaderLiveness.step-IsLive (ReaderRun.read_until n a d c millis) s.reader v.reader)
        v.writer v.reads v.writes
  step-IsLive (sync_read n a millis) s t eq v =
      after_reader-IsLive law s t _ (started_some _ _ t eq)
        (ReaderLiveness.step-IsLive (ReaderRun.sync_read n a millis) s.reader v.reader) v.writer
        v.reads v.writes
  step-IsLive (sync_read_until n a d millis) s t eq v =
      after_reader-IsLive law s t _ (started_some _ _ t eq)
        (ReaderLiveness.step-IsLive (ReaderRun.sync_read_until n a d millis) s.reader v.reader)
        v.writer v.reads v.writes
  step-IsLive (write_some n a c millis) s t eq v =
      after_writer-IsLive law s t _ (started_some _ _ t eq)
        (WriterLiveness.step-IsLive (WriterRun.write_some n a c millis) (shared_writer s) v.writer)
        v.reader v.reads v.writes
  step-IsLive (write_all n a c millis) s t eq v =
      after_writer-IsLive law s t _ (started_some _ _ t eq)
        (WriterLiveness.step-IsLive (WriterRun.write_all n a c millis) (shared_writer s) v.writer)
        v.reader v.reads v.writes
  step-IsLive (sync_write n a millis) s t eq v =
      after_writer-IsLive law s t _ (started_some _ _ t eq)
        (WriterLiveness.step-IsLive (WriterRun.sync_write n a millis) (shared_writer s) v.writer)
        v.reader v.reads v.writes
  step-IsLive flushes s t eq v = flush-IsLive law s t eq v
  step-IsLive resets s t eq v =
      subst IsLive (Option.some-injective _ _ eq)
        (record { reader = v.reader; writer = v.writer; reads = v.reads; writes = v.writes })
  step-IsLive dump_off s t eq v =
      subst IsLive (Option.some-injective _ _ eq) (dump_off-IsLive law s v)
  step-IsLive (dump_to rx tx append rx_opens tx_opens) s t eq v =
      subst IsLive (Option.some-injective _ _ eq)
        (dump_to-IsLive law s rx tx append rx_opens tx_opens v)
  step-IsLive (read_completes k bs err) s t eq v = complete_read-IsLive law s t k _ bs err refl eq v
  step-IsLive (write_completes k n err) s t eq v = complete_write-IsLive law s t k _ n err refl eq v
  step-IsLive (read_timer k) s t eq v =
      after_reader-IsLive law s t _ eq (ReaderLiveness.timer_at-IsLive s.reader k _ v.reader)
        v.writer v.reads v.writes
  step-IsLive (write_timer k) s t eq v =
      after_writer-IsLive law s t _ eq
        (WriterLiveness.timer_at-IsLive (shared_writer s) k _ v.writer) v.reader v.reads v.writes
  step-IsLive serves s t eq v = serve-IsLive law s t s.queue refl eq v

  run-IsLive : (es : List Event) (s t : Stream B D) → run es s ≡ some t → IsLive s → IsLive t
  unfolding run
  run-IsLive [] s t eq v = subst IsLive (Option.some-injective _ _ eq) v
  run-IsLive (e ∷ es) s t eq v = elim (Option-cases (step e s)) [
    | inl threw ↦ absurd (Option.none-ne-some _ (rw threw at eq))
    | inr (u, ok) ↦ run-IsLive es u t (rw ok at eq) (step-IsLive e s u ok v)
  ]

module _ {B D : Type 0} ⦃b : Streambuf B⦄ where
  -- Each side is idle, or the stream or the service's queue holds the function that goes on with its
  -- operation; and the queue has a turn for each function that was posted.
  abbrev pub IsAttended : Stream B D → Type 0
  IsAttended s =
      ReaderLiveness.IsAttended s.reader
      × WriterLiveness.IsServed s.writer
      × (length s.reader.posted ≤ turns reading s.queue)
      × (length s.writer.posted ≤ turns writing s.queue)

  IsAttended-IsLive : (s : Stream B D) → IsAttended s → IsLive s
  IsAttended-IsLive s (r, w, reads, writes) = record {
    reader = λ busy. elim r [ inl idle ↦ absurd (busy idle) | inr held ↦ held ];
    writer = λ busy. elim w [ inl idle ↦ absurd (busy idle) | inr held ↦ held ];
    reads = reads;
    writes = writes;
  }

  IsLive-IsAttended : (s : Stream B D) → IsLive s → IsAttended s
  IsLive-IsAttended s v = (
    elim (ℕ_discrete s.reader.read_id 0) [ yes e ↦ inl e | no busy ↦ inr (v.reader busy) ],
    elim (ℕ_discrete s.writer.write_id 0) [ yes e ↦ inl e | no busy ↦ inr (v.writer busy) ],
    v.reads,
    v.writes,
  )

-- Over any stream that keeps the contract of StreamInterface and uses no null pointer, every schedule
-- of calls, completions (with errors too), timers, flushes, resets, dumps and rounds of the service runs
-- through, and abandons neither the read nor the write in progress: if each side is idle or has its
-- next function in hand, and the service's queue has a turn for each posted function, then so it is at
-- the end.
pub run-attends :
    {B D : Type 0} ⦃b : Streambuf B⦄ ⦃i : StreamInterface D⦄
    → IsLawful D
    → IsTotal D
    → (es : List Event) (s : Stream B D) → IsAttended s
    → (t : Stream B D) × (run es s ≡ some t) × IsAttended t
run-attends law total es s v =
    let (t, ok) = run-IsSome total es s in
    (t, ok, IsLive-IsAttended t (run-IsLive law es s t ok (IsAttended-IsLive s v)))
