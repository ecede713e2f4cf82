-- ===== src/Stream/Simulate.antt =====
-- Schedules of src/Stream.cpp over a stream that hands every operation on, as the reader sees them.
use mathlib.Core.Option
use rtac_asio.Prelude.{◌≡◌, refl, sym, ap, ◌∙◌, none, some, List, [], ◌∷◌, ◌++◌, ◌>>=◌}
use rtac_asio.Streambuf.{Streambuf}
use rtac_asio.Interface.{StreamInterface}
use rtac_asio.Reader.{Reader}
use rtac_asio.Reader
use rtac_asio.Reader.Run as ReaderRun
use rtac_asio.Writer.{Writer}
use rtac_asio.Writer
use rtac_asio.Writer.Quiet.{
  async_write_some-Quiet, async_write-Quiet, write_begin-Quiet, timer_at-Quiet,
}
use rtac_asio.Stream.{
  Stream, shared_writer, async_read_some, async_read, async_read_until, async_write_some,
  async_write, read_begin, read_until_begin, write_begin, flush, reset, reader_flush, reader_reset,
  disable_io_dump,
}
use rtac_asio.Stream.Run.{
  Event, read_some, read_all, read_until, write_some, write_all, sync_read, sync_write,
  sync_read_until, flushes, resets, dump_off, dump_to, read_completes, write_completes, read_timer,
  write_timer, serves, reader_timer, writer_timer, step, run,
}
use rtac_asio.Stream.Transparent.{IsTransparent}
use rtac_asio.Stream.Trace.{seen, trace, AvoidsDump}
use rtac_asio.Stream.Seen.{
  Sees, Sees-started, reader_ran, writer_ran, serve-Sees, complete_read-Sees, complete_write-Sees,
}

run-append :
    {B : Type 0} ⦃b : Streambuf B⦄ (xs ys : List ReaderRun.Event) (r : Reader B)
    → ReaderRun.run (xs ++ ys) r ≡ ReaderRun.run ys (ReaderRun.run xs r)
unfolding ReaderRun.run
run-append [] ys r = refl
run-append (x ∷ xs) ys r = run-append xs ys (ReaderRun.step x r)

AvoidsDump-tail : (e : Event) (es : List Event) → AvoidsDump (e ∷ es) → AvoidsDump es
AvoidsDump-tail (dump_to rx tx append rx_opens tx_opens) es u = elim u [ ]
AvoidsDump-tail _ es u = u

module _ {B D : Type 0} ⦃b : Streambuf B⦄ ⦃i : StreamInterface D⦄ {Linked : D → Type 0}
    (law : IsTransparent D Linked) where
  flush-Sees :
      (s : Stream B D)
      → Linked s.stream
      → s.writer.tx_dump ≡ none
      → Sees law s (ReaderRun.flushes ∷ []) (flush s)
  unfolding flush reader_flush ReaderRun.run ReaderRun.step
  flush-Sees s v off =
      let (d, ok, linked) = law.flushes s.stream v in
      record {
        after = record s { reader = Reader.flush s.reader; stream = d };
        is =
            ap
              (Option.map {B = Stream B D}
                (λ d. record s { reader = Reader.flush s.reader; stream = d }))
              ok;
        same = refl;
        linked = linked;
        undumped = off;
      }

  step-Sees :
      (e : Event) (es : List Event) (s : Stream B D)
      → AvoidsDump (e ∷ es)
      → Linked s.stream
      → s.writer.tx_dump ≡ none
      → Sees law s (seen e s) (step e s)
  unfolding step async_read_some async_read async_read_until async_write_some async_write read_begin
      read_until_begin write_begin reset reader_reset reader_timer writer_timer shared_writer
      disable_io_dump Writer.disable_dump ReaderRun.run ReaderRun.step
  step-Sees (read_some n a c millis) es s u v off =
      Sees-started law _ (reader_ran law s s _ _ v off refl)
  step-Sees (read_all n a c millis) es s u v off =
      Sees-started law _ (reader_ran law s s _ _ v off refl)
  step-Sees (read_until n a d c millis) es s u v off =
      Sees-started law _ (reader_ran law s s _ _ v off refl)
  step-Sees (sync_read n a millis) es s u v off =
      Sees-started law _ (reader_ran law s s _ _ v off refl)
  step-Sees (sync_read_until n a d millis) es s u v off =
      Sees-started law _ (reader_ran law s s _ _ v off refl)
  step-Sees (write_some n a c millis) es s u v off =
      Sees-started law _
        (writer_ran law s _ v off (async_write_some-Quiet (shared_writer s) n a c millis))
  step-Sees (write_all n a c millis) es s u v off =
      Sees-started law _
        (writer_ran law s _ v off (async_write-Quiet (shared_writer s) n a c millis))
  step-Sees (sync_write n a millis) es s u v off =
      Sees-started law _ (writer_ran law s _ v off (write_begin-Quiet (shared_writer s) n a millis))
  step-Sees flushes es s u v off = flush-Sees s v off
  step-Sees resets es s u v off = record {
    after = (reset s).1;
    is = refl;
    same = refl;
    linked = law.resets s.stream v;
    undumped = off;
  }
  step-Sees dump_off es s u v off = record {
    after = disable_io_dump s;
    is = refl;
    same = refl;
    linked = v;
    undumped = refl;
  }
  step-Sees (dump_to rx tx append rx_opens tx_opens) es s u v off = elim u [ ]
  step-Sees (read_completes k bs err) es s u v off = complete_read-Sees law s v off k _ bs err refl
  step-Sees (write_completes k n err) es s u v off = complete_write-Sees law s v off k _ n err
  step-Sees (read_timer k) es s u v off = reader_ran law s s _ (ReaderRun.timer k ∷ []) v off refl
  step-Sees (write_timer k) es s u v off =
      writer_ran law s _ v off (timer_at-Quiet (shared_writer s) k _)
  step-Sees serves es s u v off = serve-Sees law s v off s.queue

  -- Over any stream that leaves each call's operation in hand, as a TCP client with a socket does, a
  -- schedule of both sides with no dump uses no null pointer, and at its end the reader is as if it had
  -- been alone: in the state that the same reads, completions, timers and flushes, and the service's
  -- rounds that are its own, bring a reader to. Writes, in whatever order they come between, and
  -- resets leave no trace in it.
  pub run-traces :
      (es : List Event) (s : Stream B D)
      → AvoidsDump es
      → Linked s.stream
      → s.writer.tx_dump ≡ none
      → (t : Stream B D) × (run es s ≡ some t) × (t.reader ≡ ReaderRun.run (trace es s) s.reader)
  unfolding run ReaderRun.run
  run-traces [] s u v off = (s, refl, refl)
  run-traces (e ∷ es) s u v off =
      let g = step-Sees e es s u v off in
      let (t, ok, same) = run-traces es g.after (AvoidsDump-tail e es u) g.linked g.undumped in
      (
        t,
        ap (λ o. o >>= run es) g.is ∙ ok,
        same
            ∙ ap (ReaderRun.run (trace es g.after)) g.same
            ∙ sym (run-append (seen e s) (trace es g.after) s.reader)
            ∙ ap
                (λ o.
                  ReaderRun.run (seen e s ++ (elim o [ none ↦ [] | some x ↦ trace es x ])) s.reader)
                (sym g.is),
      )
