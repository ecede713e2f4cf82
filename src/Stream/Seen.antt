-- ===== src/Stream/Seen.antt =====
-- src/Stream.cpp over a stream that hands every operation on: each event, as the reader sees it.
use mathlib.Core.Option
use rtac_asio.Prelude.{
  ℕ, ◌-◌, ◌≡◌, refl, sym, ap, ◌∙◌, none, some, List, [], ◌∷◌, ◌++◌, length, Option, Bool, get_elem?,
  erase_idx,
}
use rtac_asio.Memory.{peek}
use rtac_asio.Service.{Task, Request, ErrorCode}
use rtac_asio.Streambuf.{Streambuf}
use rtac_asio.Interface.{StreamInterface}
use rtac_asio.Reader.{Reader}
use rtac_asio.Reader
use rtac_asio.Reader.Run as ReaderRun
use rtac_asio.Writer.{Writer}
use rtac_asio.Writer
use rtac_asio.Writer.Quiet.{Quiet, run_handler-Quiet}
use rtac_asio.Stream.{
  Side, reading, writing, Stream, replicate, shared_writer, after_reader, after_writer,
}
use rtac_asio.Stream.Run.{serve, serve_reader, serve_writer, complete_read, complete_write}
use rtac_asio.Stream.Transparent.{IsTransparent, after_reader-kept, after_writer-kept}
use rtac_asio.Stream.Trace.{turn}

module _ {B D : Type 0} ⦃b : Streambuf B⦄ ⦃i : StreamInterface D⦄ where
  module _ {Linked : D → Type 0} (law : IsTransparent D Linked) where
    -- An outcome, as the reader of `s` sees it.
    pub record Sees (s : Stream B D) (es : List ReaderRun.Event) (o : Option (Stream B D))
        : Type 0 where
      pub after : Stream B D
      pub is : o ≡ some after
      pub same : after.reader ≡ ReaderRun.run es s.reader
      pub linked : Linked after.stream
      pub undumped : after.writer.tx_dump ≡ none

    pub Sees-started :
        {s : Stream B D} {es : List ReaderRun.Event} {o : Option (Stream B D)} (x : Bool)
        → Sees s es o
        → Sees s es (
            Option.map {B = Stream B D}
              (λ y. y.1)
              (Option.map {B = Bool × Stream B D} (λ y. (x, y)) o))
    Sees-started x g = record {
      after = g.after;
      is =
          ap
            (λ o.
              Option.map {B = Stream B D} (λ y. y.1)
                (Option.map {B = Bool × Stream B D} (λ y. (x, y)) o))
            g.is;
      same = g.same;
      linked = g.linked;
      undumped = g.undumped;
    }

    -- One of the reader's functions has run, from the state `s0` that is left of `s`.
    pub reader_ran :
        (s s0 : Stream B D) (r : Reader B) (es : List ReaderRun.Event)
        → Linked s0.stream
        → s0.writer.tx_dump ≡ none
        → r ≡ ReaderRun.run es s.reader
        → Sees s es (after_reader s0 r)
    reader_ran s s0 r es v off e = record {
      after = record s0 {
        reader = r;
        queue = s0.queue ++ replicate (length r.posted - length s0.reader.posted) reading;
      };
      is = after_reader-kept law s0 r v;
      same = e;
      linked = v;
      undumped = off;
    }

    pub writer_ran :
        (s0 : Stream B D) (w : Writer)
        → Linked s0.stream
        → s0.writer.tx_dump ≡ none
        → Quiet (shared_writer s0) w
        → Sees s0 [] (after_writer s0 w)
    unfolding shared_writer ReaderRun.run
    writer_ran s0 w v off q = record {
      after = record s0 {
        reader = record s0.reader { env = record s0.reader.env { mem = w.mem; files = w.files } };
        writer = w;
        queue = s0.queue ++ replicate (length w.posted - length s0.writer.posted) writing;
      };
      is = after_writer-kept law s0 w v;
      same =
          λ i. record s0.reader { env = record s0.reader.env { mem = q.mem i; files = q.files i } };
      linked = v;
      undumped = q.undumped ∙ off;
    }

    -- Only the reader of the state before matters.
    Sees-from :
        {s s0 : Stream B D} {es : List ReaderRun.Event} {o : Option (Stream B D)}
        → s0.reader ≡ s.reader
        → Sees s0 es o
        → Sees s es o
    Sees-from {es = es} e g = record {
      after = g.after;
      is = g.is;
      same = g.same ∙ ap (ReaderRun.run es) e;
      linked = g.linked;
      undumped = g.undumped;
    }

    module _ (s : Stream B D) (v : Linked s.stream) (off : s.writer.tx_dump ≡ none) where
      serve_reader-Sees :
          (q : List Side) (ts : List (Task Reader.Handler))
          → s.reader.posted ≡ ts
          → Sees s (turn (reading ∷ q) ts) (serve_reader s q ts)
      unfolding serve_reader ReaderRun.run ReaderRun.step ReaderRun.serve
      serve_reader-Sees q [] p = record {
        after = record s { queue = q };
        is = refl;
        same = refl;
        linked = v;
        undumped = off;
      }
      serve_reader-Sees q (t ∷ ts) p =
          reader_ran s _ _ (ReaderRun.serves ∷ []) v off (ap (ReaderRun.serve s.reader) (sym p))

      serve_writer-Sees :
          (q : List Side) (ts : List (Task Writer.Handler)) → Sees s [] (serve_writer s q ts)
      unfolding serve_writer ReaderRun.run shared_writer
      serve_writer-Sees q [] = record {
        after = record s { queue = q };
        is = refl;
        same = refl;
        linked = v;
        undumped = off;
      }
      serve_writer-Sees q (t ∷ ts) =
          let s0 : Stream B D = record s {
            writer = record s.writer { env = record s.writer.env { posted = ts } };
            queue = q;
          } in
          Sees-from {s0 = s0} refl (
            writer_ran s0 _ v off
              (run_handler-Quiet t.handler (shared_writer s0) t.err t.count off))

      pub serve-Sees : (q : List Side) → Sees s (turn q s.reader.posted) (serve s q)
      unfolding serve ReaderRun.run
      serve-Sees [] = record { after = s; is = refl; same = refl; linked = v; undumped = off }
      serve-Sees (reading ∷ q) = serve_reader-Sees q s.reader.posted refl
      serve-Sees (writing ∷ q) = serve_writer-Sees q s.writer.posted

      pub complete_read-Sees :
          (k : ℕ) (o : Option (Request Reader.Handler)) (bs : List ℕ) (err : ErrorCode)
          → get_elem? s.reader.pending k ≡ o
          → Sees s (ReaderRun.completes k bs err ∷ []) (complete_read s k o bs err)
      unfolding complete_read ReaderRun.run ReaderRun.step ReaderRun.complete_at
      complete_read-Sees k none bs err e = record {
        after = s;
        is = refl;
        same = ap (λ o. ReaderRun.complete_at s.reader k o bs err) (sym e);
        linked = v;
        undumped = off;
      }
      complete_read-Sees k (some q) bs err e =
          reader_ran s _ _ (ReaderRun.completes k bs err ∷ []) v off
            (ap (λ o. ReaderRun.complete_at s.reader k o bs err) (sym e))

      pub complete_write-Sees :
          (k : ℕ) (o : Option (Request Writer.Handler)) (n : ℕ) (err : ErrorCode)
          → Sees s [] (complete_write s k o n err)
      unfolding complete_write ReaderRun.run shared_writer
      complete_write-Sees k none n err = record {
        after = s;
        is = refl;
        same = refl;
        linked = v;
        undumped = off;
      }
      complete_write-Sees k (some q) n err =
          let s0 : Stream B D = record s {
            writer = record s.writer {
              sent = s.writer.sent ++ peek s.reader.mem q.addr n;
              env = record s.writer.env { pending = erase_idx s.writer.pending k };
            };
          } in
          Sees-from {s0 = s0} refl
            (writer_ran s0 _ v off (run_handler-Quiet q.handler (shared_writer s0) err n off))
