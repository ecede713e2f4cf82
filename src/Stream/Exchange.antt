-- ===== src/Stream/Exchange.antt =====
-- src/Stream.cpp over include/rtac_asio/StringStream.h: the rounds of the service while an `async_write`
-- and an `async_read` are under way.
use rtac_asio.Prelude.{
  ℕ, zero, suc, ◌+◌, ◌-◌, ◌^◌, ◌<◌, ◌≡◌, ◌≢◌, refl, ap, ◌∙◌, some, List, [], ◌∷◌, ◌++◌, ◌>>=◌,
}
use rtac_asio.Memory.{Bytes}
use rtac_asio.Service.{success, Task, post}
use rtac_asio.Streambuf.{Streambuf}
use rtac_asio.CircularBuffer.{CircularBuffer}
use rtac_asio.StringStream.{
  StringStream, Loop, read_loop, write_loop, string_stream, async_read_some, async_write_some,
}
use rtac_asio.Reader.{Reader, read_continue}
use rtac_asio.Reader
use rtac_asio.Reader.Run as ReaderRun
use rtac_asio.Writer.{Writer, write_continue}
use rtac_asio.Writer
use rtac_asio.Writer.Run as WriterRun
use rtac_asio.Stream.{
  Side, reading, writing, Stream, hand_over, shared_writer, after_reader, after_writer,
}
use rtac_asio.Stream.Run.{serve, serve_reader, serve_writer, rounds}
use rtac_asio.Stream.Turns.{
  writer_at, reader_at, write_continue-more, write_continue-last, read_continue-more,
  read_continue-last,
}

-- What the stream's loops hand back.
abbrev pub written : ℕ → ℕ → Task Writer.Handler
written id j = record { handler = write_continue id; err = success; count = j }

abbrev pub got : ℕ → ℕ → Task Reader.Handler
got id j = record { handler = read_continue id; err = success; count = j }

abbrev pub tell_writer : Writer.Callback → ℕ → Task Writer.Handler
tell_writer c n = record { handler = Writer.call c; err = success; count = n }

abbrev pub tell_reader : Reader.Callback → ℕ → Task Reader.Handler
tell_reader c n = record { handler = Reader.call c; err = success; count = n }

module _ {B K : Type 0} ⦃b : Streambuf B⦄ ⦃k : CircularBuffer K⦄ where
  -- A write of `n` bytes at `a` as `wid` and a read of as many to `d` as `rid`, `u` and `v` done.
  abbrev pub exchange :
      Reader B
      → Writer
      → ℕ
      → ℕ
      → ℕ
      → Writer.Callback
      → Reader.Callback
      → ℕ
      → ℕ
      → ℕ
      → ℕ
      → List (Task Writer.Handler)
      → List (Task Reader.Handler)
      → Bytes
      → Bytes
      → K
      → List Side
      → Stream B (StringStream K)
  exchange r w n a d c c' wid rid u v ps qs m mw o q = record {
    reader = reader_at r n d c' rid v qs m;
    writer = writer_at w n a c wid u ps mw r.files;
    stream = record { buffer = o };
    queue = q;
  }

  module _ (r : Reader B) (w : Writer) (n a d : ℕ) (c : Writer.Callback) (c' : Reader.Callback)
      (wid rid : ℕ) (m mw : Bytes) (o : K) (q : List Side) where
    pub serve-write_more :
        (u v j : ℕ) (qs : List (Task Reader.Handler))
        → n < 2 ^ 64
        → u + j < n
        → let l : Loop K = write_loop (n - (u + j)) 0 (a + (u + j)) m o in
          serve
            (exchange r w n a d c c' wid rid u v (written wid j ∷ []) qs m mw o (writing ∷ q))
            (writing ∷ q)
          ≡ some (
              exchange r w n a d c c' wid rid
                (u + j)
                v
                (written wid l.counted ∷ [])
                qs
                m
                m
                l.rest
                (q ++ writing ∷ []))
    unfolding serve serve_writer after_writer hand_over shared_writer async_write_some post
        WriterRun.run_handler
    serve-write_more u v j qs fits more =
        rw (write_continue-more w n a c wid m r.files u j fits more) refl

    pub serve-read_more :
        (u v j : ℕ) (ps : List (Task Writer.Handler))
        → b.contents r.read_buffer ≡ []
        → n < 2 ^ 64
        → v + j < n
        → let l : Loop K = read_loop (n - (v + j)) 0 (d + (v + j)) m o in
          serve
            (exchange r w n a d c c' wid rid u v ps (got rid j ∷ []) m mw o (reading ∷ q))
            (reading ∷ q)
          ≡ some (
              exchange r w n a d c c' wid rid u
                (v + j)
                ps
                (got rid l.counted ∷ [])
                l.memory
                mw
                l.rest
                (q ++ reading ∷ []))
    unfolding serve serve_reader after_reader hand_over async_read_some post ReaderRun.run_handler
    serve-read_more u v j ps dry fits more =
        rw (read_continue-more r n d c' rid m v j dry fits more) refl

    pub serve-write_last :
        (u v j : ℕ) (qs : List (Task Reader.Handler))
        → n < 2 ^ 64
        → wid ≢ 0
        → u + j ≡ n
        → serve
            (exchange r w n a d c c' wid rid u v (written wid j ∷ []) qs m mw o (writing ∷ q))
            (writing ∷ q)
          ≡ some (
              exchange r w n a d c c' 0 rid n v (tell_writer c n ∷ []) qs m m o (q ++ writing ∷ []))
    unfolding serve serve_writer after_writer hand_over shared_writer WriterRun.run_handler
    serve-write_last u v j qs fits busy all =
        rw (write_continue-last w n a c wid m r.files u j fits busy all) refl

    pub serve-read_last :
        (u v j : ℕ) (ps : List (Task Writer.Handler))
        → n < 2 ^ 64
        → rid ≢ 0
        → v + j ≡ n
        → serve
            (exchange r w n a d c c' wid rid u v ps (got rid j ∷ []) m mw o (reading ∷ q))
            (reading ∷ q)
          ≡ some (
              exchange r w n a d c c' wid 0 u n ps
                (tell_reader c' n ∷ [])
                m
                mw
                o
                (q ++ reading ∷ []))
    unfolding serve serve_reader after_reader hand_over ReaderRun.run_handler
    serve-read_last u v j ps fits busy all =
        rw (read_continue-last r n d c' rid m v j fits busy all) refl

-- The callbacks are called.
serve-tell_writer :
    {B K : Type 0} ⦃b : Streambuf B⦄ ⦃k : CircularBuffer K⦄ (s : Stream B (StringStream K)) (n : ℕ)
    (c : Writer.Callback) (q : List Side)
    → serve
        (record s {
          writer = record s.writer {
            env = record s.writer.env {
              posted = tell_writer c n ∷ [];
              pending = [];
              mem = s.reader.mem;
              files = s.reader.files;
            };
          };
          queue = writing ∷ q;
        })
        (writing ∷ q)
      ≡ some (record s {
        writer =
            WriterRun.invoke
              (record s.writer {
                env = record s.writer.env {
                  posted = [];
                  pending = [];
                  mem = s.reader.mem;
                  files = s.reader.files;
                };
              })
              c
              success
              n;
        queue = q ++ [];
      })
unfolding serve serve_writer after_writer hand_over shared_writer WriterRun.run_handler
    WriterRun.invoke
serve-tell_writer s n (Writer.user x) q = refl
serve-tell_writer s n Writer.write_callback q = refl

serve-tell_reader :
    {B K : Type 0} ⦃b : Streambuf B⦄ ⦃k : CircularBuffer K⦄ (s : Stream B (StringStream K)) (n : ℕ)
    (c : Reader.Callback) (q : List Side)
    → serve
        (record s {
          reader = record s.reader {
            env = record s.reader.env { posted = tell_reader c n ∷ []; pending = [] };
          };
          queue = reading ∷ q;
        })
        (reading ∷ q)
      ≡ some (record s {
        reader =
            ReaderRun.invoke
              (record s.reader { env = record s.reader.env { posted = []; pending = [] } })
              c
              success
              n;
        queue = q ++ [];
      })
unfolding serve serve_reader after_reader hand_over ReaderRun.run_handler ReaderRun.invoke
serve-tell_reader s n (Reader.user x) q = refl
serve-tell_reader s n Reader.read_callback q = refl

module _ {B K : Type 0} ⦃b : Streambuf B⦄ ⦃k : CircularBuffer K⦄ where
  -- Both operations have ended and both callbacks have run.
  abbrev pub finished :
      Reader B
      → Writer
      → ℕ
      → ℕ
      → ℕ
      → Writer.Callback
      → Reader.Callback
      → Bytes
      → K
      → Stream B (StringStream K)
  finished r w n a d c c' m o = record {
    reader = ReaderRun.invoke (reader_at r n d c' 0 n [] m) c' success n;
    writer = WriterRun.invoke (writer_at w n a c 0 n [] m r.files) c success n;
    stream = record { buffer = o };
    queue = [];
  }

  pub rounds-finished : (f : ℕ) (s : Stream B (StringStream K)) → s.queue ≡ [] → rounds f s ≡ some s
  unfolding rounds serve
  rounds-finished zero s e = refl
  rounds-finished (suc f) s e = ap (λ q. serve s q >>= rounds f) e ∙ rounds-finished f s e

  module _ (r : Reader B) (w : Writer) (n a d : ℕ) (c : Writer.Callback) (c' : Reader.Callback)
      (wid rid : ℕ) (m mw : Bytes) (o : K) (p j : ℕ) where
    abbrev pub under_way : Stream B (StringStream K)
    under_way =
        exchange r w n a d c c' wid rid p p (written wid j ∷ []) (got rid j ∷ []) m mw o
          (writing ∷ reading ∷ [])

    module _ (f : ℕ) where
      pub rounds-last :
          n < 2 ^ 64
          → wid ≢ 0
          → rid ≢ 0
          → p + j ≡ n
          → rounds (suc (suc (suc (suc f)))) under_way ≡ some (finished r w n a d c c' m o)
      unfolding rounds
      rounds-last fits busy busy' all =
          ap (λ t. t >>= rounds (suc (suc (suc f))))
            (serve-write_last r w n a d c c' wid rid m mw o (reading ∷ []) p p j (got rid j ∷ [])
              fits busy all)
          ∙ ap (λ t. t >>= rounds (suc (suc f)))
              (serve-read_last r w n a d c c' 0 rid m m o (writing ∷ []) n p j
                (tell_writer c n ∷ []) fits busy' all)
          ∙ ap (λ t. t >>= rounds (suc f))
              (serve-tell_writer
                (exchange r w n a d c c' 0 0 n n [] (tell_reader c' n ∷ []) m m o []) n c
                (reading ∷ []))
          ∙ ap (λ t. t >>= rounds f)
              (serve-tell_reader
                (record (exchange r w n a d c c' 0 0 n n [] [] m m o []) {
                  writer = (finished r w n a d c c' m o).writer;
                })
                n c' [])
          ∙ rounds-finished f (finished r w n a d c c' m o) refl

      pub rounds-more :
          b.contents r.read_buffer ≡ []
          → n < 2 ^ 64
          → p + j < n
          → let l : Loop K = write_loop (n - (p + j)) 0 (a + (p + j)) m o in
            let l' : Loop K = read_loop (n - (p + j)) 0 (d + (p + j)) m l.rest in
            rounds (suc (suc f)) under_way
            ≡ rounds f (
                exchange r w n a d c c' wid rid
                  (p + j)
                  (p + j)
                  (written wid l.counted ∷ [])
                  (got rid l'.counted ∷ [])
                  l'.memory
                  m
                  l'.rest
                  (writing ∷ reading ∷ []))
      unfolding rounds
      rounds-more dry fits more =
          ap (λ t. t >>= rounds (suc f))
            (serve-write_more r w n a d c c' wid rid m mw o (reading ∷ []) p p j (got rid j ∷ [])
              fits more)
          ∙ ap (λ t. t >>= rounds f)
              (serve-read_more r w n a d c c' wid rid m m
                (write_loop (n - (p + j)) 0 (a + (p + j)) m o).rest (writing ∷ []) (p + j) p j
                (written wid (write_loop (n - (p + j)) 0 (a + (p + j)) m o).counted ∷ []) dry fits
                more)
