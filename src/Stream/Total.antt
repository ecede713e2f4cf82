-- ===== src/Stream/Total.antt =====
-- src/Stream.cpp over a stream that uses no null pointer.
use mathlib.Core.Option
use rtac_asio.Prelude.{ℕ, ◌≡◌, refl, ap, ◌∙◌, none, some, List, [], ◌∷◌, Option, ◌>>=◌}
use rtac_asio.Service.{Task, Request, Env, ErrorCode}
use rtac_asio.Streambuf.{Streambuf}
use rtac_asio.Interface.{StreamInterface}
use rtac_asio.Reader.{Reader}
use rtac_asio.Reader
use rtac_asio.Writer.{Writer}
use rtac_asio.Writer
use rtac_asio.StringStream.{StringStream, string_stream}
use rtac_asio.CircularBuffer.{CircularBuffer}
use rtac_asio.Stream.{
  Side, reading, writing, Stream, hand_over, after_reader, after_writer, async_read_some,
  async_read, async_read_until, async_write_some, async_write, read_begin, read_until_begin,
  write_begin, flush, reader_flush,
}
use rtac_asio.Stream.Run.{
  Event, read_some, read_all, read_until, write_some, write_all, sync_read, sync_write,
  sync_read_until, flushes, resets, dump_off, dump_to, read_completes, write_completes, read_timer,
  write_timer, serves, serve, serve_reader, serve_writer, complete_read, complete_write,
  reader_timer, writer_timer, step, run,
}

abbrev pub IsSome : {A : Type 0} → Option A → Type 0
IsSome {A} o = (a : A) × (o ≡ some a)

-- No operation of the stream uses a null pointer.
pub record IsTotal (D : Type 0) ⦃i : StreamInterface D⦄ : Type 1 where
  pub reads :
      {H : Type 0} (d : D) (e : Env H) (n p : ℕ) (h : H) → IsSome (i.async_read_some d e n p h)
  pub writes :
      {H : Type 0} (d : D) (e : Env H) (n p : ℕ) (h : H) → IsSome (i.async_write_some d e n p h)
  pub flushes : (d : D) → IsSome (i.flush d)

map-IsSome : {A B : Type 0} (f : A → B) (o : Option A) → IsSome o → IsSome (Option.map f o)
map-IsSome f o (a, e) = (f a, ap (Option.map f) e)

bind-IsSome :
    {A B : Type 0} (f : A → Option B) (o : Option A)
    → IsSome o
    → ((a : A) → IsSome (f a))
    → IsSome (o >>= f)
bind-IsSome f o (a, e) g = ((g a).0, ap (λ x. x >>= f) e ∙ (g a).1)

module _ {D H : Type 0} (f : D → Env H → ℕ → ℕ → H → Option (D × Env H))
    (total : (d : D) (e : Env H) (n p : ℕ) (h : H) → IsSome (f d e n p h)) where
  hand_over-IsSome : (qs : List (Request H)) (d : D) (e : Env H) → IsSome (hand_over f qs d e)
  unfolding hand_over
  hand_over-IsSome [] d e = ((d, e), refl)
  hand_over-IsSome (q ∷ qs) d e =
      bind-IsSome (λ x. hand_over f qs x.0 x.1) _ (total d e q.count q.addr q.handler)
        (λ x. hand_over-IsSome qs x.0 x.1)

module _ {B D : Type 0} ⦃b : Streambuf B⦄ ⦃i : StreamInterface D⦄ (total : IsTotal D) where
  after_reader-IsSome : (s : Stream B D) (r : Reader B) → IsSome (after_reader s r)
  unfolding after_reader
  after_reader-IsSome s r =
      bind-IsSome _ _ (hand_over-IsSome i.async_read_some total.reads _ s.stream _) (λ x. (_, refl))

  after_writer-IsSome : (s : Stream B D) (w : Writer) → IsSome (after_writer s w)
  unfolding after_writer
  after_writer-IsSome s w =
      bind-IsSome _ _ (hand_over-IsSome i.async_write_some total.writes _ s.stream _)
        (λ x. (_, refl))

  serve_reader-IsSome :
      (s : Stream B D) (q : List Side) (ts : List (Task Reader.Handler))
      → IsSome (serve_reader s q ts)
  unfolding serve_reader
  serve_reader-IsSome s q [] = (_, refl)
  serve_reader-IsSome s q (t ∷ ts) = after_reader-IsSome _ _

  serve_writer-IsSome :
      (s : Stream B D) (q : List Side) (ts : List (Task Writer.Handler))
      → IsSome (serve_writer s q ts)
  unfolding serve_writer
  serve_writer-IsSome s q [] = (_, refl)
  serve_writer-IsSome s q (t ∷ ts) = after_writer-IsSome _ _

  serve-IsSome : (s : Stream B D) (q : List Side) → IsSome (serve s q)
  unfolding serve
  serve-IsSome s [] = (s, refl)
  serve-IsSome s (reading ∷ q) = serve_reader-IsSome s q s.reader.posted
  serve-IsSome s (writing ∷ q) = serve_writer-IsSome s q s.writer.posted

  complete_read-IsSome :
      (s : Stream B D) (k : ℕ) (o : Option (Request Reader.Handler)) (bs : List ℕ) (err : ErrorCode)
      → IsSome (complete_read s k o bs err)
  unfolding complete_read
  complete_read-IsSome s k none bs err = (s, refl)
  complete_read-IsSome s k (some q) bs err = after_reader-IsSome _ _

  complete_write-IsSome :
      (s : Stream B D) (k : ℕ) (o : Option (Request Writer.Handler)) (n : ℕ) (err : ErrorCode)
      → IsSome (complete_write s k o n err)
  unfolding complete_write
  complete_write-IsSome s k none n err = (s, refl)
  complete_write-IsSome s k (some q) n err = after_writer-IsSome _ _

  step-IsSome : (e : Event) (s : Stream B D) → IsSome (step e s)
  unfolding step async_read_some async_read async_read_until async_write_some async_write read_begin
      read_until_begin write_begin flush reader_flush reader_timer writer_timer
  step-IsSome (read_some n a c millis) s = map-IsSome _ _ (map-IsSome _ _ (after_reader-IsSome s _))
  step-IsSome (read_all n a c millis) s = map-IsSome _ _ (map-IsSome _ _ (after_reader-IsSome s _))
  step-IsSome (read_until n a d c millis) s =
      map-IsSome _ _ (map-IsSome _ _ (after_reader-IsSome s _))
  step-IsSome (sync_read n a millis) s = map-IsSome _ _ (map-IsSome _ _ (after_reader-IsSome s _))
  step-IsSome (sync_read_until n a d millis) s =
      map-IsSome _ _ (map-IsSome _ _ (after_reader-IsSome s _))
  step-IsSome (write_some n a c millis) s =
      map-IsSome _ _ (map-IsSome _ _ (after_writer-IsSome s _))
  step-IsSome (write_all n a c millis) s = map-IsSome _ _ (map-IsSome _ _ (after_writer-IsSome s _))
  step-IsSome (sync_write n a millis) s = map-IsSome _ _ (map-IsSome _ _ (after_writer-IsSome s _))
  step-IsSome flushes s = map-IsSome _ _ (total.flushes s.stream)
  step-IsSome resets s = (_, refl)
  step-IsSome dump_off s = (_, refl)
  step-IsSome (dump_to rx tx append rx_opens tx_opens) s = (_, refl)
  step-IsSome (read_completes k bs err) s = complete_read-IsSome s k _ bs err
  step-IsSome (write_completes k n err) s = complete_write-IsSome s k _ n err
  step-IsSome (read_timer k) s = after_reader-IsSome s _
  step-IsSome (write_timer k) s = after_writer-IsSome s _
  step-IsSome serves s = serve-IsSome s s.queue

  pub run-IsSome : (es : List Event) (s : Stream B D) → IsSome (run es s)
  unfolding run
  run-IsSome [] s = (s, refl)
  run-IsSome (e ∷ es) s = bind-IsSome (run es) _ (step-IsSome e s) (run-IsSome es)

pub string_stream-IsTotal : {K : Type 0} ⦃k : CircularBuffer K⦄ → IsTotal (StringStream K)
string_stream-IsTotal = record {
  reads = λ d e n p h. (_, refl);
  writes = λ d e n p h. (_, refl);
  flushes = λ d. (_, refl);
}
