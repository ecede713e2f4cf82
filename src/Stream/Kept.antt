-- ===== src/Stream/Kept.antt =====
-- src/Stream.cpp over any stream that answers its calls: what is in hand stays so in each function.
use mathlib.Core.Option
use rtac_asio.Prelude.{
  ℕ, ◌≡◌, inl, inr, refl, ap, subst, none, some, List, [], ◌∷◌, length, arith, Option-cases, Option,
  Bool, Bool-cases, get_elem?,
}
use rtac_asio.Service.{Task, Request, ErrorCode}
use rtac_asio.Streambuf.{Streambuf}
use rtac_asio.Interface.{StreamInterface, IsLawful}
use rtac_asio.Reader.{Reader}
use rtac_asio.Reader
use rtac_asio.Reader.Run as ReaderRun
use rtac_asio.Reader.Liveness as ReaderLiveness
use rtac_asio.Writer.{Writer}
use rtac_asio.Writer
use rtac_asio.Writer.Run as WriterRun
use rtac_asio.Writer.Liveness as WriterLiveness
use rtac_asio.Stream.{
  Side, reading, writing, Stream, shared_writer, flush, reader_flush, enable_io_dump,
  disable_io_dump,
}
use rtac_asio.Stream.Run.{serve, serve_reader, serve_writer, complete_read, complete_write}
use rtac_asio.Stream.Attended.{IsLive, turns, after_reader-IsLive, after_writer-IsLive}

pub started_some :
    {S : Type 0} (o : Option S) (b : Bool) (t : S)
    → Option.map {B = S} (λ x. x.1) (Option.map {B = Bool × S} (λ s. (b, s)) o) ≡ some t
    → o ≡ some t
started_some none b t eq = absurd (Option.none-ne-some _ eq)
started_some (some s) b t eq = eq

enable_read :
    {B : Type 0} (r : Reader B) (f : ℕ) (a o : Bool)
    → (Reader.enable_dump r f a o).posted ≡ r.posted
unfolding Reader.enable_dump
enable_read r f a o = elim (Bool-cases (Reader.dump_enabled r)) [
  | inl on ↦ rw on refl
  | inr off ↦ rw off (elim (Bool-cases o) [ inl e ↦ rw e refl | inr e ↦ rw e refl ])
]

enable_write : (w : Writer) (f : ℕ) (a o : Bool) → (Writer.enable_dump w f a o).posted ≡ w.posted
unfolding Writer.enable_dump
enable_write w f a o = elim (Bool-cases (Writer.dump_enabled w)) [
  | inl on ↦ rw on refl
  | inr off ↦ rw off (elim (Bool-cases o) [ inl e ↦ rw e refl | inr e ↦ rw e refl ])
]

module _ {B D : Type 0} ⦃b : Streambuf B⦄ ⦃i : StreamInterface D⦄ (law : IsLawful D) where
  serve_reader-IsLive :
      (s t : Stream B D) (q : List Side) (ts : List (Task Reader.Handler))
      → s.queue ≡ reading ∷ q
      → s.reader.posted ≡ ts
      → serve_reader s q ts ≡ some t
      → IsLive s
      → IsLive t
  unfolding serve_reader ReaderRun.serve
  serve_reader-IsLive s t q [] e p eq v = subst IsLive (Option.some-injective _ _ eq) (record {
    reader = v.reader;
    writer = v.writer;
    reads = omega (arith, ap length p);
    writes = omega (arith, v.writes, ap (turns writing) e);
  })
  serve_reader-IsLive s t q (x ∷ ts) e p eq v =
      after_reader-IsLive law _ t _ eq (ReaderLiveness.serve-IsLive s.reader (x ∷ ts) p v.reader)
        v.writer (omega (arith, v.reads, ap (turns reading) e, ap length p))
        (omega (arith, v.writes, ap (turns writing) e))

  serve_writer-IsLive :
      (s t : Stream B D) (q : List Side) (ts : List (Task Writer.Handler))
      → s.queue ≡ writing ∷ q
      → s.writer.posted ≡ ts
      → serve_writer s q ts ≡ some t
      → IsLive s
      → IsLive t
  unfolding serve_writer shared_writer WriterRun.serve
  serve_writer-IsLive s t q [] e p eq v = subst IsLive (Option.some-injective _ _ eq) (record {
    reader = v.reader;
    writer = v.writer;
    reads = omega (arith, v.reads, ap (turns reading) e);
    writes = omega (arith, ap length p);
  })
  serve_writer-IsLive s t q (x ∷ ts) e p eq v =
      after_writer-IsLive law _ t _ eq
        (WriterLiveness.serve-IsLive (shared_writer s) (x ∷ ts) p v.writer) v.reader
        (omega (arith, v.reads, ap (turns reading) e))
        (omega (arith, v.writes, ap (turns writing) e, ap length p))

  pub serve-IsLive :
      (s t : Stream B D) (q : List Side) → s.queue ≡ q → serve s q ≡ some t → IsLive s → IsLive t
  unfolding serve
  serve-IsLive s t [] e eq v = subst IsLive (Option.some-injective _ _ eq) v
  serve-IsLive s t (reading ∷ q) e eq v = serve_reader-IsLive s t q _ e refl eq v
  serve-IsLive s t (writing ∷ q) e eq v = serve_writer-IsLive s t q _ e refl eq v

  pub complete_read-IsLive :
      (s t : Stream B D) (k : ℕ) (o : Option (Request Reader.Handler)) (bs : List ℕ)
      (err : ErrorCode)
      → get_elem? s.reader.pending k ≡ o
      → complete_read s k o bs err ≡ some t
      → IsLive s
      → IsLive t
  unfolding complete_read ReaderRun.complete_at
  complete_read-IsLive s t k none bs err e eq v = subst IsLive (Option.some-injective _ _ eq) v
  complete_read-IsLive s t k (some q) bs err e eq v =
      after_reader-IsLive law _ t _ eq
        (ReaderLiveness.complete_at-IsLive s.reader k (some q) bs err e v.reader) v.writer v.reads
        v.writes

  pub complete_write-IsLive :
      (s t : Stream B D) (k : ℕ) (o : Option (Request Writer.Handler)) (n : ℕ) (err : ErrorCode)
      → get_elem? s.writer.pending k ≡ o
      → complete_write s k o n err ≡ some t
      → IsLive s
      → IsLive t
  unfolding complete_write shared_writer WriterRun.complete_at
  complete_write-IsLive s t k none n err e eq v = subst IsLive (Option.some-injective _ _ eq) v
  complete_write-IsLive s t k (some q) n err e eq v =
      after_writer-IsLive law _ t _ eq
        (WriterLiveness.complete_at-IsLive (shared_writer s) k (some q) n err e v.writer) v.reader
        v.reads v.writes

  pub flush-IsLive : (s t : Stream B D) → flush s ≡ some t → IsLive s → IsLive t
  unfolding flush reader_flush Reader.flush
  flush-IsLive s t eq v = elim (Option-cases (i.flush s.stream)) [
    | inl threw ↦ absurd (Option.none-ne-some _ (rw threw at eq))
    | inr (d, ok) ↦
        subst IsLive (Option.some-injective _ _ (rw ok at eq))
          (record { reader = v.reader; writer = v.writer; reads = v.reads; writes = v.writes })
  ]

  pub dump_off-IsLive : (s : Stream B D) → IsLive s → IsLive (disable_io_dump s)
  unfolding disable_io_dump Reader.disable_dump Writer.disable_dump
  dump_off-IsLive s v = record {
    reader = v.reader;
    writer = v.writer;
    reads = v.reads;
    writes = v.writes;
  }

  pub dump_to-IsLive :
      (s : Stream B D) (rx tx : ℕ) (append rx_opens tx_opens : Bool)
      → IsLive s
      → IsLive (enable_io_dump s rx tx append rx_opens tx_opens)
  unfolding enable_io_dump shared_writer ReaderRun.step WriterRun.step
  dump_to-IsLive s rx tx append rx_opens tx_opens v = record {
    reader = ReaderLiveness.step-IsLive (ReaderRun.dump_to rx append rx_opens) s.reader v.reader;
    writer = WriterLiveness.step-IsLive (WriterRun.dump_to tx append tx_opens) _ v.writer;
    reads = omega (arith, v.reads, ap length (enable_read s.reader rx append rx_opens));
    writes = omega (arith, v.writes, ap length (enable_write _ tx append tx_opens));
  }
