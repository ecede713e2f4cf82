-- ===== src/Stream/Attended.antt =====
-- src/Stream.cpp: what is in hand for the read and the write in progress, and the turns that the
-- service's queue has for the functions that were posted.
use mathlib.Core.Option
use rtac_asio.Prelude.{
  ℕ, zero, suc, ◌+◌, ◌-◌, ◌≤◌, ◌≡◌, ◌⊎◌, inl, inr, refl, ap, subst, some, List, [], ◌∷◌, ◌++◌,
  length, take, drop, arith, Option-cases,
}
use rtac_asio.Service.{Env}
use rtac_asio.Service.Hand.{AnyRequest, AnyRequest-take_or_drop}
use rtac_asio.Interface.{StreamInterface, IsLawful}
use rtac_asio.Reader.{Reader}
use rtac_asio.Reader
use rtac_asio.Reader.Progress as ReaderProgress
use rtac_asio.Writer.{Writer}
use rtac_asio.Writer
use rtac_asio.Writer.Progress as WriterProgress
use rtac_asio.Stream.{
  Side, reading, writing, Stream, replicate, hand_over, after_reader, after_writer,
}
use rtac_asio.Stream.Handed.{IsHeld, hand_over-IsHeld}

abbrev pub turns : Side → List Side → ℕ
turns s [] = 0
turns reading (reading ∷ q) = suc (turns reading q)
turns reading (writing ∷ q) = turns reading q
turns writing (reading ∷ q) = turns writing q
turns writing (writing ∷ q) = suc (turns writing q)

turns-own : (q : List Side) (s : Side) (k : ℕ) → turns s (q ++ replicate k s) ≡ turns s q + k
turns-own [] reading zero = refl
turns-own [] writing zero = refl
turns-own [] reading (suc k) = omega (arith, turns-own [] reading k)
turns-own [] writing (suc k) = omega (arith, turns-own [] writing k)
turns-own (reading ∷ q) reading k = omega (arith, turns-own q reading k)
turns-own (writing ∷ q) reading k = turns-own q reading k
turns-own (reading ∷ q) writing k = turns-own q writing k
turns-own (writing ∷ q) writing k = omega (arith, turns-own q writing k)

turns_reading : (q : List Side) (k : ℕ) → turns reading (q ++ replicate k writing) ≡ turns reading q
turns_reading [] zero = refl
turns_reading [] (suc k) = turns_reading [] k
turns_reading (reading ∷ q) k = ap suc (turns_reading q k)
turns_reading (writing ∷ q) k = turns_reading q k

turns_writing : (q : List Side) (k : ℕ) → turns writing (q ++ replicate k reading) ≡ turns writing q
turns_writing [] zero = refl
turns_writing [] (suc k) = turns_writing [] k
turns_writing (reading ∷ q) k = turns_writing q k
turns_writing (writing ∷ q) k = ap suc (turns_writing q k)

module _ {B D : Type 0} where
  -- For a read or a write in progress a function is in hand, and each posted function has its turn.
  pub record IsLive (s : Stream B D) : Type 0 where
    pub reader : ReaderProgress.IsLive s.reader
    pub writer : WriterProgress.IsLive s.writer
    pub reads : length s.reader.posted ≤ turns reading s.queue
    pub writes : length s.writer.posted ≤ turns writing s.queue

  module _ ⦃i : StreamInterface D⦄ (law : IsLawful D) where
    pub after_reader-IsLive :
        (s t : Stream B D) (r : Reader B)
        → after_reader s r ≡ some t
        → ReaderProgress.IsLive r
        → WriterProgress.IsLive s.writer
        → length s.reader.posted ≤ turns reading s.queue
        → length s.writer.posted ≤ turns writing s.queue
        → IsLive t
    unfolding after_reader
    after_reader-IsLive s t r eq live other reads writes =
        elim (Option-cases (hand_over i.async_read_some (drop kept r.pending) s.stream before)) [
          | inl threw ↦ absurd (Option.none-ne-some _ (rw threw at eq))
          | inr ((d, e), ok) ↦ subst IsLive (Option.some-injective _ _ (rw ok at eq)) (record {
            reader = λ busy.
                hand_over-IsHeld (ReaderProgress.IsOf r.read_id) i.async_read_some law.reads
                  (drop kept r.pending) s.stream d before e ok (split (live busy));
            writer = other;
            reads =
                omega (arith, turns-own s.queue reading (length e.posted - length s.reader.posted));
            writes =
                omega (arith, turns_writing s.queue (length e.posted - length s.reader.posted));
          })
        ]
      where
        kept : ℕ
        kept = length s.reader.pending

        before : Env Reader.Handler
        before = record r.env { pending = take kept r.pending }

        split :
            ReaderProgress.InHand r
            → IsHeld (ReaderProgress.IsOf r.read_id) before
              ⊎ AnyRequest (ReaderProgress.IsOf r.read_id) (drop kept r.pending)
        split (inr t) = inl (inr t)
        split (inl q) =
            elim (AnyRequest-take_or_drop (ReaderProgress.IsOf r.read_id) kept r.pending q) [
              | inl early ↦ inl (inl early)
              | inr late ↦ inr late
            ]

    pub after_writer-IsLive :
        (s t : Stream B D) (w : Writer)
        → after_writer s w ≡ some t
        → WriterProgress.IsLive w
        → ReaderProgress.IsLive s.reader
        → length s.reader.posted ≤ turns reading s.queue
        → length s.writer.posted ≤ turns writing s.queue
        → IsLive t
    unfolding after_writer
    after_writer-IsLive s t w eq live other reads writes =
        elim (Option-cases (hand_over i.async_write_some (drop kept w.pending) s.stream before)) [
          | inl threw ↦ absurd (Option.none-ne-some _ (rw threw at eq))
          | inr ((d, e), ok) ↦ subst IsLive (Option.some-injective _ _ (rw ok at eq)) (record {
            reader = other;
            writer = λ busy.
                hand_over-IsHeld (WriterProgress.IsOf w.write_id) i.async_write_some
                  (λ d d' e e' n p h x. (law.writes d d' e e' n p h x).0) (drop kept w.pending)
                  s.stream d before e ok (split (live busy));
            reads = omega (arith, turns_reading s.queue (length e.posted - length s.writer.posted));
            writes =
                omega (arith, turns-own s.queue writing (length e.posted - length s.writer.posted));
          })
        ]
      where
        kept : ℕ
        kept = length s.writer.pending

        before : Env Writer.Handler
        before = record w.env { pending = take kept w.pending }

        split :
            WriterProgress.InHand w
            → IsHeld (WriterProgress.IsOf w.write_id) before
              ⊎ AnyRequest (WriterProgress.IsOf w.write_id) (drop kept w.pending)
        split (inr t) = inl (inr t)
        split (inl q) =
            elim (AnyRequest-take_or_drop (WriterProgress.IsOf w.write_id) kept w.pending q) [
              | inl early ↦ inl (inl early)
              | inr late ↦ inr late
            ]
