-- ===== src/Stream/Trace.antt =====
-- Schedules of src/Stream.cpp over a stream that hands every operation on, as the reader sees them.
use rtac_asio.Prelude.{none, some, List, [], ◌∷◌, ◌++◌}
use rtac_asio.Streambuf.{Streambuf}
use rtac_asio.Interface.{StreamInterface}
use rtac_asio.Reader.Run as ReaderRun
use rtac_asio.Stream.{Side, reading, writing, Stream}
use rtac_asio.Stream.Run.{
  Event, read_some, read_all, read_until, write_some, write_all, sync_read, sync_write,
  sync_read_until, flushes, resets, dump_off, dump_to, read_completes, write_completes, read_timer,
  write_timer, serves, step,
}

-- The service's next function, if it is the reader's.
abbrev pub turn {ℓ} : {A : Type ℓ} → List Side → List A → List ReaderRun.Event
turn (reading ∷ q) (t ∷ ts) = ReaderRun.serves ∷ []
turn (reading ∷ q) [] = []
turn (writing ∷ q) ts = []
turn [] ts = []

module _ {B D : Type 0} where
  -- What the reader sees of an event.
  abbrev pub seen : Event → Stream B D → List ReaderRun.Event
  seen (read_some n a c millis) s = ReaderRun.read_some n a c millis ∷ []
  seen (read_all n a c millis) s = ReaderRun.read_all n a c millis ∷ []
  seen (read_until n a d c millis) s = ReaderRun.read_until n a d c millis ∷ []
  seen (write_some n a c millis) s = []
  seen (write_all n a c millis) s = []
  seen (sync_read n a millis) s = ReaderRun.sync_read n a millis ∷ []
  seen (sync_write n a millis) s = []
  seen (sync_read_until n a d millis) s = ReaderRun.sync_read_until n a d millis ∷ []
  seen flushes s = ReaderRun.flushes ∷ []
  seen resets s = []
  seen dump_off s = ReaderRun.dump_off ∷ []
  seen (dump_to rx tx append rx_opens tx_opens) s = ReaderRun.dump_to rx append rx_opens ∷ []
  seen (read_completes k bs err) s = ReaderRun.completes k bs err ∷ []
  seen (write_completes k n err) s = []
  seen (read_timer k) s = ReaderRun.timer k ∷ []
  seen (write_timer k) s = []
  seen serves s = turn s.queue s.reader.posted

-- Events that open no dump.
abbrev pub AvoidsDump : List Event → Type 0
AvoidsDump [] = Unit
AvoidsDump (dump_to rx tx append rx_opens tx_opens ∷ es) = ⊥
AvoidsDump (_ ∷ es) = AvoidsDump es

module _ {B D : Type 0} ⦃b : Streambuf B⦄ ⦃i : StreamInterface D⦄ where
  abbrev pub trace : List Event → Stream B D → List ReaderRun.Event
  trace [] s = []
  trace (e ∷ es) s = seen e s ++ (elim (step e s) [ none ↦ [] | some t ↦ trace es t ])
