-- ===== src/Stream/Tests.antt =====
-- A stream over a StringStream with room for two bytes.
use rtac_asio.Prelude.{ℕ, ◌≡◌, refl, inl, inr, none, some, true, false, List, [], ◌∷◌, Bool, arith}
use rtac_asio.Memory.{fill}
use rtac_asio.Service.{success, Env}
use rtac_asio.Streambuf.{list_streambuf}
use rtac_asio.CircularBuffer.{Bounded, bounded_buffer}
use rtac_asio.StringStream.{StringStream, string_stream}
use rtac_asio.StringStream.Lawful.{string_stream-IsLawful}
use rtac_asio.Reader.{Reader}
use rtac_asio.Reader
use rtac_asio.Writer.{Writer}
use rtac_asio.Writer
use rtac_asio.Stream.{Stream}
use rtac_asio.Stream.Run.{
  Event, write_all, read_all, serves, read_timer, read_completes, write_completes, run,
}
use rtac_asio.Socket.{Plug, plug_sockets}
use rtac_asio.Tcp.{Tcp, tcp_stream}
use rtac_asio.Reader.Run as ReaderRun
use rtac_asio.Stream.Transparent.{tcp_stream-IsTransparent}
use rtac_asio.Stream.Trace.{trace}
use rtac_asio.Stream.Simulate.{run-traces}
use rtac_asio.Stream.Total.{string_stream-IsTotal}
use rtac_asio.Async.{construct}
use rtac_asio.Stream.Control.{Services}
use rtac_asio.Stream.Control as Control
use rtac_asio.Stream.Liveness.{IsAttended, run-attends}
use rtac_asio.Stream.Whole.{IsResting, write_then_read, async_read-async_write}

-- Bytes 7, 8 and 9 stand at address 50.
abbrev world : (H : Type 0) → Env H
world H = record {
  mem = fill (λ _. 0) 50 (7 ∷ 8 ∷ 9 ∷ []);
  posted = [];
  pending = [];
  waits = [];
  files = λ _. [];
}

abbrev quiet : Stream (List ℕ) (StringStream Bounded)
quiet = record {
  reader = record {
    read_counter = 0;
    read_id = 0;
    requested_size = 0;
    processed = 0;
    dst = 0;
    callback = Reader.user 0;
    waiter_notified = false;
    read_buffer = [];
    rx_dump = none;
    called = [];
    env = world Reader.Handler;
  };
  writer = record {
    write_counter = 0;
    write_id = 0;
    requested_size = 0;
    processed = 0;
    src = 0;
    callback = Writer.user 0;
    waiter_notified = false;
    tx_dump = none;
    called = [];
    sent = [];
    env = world Writer.Handler;
  };
  stream = record { buffer = record { bytes = []; most = 2 } };
  queue = [];
}

quiet-IsResting : IsResting quiet
quiet-IsResting = record {
  read_idle = refl;
  write_idle = refl;
  undumped = refl;
  unrecorded = refl;
  dry = refl;
  empty = refl;
  reader_posted = refl;
  writer_posted = refl;
  reader_pending = refl;
  writer_pending = refl;
  queue = refl;
  read_counter = omega arith;
  write_counter = omega arith;
}

async_read-async_write_example :
    (t : Stream (List ℕ) (StringStream Bounded)) × (write_then_read quiet 3 50 100
        (Writer.user 1)
        (Reader.user 2)
        0
        0
        10
      ≡ some (true, true, t))
    × (t.reader.mem ≡ fill quiet.reader.mem 100 (7 ∷ 8 ∷ 9 ∷ []))
    × (t.writer.called ≡ record { handler = Writer.user 1; err = success; count = 3 } ∷ [])
    × (t.reader.called ≡ record { handler = Reader.user 2; err = success; count = 3 } ∷ [])
    × (t.writer.write_id ≡ 0)
    × (t.reader.read_id ≡ 0)
    × (t.writer.processed ≡ 3)
    × (t.reader.processed ≡ 3)
    × (t.queue ≡ [])
    × (t.stream.buffer.bytes ≡ [])
async_read-async_write_example =
    async_read-async_write quiet 3 50 100 (Writer.user 1) (Reader.user 2) 0 0 10 quiet-IsResting
      (omega arith) (omega arith) (inr (omega arith)) (omega arith)

abbrev exchange_events : List Event
exchange_events =
    write_all 3 50 (Writer.user 1) 0
    ∷ read_all 3 100 (Reader.user 2) 5
    ∷ serves
    ∷ read_timer 0
    ∷ serves
    ∷ []

run-attends_example :
    (t : Stream (List ℕ) (StringStream Bounded)) × (run exchange_events quiet ≡ some t)
    × IsAttended t
run-attends_example =
    run-attends string_stream-IsLawful string_stream-IsTotal exchange_events quiet
      (inl refl, inl refl, omega arith, omega arith)

-- Service 5 is just made; the caller of `start` and the service's thread take turns.
abbrev turns_taken : List Bool
turns_taken = false ∷ true ∷ false ∷ true ∷ true ∷ false ∷ []

abbrev services : Services
services q = construct true

-- The same over a TCP client with a socket.
abbrev connected : Stream (List ℕ) (Tcp Plug ℕ)
connected = record {
  reader = quiet.reader;
  writer = quiet.writer;
  stream = record { socket = some (record { opened = true; peer = true }); remote = 1 };
  queue = [];
}

-- The stream ends the read in two pieces, and the write between them.
abbrev tcp_events : List Event
tcp_events =
    read_all 3 100 (Reader.user 2) 0
    ∷ write_all 2 50 (Writer.user 1) 0
    ∷ read_completes 0 (4 ∷ 5 ∷ []) 0
    ∷ write_completes 0 2 0
    ∷ read_completes 0 (6 ∷ []) 0
    ∷ serves
    ∷ serves
    ∷ []

run-traces_example :
    (t : Stream (List ℕ) (Tcp Plug ℕ)) × (run tcp_events connected ≡ some t)
    × (t.reader ≡ ReaderRun.run (trace tcp_events connected) connected.reader)
run-traces_example = run-traces tcp_stream-IsTransparent tcp_events connected tt (_, refl) refl
