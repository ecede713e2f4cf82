-- ===== src/Stream.antt =====
-- include/rtac_asio/Stream.h and src/Stream.cpp: a reader and a writer over one stream. Each operation
-- runs the reader's or the writer's; the operations that this leaves for `stream_` go to the stream,
-- and what is posted goes behind the functions in the service's queue.
pub mod Run
pub mod Turns
pub mod Handed
pub mod Transparent
pub mod Trace
pub mod Seen
pub mod Simulate
pub mod Attended
pub mod Total
pub mod Kept
pub mod Liveness
pub mod Exchange
pub mod Begin
pub mod Loopback
pub mod Whole
pub mod Control
mod Tests
use mathlib.Core.Option
use rtac_asio.Prelude.{
  ℕ, zero, suc, ◌-◌, Bool, true, false, Option, none, some, List, [], ◌∷◌, ◌++◌, length, take, drop,
  get_elem?, erase_idx, ◌>>=◌, if◌then◌else◌,
}
use rtac_asio.Memory.{fill, peek}
use rtac_asio.Service.{ErrorCode, Task, Request, Env}
use rtac_asio.Streambuf.{Streambuf}
use rtac_asio.Interface.{StreamInterface}
use rtac_asio.SerialPort.{SerialPorts}
use rtac_asio.Socket.{Sockets}
use rtac_asio.Serial.{Serial, Parameters}
use rtac_asio.Serial
use rtac_asio.Tcp.{Tcp}
use rtac_asio.Tcp
use rtac_asio.Udp.{Udp}
use rtac_asio.Udp
use rtac_asio.Reader.{Reader}
use rtac_asio.Reader
use rtac_asio.Reader.Until
use rtac_asio.Writer.{Writer}
use rtac_asio.Writer

-- The default argument of `UDPClientStream::Create`.
abbrev default_buffer_size : ℕ
default_buffer_size = 1024

-- Whose function one of the service's queue is.
pub data Side : Type 0 where
  reading writing : Side

-- The service's queue holds the functions that the reader and the writer posted: `queue` says whose
-- each is, oldest first, and each side's `posted` has its own in that order. Memory and the files are
-- the reader's; the writer sees them while one of its functions runs.
pub record Stream (B D : Type 0) : Type 0 where
  pub reader : Reader B
  pub writer : Writer
  pub stream : D
  pub queue : List Side

abbrev pub replicate : ℕ → Side → List Side
replicate zero s = []
replicate (suc n) s = s ∷ replicate n s

-- A `std::string` argument: `size()` bytes at `c_str()`.
pub record Characters : Type 0 where
  pub size : ℕ
  pub c_str : ℕ

-- The calls of `stream_->async_read_some` or `stream_->async_write_some`, in their order.
unfoldable pub hand_over :
    {D H : Type 0}
    → (D → Env H → ℕ → ℕ → H → Option (D × Env H))
    → List (Request H)
    → D
    → Env H
    → Option (D × Env H)
hand_over f [] d e = some (d, e)
hand_over f (q ∷ qs) d e = do (d', e') ← f d e q.count q.addr q.handler; hand_over f qs d' e'

module _ {B D : Type 0} where
  -- The writer, with memory and the files as they are now.
  unfoldable pub shared_writer : Stream B D → Writer
  shared_writer s = record s.writer {
    env = record s.writer.env { mem = s.reader.mem; files = s.reader.files };
  }

module _ {B D : Type 0} ⦃i : StreamInterface D⦄ where
  -- What follows when one of the reader's functions has left the reader as `r`.
  unfoldable pub after_reader : Stream B D → Reader B → Option (Stream B D)
  unfolding hand_over
  after_reader s r = do
    (d, e) ←
        hand_over i.async_read_some (drop (length s.reader.pending) r.pending) s.stream
          (record r.env { pending = take (length s.reader.pending) r.pending })
    some (record s {
      reader = record r { env = e };
      stream = d;
      queue = s.queue ++ replicate (length e.posted - length s.reader.posted) reading;
    })

  unfoldable pub after_writer : Stream B D → Writer → Option (Stream B D)
  unfolding hand_over
  after_writer s w = do
    (d, e) ←
        hand_over i.async_write_some (drop (length s.writer.pending) w.pending) s.stream
          (record w.env { pending = take (length s.writer.pending) w.pending })
    some (record s {
      reader = record s.reader { env = record s.reader.env { mem = e.mem; files = e.files } };
      writer = record w { env = e };
      stream = d;
      queue = s.queue ++ replicate (length e.posted - length s.writer.posted) writing;
    })

  unfoldable pub async_write_some :
      Stream B D → ℕ → ℕ → Writer.Callback → ℕ → Option (Bool × Stream B D)
  unfolding after_writer
  async_write_some s count addr callback timeout_millis =
      let (started, w) =
        Writer.async_write_some (shared_writer s) count addr callback timeout_millis in
      Option.map (λ s'. (started, s')) (after_writer s w)

  unfoldable pub async_write : Stream B D → ℕ → ℕ → Writer.Callback → ℕ → Option (Bool × Stream B D)
  unfolding after_writer
  async_write s count addr callback timeout_millis =
      let (started, w) = Writer.async_write (shared_writer s) count addr callback timeout_millis in
      Option.map (λ s'. (started, s')) (after_writer s w)

  unfoldable pub write_begin : Stream B D → ℕ → ℕ → ℕ → Option (Bool × Stream B D)
  unfolding after_writer
  write_begin s count addr timeout_millis =
      let (started, w) = Writer.write_begin (shared_writer s) count addr timeout_millis in
      Option.map (λ s'. (started, s')) (after_writer s w)

  unfoldable pub async_write_some_string :
      Stream B D → Characters → Writer.Callback → ℕ → Option (Bool × Stream B D)
  async_write_some_string s text callback timeout_millis =
      async_write_some s text.size text.c_str callback timeout_millis

  unfoldable pub async_write_string :
      Stream B D → Characters → Writer.Callback → ℕ → Option (Bool × Stream B D)
  async_write_string s text callback timeout_millis =
      async_write s text.size text.c_str callback timeout_millis

  unfoldable pub write_string_begin : Stream B D → Characters → ℕ → Option (Bool × Stream B D)
  write_string_begin s text timeout_millis = write_begin s text.size text.c_str timeout_millis

module _ {B D : Type 0} ⦃b : Streambuf B⦄ ⦃i : StreamInterface D⦄ where
  unfoldable pub async_read_some :
      Stream B D → ℕ → ℕ → Reader.Callback → ℕ → Option (Bool × Stream B D)
  unfolding after_reader
  async_read_some s count addr callback timeout_millis =
      let (started, r) = Reader.async_read_some s.reader count addr callback timeout_millis in
      Option.map (λ s'. (started, s')) (after_reader s r)

  unfoldable pub async_read : Stream B D → ℕ → ℕ → Reader.Callback → ℕ → Option (Bool × Stream B D)
  unfolding after_reader
  async_read s count addr callback timeout_millis =
      let (started, r) = Reader.async_read s.reader count addr callback timeout_millis in
      Option.map (λ s'. (started, s')) (after_reader s r)

  unfoldable pub async_read_until :
      Stream B D → ℕ → ℕ → ℕ → Reader.Callback → ℕ → Option (Bool × Stream B D)
  unfolding after_reader
  async_read_until s max_size addr delimiter callback timeout_millis =
      let (started, r) =
        Reader.Until.async_read_until s.reader max_size addr delimiter callback timeout_millis in
      Option.map (λ s'. (started, s')) (after_reader s r)

  unfoldable pub read_begin : Stream B D → ℕ → ℕ → ℕ → Option (Bool × Stream B D)
  unfolding after_reader
  read_begin s count addr timeout_millis =
      let (started, r) = Reader.read_begin s.reader count addr timeout_millis in
      Option.map (λ s'. (started, s')) (after_reader s r)

  unfoldable pub read_until_begin : Stream B D → ℕ → ℕ → ℕ → ℕ → Option (Bool × Stream B D)
  unfolding after_reader
  read_until_begin s max_size addr delimiter timeout_millis =
      let (started, r) =
        Reader.Until.read_until_begin s.reader max_size addr delimiter timeout_millis in
      Option.map (λ s'. (started, s')) (after_reader s r)

  -- `StreamReader::flush`: what `read_until` kept, then the stream. `none` is a null pointer.
  unfoldable pub reader_flush : Stream B D → Option (Stream B D)
  reader_flush s =
      Option.map (λ d. record s { reader = Reader.flush s.reader; stream = d }) (i.flush s.stream)

  -- `StreamReader::reset`; `false` is the stream's exception.
  unfoldable pub reader_reset : Stream B D → Bool × Stream B D
  reader_reset s = let (returned, d) = i.reset s.stream in (returned, record s { stream = d })

  unfoldable pub writer_flush : Stream B D → Option (Stream B D)
  writer_flush s = Option.map (λ d. record s { stream = d }) (i.flush s.stream)

  unfoldable pub writer_reset : Stream B D → Bool × Stream B D
  writer_reset s = let (returned, d) = i.reset s.stream in (returned, record s { stream = d })

  unfoldable pub flush : Stream B D → Option (Stream B D)
  flush s = reader_flush s

  unfoldable pub reset : Stream B D → Bool × Stream B D
  reset s = reader_reset s

  unfoldable pub is_open : Stream B D → Bool
  is_open s = i.is_open s.stream

  -- The last two arguments say whether the operating system lets the files be opened.
  unfoldable pub enable_io_dump : Stream B D → ℕ → ℕ → Bool → Bool → Bool → Stream B D
  enable_io_dump s rx_file tx_file append_mode rx_opens tx_opens =
      let r = Reader.enable_dump s.reader rx_file append_mode rx_opens in
      let s' : Stream B D = record s { reader = r } in
      let w = Writer.enable_dump (shared_writer s') tx_file append_mode tx_opens in
      record s' { reader = record r { env = record r.env { files = w.files } }; writer = w }

  unfoldable pub disable_io_dump : Stream B D → Stream B D
  disable_io_dump s = record s {
    reader = Reader.disable_dump s.reader;
    writer = Writer.disable_dump s.writer;
  }

module _ {B : Type 0} ⦃b : Streambuf B⦄ where
  -- `raw_reader` and `raw_writer` hold what the constructors leave uninitialised.
  unfoldable pub construct : {D : Type 0} → Reader B → Writer → D → Stream B D
  construct raw_reader raw_writer d = record {
    reader = Reader.construct raw_reader;
    writer = Writer.construct raw_writer;
    stream = d;
    queue = [];
  }

  -- `none` is an exception of the stream's constructor.
  unfoldable pub create : {D : Type 0} → Reader B → Writer → Bool × D → Option (Stream B D)
  create raw_reader raw_writer (returned, d) =
      if returned then some (construct raw_reader raw_writer d) else none

  unfoldable pub create_serial :
      {S : Type 0} ⦃k : SerialPorts S⦄
      → Reader B
      → Writer
      → ℕ
      → Parameters
      → Option (Stream B (Serial S))
  create_serial raw_reader raw_writer device params =
      create raw_reader raw_writer (Serial.construct device params)

  -- `remote` is what `make_address` and the port make.
  unfoldable pub create_tcp_client :
      {S E : Type 0} ⦃k : Sockets S E⦄ → Reader B → Writer → E → E → Option (Stream B (Tcp S E))
  create_tcp_client raw_reader raw_writer default_remote remote =
      create raw_reader raw_writer (Tcp.construct default_remote remote)

  unfoldable pub create_udp_client :
      {S E C : Type 0} ⦃k : Sockets S E⦄ → Reader B → Writer → E → E → Option (Stream B (Udp S E C))
  create_udp_client raw_reader raw_writer default_remote remote =
      create raw_reader raw_writer
        (Udp.construct raw_reader.mem default_buffer_size default_remote remote)
