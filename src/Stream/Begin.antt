-- ===== src/Stream/Begin.antt =====
-- src/Stream.cpp over include/rtac_asio/StringStream.h: the calls that an exchange begins with.
use rtac_asio.Prelude.{
  ℕ, zero, suc, ◌+◌, ◌^◌, ◌<◌, ◌≡◌, refl, ap, true, false, none, some, List, [], ◌∷◌, ◌++◌, length,
  ltb, add_uint, arith, le→not-ltb,
}
use rtac_asio.Service.{post, submit, arm}
use rtac_asio.Streambuf.{Streambuf}
use rtac_asio.CircularBuffer.{CircularBuffer}
use rtac_asio.StringStream.{StringStream, Loop, read_loop, write_loop, string_stream}
use rtac_asio.StringStream
use rtac_asio.Reader.{Reader, new_read, do_read_some}
use rtac_asio.Reader
use rtac_asio.Writer.{Writer, new_write, do_write_some}
use rtac_asio.Writer
use rtac_asio.Stream.{
  Side, reading, writing, Stream, hand_over, shared_writer, after_reader, after_writer, async_write,
  async_read,
}
use rtac_asio.Stream.Turns.{writer_at, reader_at}
use rtac_asio.Stream.Exchange.{written, got}

-- A writer and a reader as the calls leave them: the counters and the timers.
abbrev pub counted_writer : Writer → ℕ → Writer
counted_writer w millis = record w {
  write_counter = w.write_counter + 1;
  env = record w.env { waits = (arm w.env millis (w.write_counter + 1)).waits };
}

abbrev pub counted_reader : {B : Type 0} → Reader B → ℕ → Reader B
counted_reader r millis = record r {
  read_counter = r.read_counter + 1;
  env = record r.env { waits = (arm r.env millis (r.read_counter + 1)).waits };
}

pub add_one : (n : ℕ) → n + 1 < 2 ^ 32 → add_uint n 1 ≡ n + 1
add_one n small = omega arith

pub dry-size : {B : Type 0} ⦃b : Streambuf B⦄ (o : B) → b.contents o ≡ [] → ltb 0 (b.size o) ≡ false
dry-size ⦃b⦄ o dry = le→not-ltb 0 (b.size o) (omega (arith, b.size_lem o, ap length dry))

module _ {B K : Type 0} ⦃b : Streambuf B⦄ ⦃k : CircularBuffer K⦄ where
  -- Nothing is under way, posted or dumped.
  abbrev pub resting : Reader B → Writer → K → Stream B (StringStream K)
  resting r w o = record {
    reader = record r {
      read_id = 0;
      rx_dump = none;
      env = record r.env { posted = []; pending = [] };
    };
    writer = record w {
      write_id = 0;
      tx_dump = none;
      env = record w.env { posted = []; pending = [] };
    };
    stream = record { buffer = o };
    queue = [];
  }

  module _ (r : Reader B) (w : Writer) (o : K) (n a : ℕ) (c : Writer.Callback) where
    abbrev pub one_writing : ℕ → Stream B (StringStream K)
    one_writing millis =
        let l : Loop K = write_loop n 0 a r.mem o in
        let id : ℕ = w.write_counter + 1 in
        record (resting r w o) {
          writer =
              writer_at (counted_writer w millis) n a c id 0 (written id l.counted ∷ []) r.mem
                r.files;
          stream = record { buffer = l.rest };
          queue = writing ∷ [];
        }

    pub async_write-resting :
        (millis : ℕ)
        → w.write_counter + 1 < 2 ^ 32
        → async_write (resting r w o) n a c millis ≡ some (true, one_writing millis)
    unfolding async_write Writer.async_write new_write do_write_some Writer.dump_enabled submit arm
        shared_writer after_writer hand_over StringStream.async_write_some post
    async_write-resting zero small = rw (add_one w.write_counter small) refl
    async_write-resting (suc millis) small = rw (add_one w.write_counter small) refl

  module _ (r : Reader B) (w w' : Writer) (o o' : K) (q : List Side) (n d : ℕ)
      (c : Reader.Callback) where
    -- The reader rests, whatever the writer does.
    abbrev pub reader_resting : Stream B (StringStream K)
    reader_resting = record (resting r w o) {
      writer = w';
      stream = record { buffer = o' };
      queue = q;
    }

    abbrev pub one_reading : ℕ → Stream B (StringStream K)
    one_reading millis =
        let l : Loop K = read_loop n 0 d r.mem o' in
        let id : ℕ = r.read_counter + 1 in
        record {
          reader = reader_at (counted_reader r millis) n d c id 0 (got id l.counted ∷ []) l.memory;
          writer = w';
          stream = record { buffer = l.rest };
          queue = q ++ reading ∷ [];
        }

    pub async_read-resting :
        (millis : ℕ)
        → b.contents r.read_buffer ≡ []
        → r.read_counter + 1 < 2 ^ 32
        → async_read reader_resting n d c millis ≡ some (true, one_reading millis)
    unfolding async_read Reader.async_read new_read do_read_some Reader.dump_enabled submit arm
        after_reader hand_over StringStream.async_read_some post
    async_read-resting zero dry small =
        rw (add_one r.read_counter small, dry-size r.read_buffer dry) refl
    async_read-resting (suc millis) dry small =
        rw (add_one r.read_counter small, dry-size r.read_buffer dry) refl
