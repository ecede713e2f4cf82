-- ===== src/Packets/Begin.antt =====
-- src/StreamReader.cpp, `async_read`, over src/UDPClientStream.cpp: the call itself.
use mathlib.Core.Option
use rtac_asio.Prelude.{
  ℕ, zero, suc, ◌+◌, ◌-◌, ◌^◌, ◌<◌, ◌≡◌, refl, ap, ◌∙◌, Bool, true, none, some, [], ◌∷◌, ◌>>=◌,
  arith,
}
use rtac_asio.Service.{submit, arm}
use rtac_asio.Streambuf.{Streambuf}
use rtac_asio.Udp.{Udp}
use rtac_asio.Udp.Window.{available_lem, async_read_some-waiting}
use rtac_asio.Reader.{Reader, Handler, Callback, read_continue, new_read, do_read_some}
use rtac_asio.Reader
use rtac_asio.Stream.Turns.{reader_at, awaiting}
use rtac_asio.Stream.Begin.{counted_reader, add_one, dry-size}
use rtac_asio.Packets.{Packets, facing, answer, settle, async_read}
use rtac_asio.Packets.Turns.{udp_at}
use rtac_asio.Packets.Arrive.{waiting}

module _ {B : Type 0} ⦃b : Streambuf B⦄ where
  -- Nothing is under way.
  abbrev pub idle_reader : Reader B → Reader B
  idle_reader r = record r {
    read_id = 0;
    rx_dump = none;
    env = record r.env { posted = []; pending = [] };
  }

  module _ (r : Reader B) (n a : ℕ) (c : Callback) where
    abbrev asking : ℕ → Reader B
    asking millis =
        let id : ℕ = r.read_counter + 1 in
        awaiting (reader_at (counted_reader r millis) n a c id 0 [] r.mem)
          (record { count = n; addr = a; handler = read_continue id })

    read-idle :
        (millis : ℕ)
        → b.contents r.read_buffer ≡ []
        → r.read_counter + 1 < 2 ^ 32
        → Reader.async_read (idle_reader r) n a c millis ≡ (true, asking millis)
    unfolding Reader.async_read new_read do_read_some Reader.dump_enabled submit arm
    read-idle zero dry small = rw (add_one r.read_counter small, dry-size r.read_buffer dry) refl
    read-idle (suc millis) dry small =
        rw (add_one r.read_counter small, dry-size r.read_buffer dry) refl

module _ {B S E : Type 0} ⦃b : Streambuf B⦄ where
  abbrev pub ready : Reader B → Udp S E Handler → S → Packets B S E
  ready r u s = record {
    reader = idle_reader r;
    udp = record u { socket = some s; buffer_begin = 0; buffer_end = 0; receives = [] };
  }

  module _ (r : Reader B) (n a : ℕ) (c : Callback) where
    pub async_read-ready :
        (u : Udp S E Handler) (s : S) (f millis : ℕ)
        → b.contents r.read_buffer ≡ []
        → r.read_counter + 1 < 2 ^ 32
        → async_read (suc f) (ready r u s) n a c millis
          ≡ some (
            true,
            waiting (counted_reader r millis) u s n a c (r.read_counter + 1) 0 r.mem u.buffer r.mem,
          )
    unfolding async_read settle answer
    async_read-ready u s f millis dry small =
        ap
          (λ x.
            Option.map {B = Bool × Packets B S E} (λ l. (x.0, l))
              (settle (suc f) x.1 (ready r u s).udp x.1.pending))
          (read-idle r n a c millis dry small)
        ∙ ap
            (λ o.
              Option.map {B = Bool × Packets B S E} (λ l. (true, l))
                (o >>= λ u'.
                  let l : Packets B S E =
                    answer
                      (record (asking r n a c millis) {
                        env = record (asking r n a c millis).env { pending = []; mem = u'.mem };
                      })
                      u' u'.calls in
                  settle f l.reader l.udp l.reader.pending))
            (async_read_some-waiting (facing (asking r n a c millis) (ready r u s).udp) n a
              (read_continue (r.read_counter + 1)) s
              (available_lem _ (omega arith) (omega arith) ∙ omega arith) refl)
        ∙ (λ i. some (
          true,
          record {
            reader = reader_at (counted_reader r millis) n a c (r.read_counter + 1) 0 [] r.mem;
            udp =
                udp_at u s u.buffer 0 0
                  (record {
                    count = all i;
                    addr = start i;
                    callback = read_continue (r.read_counter + 1);
                  }
                    ∷ [])
                  r.mem;
          },
        ))
      where
        all : n ≡ n - 0
        all = omega arith

        start : a ≡ a + 0
        start = omega arith
