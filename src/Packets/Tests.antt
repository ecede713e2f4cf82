-- ===== src/Packets/Tests.antt =====
-- The reader of src/StreamReader.cpp over the client of src/UDPClientStream.cpp, with a buffer of 4
-- bytes, at concrete inputs.
use rtac_asio.Prelude.{ℕ, ◌≡◌, refl, true, false, none, some, List, [], ◌∷◌, arith}
use rtac_asio.Memory.{fill}
use rtac_asio.Service.{success}
use rtac_asio.Streambuf.{list_streambuf}
use rtac_asio.Socket.{Plug}
use rtac_asio.Udp.Window.{window}
use rtac_asio.Reader.{user, read_callback, call}
use rtac_asio.Packets.{Packets}
use rtac_asio.Packets.Whole.{IsReady, read_then, async_read-arrivals}

abbrev plug : Plug
plug = record { opened = true; peer = true }

-- Both as they are constructed, with a socket.
abbrev fresh : Packets (List ℕ) Plug ℕ
fresh = record {
  reader = record {
    read_counter = 0;
    read_id = 0;
    requested_size = 0;
    processed = 0;
    dst = 0;
    callback = read_callback;
    waiter_notified = false;
    read_buffer = [];
    rx_dump = none;
    called = [];
    env = record { mem = λ _. 0; posted = []; pending = []; waits = []; files = λ _. [] };
  };
  udp = record {
    socket = some plug;
    remote = 7;
    size = 4;
    buffer = λ _. 0;
    buffer_begin = 0;
    buffer_end = 0;
    mem = λ _. 0;
    receives = [];
    calls = [];
    sends = [];
    written = [];
  };
}

fresh-IsReady : IsReady fresh
fresh-IsReady = record {
  socket = plug;
  linked = refl;
  window_begin = refl;
  window_end = refl;
  unasked = refl;
  small = omega arith;
  idle = refl;
  undumped = refl;
  dry = refl;
  posted = refl;
  pending = refl;
  counter = omega arith;
}

-- Three bytes, a datagram of none, and three bytes of which the read takes two.
async_read-arrivals_example :
    (t : Packets (List ℕ) Plug ℕ) × (read_then 1 fresh 5 100
        (user 1)
        0
        ((1 ∷ 2 ∷ 3 ∷ []) ∷ [] ∷ (4 ∷ 5 ∷ 6 ∷ []) ∷ [])
      ≡ some (true, t))
    × (t.reader.mem ≡ fill (λ _. 0) 100 (1 ∷ 2 ∷ 3 ∷ 4 ∷ 5 ∷ []))
    × (t.reader.posted ≡ record { handler = call (user 1); err = success; count = 5 } ∷ [])
    × (t.reader.read_id ≡ 0)
    × (t.reader.processed ≡ 5)
    × (t.udp.receives ≡ [])
    × (window t.udp ≡ 6 ∷ [])
async_read-arrivals_example =
    async_read-arrivals fresh 5 100 (user 1) 0 0 ((1 ∷ 2 ∷ 3 ∷ []) ∷ [] ∷ []) (4 ∷ 5 ∷ 6 ∷ [])
      fresh-IsReady (omega arith) (omega arith) (omega arith)
