-- ===== src/Packets.antt =====
-- src/StreamReader.cpp over src/UDPClientStream.cpp. The client calls a read's callback inside
-- `async_read_some` when bytes are buffered, so the reader's functions and the client's alternate
-- until the client waits for a datagram or the reader is done.
pub mod Turns
pub mod Arrive
pub mod Begin
pub mod Whole
mod Tests
use mathlib.Core.Option
use rtac_asio.Prelude.{ℕ, zero, suc, Bool, Option, none, some, List, [], ◌∷◌, ◌>>=◌}
use rtac_asio.Service.{ErrorCode, Request}
use rtac_asio.Streambuf.{Streambuf}
use rtac_asio.Udp.{Udp, Call}
use rtac_asio.Udp
use rtac_asio.Reader.{Reader, Handler, Callback}
use rtac_asio.Reader
use rtac_asio.Reader.Run as ReaderRun

-- Memory is the reader's; the client sees it while one of its functions runs.
pub record Packets (B S E : Type 0) : Type 0 where
  pub reader : Reader B
  pub udp : Udp S E Handler

-- The client with memory as it is; the list that `call` adds to then holds the call that it makes now.
abbrev pub facing : {S E : Type 0} {B : Type 0} → Reader B → Udp S E Handler → Udp S E Handler
facing r u = record u { mem = r.mem; calls = [] }

module _ {B S E : Type 0} ⦃b : Streambuf B⦄ where
  -- The client has made at most one call, as the last thing that it did.
  unfoldable pub answer : Reader B → Udp S E Handler → List (Call Handler) → Packets B S E
  answer r u [] = record { reader = r; udp = u }
  answer r u (c ∷ cs) = record {
    reader = ReaderRun.run_handler c.callback r c.err c.count;
    udp = record u { calls = [] };
  }

  -- What the reader asks for goes to the client, and so on with what the client's call makes the reader
  -- ask for; fuel bounds the alternation. `none` is a null pointer, or too little fuel.
  unfoldable pub settle :
      ℕ → Reader B → Udp S E Handler → List (Request Handler) → Option (Packets B S E)
  unfolding answer
  settle fuel r u [] = some (record { reader = r; udp = u })
  settle zero r u (q ∷ qs) = none
  settle (suc fuel) r u (q ∷ qs) = do
    u' ← Udp.async_read_some (facing r u) q.count q.addr q.handler
    let l : Packets B S E =
        answer (record r { env = record r.env { pending = qs; mem = u'.mem } }) u' u'.calls
    settle fuel l.reader l.udp l.reader.pending

  unfoldable pub async_read :
      ℕ → Packets B S E → ℕ → ℕ → Callback → ℕ → Option (Bool × Packets B S E)
  unfolding settle
  async_read fuel l count addr callback timeout_millis =
      let (started, r) = Reader.async_read l.reader count addr callback timeout_millis in
      Option.map (λ l'. (started, l')) (settle fuel r l.udp r.pending)

  -- The socket ends its oldest receive.
  unfoldable pub arrive : ℕ → Packets B S E → List ℕ → ErrorCode → Option (Packets B S E)
  unfolding settle answer
  arrive fuel l datagram err = do
    u ← Udp.complete (facing l.reader l.udp) datagram err
    let l' : Packets B S E =
        answer (record l.reader { env = record l.reader.env { mem = u.mem } }) u u.calls
    settle fuel l'.reader l'.udp l'.reader.pending

  -- Datagrams, one after the other.
  unfoldable pub arrivals : ℕ → List (List ℕ) → Packets B S E → Option (Packets B S E)
  arrivals fuel [] l = some l
  arrivals fuel (d ∷ ds) l = arrive fuel l d 0 >>= arrivals fuel ds
