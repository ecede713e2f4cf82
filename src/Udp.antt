-- ===== src/Udp.antt =====
-- include/rtac_asio/UDPClientStream.h and src/UDPClientStream.cpp: a datagram is received into `buffer_`
-- as a whole, and reads are served from it.
pub mod Window
pub mod Arrival
pub mod Conserve
pub mod Deliver
pub mod Overlap
pub mod Connect
mod Tests
use rtac_asio.Prelude.{
  ℕ, ◌+◌, Bool, Option, none, some, List, [], ◌∷◌, ◌++◌, if◌then◌else◌, ◌==◌, ltb, leb, sub_size,
  length, take,
}
use rtac_asio.Memory.{Bytes, peek, fill}
use rtac_asio.Service.{ErrorCode, success, Request, Task}
use rtac_asio.Socket.{Sockets}
use rtac_asio.Tcp.{Tcp}
use rtac_asio.Tcp

-- The arguments that `async_receive`'s handler binds: `receive_continue` with a read's.
pub record Receive (C : Type 0) : Type 0 where
  pub count : ℕ
  pub addr : ℕ
  pub callback : C

-- A call of a read's callback, and what it finds at the first `count` bytes of the read's buffer.
pub record Call (C : Type 0) : Type 0 where
  pub callback : C
  pub err : ErrorCode
  pub count : ℕ
  pub seen : List ℕ

-- The vector `buffer_` has `size` bytes; its iterators are indices. `mem` is the callers' memory,
-- `receives` are the operations that the socket has in hand, oldest first.
pub record Udp (S E C : Type 0) : Type 0 where
  pub socket : Option S
  pub remote : E
  pub size : ℕ
  pub buffer : Bytes
  pub buffer_begin : ℕ
  pub buffer_end : ℕ
  pub mem : Bytes
  pub receives : List (Receive C)
  pub calls : List (Call C)
  -- The writes that the socket has in hand, oldest first, and the calls of their callbacks.
  pub sends : List (Request C)
  pub written : List (Task C)

module _ {S E C : Type 0} where
  -- `bufferEnd_ - bufferBegin_`, as a `std::size_t`.
  unfoldable pub available : Udp S E C → ℕ
  available u = sub_size u.buffer_end u.buffer_begin

  unfoldable pub flush : Udp S E C → Udp S E C
  flush u = record u { buffer_begin = 0; buffer_end = 0 }

  -- `callback(err, count)`, for a read whose buffer is at `addr`.
  unfoldable pub call : Udp S E C → ℕ → C → ErrorCode → ℕ → Udp S E C
  call u addr callback err count = record u {
    calls =
        u.calls
        ++ record { callback = callback; err = err; count = count; seen = peek u.mem addr count }
          ∷ [];
  }

  -- `none` is the use of a null `socket_`.
  unfoldable pub async_read_some : Udp S E C → ℕ → ℕ → C → Option (Udp S E C)
  async_read_some u buffer_size addr callback =
      let buffered = available u in
      if ltb 0 buffered
      then some (
          if leb buffered buffer_size
          then call
              (record u {
                mem = fill u.mem addr (peek u.buffer u.buffer_begin buffered);
                buffer_begin = 0;
                buffer_end = 0;
              })
              addr callback success buffered
          else call
              (record u {
                mem = fill u.mem addr (peek u.buffer u.buffer_begin buffer_size);
                buffer_begin = u.buffer_begin + buffer_size;
              })
              addr callback success buffer_size)
      else elim u.socket [
        | none ↦ none
        | some _ ↦ some (record u {
          receives =
              u.receives ++ record { count = buffer_size; addr = addr; callback = callback } ∷ [];
        })
      ]

  unfoldable pub receive_continue : Udp S E C → ℕ → ℕ → C → ErrorCode → ℕ → Option (Udp S E C)
  receive_continue u buffer_size addr callback err received =
      let u' : Udp S E C = record u { buffer_end = u.buffer_end + received } in
      if err == success
      then async_read_some u' buffer_size addr callback
      else some (call u' addr callback err 0)

  -- The socket ends its oldest operation: it has put a datagram, as much of it as fits, at the start
  -- of `buffer_`.
  unfoldable pub complete : Udp S E C → List ℕ → ErrorCode → Option (Udp S E C)
  complete u datagram err = elim u.receives [
    | [] ↦ some u
    | q ∷ qs ↦
        receive_continue
          (record u { buffer = fill u.buffer 0 (take u.size datagram); receives = qs }) q.count
          q.addr q.callback err (length (take u.size datagram))
  ]

  -- `async_send`; `none` is the use of a null `socket_`.
  unfoldable pub async_write_some : Udp S E C → ℕ → ℕ → C → Option (Udp S E C)
  async_write_some u count addr callback = elim u.socket [
    | none ↦ none
    | some _ ↦ some (record u {
      sends = u.sends ++ record { count = count; addr = addr; handler = callback } ∷ [];
    })
  ]

  -- The socket ends its oldest write: it calls the callback itself.
  unfoldable pub complete_send : Udp S E C → List (Request C) → ErrorCode → ℕ → Udp S E C
  complete_send u [] err sent = u
  complete_send u (q ∷ qs) err sent = record u {
    sends = qs;
    written = u.written ++ record { handler = q.handler; err = err; count = sent } ∷ [];
  }

module _ {S E C : Type 0} ⦃k : Sockets S E⦄ where
  unfoldable pub is_open : Udp S E C → Bool
  is_open u = elim u.socket [ none ↦ Bool.false | some s ↦ k.is_open s ]

  -- The text of TCPClientStream::close, on this class's `socket_`.
  unfoldable pub close : Udp S E C → Udp S E C
  close u = record u {
    socket = (Tcp.close (record { socket = u.socket; remote = u.remote })).socket;
  }

  -- `false` is an exception of `connect`; the new socket stays.
  unfoldable pub reset : Udp S E C → Bool × Udp S E C
  reset u =
      let u' = flush (close u) in
      let (s, connected) = k.connect k.fresh u'.remote in (connected, record u' { socket = some s })

  unfoldable pub reset_to : Udp S E C → E → Bool × Udp S E C
  reset_to u remote = reset (record u { remote = remote })

  -- The vector holds `buffer_size` zeros; `remote_` is default-constructed, then `reset` with what
  -- `make_address` made of the address.
  unfoldable pub construct : Bytes → ℕ → E → E → Bool × Udp S E C
  construct m buffer_size default_remote remote =
      reset_to
        (record {
          socket = none;
          remote = default_remote;
          size = buffer_size;
          buffer = λ _. 0;
          buffer_begin = 0;
          buffer_end = 0;
          mem = m;
          receives = [];
          calls = [];
          sends = [];
          written = [];
        })
        remote
