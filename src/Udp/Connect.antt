-- ===== src/Udp/Connect.antt =====
-- src/UDPClientStream.cpp: the connection's life.
use rtac_asio.Prelude.{◌≡◌, ◌⊎◌, inl, inr, refl, true, false, some, Bool-cases}
use rtac_asio.Socket.{Sockets}
use rtac_asio.Udp.{Udp, flush, is_open, close, reset, reset_to}

module _ {S E C : Type 0} ⦃k : Sockets S E⦄ where
  -- After `reset` to an end point, the client has a new socket, connected to it, and an empty window,
  -- whatever state it was in; what the socket had in hand stays to be called back. If `connect`
  -- throws, so does `reset`; if not, the connection is open.
  pub reset_to_connects :
      (u : Udp S E C) (e : E)
      → ((reset_to u e).1 ≡ record u {
        socket = some (k.connect k.fresh e).0;
        remote = e;
        buffer_begin = 0;
        buffer_end = 0;
      })
        × ((reset_to u e).0 ≡ (k.connect k.fresh e).1)
        × (((reset_to u e).0 ≡ false) ⊎ (is_open (reset_to u e).1 ≡ true))
  unfolding reset_to reset flush close is_open
  reset_to_connects u e = (
    refl,
    refl,
    elim (Bool-cases (k.connect k.fresh e).1) [
      | inl connected ↦ inr (k.connect_open k.fresh e connected)
      | inr threw ↦ inl threw
    ],
  )
