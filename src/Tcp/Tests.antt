-- ===== src/Tcp/Tests.antt =====
-- The client of src/TCPClientStream.cpp on the sockets of Socket.antt.
use rtac_asio.Prelude.{ℕ, ◌≡◌, ◌≢◌, ◌⊎◌, refl, true, false, some, none, arith}
use rtac_asio.Service.{success}
use rtac_asio.Socket.{Plug, plug_sockets, plug_shutdown}
use rtac_asio.Tcp.{
  Tcp, is_open, close, close_on, reset, reset_to, construct, flush, close_lem, close_keeps_open,
}

abbrev good : Plug
good = record { opened = true; peer = true }

-- The peer of this one has gone.
abbrev broken : Plug
broken = record { opened = true; peer = false }

abbrev client : Tcp Plug ℕ
client = record { socket = some good; remote = 7 }

constructed : construct 0 7 ≡ (true, client)
unfolding construct reset_to reset close close_on is_open flush
constructed = refl

refused : (construct {S = Plug} {E = ℕ} 7 0).0 ≡ false
unfolding construct reset_to reset close close_on is_open flush
refused = refl

closed : close client ≡ record { socket = none; remote = 7 }
unfolding close close_on is_open
closed = refl

close_lem_example :
    ((is_open (close client) ≡ false) × ((close client).remote ≡ 7))
    ⊎ ((s : Plug) × (some good ≡ some s)
        × ((plug_shutdown s).1 ≢ success)
        × (is_open (close client) ≡ true)
        × ((close client).remote ≡ 7))
close_lem_example = close_lem client

close_keeps_open_example :
    is_open (close {S = Plug} {E = ℕ} (record { socket = some broken; remote = 7 })) ≡ true
close_keeps_open_example = close_keeps_open broken broken 7 refl (omega arith) refl
