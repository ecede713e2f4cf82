-- ===== src/Tcp/Lawful.antt =====
-- src/TCPClientStream.cpp as a stream behind the virtual operations.
use rtac_asio.Interface.{IsLawful, handed-Answers}
use rtac_asio.Socket.{Sockets}
use rtac_asio.Tcp.{Tcp, tcp_stream, async_read_some, async_write_some}

pub tcp_stream-IsLawful : {S E : Type 0} ⦃k : Sockets S E⦄ → IsLawful (Tcp S E)
unfolding async_read_some async_write_some
tcp_stream-IsLawful = record {
  reads = λ d d' e e' n p h eq. (handed-Answers d.socket d d' e e' n p h eq).0;
  writes = λ d d' e e' n p h eq. handed-Answers d.socket d d' e e' n p h eq;
}
