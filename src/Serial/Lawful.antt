-- ===== src/Serial/Lawful.antt =====
-- src/SerialStream.cpp as a stream behind the virtual operations.
use rtac_asio.Interface.{IsLawful, handed-Answers}
use rtac_asio.SerialPort.{SerialPorts}
use rtac_asio.Serial.{Serial, serial_stream, async_read_some, async_write_some}

pub serial_stream-IsLawful : {S : Type 0} ⦃k : SerialPorts S⦄ → IsLawful (Serial S)
unfolding async_read_some async_write_some
serial_stream-IsLawful = record {
  reads = λ d d' e e' n p h eq. (handed-Answers d.serial d d' e e' n p h eq).0;
  writes = λ d d' e e' n p h eq. handed-Answers d.serial d d' e e' n p h eq;
}
