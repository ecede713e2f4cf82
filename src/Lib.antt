-- ===== src/Lib.antt =====
-- rtac_asio: timed, buffered reads and writes of bytes on a serial port, a UDP or TCP client or a string,
-- over boost::asio. A program talks to a StreamReader and a StreamWriter; these ask a StreamInterface
-- for bytes and hand finished requests to the AsyncService, which calls the callbacks.
--
-- The files, and what they model:
--   Prelude, Prelude/Lists: names passed on, Boolean tests and lists over the native numbers, and the
--     wrap-around of `unsigned int` (2 ^ 32) and `std::size_t` (2 ^ 64).
--   Memory: the bytes that pointers point to, as a function of the address.
--   Service: include/rtac_asio/StreamInterface.h and AsyncService::post of src/AsyncService.cpp. `Env` is
--     what an operation acts on beyond its own object: memory, the queue of posted functions, the
--     operations that the stream has in hand, the timer's waits, the files. Service/Files has the dumps.
--   Streambuf: `boost::asio::streambuf`, an interface with what its documentation says.
--   Reader: include/rtac_asio/StreamReader.h and src/StreamReader.cpp. One function per method, with the
--     method's name; `drain` is the loop of `do_read_some`, `read_begin` and `read_end` are `read` up to
--     its wait and behind it, `dump_bytes` is `dump_callback` up to the call of the callback. Reader/Until
--     has `async_read_until`, its continuation and `read_until`. Reader/Run has the calls of the bound
--     functions and schedules of events; the other files there hold the proofs.
--   Writer: include/rtac_asio/StreamWriter.h and src/StreamWriter.cpp, in the same way.
--   Socket, Tcp: the sockets of boost::asio, an interface, and src/TCPClientStream.cpp over it.
--   Udp: include/rtac_asio/UDPClientStream.h and src/UDPClientStream.cpp. The vector `buffer_` is a function
--     of the index with a size, its iterators are indices; `complete` is a receive that the socket ends.
--   Packets: src/StreamReader.cpp over src/UDPClientStream.cpp. `settle` hands what the reader asks for to
--     the client, and the call that the client makes at once to the reader, in turns; `arrive` is a
--     datagram at the socket. Packets/Begin, Turns and Arrive are the stages of a read.
--   Async: the thread of include/rtac_asio/AsyncService.h and src/AsyncService.cpp. `step` is a turn of one
--     thread between two points where others can come in; Async/Start, Async/Stop and Async/Race follow
--     schedules of such turns, Async/Wake has what holds while `start` waits, Async/Exclusive is about
--     the threads in `run`. Async/Guard has the timer that keeps the io_context busy, and the functions
--     that the io_context has to call, of which it chooses any; Async/Busy is about several runs.
--   CircularBuffer, StringStream: `boost::circular_buffer`, an interface, and
--     include/rtac_asio/StringStream.h over it.
--   Interface: include/rtac_asio/StreamInterface.h, the virtual operations as a record with the contract
--     of a call (`Answers`). StringStream, Tcp and Serial fill it; their Lawful modules have the contract.
--   Stream: include/rtac_asio/Stream.h and src/Stream.cpp. A reader, a writer and the stream behind both;
--     `queue` says whose each function of the service's queue is. Each method runs the reader's or the
--     writer's, then `hand_over` makes the calls of the stream that this left. Stream/Run has the rounds
--     of the service and schedules of events, Stream/Turns, Exchange, Begin and Loopback the stages of an
--     exchange over a StringStream, Stream/Handed, Attended, Kept and Total those of the proofs about any
--     stream, Stream/Transparent, Trace, Seen and Simulate those about a stream that leaves operations in
--     hand, Stream/Control has `start`, `stop` and `run`.
--   SerialPort, Serial: `boost::asio::serial_port` and `tcflush`, an interface, and
--     include/rtac_asio/SerialStream.h and src/SerialStream.cpp over it.
--
-- A bound function (`std::bind`) is a value of `Handler`, called by `run_handler`. Methods and
-- handlers of the reader and the writer run one at a time, as a whole: their mutexes guard single
-- accesses only, and interleavings inside a method are not modelled. A schedule is a list of events,
-- in any order: calls, completions with any count and error, timers, and rounds of the service.
-- The service is taken to run posted functions in the order in which they were posted, where the order
-- matters (Service, Stream). `std::function` objects of the program are names, of which only the calls
-- are seen. Exceptions of sockets and ports are values. A `char` is its value as an `int`, modulo 2 ^ 32,
-- so that a delimiter may be negative, where `char` is signed, or not.
--
-- Fuel: `rounds` runs the given number of functions of the queue; a theorem says how many are enough. The
-- loops over `readBuffer_` run on the buffer's size and one more; each round takes a byte.
-- In `settle` the fuel counts the turns between a reader and a UDP client; a theorem says how many are
-- enough. Loops over a count are structural.
--
-- Not modelled: a writer beside the reader over UDPClientStream, which calls callbacks inside
-- `async_read_some` and not through the queue; `async_read_until` over it; the text of messages; an
-- exception that leaves a handler in the service's own thread, which ends the program; `make_address`.
pub mod Prelude
pub mod Memory
pub mod Service
pub mod Interface
pub mod Streambuf
pub mod Reader
pub mod Writer
pub mod Socket
pub mod Tcp
pub mod Udp
pub mod Async
pub mod CircularBuffer
pub mod StringStream
pub mod SerialPort
pub mod Serial
pub mod Packets
pub mod Stream
