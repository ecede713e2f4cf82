-- ===== src/Reader.antt =====
-- include/rtac_asio/StreamReader.h and src/StreamReader.cpp: the reader's state and its operations.
-- A call or a handler runs as a whole: what the mutexes of the class protect, and what stands last
-- in each function, makes the calls of `async_read_some` and `post` the last effects of each.
pub mod Until
pub mod Run
pub mod Order
pub mod Callbacks
pub mod Requests
pub mod Schedule
pub mod Progress
pub mod Liveness
pub mod Buffer
pub mod Delimiter
pub mod Lines
pub mod Line
pub mod Missed
pub mod Expiry
pub mod Scan
pub mod Leftover
pub mod Timeout
pub mod Waiter
pub mod Dump
mod Tests
pub mod Tap
pub mod Pieces
pub mod Whole
use rtac_asio.Prelude.{
  ℕ, zero, suc, ◌+◌, ◌-◌, Bool, true, false, ◌&&◌, Option, none, some, List, [], if◌then◌else◌,
  ◌==◌, ltb, add_uint, add_size,
}
use rtac_asio.Memory.{Bytes, poke, peek}
use rtac_asio.Service.{ErrorCode, success, Task, Env, post, submit, arm, append_file, put_file}
use rtac_asio.Streambuf.{Streambuf}

-- A caller's `std::function`, by a name, or the one that the synchronous operations bind.
pub data Callback : Type 0 where
  user : ℕ → Callback
  read_callback : Callback

-- The functions that the reader binds and hands to the stream or to the service.
pub data Handler : Type 0 where
  call : Callback → Handler
  read_some_continue : ℕ → Handler
  read_continue : ℕ → Handler
  read_until_continue : ℕ → ℕ → Handler
  dump_callback : Handler → ℕ → Handler

pub record Reader (B : Type 0) : Type 0 where
  pub read_counter : ℕ
  pub read_id : ℕ
  pub requested_size : ℕ
  pub processed : ℕ
  pub dst : ℕ
  pub callback : Callback
  pub waiter_notified : Bool
  pub read_buffer : B
  -- The name of the file that `rxDump_` has open.
  pub rx_dump : Option ℕ
  -- The callbacks that have run, with their arguments, oldest first.
  pub called : List (Task Callback)
  pub env : Env Handler
  pub open env use *

-- What a loop over `readBuffer_` leaves: the bytes counted, the memory and the buffer.
pub record Drained (B : Type 0) : Type 0 where
  pub got : ℕ
  pub bytes : Bytes
  pub rest : B

module _ {B : Type 0} where
  unfoldable pub dump_enabled : Reader B → Bool
  dump_enabled r = elim r.rx_dump [ none ↦ false | some _ ↦ true ]

  -- `opens` says whether the operating system lets the file be opened.
  unfoldable pub enable_dump : Reader B → ℕ → Bool → Bool → Reader B
  enable_dump r filename append_mode opens =
      if dump_enabled r
      then r
      else if opens
      then record r {
        rx_dump = some filename;
        env = record r.env {
          files = if append_mode then r.files else put_file r.files filename [];
        };
      }
      else r

  unfoldable pub disable_dump : Reader B → Reader B
  disable_dump r = record r { rx_dump = none }

  unfoldable pub new_read : Reader B → ℕ → ℕ → Callback → ℕ → Bool × Reader B
  unfolding arm
  new_read r requested_size addr callback timeout_millis =
      if r.read_id == 0
      then (
        true,
        record r {
          read_counter = add_uint r.read_counter 1;
          read_id = add_uint r.read_counter 1;
          requested_size = requested_size;
          processed = 0;
          dst = addr;
          callback = callback;
          env = arm r.env timeout_millis (add_uint r.read_counter 1);
        },
      )
      else (false, r)

  unfoldable pub finish_read : Reader B → ErrorCode → Reader B
  unfolding post
  finish_read r err =
      if r.read_id == 0
      then r
      else record r { read_id = 0; env = post r.env (call r.callback) err r.processed }

  unfoldable pub readid_ok : Reader B → ℕ → Bool
  readid_ok r read_id = read_id == r.read_id

  unfoldable pub timeout_reached : Reader B → ℕ → Reader B
  unfolding readid_ok
  timeout_reached r read_id =
      if readid_ok r read_id then finish_read (record r { waiter_notified = true }) success else r

  unfoldable pub async_read_some_continue : Reader B → ℕ → ErrorCode → ℕ → Reader B
  unfolding readid_ok
  async_read_some_continue r read_id err read_count =
      if readid_ok r read_id then finish_read (record r { processed = read_count }) err else r

  -- The loop of `dump_callback`.
  unfoldable pub dump_bytes : Reader B → ℕ → ErrorCode → ℕ → Reader B
  dump_bytes r addr err read_count =
      if err == success
      then (elim r.rx_dump [
        | none ↦ r
        | some name ↦ record r {
          env = record r.env { files = append_file r.files name (peek r.mem addr read_count) };
        }
      ])
      else r

module _ {B : Type 0} ⦃s : Streambuf B⦄ where
  -- `raw` holds what the constructor leaves uninitialised.
  unfoldable pub construct : Reader B → Reader B
  construct raw = record raw {
    read_counter = 0;
    read_id = 0;
    read_buffer = s.empty;
    rx_dump = none;
  }

  -- The reader's half of `flush`; the stream's is that of the component behind `stream_`.
  unfoldable pub flush : Reader B → Reader B
  flush r = record r { read_buffer = s.consume r.read_buffer (s.size r.read_buffer) }

  -- `while(!is.eof() && readCount < count)`: the first argument is `count - readCount`, and `c` is
  -- what the last `get` returned. `readCount++` runs below `count`, so it cannot wrap.
  unfoldable pub drain : ℕ → Option ℕ → ℕ → ℕ → Bytes → B → Drained B
  drain zero c read_count addr m b = record { got = read_count; bytes = m; rest = b }
  drain (suc k) none read_count addr m b = record { got = read_count; bytes = m; rest = b }
  drain (suc k) (some c) read_count addr m b =
      let (next, b') = s.get b in
      drain k next (read_count + 1) addr (poke m (addr + read_count) c) b'

  unfoldable pub drain_buffer : Reader B → ℕ → ℕ → Drained B
  unfolding drain
  drain_buffer r count addr = let (c, b) = s.get r.read_buffer in drain count c 0 addr r.mem b

  unfoldable pub do_read_some : Reader B → ℕ → ℕ → Handler → Reader B
  unfolding post submit
  do_read_some r count addr handler =
      if ltb 0 (s.size r.read_buffer)
      then (let d = drain_buffer r count addr in
          record r {
            read_buffer = d.rest;
            env = post (record r.env { mem = d.bytes }) handler success d.got;
          })
      else if dump_enabled r
      then record r { env = submit r.env count addr (dump_callback handler addr) }
      else record r { env = submit r.env count addr handler }

  unfoldable pub async_read_some : Reader B → ℕ → ℕ → Callback → ℕ → Bool × Reader B
  async_read_some r count addr callback timeout_millis =
      let (started, r') = new_read r count addr callback timeout_millis in
      if started
      then (true, do_read_some r' r'.requested_size r'.dst (read_some_continue r'.read_id))
      else (false, r')

  unfoldable pub async_read : Reader B → ℕ → ℕ → Callback → ℕ → Bool × Reader B
  async_read r count addr callback timeout_millis =
      let (started, r') = new_read r count addr callback timeout_millis in
      if started
      then (true, do_read_some r' r'.requested_size r'.dst (read_continue r'.read_id))
      else (false, r')

  unfoldable pub async_read_continue : Reader B → ℕ → ErrorCode → ℕ → Reader B
  unfolding readid_ok
  async_read_continue r read_id err read_count =
      if readid_ok r read_id
      then (let r' : Reader B = record r { processed = add_size r.processed read_count } in
          if err == success && ltb r'.processed r'.requested_size
          then do_read_some r' (r'.requested_size - r'.processed) (r'.dst + r'.processed)
              (read_continue read_id)
          else finish_read r' err)
      else r

  -- The synchronous `read`, up to the wait for `waiter_`. `false` is the early `return 0`.
  unfoldable pub read_begin : Reader B → ℕ → ℕ → ℕ → Bool × Reader B
  read_begin r count addr timeout_millis =
      let (started, r') = async_read r count addr read_callback timeout_millis in
      if started then (true, record r' { waiter_notified = false }) else (false, r')

  -- The wait's predicate and what stands behind it: `none` while the caller is blocked.
  unfoldable pub read_end : Reader B → Option ℕ
  read_end r = if r.waiter_notified then some r.processed else none
