-- ===== src/Writer.antt =====
-- include/rtac_asio/StreamWriter.h and src/StreamWriter.cpp: the writer's state and its operations. As
-- in the reader, a call or a handler runs as a whole.
pub mod Run
pub mod Order
pub mod Callbacks
pub mod Requests
pub mod Schedule
pub mod Progress
pub mod Liveness
pub mod Expiry
pub mod Pieces
pub mod Whole
pub mod Quiet
mod Tests
use rtac_asio.Prelude.{
  ℕ, ◌+◌, ◌-◌, Bool, true, false, ◌&&◌, Option, none, some, List, [], if◌then◌else◌, ◌==◌, ltb,
  add_uint, add_size,
}
use rtac_asio.Memory.{peek}
use rtac_asio.Service.{ErrorCode, success, Task, Env, post, submit, arm, append_file, put_file}

-- A caller's `std::function`, by a name, or the one that the synchronous `write` binds.
pub data Callback : Type 0 where
  user : ℕ → Callback
  write_callback : Callback

-- The functions that the writer binds and hands to the stream or to the service.
pub data Handler : Type 0 where
  call : Callback → Handler
  write_some_continue : ℕ → Handler
  write_continue : ℕ → Handler
  dump_callback : Handler → ℕ → Handler

pub record Writer : Type 0 where
  pub write_counter : ℕ
  pub write_id : ℕ
  pub requested_size : ℕ
  pub processed : ℕ
  pub src : ℕ
  pub callback : Callback
  pub waiter_notified : Bool
  -- The name of the file that `txDump_` has open.
  pub tx_dump : Option ℕ
  -- The callbacks that have run, with their arguments, and the bytes that the stream has taken, both
  -- oldest first.
  pub called : List (Task Callback)
  pub sent : List ℕ
  pub env : Env Handler
  pub open env use *

-- `raw` holds what the constructor leaves uninitialised.
unfoldable pub construct : Writer → Writer
construct raw = record raw { write_counter = 0; write_id = 0; tx_dump = none }

unfoldable pub dump_enabled : Writer → Bool
dump_enabled w = elim w.tx_dump [ none ↦ false | some _ ↦ true ]

-- `opens` says whether the operating system lets the file be opened.
unfoldable pub enable_dump : Writer → ℕ → Bool → Bool → Writer
enable_dump w filename append_mode opens =
    if dump_enabled w
    then w
    else if opens
    then record w {
      tx_dump = some filename;
      env = record w.env { files = if append_mode then w.files else put_file w.files filename [] };
    }
    else w

unfoldable pub disable_dump : Writer → Writer
disable_dump w = record w { tx_dump = none }

-- `dump_callback` up to its last line.
unfoldable pub dump_bytes : Writer → ℕ → ErrorCode → ℕ → Writer
dump_bytes w addr err written_count =
    if err == success
    then (elim w.tx_dump [
      | none ↦ w
      | some name ↦ record w {
        env = record w.env { files = append_file w.files name (peek w.mem addr written_count) };
      }
    ])
    else w

unfoldable pub new_write : Writer → ℕ → ℕ → Callback → ℕ → Bool × Writer
new_write w requested_size addr callback timeout_millis =
    if w.write_id == 0
    then (
      true,
      record w {
        write_counter = add_uint w.write_counter 1;
        write_id = add_uint w.write_counter 1;
        requested_size = requested_size;
        processed = 0;
        src = addr;
        callback = callback;
        env = arm w.env timeout_millis (add_uint w.write_counter 1);
      },
    )
    else (false, w)

unfoldable pub finish_write : Writer → ErrorCode → Writer
unfolding post
finish_write w err =
    if w.write_id == 0
    then w
    else record w { write_id = 0; env = post w.env (call w.callback) err w.processed }

unfoldable pub writeid_ok : Writer → ℕ → Bool
writeid_ok w write_id = write_id == w.write_id

unfoldable pub timeout_reached : Writer → ℕ → Writer
unfolding writeid_ok
timeout_reached w write_id =
    if writeid_ok w write_id then finish_write (record w { waiter_notified = true }) success else w

unfoldable pub do_write_some : Writer → ℕ → ℕ → Handler → Writer
unfolding submit
do_write_some w count addr handler =
    if dump_enabled w
    then record w { env = submit w.env count addr (dump_callback handler addr) }
    else record w { env = submit w.env count addr handler }

unfoldable pub async_write_some : Writer → ℕ → ℕ → Callback → ℕ → Bool × Writer
async_write_some w count addr callback timeout_millis =
    let (started, w') = new_write w count addr callback timeout_millis in
    if started
    then (true, do_write_some w' w'.requested_size w'.src (write_some_continue w'.write_id))
    else (false, w')

unfoldable pub async_write_some_continue : Writer → ℕ → ErrorCode → ℕ → Writer
unfolding writeid_ok
async_write_some_continue w write_id err written_count =
    if writeid_ok w write_id then finish_write (record w { processed = written_count }) err else w

unfoldable pub async_write : Writer → ℕ → ℕ → Callback → ℕ → Bool × Writer
async_write w count addr callback timeout_millis =
    let (started, w') = new_write w count addr callback timeout_millis in
    if started
    then (true, do_write_some w' w'.requested_size w'.src (write_continue w'.write_id))
    else (false, w')

unfoldable pub async_write_continue : Writer → ℕ → ErrorCode → ℕ → Writer
unfolding writeid_ok
async_write_continue w write_id err written_count =
    if writeid_ok w write_id
    then (let w' : Writer = record w { processed = add_size w.processed written_count } in
        if err == success && ltb w'.processed w'.requested_size
        then do_write_some w' (w'.requested_size - w'.processed) (w'.src + w'.processed)
            (write_continue write_id)
        else finish_write w' err)
    else w

-- The synchronous `write`, up to the wait for `waiter_`. `false` is the early `return 0`.
unfoldable pub write_begin : Writer → ℕ → ℕ → ℕ → Bool × Writer
write_begin w count addr timeout_millis =
    let (started, w') = async_write w count addr write_callback timeout_millis in
    if started then (true, record w' { waiter_notified = false }) else (false, w')

-- The wait's predicate and what stands behind it: `none` while the caller is blocked.
unfoldable pub write_end : Writer → Option ℕ
write_end w = if w.waiter_notified then some w.processed else none
