-- ===== src/Reader/Tests.antt =====
-- The reader of src/StreamReader.cpp at concrete inputs: runs, and the theorems applied.
use rtac_asio.Prelude.{
  if◌then◌else◌, ◌==◌, ℕ, ◌-◌, ◌^◌, ◌<◌, ◌≡◌, ◌≢◌, refl, true, false, none, some, List, [], ◌∷◌,
  inl, arith,
}
use rtac_asio.Memory.{peek, fill}
use rtac_asio.Service.{success, Env, post, submit, arm}
use rtac_asio.Streambuf.{list_streambuf}
use rtac_asio.Reader.{
  Callback, user, read_callback, Handler, call, read_continue, read_until_continue, Reader,
  new_read, finish_read, do_read_some, async_read_some, async_read, dump_enabled, timeout_reached,
  async_read_continue, read_begin, read_end, construct,
}
use rtac_asio.Reader.Until.{char_byte, async_read_until, async_read_until_continue}
use rtac_asio.Reader.Run.{
  Event, read_some, read_all, sync_read, completes, timer, serves, run, step, run_handler,
  complete_at, timer_at, serve, invoke,
}
use rtac_asio.Reader.Order.{in_order}
use rtac_asio.Reader.Schedule.{run-in_order}
use rtac_asio.Reader.Liveness.{IsAttended, run-IsAttended}
use rtac_asio.Reader.Buffer.{do_read_some_buffered}
use rtac_asio.Reader.Whole.{async_read_whole, deliveries}
use rtac_asio.Reader.Line.{async_read_until_whole}
use rtac_asio.Reader.Lines.{async_read_until_continue_found, async_read_until_continue_ends}
use rtac_asio.Reader.Missed.{async_read_until_misses}
use rtac_asio.Reader.Expiry.{async_read_expires, after_late}
use rtac_asio.Service.Files.{logged}
use rtac_asio.Reader.Leftover.{async_read_until_buffered, async_read_until_overruns}
use rtac_asio.Reader.Timeout.{async_read_wrapped}
use rtac_asio.Reader.Waiter.{read_end_early}

abbrev world : Env Handler
world = record { mem = λ _. 0; posted = []; pending = []; waits = []; files = λ _. [] }

-- An idle reader, as it is constructed.
abbrev blank : Reader (List ℕ)
blank = record {
  read_counter = 0;
  read_id = 0;
  requested_size = 0;
  processed = 0;
  dst = 0;
  callback = read_callback;
  waiter_notified = false;
  read_buffer = [];
  rx_dump = none;
  called = [];
  env = world;
}

-- The same with bytes that a `read_until` has saved: "ab\n".
abbrev saved : Reader (List ℕ)
saved = record blank { read_buffer = 97 ∷ 98 ∷ 10 ∷ [] }

abbrev first : Callback
first = user 1

abbrev second : Callback
second = user 2

construct-blank : construct (record saved { read_id = 7 }) ≡ blank
unfolding construct
construct-blank = refl

abbrev script : List Event
script =
    read_all 3 100 first 0
    ∷ completes 0 (1 ∷ 2 ∷ []) success
    ∷ read_some 9 200 second 0
    ∷ completes 0 (3 ∷ []) success
    ∷ read_some 9 200 second 50
    ∷ serves
    ∷ []

run-in_order_example : in_order (run script blank) ≡ first ∷ second ∷ []
unfolding run step async_read async_read_some new_read do_read_some dump_enabled submit arm post
    complete_at run_handler async_read_continue finish_read serve invoke
run-in_order_example =
    run-in_order script blank (record { tasks = tt; requests = tt }) (omega arith)

run-IsAttended_example : IsAttended (run script blank)
run-IsAttended_example = run-IsAttended script blank (inl refl)

-- Three bytes in two pieces, with a dump open.
async_read_whole_example :
    let r' =
      run
        (deliveries [] ((1 ∷ 2 ∷ []) ∷ (3 ∷ []) ∷ []))
        (async_read (record blank { rx_dump = some 7 }) 3 100 first 0).1 in
    (r'.mem ≡ fill (λ _. 0) 100 (1 ∷ 2 ∷ 3 ∷ []))
    × (peek r'.mem 100 3 ≡ 1 ∷ 2 ∷ 3 ∷ [])
    × (r'.posted ≡ record { handler = call first; err = success; count = 3 } ∷ [])
    × (r'.read_id ≡ 0)
    × (r'.processed ≡ 3)
    × (r'.pending ≡ [])
    × ((f : ℕ) → r'.files f ≡ (if 7 == f then 1 ∷ 2 ∷ 3 ∷ [] else []))
async_read_whole_example =
    async_read_whole (record blank { rx_dump = some 7 }) 3 100 first 0
      ((1 ∷ 2 ∷ []) ∷ (3 ∷ []) ∷ []) refl refl (omega arith) (omega arith) (omega arith) refl

do_read_some_buffered_example :
    let r' = do_read_some saved 8 100 (read_continue 1) in
    (r'.mem ≡ fill (λ _. 0) 100 (97 ∷ 98 ∷ 10 ∷ []))
    × (r'.posted ≡ record { handler = read_continue 1; err = success; count = 3 } ∷ [])
    × (r'.pending ≡ [])
    × (r'.read_buffer ≡ [])
do_read_some_buffered_example =
    do_read_some_buffered saved 8 100 (read_continue 1) 97 (98 ∷ 10 ∷ []) refl

-- A `read_until` of at most 8 bytes at address 100 is in progress, and the stream has put "a\nb" there.
abbrev got_line : Reader (List ℕ)
got_line = record blank {
  read_counter = 1;
  read_id = 1;
  requested_size = 8;
  dst = 100;
  callback = first;
  env = record world { mem = fill (λ _. 0) 100 (97 ∷ 10 ∷ 98 ∷ []) };
}

async_read_until_continue_found_example :
    let r' = async_read_until_continue got_line 1 10 success 3 in
    (r'.posted ≡ record { handler = call first; err = success; count = 2 } ∷ [])
    × (r'.read_buffer ≡ 98 ∷ [])
    × (r'.read_id ≡ 0)
    × (r'.mem ≡ got_line.mem)
    × (r'.pending ≡ [])
async_read_until_continue_found_example =
    async_read_until_continue_found got_line 10 success 3 (97 ∷ []) (98 ∷ []) (omega arith)
      ((omega arith), tt) refl (omega arith)

-- "ab\n" and "c" after it, in two pieces.
async_read_until_whole_example :
    let r' =
      run
        (deliveries [] ((97 ∷ []) ∷ (98 ∷ 10 ∷ 99 ∷ []) ∷ []))
        (async_read_until blank 8 100 10 first 0).1 in
    (r'.posted ≡ record { handler = call first; err = success; count = 3 } ∷ [])
    × (r'.mem ≡ fill (λ _. 0) 100 (97 ∷ 98 ∷ 10 ∷ 99 ∷ []))
    × (r'.read_buffer ≡ 99 ∷ [])
    × (r'.read_id ≡ 0)
    × (r'.pending ≡ [])
async_read_until_whole_example =
    async_read_until_whole 10 blank 8 100 first 0 ((97 ∷ []) ∷ []) (98 ∷ []) (99 ∷ []) refl refl
      (omega arith) (omega arith)
      ((λ e. absurd (omega (arith, e))), ((λ e. absurd (omega (arith, e))), tt)) (omega arith)

-- The delimiter is the `char` -56, whose byte is 200.
async_read_until_misses_example :
    let r' =
      run
        (deliveries [] ((200 ∷ []) ∷ (1 ∷ 200 ∷ []) ∷ []))
        (async_read_until blank 3 100 (2 ^ 32 - 56) first 0).1 in
    (r'.posted ≡ record { handler = call first; err = success; count = 3 } ∷ [])
    × (r'.mem ≡ fill (λ _. 0) 100 (200 ∷ 1 ∷ 200 ∷ []))
    × (r'.read_buffer ≡ [])
    × (r'.read_id ≡ 0)
    × (r'.pending ≡ [])
async_read_until_misses_example =
    async_read_until_misses (2 ^ 32 - 56) blank 3 100 first 0 ((200 ∷ []) ∷ (1 ∷ 200 ∷ []) ∷ [])
      (omega arith) ((omega arith), ((omega arith), ((omega arith), tt))) refl refl (omega arith)
      (omega arith) (omega arith) refl

-- Two bytes of five have come, in two pieces, when the timer ends; a third one comes later.
async_read_expires_example :
    let t = step (timer 0) (
      run
        (deliveries [] ((1 ∷ []) ∷ (2 ∷ []) ∷ []))
        (async_read (record blank { rx_dump = some 7 }) 5 100 first 50).1) in
    (t.posted ≡ record { handler = call first; err = success; count = 2 } ∷ [])
    × (t.mem ≡ fill (λ _. 0) 100 (1 ∷ 2 ∷ []))
    × (t.read_id ≡ 0)
    × (t.processed ≡ 2)
    × (t.waiter_notified ≡ true)
    × (t.waits ≡ [])
    × (t.files ≡ logged (some 7) (λ _. []) (1 ∷ 2 ∷ []))
    × (step (completes 0 (3 ∷ []) success) t ≡ after_late t 102 (3 ∷ []) success [])
async_read_expires_example =
    async_read_expires (record blank { rx_dump = some 7 }) 5 100 first 49 ((1 ∷ []) ∷ (2 ∷ []) ∷ [])
      (3 ∷ []) success refl refl (omega arith) (omega arith) (omega arith)

async_read_until_continue_ends_example :
    async_read_until_continue got_line 1 10 5 1
    ≡ record got_line { processed = 1; read_id = 0; env = post got_line.env (call first) 5 1 }
async_read_until_continue_ends_example =
    async_read_until_continue_ends got_line 10 5 1 (omega arith) ((omega arith), tt)
      (inl (omega arith)) (omega arith)

async_read_until_buffered_example :
    let (started, r') = async_read_until saved 8 100 98 first 0 in
    (started ≡ true)
    × (r'.mem ≡ fill (λ _. 0) 100 (97 ∷ 98 ∷ []))
    × (r'.posted ≡ record { handler = call first; err = success; count = 2 } ∷ [])
    × (r'.read_buffer ≡ 10 ∷ [])
    × (r'.read_id ≡ 0)
    × (r'.pending ≡ [])
unfolding char_byte
async_read_until_buffered_example =
    async_read_until_buffered saved 8 100 98 first 0 refl (omega arith) (97 ∷ []) (10 ∷ []) 98 refl
      ((omega arith), tt) (omega arith) (inl refl)

-- The caller has 8 bytes at 100, and the stream is told to put up to 8 at 103.
async_read_until_overruns_example :
    let (started, r') = async_read_until saved 8 100 0 first 0 in
    (started ≡ true)
    × (r'.pending ≡ record { count = 8; addr = 103; handler = read_until_continue 1 0 } ∷ [])
    × (108 < 111)
unfolding char_byte
async_read_until_overruns_example =
    async_read_until_overruns saved 8 100 0 first 0 refl (omega arith) (97 ∷ 98 ∷ 10 ∷ []) refl
      (omega arith) (omega arith) (omega arith) refl

abbrev worn : Reader (List ℕ)
worn = record blank { read_counter = 2 ^ 32 - 1 }

async_read_wrapped_example :
    let (started, r') = async_read worn 4 100 first 0 in
    (started ≡ true)
    × (r'.read_id ≡ 0)
    × (r'.pending ≡ record { count = 4; addr = 100; handler = read_continue 0 } ∷ [])
    × ((run_handler (read_continue 0) r' success 4).posted ≡ [])
async_read_wrapped_example = async_read_wrapped worn 4 100 first 0 success 4 refl refl refl refl

-- A `read` of 4 bytes with a timeout, of which the timer ran out.
abbrev timed_out : Reader (List ℕ)
timed_out = record blank {
  read_counter = 1;
  requested_size = 4;
  dst = 100;
  waiter_notified = true;
  env = record world {
    posted = record { handler = call read_callback; err = 0; count = 0 } ∷ [];
    pending = record { count = 4; addr = 100; handler = read_continue 1 } ∷ [];
  };
}

timed_out_runs : run (sync_read 4 100 10 ∷ timer 0 ∷ []) blank ≡ timed_out
unfolding run step read_begin async_read new_read do_read_some dump_enabled submit arm timer_at
    timeout_reached finish_read post
timed_out_runs = refl

read_end_early_example :
    let (started, waiting) = read_begin timed_out 4 100 0 in
    let woken = step serves waiting in
    (started ≡ true)
    × (read_end waiting ≡ none)
    × (read_end woken ≡ some 0)
    × (woken.read_id ≢ 0)
    × (woken.mem ≡ timed_out.mem)
read_end_early_example = read_end_early timed_out 4 100 0 0 0 [] refl refl (omega arith) refl
