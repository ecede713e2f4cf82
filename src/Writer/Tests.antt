-- ===== src/Writer/Tests.antt =====
-- The writer of src/StreamWriter.cpp at concrete inputs: runs, and the theorems applied.
use rtac_asio.Prelude.{
  ◌≡◌, inl, refl, true, false, ℕ, List, none, some, [], ◌∷◌, if◌then◌else◌, arith,
}
use rtac_asio.Memory.{peek, fill}
use rtac_asio.Service.{success, Env, submit, arm, post}
use rtac_asio.Service.Files.{logged}
use rtac_asio.Writer.{
  dump_bytes, user, write_callback, Handler, call, Writer, construct, async_write, new_write,
  do_write_some, dump_enabled, async_write_continue, finish_write,
}
use rtac_asio.Writer.Run.{
  run, step, Event, write_all, completes, timer, serves, complete_at, run_handler, serve, invoke,
}
use rtac_asio.Writer.Whole.{async_write_whole, deliveries, dumps_to}
use rtac_asio.Writer.Order.{in_sequence}
use rtac_asio.Writer.Schedule.{run-in_sequence}
use rtac_asio.Writer.Liveness.{IsServed, run-IsServed}
use rtac_asio.Writer.Expiry.{async_write_expires, after_late}

-- "xyz" stands at address 50.
abbrev world : Env Handler
world = record {
  mem = fill (λ _. 0) 50 (120 ∷ 121 ∷ 122 ∷ []);
  posted = [];
  pending = [];
  waits = [];
  files = λ _. [];
}

-- A writer as it is constructed, with a dump open in file 4.
abbrev blank : Writer
blank = record {
  write_counter = 0;
  write_id = 0;
  requested_size = 0;
  processed = 0;
  src = 0;
  callback = write_callback;
  waiter_notified = false;
  tx_dump = some 4;
  called = [];
  sent = [];
  env = world;
}

construct-blank : construct (record blank { write_id = 7 }) ≡ record blank { tx_dump = none }
unfolding construct
construct-blank = refl

-- The stream takes one byte, then two.
async_write_whole_example :
    let w' = run (deliveries [] (1 ∷ 2 ∷ [])) (async_write blank 3 50 (user 1) 0).1 in
    (w'.sent ≡ peek world.mem 50 3)
    × (w'.posted ≡ record { handler = call (user 1); err = success; count = 3 } ∷ [])
    × (w'.write_id ≡ 0)
    × (w'.processed ≡ 3)
    × ((f : ℕ) → w'.files f ≡ (if dumps_to blank f then peek world.mem 50 3 else []))
    × (w'.mem ≡ world.mem)
    × (w'.pending ≡ [])
async_write_whole_example =
    async_write_whole blank 3 50 (user 1) 0 (1 ∷ 2 ∷ []) refl (omega arith) (omega arith)
      (omega arith) refl

-- Two writes; the second finds the writer busy at first.
abbrev script : List Event
script =
    write_all 3 50 (user 1) 0
    ∷ write_all 2 50 (user 2) 0
    ∷ completes 0 3 success
    ∷ write_all 2 50 (user 2) 0
    ∷ serves
    ∷ []

run-in_sequence_example : in_sequence (run script blank) ≡ user 1 ∷ user 2 ∷ []
unfolding run step async_write new_write do_write_some dump_enabled submit arm post complete_at
    run_handler async_write_continue dump_bytes finish_write serve invoke
run-in_sequence_example =
    run-in_sequence script blank (record { tasks = tt; requests = tt }) (omega arith)

run-IsServed_example : IsServed (run script blank)
run-IsServed_example = run-IsServed script blank (inl refl)

-- The stream has taken one byte of three when the timer ends, and takes one more later.
async_write_expires_example :
    let t = step (timer 0) (run (deliveries [] (1 ∷ [])) (async_write blank 3 50 (user 1) 20).1) in
    (t.posted ≡ record { handler = call (user 1); err = success; count = 1 } ∷ [])
    × (t.sent ≡ 120 ∷ [])
    × (t.files ≡ logged (some 4) (λ _. []) (120 ∷ []))
    × (t.write_id ≡ 0)
    × (t.processed ≡ 1)
    × (t.waiter_notified ≡ true)
    × (t.waits ≡ [])
    × (t.mem ≡ world.mem)
    × (step (completes 0 1 success) t ≡ after_late t 51 1 success [])
async_write_expires_example =
    async_write_expires blank 3 50 (user 1) 19 (1 ∷ []) 1 success refl (omega arith) (omega arith)
      (omega arith)
