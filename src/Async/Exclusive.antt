-- ===== src/Async/Exclusive.antt =====
-- src/AsyncService.cpp, `run`: the threads behind the check of `isRunning_`.
use rtac_asio.Prelude.{
  ℕ, ◌+◌, ◌≡◌, refl, ap, Bool, true, false, Option, none, some, List, [], ◌∷◌, arith, if◌then◌else◌,
}
use rtac_asio.Async.{
  Flags, Place, entering, restarting, looping, leaving, returned, Client, idle, making, rejoining,
  waiting, joining, Async, run, start, stop, join, client_moves, Event, start_called, stop_called,
  run_called, client_goes_on, thread_goes_on, caller_goes_on, caller_throws, step, steps, construct,
}

-- 1 for a thread behind the check of `isRunning_`, 0 for one that is not.
abbrev pub in_run : Place → ℕ
in_run entering = 0
in_run restarting = 1
in_run looping = 1
in_run leaving = 1
in_run returned = 0

abbrev pub thread_in_run : Option Place → ℕ
thread_in_run none = 0
thread_in_run (some p) = in_run p

-- A thread is made only where the old one is gone.
abbrev pub CanMake : Client → Option Place → Type 0
CanMake making o = o ≡ none
CanMake idle o = Unit
CanMake rejoining o = Unit
CanMake waiting o = Unit
CanMake joining o = Unit

pub record IsExclusive (a : Async) : Type 0 where
  pub counted : thread_in_run a.thread + in_run a.caller ≡ (if a.flags.is_running then 1 else 0)
  pub gone : CanMake a.client a.thread

-- One step in `run`, beside `k` other threads behind the check.
run-counted :
    (r n s : Bool) (p : Place) (k : ℕ)
    → in_run p + k ≡ (if r then 1 else 0)
    → let (f, q) = run (record { is_running = r; waiter_was_notified = n; stopped = s }) p in
      in_run q + k ≡ (if f.is_running then 1 else 0)
unfolding run
run-counted true n s entering k h = h
run-counted false n s entering k h = omega arith
run-counted r n s restarting k h = h
run-counted r n true looping k h = h
run-counted r n false looping k h = h
run-counted true n s leaving k h = omega arith
run-counted false n s leaving k h = absurd (omega arith)
run-counted r n s returned k h = h

none_made : {o : Option Place} (p : Place) → some p ≡ none → CanMake making o
none_made p e = absurd (omega (arith, ap {B = ℕ} (λ o. elim o [ none ↦ 0 | some _ ↦ 1 ]) e))

CanMake-moves : (k : Client) (p q : Place) → CanMake k (some p) → CanMake k (some q)
CanMake-moves making p q g = none_made p g
CanMake-moves idle p q g = tt
CanMake-moves rejoining p q g = tt
CanMake-moves waiting p q g = tt
CanMake-moves joining p q g = tt

module _ (r n s : Bool) (c : Place) where
  abbrev flags_at : Flags
  flags_at = record { is_running = r; waiter_was_notified = n; stopped = s }

  abbrev pub at : Option Place → Client → Async
  at t k = record { flags = flags_at; thread = t; caller = c; client = k }

  join-IsExclusive :
      (t : Option Place) (k next : Client)
      → IsExclusive (at t k)
      → CanMake next none
      → IsExclusive (join (at t k) next)
  unfolding join
  join-IsExclusive none k next v g = v
  join-IsExclusive (some entering) k next v g = v
  join-IsExclusive (some restarting) k next v g = v
  join-IsExclusive (some looping) k next v g = v
  join-IsExclusive (some leaving) k next v g = v
  join-IsExclusive (some returned) k next v g = record { counted = v.counted; gone = g }

  client_moves-IsExclusive :
      (t : Option Place) (k : Client) → IsExclusive (at t k) → IsExclusive (client_moves (at t k) k)
  unfolding client_moves
  client_moves-IsExclusive t idle v = v
  client_moves-IsExclusive none making v = record { counted = v.counted; gone = tt }
  client_moves-IsExclusive (some p) making v =
      absurd (omega (arith, ap {B = ℕ} (λ o. elim o [ none ↦ 0 | some _ ↦ 1 ]) v.gone))
  client_moves-IsExclusive t rejoining v = join-IsExclusive t rejoining making v refl
  client_moves-IsExclusive t waiting v =
      elim n as (λ b. IsExclusive (if b then at t idle else at t waiting)) [
        | true ↦ record { counted = v.counted; gone = tt }
        | false ↦ v
      ]
  client_moves-IsExclusive t joining v = join-IsExclusive t joining idle v tt

  thread-IsExclusive :
      (t : Option Place) (k : Client)
      → IsExclusive (at t k)
      → IsExclusive (step thread_goes_on (at t k))
  unfolding step
  thread-IsExclusive none k v = v
  thread-IsExclusive (some p) k v = record {
    counted = run-counted r n s p (in_run c) v.counted;
    gone = CanMake-moves k p (run flags_at p).1 v.gone;
  }

  caller-IsExclusive :
      (t : Option Place) (k : Client)
      → IsExclusive (at t k)
      → IsExclusive (step caller_goes_on (at t k))
  unfolding step
  caller-IsExclusive t k v = record {
    counted = omega (arith, run-counted r n s c (thread_in_run t) (omega (arith, v.counted)));
    gone = v.gone;
  }

called-IsExclusive :
    (r n s : Bool) (c : Place) (t : Option Place) (k : Client)
    → IsExclusive (at r n s c t k)
    → IsExclusive (step run_called (at r n s c t k))
unfolding step
called-IsExclusive r n s entering t k v = v
called-IsExclusive r n s restarting t k v = v
called-IsExclusive r n s looping t k v = v
called-IsExclusive r n s leaving t k v = v
called-IsExclusive r n s returned t k v = record { counted = v.counted; gone = v.gone }

throws-IsExclusive :
    (r n s : Bool) (c : Place) (t : Option Place) (k : Client)
    → IsExclusive (at r n s c t k)
    → IsExclusive (step caller_throws (at r n s c t k))
unfolding step
throws-IsExclusive r n s entering t k v = v
throws-IsExclusive r n s restarting t k v = v
throws-IsExclusive r n s looping t k v = record { counted = v.counted; gone = v.gone }
throws-IsExclusive r n s leaving t k v = v
throws-IsExclusive r n s returned t k v = v

start-IsExclusive :
    (r n s : Bool) (c : Place) (t : Option Place) (k : Client)
    → IsExclusive (at r n s c t k)
    → IsExclusive (step start_called (at r n s c t k))
unfolding step start
start-IsExclusive true n s c t idle v = v
start-IsExclusive false n s c none idle v = record { counted = v.counted; gone = refl }
start-IsExclusive false n s c (some p) idle v = record { counted = v.counted; gone = tt }
start-IsExclusive r n s c t making v = v
start-IsExclusive r n s c t rejoining v = v
start-IsExclusive r n s c t waiting v = v
start-IsExclusive r n s c t joining v = v

stop-IsExclusive :
    (r n s : Bool) (c : Place) (t : Option Place) (k : Client)
    → IsExclusive (at r n s c t k)
    → IsExclusive (step stop_called (at r n s c t k))
unfolding step stop
stop-IsExclusive r n s c none idle v = record { counted = v.counted; gone = tt }
stop-IsExclusive r n s c (some p) idle v = record { counted = v.counted; gone = tt }
stop-IsExclusive r n s c t making v = v
stop-IsExclusive r n s c t rejoining v = v
stop-IsExclusive r n s c t waiting v = v
stop-IsExclusive r n s c t joining v = v

pub step-IsExclusive : (e : Event) (a : Async) → IsExclusive a → IsExclusive (step e a)
unfolding step
step-IsExclusive start_called a v =
    start-IsExclusive a.flags.is_running a.flags.waiter_was_notified a.flags.stopped a.caller
      a.thread a.client v
step-IsExclusive stop_called a v =
    stop-IsExclusive a.flags.is_running a.flags.waiter_was_notified a.flags.stopped a.caller
      a.thread a.client v
step-IsExclusive run_called a v =
    called-IsExclusive a.flags.is_running a.flags.waiter_was_notified a.flags.stopped a.caller
      a.thread a.client v
step-IsExclusive client_goes_on a v =
    client_moves-IsExclusive a.flags.is_running a.flags.waiter_was_notified a.flags.stopped a.caller
      a.thread a.client v
step-IsExclusive thread_goes_on a v =
    thread-IsExclusive a.flags.is_running a.flags.waiter_was_notified a.flags.stopped a.caller
      a.thread a.client v
step-IsExclusive caller_goes_on a v =
    caller-IsExclusive a.flags.is_running a.flags.waiter_was_notified a.flags.stopped a.caller
      a.thread a.client v
step-IsExclusive caller_throws a v =
    throws-IsExclusive a.flags.is_running a.flags.waiter_was_notified a.flags.stopped a.caller
      a.thread a.client v

steps-IsExclusive : (es : List Event) (a : Async) → IsExclusive a → IsExclusive (steps es a)
unfolding steps
steps-IsExclusive [] a v = v
steps-IsExclusive (e ∷ es) a v = steps-IsExclusive es (step e a) (step-IsExclusive e a v)

-- From the constructor on, under any interleaving of calls of `start` and `stop`, of the service's own
-- thread and of a thread that calls `run` itself, also one that an exception takes out of it, at most one of these two threads is behind the
-- check of `isRunning_`, and `is_running()` tells whether one is.
pub steps-exclusive :
    (es : List Event) (raw : Bool)
    → let a = steps es (construct raw) in
      thread_in_run a.thread + in_run a.caller ≡ (if a.flags.is_running then 1 else 0)
unfolding construct
steps-exclusive es raw =
    (steps-IsExclusive es (construct raw) (record { counted = refl; gone = tt })).counted
