-- ===== src/Writer/Schedule.antt =====
-- Schedules of src/StreamWriter.cpp, and the sequence of its callbacks.
use rtac_asio.Prelude.{
  ℕ, zero, suc, ◌+◌, ◌^◌, ◌≤◌, ◌<◌, ◌≡◌, refl, sym, ap, subst, ◌∙◌, Bool, true, false, Option, none,
  some, List, [], ◌∷◌, ◌++◌, append-nil, append_assoc, if◌then◌else◌, arith, inl, inr, Bool-cases,
  get_elem?, length,
}
use rtac_asio.Service.{ErrorCode, Task, Request, put_file}
use rtac_asio.Writer.{
  Callback, user, write_callback, Handler, call, write_some_continue, write_continue, dump_callback,
  Writer, async_write_some, async_write, write_begin, dump_enabled, enable_dump, disable_dump,
}
use rtac_asio.Writer.Run.{
  Event, write_some, write_all, sync_write, dump_to, dump_off, completes, timer, serves, invoke,
  run_handler, complete_at, timer_at, serve, step, run,
}
use rtac_asio.Writer.Requests.{
  when, Starts, async_write_some-Starts, async_write-Starts, waiting-Starts,
}
use rtac_asio.Writer.Order.{
  AllTasks, AllRequests, AllRequests-erase_idx, IsContinuation, IsTask, IsBound, Keeps, Keeps-trans,
  as_call-IsContinuation, current, callbacks, names, names-append, in_sequence,
}
use rtac_asio.Writer.Callbacks.{Keeps-refl, timeout_reached-Keeps, run_handler-Keeps}

AllRequests-get_elem? :
    (qs : List (Request Handler)) (k : ℕ) (q : Request Handler)
    → AllRequests qs
    → get_elem? qs k ≡ some q
    → IsContinuation q.handler
AllRequests-get_elem? [] k q a e = cc
AllRequests-get_elem? (p ∷ ps) zero q a e =
    let same : p ≡ q = cc in subst (λ x. IsContinuation x.handler) same a.0
AllRequests-get_elem? (p ∷ ps) (suc k) q a e = AllRequests-get_elem? ps k q a.1 e

abbrev pub accepted : Event → Writer → List Callback
accepted (write_some n a c millis) r = when (async_write_some r n a c millis).0 c
accepted (write_all n a c millis) r = when (async_write r n a c millis).0 c
accepted (sync_write n a millis) r = when (write_begin r n a millis).0 write_callback
accepted (dump_to name append opens) r = []
accepted dump_off r = []
accepted (completes k n err) r = []
accepted (timer k) r = []
accepted serves r = []

pub record Steps (r : Writer) (cs : List Callback) (r' : Writer) : Type 0 where
  pub order : in_sequence r' ≡ in_sequence r ++ cs
  pub bound : IsBound r → IsBound r'
  pub counter : r'.write_counter ≤ r.write_counter + 1

Keeps-Steps : {r r' : Writer} → Keeps r r' → Steps r [] r'
Keeps-Steps {r} {r'} k = record {
  order = k.order ∙ sym (append-nil (in_sequence r));
  bound = k.bound;
  counter = rw k.counter (omega arith);
}

complete_at-Keeps :
    (r : Writer) (k : ℕ) (o : Option (Request Handler)) (n : ℕ) (err : ErrorCode)
    → IsBound r
    → get_elem? r.pending k ≡ o
    → Keeps r (complete_at r k o n err)
unfolding complete_at
complete_at-Keeps r k none n err v e = Keeps-refl r
complete_at-Keeps r k (some q) n err v e =
    Keeps-trans
      (record {
        order = refl;
        bound = λ w. record {
          tasks = w.tasks;
          requests = AllRequests-erase_idx r.pending k w.requests;
        };
        counter = refl;
      })
      (run_handler-Keeps q.handler _ err n (AllRequests-get_elem? r.pending k q v.requests e))

timer_at-Keeps : (r : Writer) (k : ℕ) (o : Option ℕ) → Keeps r (timer_at r k o)
unfolding timer_at
timer_at-Keeps r k none = Keeps-refl r
timer_at-Keeps r k (some id) =
    Keeps-trans
      (record {
        order = refl;
        bound = λ w. record { tasks = w.tasks; requests = w.requests };
        counter = refl;
      })
      (timeout_reached-Keeps _ id)

run_task-Keeps :
    (r : Writer) (h : Handler) (err n : ℕ) (ts : List (Task Handler))
    → IsTask h
    → r.posted ≡ record { handler = h; err = err; count = n } ∷ ts
    → Keeps r (run_handler h (record r { env = record r.env { posted = ts } }) err n)
unfolding run_handler invoke
run_task-Keeps r h err n ts k e = go h k e
  where
    taken : Writer
    taken = record r { env = record r.env { posted = ts } }

    after :
        {t : Task Handler} {q : Writer}
        → r.posted ≡ t ∷ ts
        → IsBound r
        → q.posted ≡ ts
        → q.pending ≡ r.pending
        → IsBound q
    after e v p q = record {
      tasks = subst AllTasks (sym p) (subst AllTasks e v.tasks).1;
      requests = subst AllRequests (sym q) v.requests;
    }

    continues :
        (h : Handler)
        → IsContinuation h
        → r.posted ≡ record { handler = h; err = err; count = n } ∷ ts
        → Keeps r (run_handler h taken err n)
    continues h k e =
        Keeps-trans
          (record {
            order =
                ap (λ x. names r.called ++ (x ++ current r))
                  (sym (ap callbacks e ∙ ap (λ x. x ++ callbacks ts) (as_call-IsContinuation h k)));
            bound = λ v. after e v refl refl;
            counter = refl;
          })
          (run_handler-Keeps h taken err n k)

    called :
        (c : Callback)
        → r.posted ≡ record { handler = call c; err = err; count = n } ∷ ts
        → names (r.called ++ record { handler = c; err = err; count = n } ∷ [])
            ++ (callbacks ts ++ current r)
          ≡ in_sequence r
    called c e =
        ap (λ x. x ++ (callbacks ts ++ current r)) (names-append r.called (_ ∷ []))
        ∙ append_assoc (names r.called) (c ∷ []) (callbacks ts ++ current r)
        ∙ ap (λ x. names r.called ++ (callbacks x ++ current r)) (sym e)

    go :
        (h : Handler)
        → IsTask h
        → r.posted ≡ record { handler = h; err = err; count = n } ∷ ts
        → Keeps r (run_handler h taken err n)
    go (call (user u)) k e = record {
      order = called (user u) e;
      bound = λ v. after e v refl refl;
      counter = refl;
    }
    go (call write_callback) k e = record {
      order = called write_callback e;
      bound = λ v. after e v refl refl;
      counter = refl;
    }
    go (write_some_continue id) k e = continues (write_some_continue id) tt e
    go (write_continue id) k e = continues (write_continue id) tt e
    go (dump_callback h a) k e = continues (dump_callback h a) k e

serve-Keeps :
    (r : Writer) (ts : List (Task Handler)) → IsBound r → r.posted ≡ ts → Keeps r (serve r ts)
unfolding serve
serve-Keeps r [] v e = Keeps-refl r
serve-Keeps r (t ∷ ts) v e =
    run_task-Keeps r t.handler t.err t.count ts (subst AllTasks e v.tasks).0 e

Starts-Steps :
    {r : Writer} {c : Callback} {out : Bool × Writer}
    → Starts r c out
    → Steps r (when out.0 c) out.1
Starts-Steps st = record { order = st.order; bound = st.bound; counter = st.counter }

enable_dump-Keeps :
    (r : Writer) (name : ℕ) (append opens : Bool) → Keeps r (enable_dump r name append opens)
unfolding enable_dump
enable_dump-Keeps r name append opens = elim (Bool-cases (dump_enabled r)) [
  | inl on ↦ rw on (Keeps-refl r)
  | inr off ↦ rw off (go opens)
]
  where
    go :
        (b : Bool)
        → Keeps r (
            if b
            then record r {
              tx_dump = some name;
              env = record r.env { files = if append then r.files else put_file r.files name [] };
            }
            else r)
    go false = Keeps-refl r
    go true = record {
      order = refl;
      bound = λ w. record { tasks = w.tasks; requests = w.requests };
      counter = refl;
    }

step-Steps :
    (e : Event) (r : Writer)
    → IsBound r
    → r.write_counter + 1 < 2 ^ 32
    → Steps r (accepted e r) (step e r)
unfolding step write_begin disable_dump
step-Steps (write_some n a c millis) r v h = Starts-Steps (async_write_some-Starts r n a c millis h)
step-Steps (write_all n a c millis) r v h = Starts-Steps (async_write-Starts r n a c millis h)
step-Steps (sync_write n a millis) r v h =
    Starts-Steps (waiting-Starts r _ (async_write-Starts r n a write_callback millis h))
step-Steps (dump_to name append opens) r v h = Keeps-Steps (enable_dump-Keeps r name append opens)
step-Steps dump_off r v h = Keeps-Steps (record {
  order = refl;
  bound = λ w. record { tasks = w.tasks; requests = w.requests };
  counter = refl;
})
step-Steps (completes k n err) r v h = Keeps-Steps (complete_at-Keeps r k _ n err v refl)
step-Steps (timer k) r v h = Keeps-Steps (timer_at-Keeps r k _)
step-Steps serves r v h = Keeps-Steps (serve-Keeps r _ v refl)

-- The callbacks of the requests that a schedule gets `true` for, in order.
abbrev pub all_accepted : List Event → Writer → List Callback
all_accepted [] r = []
all_accepted (e ∷ es) r = accepted e r ++ all_accepted es (step e r)

-- Under any schedule of calls, completions, timer waits and service rounds, the callbacks that
-- were called, those in the service's queue and the one of the write in progress are together, in
-- this order, those that the writer had before and then those of the requests that returned
-- `true`, each once and in the order of the requests; as long as the counter of writes stays below
-- 2 ^ 32 and the queue and the stream hold only what the writer has bound.
pub run-in_sequence :
    (es : List Event) (r : Writer)
    → IsBound r
    → r.write_counter + length es < 2 ^ 32
    → in_sequence (run es r) ≡ in_sequence r ++ all_accepted es r
unfolding run
run-in_sequence [] r v h = sym (append-nil (in_sequence r))
run-in_sequence (e ∷ es) r v h =
    let st = step-Steps e r v (omega arith) in
    run-in_sequence es (step e r) (st.bound v) (omega (arith, st.counter))
    ∙ ap (λ x. x ++ all_accepted es (step e r)) st.order
    ∙ append_assoc (in_sequence r) (accepted e r) (all_accepted es (step e r))
