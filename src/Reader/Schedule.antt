-- ===== src/Reader/Schedule.antt =====
-- Schedules of src/StreamReader.cpp, and the sequence of its callbacks.
use rtac_asio.Prelude.{
  ℕ, zero, suc, ◌+◌, ◌^◌, ◌≤◌, ◌<◌, ◌≡◌, refl, sym, ap, subst, ◌∙◌, Bool, true, false, Option, none,
  some, List, [], ◌∷◌, ◌++◌, append-nil, append_assoc, if◌then◌else◌, arith, inl, inr, Bool-cases,
  get_elem?, length,
}
use rtac_asio.Service.{ErrorCode, Task, Request, put_file}
use rtac_asio.Streambuf.{Streambuf}
use rtac_asio.Reader.{
  Callback, user, read_callback, Handler, call, read_some_continue, read_continue,
  read_until_continue, dump_callback, Reader, async_read_some, async_read, read_begin, dump_enabled,
  enable_dump, disable_dump, flush,
}
use rtac_asio.Reader.Until.{async_read_until, read_until_begin}
use rtac_asio.Reader.Run.{
  Event, read_some, read_all, read_until, sync_read, sync_read_until, flushes, dump_to, dump_off,
  completes, timer, serves, invoke, run_handler, complete_at, timer_at, serve, step, run,
}
use rtac_asio.Reader.Requests.{
  when, Starts, async_read_some-Starts, async_read-Starts, async_read_until-Starts, waiting-Starts,
}
use rtac_asio.Reader.Order.{
  AllTasks, AllRequests, AllRequests-erase_idx, IsContinuation, IsTask, IsBound, Keeps, Keeps-trans,
  as_call-IsContinuation, current, callbacks, names, names-append, in_order,
}
use rtac_asio.Reader.Callbacks.{Keeps-refl, timeout_reached-Keeps, buffer-Keeps, run_handler-Keeps}

AllRequests-get_elem? :
    (qs : List (Request Handler)) (k : ℕ) (q : Request Handler)
    → AllRequests qs
    → get_elem? qs k ≡ some q
    → IsContinuation q.handler
AllRequests-get_elem? [] k q a e = cc
AllRequests-get_elem? (p ∷ ps) zero q a e =
    let same : p ≡ q = cc in subst (λ x. IsContinuation x.handler) same a.0
AllRequests-get_elem? (p ∷ ps) (suc k) q a e = AllRequests-get_elem? ps k q a.1 e

module _ {B : Type 0} ⦃s : Streambuf B⦄ where
  abbrev pub accepted : Event → Reader B → List Callback
  accepted (read_some n a c millis) r = when (async_read_some r n a c millis).0 c
  accepted (read_all n a c millis) r = when (async_read r n a c millis).0 c
  accepted (read_until n a d c millis) r = when (async_read_until r n a d c millis).0 c
  accepted (sync_read n a millis) r = when (read_begin r n a millis).0 read_callback
  accepted (sync_read_until n a d millis) r = when (read_until_begin r n a d millis).0 read_callback
  accepted flushes r = []
  accepted (dump_to name append opens) r = []
  accepted dump_off r = []
  accepted (completes k bs err) r = []
  accepted (timer k) r = []
  accepted serves r = []

  pub record Steps (r : Reader B) (cs : List Callback) (r' : Reader B) : Type 0 where
    pub order : in_order r' ≡ in_order r ++ cs
    pub bound : IsBound r → IsBound r'
    pub counter : r'.read_counter ≤ r.read_counter + 1

  Keeps-Steps : {r r' : Reader B} → Keeps r r' → Steps r [] r'
  Keeps-Steps {r} {r'} k = record {
    order = k.order ∙ sym (append-nil (in_order r));
    bound = k.bound;
    counter = rw k.counter (omega arith);
  }

  complete_at-Keeps :
      (r : Reader B) (k : ℕ) (o : Option (Request Handler)) (bs : List ℕ) (err : ErrorCode)
      → IsBound r
      → get_elem? r.pending k ≡ o
      → Keeps r (complete_at r k o bs err)
  unfolding complete_at
  complete_at-Keeps r k none bs err v e = Keeps-refl r
  complete_at-Keeps r k (some q) bs err v e =
      Keeps-trans
        (record {
          order = refl;
          bound = λ w. record {
            tasks = w.tasks;
            requests = AllRequests-erase_idx r.pending k w.requests;
          };
          counter = refl;
        })
        (run_handler-Keeps q.handler _ err (length bs)
          (AllRequests-get_elem? r.pending k q v.requests e))

  timer_at-Keeps : (r : Reader B) (k : ℕ) (o : Option ℕ) → Keeps r (timer_at r k o)
  unfolding timer_at
  timer_at-Keeps r k none = Keeps-refl r
  timer_at-Keeps r k (some id) =
      Keeps-trans
        (record {
          order = refl;
          bound = λ w. record { tasks = w.tasks; requests = w.requests };
          counter = refl;
        })
        (timeout_reached-Keeps _ id)

  run_task-Keeps :
      (r : Reader B) (h : Handler) (err n : ℕ) (ts : List (Task Handler))
      → IsTask h
      → r.posted ≡ record { handler = h; err = err; count = n } ∷ ts
      → Keeps r (run_handler h (record r { env = record r.env { posted = ts } }) err n)
  unfolding run_handler invoke
  run_task-Keeps r h err n ts k e = go h k e
    where
      taken : Reader B
      taken = record r { env = record r.env { posted = ts } }

      after :
          {t : Task Handler} {q : Reader B}
          → r.posted ≡ t ∷ ts
          → IsBound r
          → q.posted ≡ ts
          → q.pending ≡ r.pending
          → IsBound q
      after e v p q = record {
        tasks = subst AllTasks (sym p) (subst AllTasks e v.tasks).1;
        requests = subst AllRequests (sym q) v.requests;
      }

      continues :
          (h : Handler)
          → IsContinuation h
          → r.posted ≡ record { handler = h; err = err; count = n } ∷ ts
          → Keeps r (run_handler h taken err n)
      continues h k e =
          Keeps-trans
            (record {
              order =
                  ap (λ x. names r.called ++ (x ++ current r))
                    (sym
                      (ap callbacks e ∙ ap (λ x. x ++ callbacks ts) (as_call-IsContinuation h k)));
              bound = λ v. after e v refl refl;
              counter = refl;
            })
            (run_handler-Keeps h taken err n k)

      called :
          (c : Callback)
          → r.posted ≡ record { handler = call c; err = err; count = n } ∷ ts
          → names (r.called ++ record { handler = c; err = err; count = n } ∷ [])
              ++ (callbacks ts ++ current r)
            ≡ in_order r
      called c e =
          ap (λ x. x ++ (callbacks ts ++ current r)) (names-append r.called (_ ∷ []))
          ∙ append_assoc (names r.called) (c ∷ []) (callbacks ts ++ current r)
          ∙ ap (λ x. names r.called ++ (callbacks x ++ current r)) (sym e)

      go :
          (h : Handler)
          → IsTask h
          → r.posted ≡ record { handler = h; err = err; count = n } ∷ ts
          → Keeps r (run_handler h taken err n)
      go (call (user u)) k e = record {
        order = called (user u) e;
        bound = λ v. after e v refl refl;
        counter = refl;
      }
      go (call read_callback) k e = record {
        order = called read_callback e;
        bound = λ v. after e v refl refl;
        counter = refl;
      }
      go (read_some_continue id) k e = continues (read_some_continue id) tt e
      go (read_continue id) k e = continues (read_continue id) tt e
      go (read_until_continue id d) k e = continues (read_until_continue id d) tt e
      go (dump_callback h a) k e = continues (dump_callback h a) k e

  serve-Keeps :
      (r : Reader B) (ts : List (Task Handler)) → IsBound r → r.posted ≡ ts → Keeps r (serve r ts)
  unfolding serve
  serve-Keeps r [] v e = Keeps-refl r
  serve-Keeps r (t ∷ ts) v e =
      run_task-Keeps r t.handler t.err t.count ts (subst AllTasks e v.tasks).0 e

  Starts-Steps :
      {r : Reader B} {c : Callback} {out : Bool × Reader B}
      → Starts r c out
      → Steps r (when out.0 c) out.1
  Starts-Steps st = record { order = st.order; bound = st.bound; counter = st.counter }

  enable_dump-Keeps :
      (r : Reader B) (name : ℕ) (append opens : Bool) → Keeps r (enable_dump r name append opens)
  unfolding enable_dump
  enable_dump-Keeps r name append opens = elim (Bool-cases (dump_enabled r)) [
    | inl on ↦ rw on (Keeps-refl r)
    | inr off ↦ rw off (go opens)
  ]
    where
      go :
          (b : Bool)
          → Keeps r (
              if b
              then record r {
                rx_dump = some name;
                env = record r.env { files = if append then r.files else put_file r.files name [] };
              }
              else r)
      go false = Keeps-refl r
      go true = record {
        order = refl;
        bound = λ w. record { tasks = w.tasks; requests = w.requests };
        counter = refl;
      }

  step-Steps :
      (e : Event) (r : Reader B)
      → IsBound r
      → r.read_counter + 1 < 2 ^ 32
      → Steps r (accepted e r) (step e r)
  unfolding step read_begin read_until_begin flush disable_dump
  step-Steps (read_some n a c millis) r v h = Starts-Steps (async_read_some-Starts r n a c millis h)
  step-Steps (read_all n a c millis) r v h = Starts-Steps (async_read-Starts r n a c millis h)
  step-Steps (read_until n a d c millis) r v h =
      Starts-Steps (async_read_until-Starts r n a c millis h d)
  step-Steps (sync_read n a millis) r v h =
      Starts-Steps (waiting-Starts r _ (async_read-Starts r n a read_callback millis h))
  step-Steps (sync_read_until n a d millis) r v h =
      Starts-Steps (waiting-Starts r _ (async_read_until-Starts r n a read_callback millis h d))
  step-Steps flushes r v h = Keeps-Steps (buffer-Keeps r _)
  step-Steps (dump_to name append opens) r v h = Keeps-Steps (enable_dump-Keeps r name append opens)
  step-Steps dump_off r v h = Keeps-Steps (record {
    order = refl;
    bound = λ w. record { tasks = w.tasks; requests = w.requests };
    counter = refl;
  })
  step-Steps (completes k bs err) r v h = Keeps-Steps (complete_at-Keeps r k _ bs err v refl)
  step-Steps (timer k) r v h = Keeps-Steps (timer_at-Keeps r k _)
  step-Steps serves r v h = Keeps-Steps (serve-Keeps r _ v refl)

  -- The callbacks of the requests that a schedule gets `true` for, in order.
  abbrev pub all_accepted : List Event → Reader B → List Callback
  all_accepted [] r = []
  all_accepted (e ∷ es) r = accepted e r ++ all_accepted es (step e r)

  -- Under any schedule of calls, completions, timer waits and service rounds, the callbacks that
  -- were called, those in the service's queue and the one of the read in progress are together, in
  -- this order, those that the reader had before and then those of the requests that returned
  -- `true`, each once and in the order of the requests; as long as the counter of reads stays below
  -- 2 ^ 32 and the queue and the stream hold only what the reader has bound.
  pub run-in_order :
      (es : List Event) (r : Reader B)
      → IsBound r
      → r.read_counter + length es < 2 ^ 32
      → in_order (run es r) ≡ in_order r ++ all_accepted es r
  unfolding run
  run-in_order [] r v h = sym (append-nil (in_order r))
  run-in_order (e ∷ es) r v h =
      let st = step-Steps e r v (omega arith) in
      run-in_order es (step e r) (st.bound v) (omega (arith, st.counter))
      ∙ ap (λ x. x ++ all_accepted es (step e r)) st.order
      ∙ append_assoc (in_order r) (accepted e r) (all_accepted es (step e r))
