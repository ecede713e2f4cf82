-- ===== src/Async/Race.antt =====
-- src/AsyncService.cpp: interleavings of `start`, of `stop` and of `run` around the waits of the former.
use rtac_asio.Prelude.{
  ◌≡◌, ◌⊎◌, inl, inr, refl, sym, ap, Bool, true, false, none, some, List, [], ◌∷◌, subst,
}
use rtac_asio.Async.{
  Place, entering, restarting, looping, returned, idle, making, waiting, joining, Async, run, stop,
  join, client_moves, Event, start_called, stop_called, run_called, client_goes_on, thread_goes_on,
  caller_goes_on, caller_throws, step, steps,
}

-- `start` waits, not notified; its thread is out of `run`, and another thread runs the service.
abbrev unwoken : Bool → Place → Async
unwoken s c = record {
  flags = record { is_running = true; waiter_was_notified = false; stopped = s };
  thread = some returned;
  caller = c;
  client = waiting;
}

abbrev IsUnwoken : Async → Type 0
IsUnwoken a = ((s : Bool) × (a ≡ unwoken s restarting)) ⊎ (a ≡ unwoken false looping)

-- Events that take no other thread out of `run` by an exception.
abbrev pub Stays : Event → Type 0
Stays caller_throws = ⊥
Stays _ = Unit

abbrev pub AvoidsThrow : List Event → Type 0
AvoidsThrow [] = Unit
AvoidsThrow (e ∷ es) = Stays e × AvoidsThrow es

step-IsUnwoken : (e : Event) (a : Async) → Stays e → IsUnwoken a → IsUnwoken (step e a)
unfolding step client_moves run
step-IsUnwoken e a q (inl (s, same)) = subst (λ x. IsUnwoken (step e x)) (sym same) (first e)
  where
    first : (e : Event) → IsUnwoken (step e (unwoken s restarting))
    first start_called = inl (s, refl)
    first stop_called = inl (s, refl)
    first run_called = inl (s, refl)
    first client_goes_on = inl (s, refl)
    first thread_goes_on = inl (s, refl)
    first caller_goes_on = inr refl
    first caller_throws = inl (s, refl)
step-IsUnwoken e a q (inr same) = subst (λ x. IsUnwoken (step e x)) (sym same) (later e q)
  where
    later : (e : Event) → Stays e → IsUnwoken (step e (unwoken false looping))
    later start_called q = inr refl
    later stop_called q = inr refl
    later run_called q = inr refl
    later client_goes_on q = inr refl
    later thread_goes_on q = inr refl
    later caller_goes_on q = inr refl
    later caller_throws q = absurd q

steps-IsUnwoken :
    (es : List Event) (a : Async) → AvoidsThrow es → IsUnwoken a → IsUnwoken (steps es a)
unfolding steps
steps-IsUnwoken [] a q v = v
steps-IsUnwoken (e ∷ es) a q v = steps-IsUnwoken es (step e a) q.1 (step-IsUnwoken e a q.0 v)

IsUnwoken-client : (a : Async) → IsUnwoken a → a.client ≡ waiting
IsUnwoken-client a (inl (s, same)) = ap (λ x. x.client) same
IsUnwoken-client a (inr same) = ap (λ x. x.client) same

-- `start` has seen that the service is not running, and before it makes its thread another thread
-- passes the check in `run`. Then the new thread leaves `run` without a notification, and `start`
-- waits for ever, holding `startMutex_`, whatever happens after, as long as no exception takes that
-- other thread out of `run`.
pub start_hangs :
    (n s : Bool) (es : List Event)
    → AvoidsThrow es
    → (steps (caller_goes_on ∷ client_goes_on ∷ thread_goes_on ∷ es) (record {
      flags = record { is_running = false; waiter_was_notified = n; stopped = s };
      thread = none;
      caller = entering;
      client = making;
    })).client
      ≡ waiting
unfolding steps step client_moves run
start_hangs n s es q =
    IsUnwoken-client (steps es (unwoken s restarting))
      (steps-IsUnwoken es (unwoken s restarting) q (inl (s, refl)))

-- `stop` waits for a thread that runs the io_context, which is not stopped.
abbrev unstopped : Bool → Place → Async
unstopped n c = record {
  flags = record { is_running = true; waiter_was_notified = n; stopped = false };
  thread = some looping;
  caller = c;
  client = joining;
}

abbrev IsUnstopped : Async → Type 0
IsUnstopped a = (n : Bool) × ((a ≡ unstopped n returned) ⊎ (a ≡ unstopped n entering))

step-IsUnstopped : (e : Event) (a : Async) → IsUnstopped a → IsUnstopped (step e a)
unfolding step client_moves join run
step-IsUnstopped e a (n, inl same) = subst (λ x. IsUnstopped (step e x)) (sym same) (out e)
  where
    out : (e : Event) → IsUnstopped (step e (unstopped n returned))
    out start_called = (n, inl refl)
    out stop_called = (n, inl refl)
    out run_called = (n, inr refl)
    out client_goes_on = (n, inl refl)
    out thread_goes_on = (n, inl refl)
    out caller_goes_on = (n, inl refl)
    out caller_throws = (n, inl refl)
step-IsUnstopped e a (n, inr same) = subst (λ x. IsUnstopped (step e x)) (sym same) (at_door e)
  where
    at_door : (e : Event) → IsUnstopped (step e (unstopped n entering))
    at_door start_called = (n, inr refl)
    at_door stop_called = (n, inr refl)
    at_door run_called = (n, inr refl)
    at_door client_goes_on = (n, inr refl)
    at_door thread_goes_on = (n, inr refl)
    at_door caller_goes_on = (n, inl refl)
    at_door caller_throws = (n, inr refl)

steps-IsUnstopped : (es : List Event) (a : Async) → IsUnstopped a → IsUnstopped (steps es a)
unfolding steps
steps-IsUnstopped [] a v = v
steps-IsUnstopped (e ∷ es) a v = steps-IsUnstopped es (step e a) (step-IsUnstopped e a v)

IsUnstopped-client : (a : Async) → IsUnstopped a → a.client ≡ joining
IsUnstopped-client a (n, inl same) = ap (λ x. x.client) same
IsUnstopped-client a (n, inr same) = ap (λ x. x.client) same

-- `stop` is called while the service's thread stands between the notification that `start` waited for
-- and `restart`, and no other thread is in `run`. Then `restart` takes the stop back, and `stop`
-- waits for ever in its `join`, holding `startMutex_`, whatever happens after.
pub stop_hangs :
    (n s : Bool) (es : List Event)
    → (steps (stop_called ∷ thread_goes_on ∷ es) (record {
      flags = record { is_running = true; waiter_was_notified = n; stopped = s };
      thread = some restarting;
      caller = returned;
      client = idle;
    })).client
      ≡ joining
unfolding steps step stop run
stop_hangs n s es =
    IsUnstopped-client (steps es (unstopped n returned))
      (steps-IsUnstopped es (unstopped n returned) (n, inl refl))
