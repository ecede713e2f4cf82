-- ===== src/Async/Wake.antt =====
-- src/AsyncService.cpp, `start`: what holds while it waits for its thread.
use rtac_asio.Prelude.{
  ℕ, ◌≡◌, ◌⊎◌, inl, inr, refl, sym, ap, Bool, true, false, Option, none, some, List, [], ◌∷◌,
  if◌then◌else◌, arith, subst,
}
use rtac_asio.Async.{
  Place, entering, restarting, looping, leaving, returned, Client, idle, making, rejoining, waiting,
  joining, Async, run, start, stop, join, client_moves, Event, start_called, stop_called,
  run_called, client_goes_on, thread_goes_on, caller_goes_on, caller_throws, step, steps,
}
use rtac_asio.Async.Exclusive.{IsExclusive, step-IsExclusive, at}

-- While `start` waits, its thread has notified it, or is about to.
abbrev pub Wake : Client → Bool → Bool → Option Place → Type 0
Wake waiting r n t = (n ≡ true) ⊎ ((t ≡ some entering) × (r ≡ false))
Wake idle r n t = Unit
Wake making r n t = Unit
Wake rejoining r n t = Unit
Wake joining r n t = Unit

abbrev pub WakeOf : Async → Type 0
WakeOf a =
    (a.caller ≡ returned) × Wake a.client a.flags.is_running a.flags.waiter_was_notified a.thread

pub record IsWoken (a : Async) : Type 0 where
  pub exclusive : IsExclusive a
  pub woken : WakeOf a

abbrev is_entering : Option Place → ℕ
is_entering none = 0
is_entering (some entering) = 1
is_entering (some restarting) = 0
is_entering (some looping) = 0
is_entering (some leaving) = 0
is_entering (some returned) = 0

unlike : {o : Option Place} → is_entering o ≡ 0 → o ≡ some entering → ⊥
unlike z e = omega (arith, z, ap is_entering e)

run-Wake :
    (k : Client) (r n s : Bool) (p : Place)
    → Wake k r n (some p)
    → let (f, q) = run (record { is_running = r; waiter_was_notified = n; stopped = s }) p in
      Wake k f.is_running f.waiter_was_notified (some q)
unfolding run
run-Wake idle r n s p w = tt
run-Wake making r n s p w = tt
run-Wake rejoining r n s p w = tt
run-Wake joining r n s p w = tt
run-Wake waiting true n s entering (inl e) = inl e
run-Wake waiting true n s entering (inr (e, h)) =
    absurd (omega (arith, ap {B = ℕ} (λ b. if b then 1 else 0) h))
run-Wake waiting false n s entering w = inl refl
run-Wake waiting r n s restarting (inl e) = inl e
run-Wake waiting r n s restarting (inr (e, h)) = absurd (unlike refl e)
run-Wake waiting r n true looping (inl e) = inl e
run-Wake waiting r n false looping (inl e) = inl e
run-Wake waiting r n s looping (inr (e, h)) = absurd (unlike refl e)
run-Wake waiting r n s leaving (inl e) = inl e
run-Wake waiting r n s leaving (inr (e, h)) = absurd (unlike refl e)
run-Wake waiting r n s returned (inl e) = inl e
run-Wake waiting r n s returned (inr (e, h)) = absurd (unlike refl e)

-- Events that bring no other thread into `run`.
abbrev pub AvoidsRun : List Event → Type 0
AvoidsRun [] = Unit
AvoidsRun (start_called ∷ es) = AvoidsRun es
AvoidsRun (stop_called ∷ es) = AvoidsRun es
AvoidsRun (run_called ∷ es) = ⊥
AvoidsRun (client_goes_on ∷ es) = AvoidsRun es
AvoidsRun (thread_goes_on ∷ es) = AvoidsRun es
AvoidsRun (caller_goes_on ∷ es) = AvoidsRun es
AvoidsRun (caller_throws ∷ es) = AvoidsRun es

join-Wake :
    (r n s : Bool) (t : Option Place) (k next : Client)
    → Wake k r n t
    → Wake next r n none
    → WakeOf (join (at r n s returned t k) next)
unfolding join
join-Wake r n s none k next w g = (refl, w)
join-Wake r n s (some entering) k next w g = (refl, w)
join-Wake r n s (some restarting) k next w g = (refl, w)
join-Wake r n s (some looping) k next w g = (refl, w)
join-Wake r n s (some leaving) k next w g = (refl, w)
join-Wake r n s (some returned) k next w g = (refl, g)

client-Wake :
    (r n s : Bool) (t : Option Place) (k : Client)
    → IsExclusive (at r n s returned t k)
    → Wake k r n t
    → WakeOf (client_moves (at r n s returned t k) k)
unfolding client_moves
client-Wake r n s t idle v w = (refl, tt)
client-Wake r n s (some p) making v w =
    absurd (omega (arith, ap {B = ℕ} (λ o. elim o [ none ↦ 0 | some _ ↦ 1 ]) v.gone))
client-Wake true n s none making v w = absurd (omega (arith, v.counted))
client-Wake false n s none making v w = (refl, inr (refl, refl))
client-Wake r n s t rejoining v w = join-Wake r n s t rejoining making tt tt
client-Wake r true s t waiting v w = (refl, tt)
client-Wake r false s t waiting v w = (refl, w)
client-Wake r n s t joining v w = join-Wake r n s t joining idle tt tt

start-Wake :
    (r n s : Bool) (t : Option Place) (k : Client)
    → Wake k r n t
    → WakeOf (step start_called (at r n s returned t k))
unfolding step start
start-Wake true n s t idle w = (refl, tt)
start-Wake false n s none idle w = (refl, tt)
start-Wake false n s (some p) idle w = (refl, tt)
start-Wake r n s t making w = (refl, tt)
start-Wake r n s t rejoining w = (refl, tt)
start-Wake r n s t waiting w = (refl, w)
start-Wake r n s t joining w = (refl, tt)

stop-Wake :
    (r n s : Bool) (t : Option Place) (k : Client)
    → Wake k r n t
    → WakeOf (step stop_called (at r n s returned t k))
unfolding step stop
stop-Wake r n s none idle w = (refl, tt)
stop-Wake r n s (some p) idle w = (refl, tt)
stop-Wake r n s t making w = (refl, tt)
stop-Wake r n s t rejoining w = (refl, tt)
stop-Wake r n s t waiting w = (refl, w)
stop-Wake r n s t joining w = (refl, tt)

thread-Wake :
    (r n s : Bool) (t : Option Place) (k : Client)
    → Wake k r n t
    → WakeOf (step thread_goes_on (at r n s returned t k))
unfolding step
thread-Wake r n s none k w = (refl, w)
thread-Wake r n s (some p) k w = (refl, run-Wake k r n s p w)

step-Wake :
    (e : Event) (r n s : Bool) (t : Option Place) (k : Client)
    → AvoidsRun (e ∷ [])
    → IsExclusive (at r n s returned t k)
    → Wake k r n t
    → WakeOf (step e (at r n s returned t k))
unfolding step run
step-Wake start_called r n s t k q v w = start-Wake r n s t k w
step-Wake stop_called r n s t k q v w = stop-Wake r n s t k w
step-Wake run_called r n s t k q v w = elim q [ ]
step-Wake client_goes_on r n s t k q v w = client-Wake r n s t k v w
step-Wake thread_goes_on r n s t k q v w = thread-Wake r n s t k w
step-Wake caller_goes_on r n s t k q v w = (refl, w)
step-Wake caller_throws r n s t k q v w = (refl, w)

step-IsWoken :
    (e : Event) (r n s : Bool) (c : Place) (t : Option Place) (k : Client)
    → AvoidsRun (e ∷ [])
    → IsWoken (at r n s c t k)
    → IsWoken (step e (at r n s c t k))
step-IsWoken e r n s c t k q v =
    subst (λ p. IsExclusive (at r n s p t k) → IsWoken (step e (at r n s p t k))) (sym v.woken.0)
      (λ x. record {
        exclusive = step-IsExclusive e (at r n s returned t k) x;
        woken = step-Wake e r n s t k q x v.woken.1;
      })
      v.exclusive

apart : (e : Event) (a : Async) → AvoidsRun (e ∷ []) → IsWoken a → IsWoken (step e a)
apart e a =
    step-IsWoken e a.flags.is_running a.flags.waiter_was_notified a.flags.stopped a.caller a.thread
      a.client

pub steps-IsWoken : (es : List Event) (a : Async) → AvoidsRun es → IsWoken a → IsWoken (steps es a)
unfolding steps
steps-IsWoken [] a q v = v
steps-IsWoken (start_called ∷ es) a q v =
    steps-IsWoken es (step start_called a) q (apart start_called a tt v)
steps-IsWoken (stop_called ∷ es) a q v =
    steps-IsWoken es (step stop_called a) q (apart stop_called a tt v)
steps-IsWoken (run_called ∷ es) a q v = elim q [ ]
steps-IsWoken (client_goes_on ∷ es) a q v =
    steps-IsWoken es (step client_goes_on a) q (apart client_goes_on a tt v)
steps-IsWoken (thread_goes_on ∷ es) a q v =
    steps-IsWoken es (step thread_goes_on a) q (apart thread_goes_on a tt v)
steps-IsWoken (caller_goes_on ∷ es) a q v =
    steps-IsWoken es (step caller_goes_on a) q (apart caller_goes_on a tt v)
steps-IsWoken (caller_throws ∷ es) a q v =
    steps-IsWoken es (step caller_throws a) q (apart caller_throws a tt v)
