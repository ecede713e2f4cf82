-- ===== src/Async/Start.antt =====
-- src/AsyncService.cpp, `start`: the wait for its thread.
use rtac_asio.Prelude.{
  ◌≡◌, inl, inr, refl, sym, Bool, true, false, Option, none, some, List, [], ◌∷◌, subst,
}
use rtac_asio.Async.{
  Place, entering, restarting, looping, leaving, returned, Client, idle, waiting, Async, run,
  client_moves, Event, client_goes_on, thread_goes_on, step, steps, construct,
}
use rtac_asio.Async.Exclusive.{at}
use rtac_asio.Async.Wake.{Wake, IsWoken, AvoidsRun, steps-IsWoken}

-- `run` takes no notification back.
run-notified :
    (r s : Bool) (p : Place)
    → (run
        (record { is_running = r; waiter_was_notified = true; stopped = s })
        p).0.waiter_was_notified
      ≡ true
unfolding run
run-notified true s entering = refl
run-notified false s entering = refl
run-notified r s restarting = refl
run-notified r true looping = refl
run-notified r false looping = refl
run-notified r s leaving = refl
run-notified r s returned = refl

notified-wakes :
    (r s : Bool) (c : Place) (t : Option Place)
    → (steps (thread_goes_on ∷ client_goes_on ∷ []) (at r true s c t waiting)).client ≡ idle
unfolding steps step client_moves
notified-wakes r s c none = refl
notified-wakes r s c (some p) = rw (run-notified r s p) refl

entering-wakes :
    (n s : Bool) (c : Place)
    → (steps (thread_goes_on ∷ client_goes_on ∷ []) (at false n s c (some entering) waiting)).client
      ≡ idle
unfolding steps step client_moves run
entering-wakes n s c = refl

wakes_up :
    (r n s : Bool) (c : Place) (t : Option Place)
    → Wake waiting r n t
    → (steps (thread_goes_on ∷ client_goes_on ∷ []) (at r n s c t waiting)).client ≡ idle
wakes_up r n s c t (inl e) =
    subst (λ b. (steps (thread_goes_on ∷ client_goes_on ∷ []) (at r b s c t waiting)).client ≡ idle)
      (sym e) (notified-wakes r s c t)
wakes_up r n s c t (inr (e, h)) =
    subst (λ b. (steps (thread_goes_on ∷ client_goes_on ∷ []) (at b n s c t waiting)).client ≡ idle)
      (sym h)
      (subst
        (λ o.
          (steps (thread_goes_on ∷ client_goes_on ∷ []) (at false n s c o waiting)).client ≡ idle)
        (sym e) (entering-wakes n s c))

IsWoken-wakes :
    (r n s : Bool) (c : Place) (t : Option Place) (k : Client)
    → IsWoken (at r n s c t k)
    → k ≡ waiting
    → (steps (thread_goes_on ∷ client_goes_on ∷ []) (at r n s c t k)).client ≡ idle
IsWoken-wakes r n s c t k v e =
    subst
      (λ x.
        Wake x r n t
        → (steps (thread_goes_on ∷ client_goes_on ∷ []) (at r n s c t x)).client ≡ idle)
      (sym e) (wakes_up r n s c t) v.woken.1

-- Where no other thread calls `run`, no interleaving makes `start` hang: whenever it waits, it returns
-- as soon as its thread and then it are given a turn.
pub start_returns :
    (es : List Event) (raw : Bool)
    → AvoidsRun es
    → (steps es (construct raw)).client ≡ waiting
    → (steps (thread_goes_on ∷ client_goes_on ∷ []) (steps es (construct raw))).client ≡ idle
unfolding construct
start_returns es raw q h =
    let a : Async = steps es (construct raw) in
    IsWoken-wakes a.flags.is_running a.flags.waiter_was_notified a.flags.stopped a.caller a.thread
      a.client
      (steps-IsWoken es (construct raw) q
        (record { exclusive = record { counted = refl; gone = tt }; woken = (refl, tt) }))
      h
