-- ===== src/Writer/Liveness.antt =====
-- Schedules of src/StreamWriter.cpp, and what is in hand for the write in progress.
use rtac_asio.Prelude.{
  ℕ, ◌≡◌, ◌≢◌, ◌⊎◌, refl, subst, Bool, true, false, Option, none, some, List, [], ◌∷◌,
  if◌then◌else◌, ◌==◌, arith, inl, inr, Bool-cases, get_elem?, erase_idx,
}
use native.Mathlib.Decide.{ℕ_discrete}
use rtac_asio.Service.{ErrorCode, Task, Request}
use rtac_asio.Service.Hand.{AnyRequest-erase_idx}
use rtac_asio.Writer.{
  Callback, write_callback, Handler, write_some_continue, write_continue, Writer, new_write,
  async_write_some, async_write, write_begin, dump_enabled, enable_dump, disable_dump,
}
use rtac_asio.Writer.Run.{
  Event, write_some, write_all, sync_write, dump_to, dump_off, completes, timer, serves,
  complete_at, timer_at, serve, step, run,
}
use rtac_asio.Writer.Progress.{
  handler_id, HasTask, IsOf, HasRequest, InHand, IsLive, timeout_reached-IsLive,
  do_write_some-IsLive, run_handler-IsLive,
}

-- A call that the writer is too busy for changes nothing.
pub new_write_busy :
    (r : Writer) (n a : ℕ) (c : Callback) (millis : ℕ)
    → (new_write r n a c millis).0 ≡ false
    → (new_write r n a c millis).1 ≡ r
unfolding new_write
new_write_busy r n a c millis e = elim (Bool-cases (r.write_id == 0)) [
  | inl idle ↦ ground arith
  | inr busy ↦ rw busy refl
]

module _ (r : Writer) (n a : ℕ) (c : Callback) (millis : ℕ) (v : IsLive r) where
  async_write_some-IsLive : IsLive (async_write_some r n a c millis).1
  unfolding async_write_some
  async_write_some-IsLive = elim (Bool-cases (new_write r n a c millis).0) [
    | inl begun ↦ rw begun (do_write_some-IsLive _ _ _ (write_some_continue _) refl)
    | inr busy ↦ rw (busy, new_write_busy r n a c millis busy) v
  ]

  async_write-IsLive : IsLive (async_write r n a c millis).1
  unfolding async_write
  async_write-IsLive = elim (Bool-cases (new_write r n a c millis).0) [
    | inl begun ↦ rw begun (do_write_some-IsLive _ _ _ (write_continue _) refl)
    | inr busy ↦ rw (busy, new_write_busy r n a c millis busy) v
  ]

waiting-IsLive :
    (out : Bool × Writer)
    → IsLive out.1
    → IsLive
        (if◌then◌else◌ {A = Bool × Writer} out.0
          (true, record out.1 { waiter_notified = false })
          (false, out.1)).1
waiting-IsLive (true, q) v = v
waiting-IsLive (false, q) v = v

pub complete_at-IsLive :
    (r : Writer) (k : ℕ) (o : Option (Request Handler)) (n : ℕ) (err : ErrorCode)
    → get_elem? r.pending k ≡ o
    → IsLive r
    → IsLive (complete_at r k o n err)
unfolding complete_at
complete_at-IsLive r k none n err e v = v
complete_at-IsLive r k (some q) n err e v =
    run_handler-IsLive q.handler _ err n (λ busy. covers (v busy))
  where
    covers :
        InHand r
        → (handler_id q.handler ≡ r.write_id)
          ⊎ (HasRequest r.write_id (erase_idx r.pending k) ⊎ HasTask r.write_id r.posted)
    covers (inr t) = inr (inr t)
    covers (inl h) = elim (AnyRequest-erase_idx (IsOf r.write_id) r.pending k h) [
      | inl (p, at_k, same) ↦
          let found : p ≡ q = cc in inl (subst (λ x. handler_id x.handler ≡ r.write_id) found same)
      | inr kept ↦ inr (inl kept)
    ]

pub serve-IsLive :
    (r : Writer) (ts : List (Task Handler)) → r.posted ≡ ts → IsLive r → IsLive (serve r ts)
unfolding serve
serve-IsLive r [] e v = v
serve-IsLive r (t ∷ ts) e v = run_handler-IsLive t.handler _ t.err t.count (λ busy. covers (v busy))
  where
    first :
        HasTask r.write_id (t ∷ ts)
        → (handler_id t.handler ≡ r.write_id)
          ⊎ (HasRequest r.write_id r.pending ⊎ HasTask r.write_id ts)
    first (inl same) = inl same
    first (inr later) = inr (inr later)

    covers :
        InHand r
        → (handler_id t.handler ≡ r.write_id)
          ⊎ (HasRequest r.write_id r.pending ⊎ HasTask r.write_id ts)
    covers (inl h) = inr (inl h)
    covers (inr h) = first (subst (HasTask r.write_id) e h)

pub timer_at-IsLive : (r : Writer) (k : ℕ) (o : Option ℕ) → IsLive r → IsLive (timer_at r k o)
unfolding timer_at
timer_at-IsLive r k none v = v
timer_at-IsLive r k (some id) v = timeout_reached-IsLive _ id v

enable_dump-IsLive :
    (r : Writer) (name : ℕ) (append opens : Bool)
    → IsLive r
    → IsLive (enable_dump r name append opens)
unfolding enable_dump
enable_dump-IsLive r name append opens v = elim (Bool-cases (dump_enabled r)) [
  | inl on ↦ rw on v
  | inr off ↦ rw off (elim (Bool-cases opens) [ inl e ↦ rw e v | inr e ↦ rw e v ])
]

pub step-IsLive : (e : Event) (r : Writer) → IsLive r → IsLive (step e r)
unfolding step write_begin disable_dump
step-IsLive (write_some n a c millis) r v = async_write_some-IsLive r n a c millis v
step-IsLive (write_all n a c millis) r v = async_write-IsLive r n a c millis v
step-IsLive (sync_write n a millis) r v =
    waiting-IsLive _ (async_write-IsLive r n a write_callback millis v)
step-IsLive (dump_to name append opens) r v = enable_dump-IsLive r name append opens v
step-IsLive dump_off r v = v
step-IsLive (completes k n err) r v = complete_at-IsLive r k _ n err refl v
step-IsLive (timer k) r v = timer_at-IsLive r k _ v
step-IsLive serves r v = serve-IsLive r _ refl v

run-IsLive : (es : List Event) (r : Writer) → IsLive r → IsLive (run es r)
unfolding run
run-IsLive [] r v = v
run-IsLive (e ∷ es) r v = run-IsLive es (step e r) (step-IsLive e r v)

-- The writer is idle, or the stream or the service's queue holds a handler with the write's id.
abbrev pub IsServed : Writer → Type 0
IsServed r = (r.write_id ≡ 0) ⊎ InHand r

-- No schedule abandons a write: if the writer is idle, or the stream or the service's queue holds a
-- handler with the id of the write in progress, then this still holds after any calls, completions
-- (with errors too), timer waits and service rounds.
pub run-IsServed : (es : List Event) (r : Writer) → IsServed r → IsServed (run es r)
run-IsServed es r v = elim (ℕ_discrete (run es r).write_id 0) [
  | yes idle ↦ inl idle
  | no busy ↦ inr (run-IsLive es r (λ b. served b v) busy)
]
  where
    served : r.write_id ≢ 0 → (r.write_id ≡ 0) ⊎ InHand r → InHand r
    served b (inl idle) = absurd (b idle)
    served b (inr held) = held
