-- ===== src/Reader/Liveness.antt =====
-- Schedules of src/StreamReader.cpp, and what is in hand for the read in progress.
use rtac_asio.Prelude.{
  ℕ, zero, suc, ◌+◌, ◌≡◌, ◌≢◌, ◌⊎◌, refl, subst, Bool, true, false, ◌||◌, Option, none, some, List,
  [], ◌∷◌, if◌then◌else◌, ◌==◌, ltb, leb, arith, inl, inr, Bool-cases, get_elem?, erase_idx, length,
}
use native.Mathlib.Decide.{ℕ_discrete}
use mathlib.Core.Bool.{false≢true}
use rtac_asio.Service.{ErrorCode, success, Task, Request}
use rtac_asio.Streambuf.{Streambuf}
use rtac_asio.Service.Hand.{AnyRequest-erase_idx}
use rtac_asio.Reader.{
  Callback, read_callback, Handler, read_some_continue, read_continue, read_until_continue, Reader,
  new_read, async_read_some, async_read, read_begin, dump_enabled, enable_dump, disable_dump, flush,
}
use rtac_asio.Reader.Until.{char_byte, scan, scan_buffer, async_read_until, read_until_begin}
use rtac_asio.Reader.Run.{
  Event, read_some, read_all, read_until, sync_read, sync_read_until, flushes, dump_to, dump_off,
  completes, timer, serves, complete_at, timer_at, serve, step, run,
}
use rtac_asio.Reader.Progress.{
  handler_id, HasTask, IsOf, HasRequest, InHand, IsLive, finish_read-IsLive, timeout_reached-IsLive,
  do_read_some-IsLive, run_handler-IsLive,
}

module _ {B : Type 0} where
  -- A call that the reader is too busy for changes nothing.
  pub new_read_busy :
      (r : Reader B) (n a : ℕ) (c : Callback) (millis : ℕ)
      → (new_read r n a c millis).0 ≡ false
      → (new_read r n a c millis).1 ≡ r
  unfolding new_read
  new_read_busy r n a c millis e = elim (Bool-cases (r.read_id == 0)) [
    | inl idle ↦ ground arith
    | inr busy ↦ rw busy refl
  ]

module _ {B : Type 0} ⦃s : Streambuf B⦄ where
  scan-IsLive :
      (fuel : ℕ) (c : Option ℕ) (d : ℕ) (r : Reader B)
      → (scan fuel c d r).0 ≡ true
      → IsLive (scan fuel c d r).1
  unfolding scan
  scan-IsLive zero c d r e = cc
  scan-IsLive (suc fuel) none d r e = cc
  scan-IsLive (suc fuel) (some c) d r e =
      elim (Bool-cases (c == char_byte d || leb r.requested_size (r.processed + 1))) [
        | inl last ↦ rw last (finish_read-IsLive _ success)
        | inr more ↦ rw more (scan-IsLive fuel _ d _ (rw more at e))
      ]

  scan_buffer-IsLive :
      (d : ℕ) (r : Reader B) → (scan_buffer d r).0 ≡ true → IsLive (scan_buffer d r).1
  unfolding scan_buffer
  scan_buffer-IsLive d r e = elim (Bool-cases (ltb 0 (s.size r.read_buffer))) [
    | inl full ↦ rw full (scan-IsLive _ _ d _ (rw full at e))
    | inr dry ↦ absurd (false≢true (rw dry at e))
  ]

  module _ (r : Reader B) (n a : ℕ) (c : Callback) (millis : ℕ) (v : IsLive r) where
    async_read_some-IsLive : IsLive (async_read_some r n a c millis).1
    unfolding async_read_some
    async_read_some-IsLive = elim (Bool-cases (new_read r n a c millis).0) [
      | inl begun ↦ rw begun (do_read_some-IsLive _ _ _ (read_some_continue _) refl)
      | inr busy ↦ rw (busy, new_read_busy r n a c millis busy) v
    ]

    async_read-IsLive : IsLive (async_read r n a c millis).1
    unfolding async_read
    async_read-IsLive = elim (Bool-cases (new_read r n a c millis).0) [
      | inl begun ↦ rw begun (do_read_some-IsLive _ _ _ (read_continue _) refl)
      | inr busy ↦ rw (busy, new_read_busy r n a c millis busy) v
    ]

    async_read_until-IsLive : (d : ℕ) → IsLive (async_read_until r n a d c millis).1
    unfolding async_read_until
    async_read_until-IsLive d = elim (Bool-cases (new_read r n a c millis).0) [
      | inr busy ↦ rw (busy, new_read_busy r n a c millis busy) v
      | inl begun ↦ rw begun (elim (Bool-cases (scan_buffer d (new_read r n a c millis).1).0) [
        | inl found ↦ rw found (scan_buffer-IsLive d _ found)
        | inr more ↦ rw more (do_read_some-IsLive _ _ _ (read_until_continue _ d) refl)
      ])
    ]

  waiting-IsLive :
      (out : Bool × Reader B)
      → IsLive out.1
      → IsLive
          (if◌then◌else◌ {A = Bool × Reader B} out.0
            (true, record out.1 { waiter_notified = false })
            (false, out.1)).1
  waiting-IsLive (true, q) v = v
  waiting-IsLive (false, q) v = v

  pub complete_at-IsLive :
      (r : Reader B) (k : ℕ) (o : Option (Request Handler)) (bs : List ℕ) (err : ErrorCode)
      → get_elem? r.pending k ≡ o
      → IsLive r
      → IsLive (complete_at r k o bs err)
  unfolding complete_at
  complete_at-IsLive r k none bs err e v = v
  complete_at-IsLive r k (some q) bs err e v =
      run_handler-IsLive q.handler _ err (length bs) (λ busy. covers (v busy))
    where
      covers :
          InHand r
          → (handler_id q.handler ≡ r.read_id)
            ⊎ (HasRequest r.read_id (erase_idx r.pending k) ⊎ HasTask r.read_id r.posted)
      covers (inr t) = inr (inr t)
      covers (inl h) = elim (AnyRequest-erase_idx (IsOf r.read_id) r.pending k h) [
        | inl (p, at_k, same) ↦
            let found : p ≡ q = cc in inl (subst (λ x. handler_id x.handler ≡ r.read_id) found same)
        | inr kept ↦ inr (inl kept)
      ]

  pub serve-IsLive :
      (r : Reader B) (ts : List (Task Handler)) → r.posted ≡ ts → IsLive r → IsLive (serve r ts)
  unfolding serve
  serve-IsLive r [] e v = v
  serve-IsLive r (t ∷ ts) e v =
      run_handler-IsLive t.handler _ t.err t.count (λ busy. covers (v busy))
    where
      first :
          HasTask r.read_id (t ∷ ts)
          → (handler_id t.handler ≡ r.read_id)
            ⊎ (HasRequest r.read_id r.pending ⊎ HasTask r.read_id ts)
      first (inl same) = inl same
      first (inr later) = inr (inr later)

      covers :
          InHand r
          → (handler_id t.handler ≡ r.read_id)
            ⊎ (HasRequest r.read_id r.pending ⊎ HasTask r.read_id ts)
      covers (inl h) = inr (inl h)
      covers (inr h) = first (subst (HasTask r.read_id) e h)

  pub timer_at-IsLive : (r : Reader B) (k : ℕ) (o : Option ℕ) → IsLive r → IsLive (timer_at r k o)
  unfolding timer_at
  timer_at-IsLive r k none v = v
  timer_at-IsLive r k (some id) v = timeout_reached-IsLive _ id v

  enable_dump-IsLive :
      (r : Reader B) (name : ℕ) (append opens : Bool)
      → IsLive r
      → IsLive (enable_dump r name append opens)
  unfolding enable_dump
  enable_dump-IsLive r name append opens v = elim (Bool-cases (dump_enabled r)) [
    | inl on ↦ rw on v
    | inr off ↦ rw off (elim (Bool-cases opens) [ inl e ↦ rw e v | inr e ↦ rw e v ])
  ]

  pub step-IsLive : (e : Event) (r : Reader B) → IsLive r → IsLive (step e r)
  unfolding step read_begin read_until_begin flush disable_dump
  step-IsLive (read_some n a c millis) r v = async_read_some-IsLive r n a c millis v
  step-IsLive (read_all n a c millis) r v = async_read-IsLive r n a c millis v
  step-IsLive (read_until n a d c millis) r v = async_read_until-IsLive r n a c millis v d
  step-IsLive (sync_read n a millis) r v =
      waiting-IsLive _ (async_read-IsLive r n a read_callback millis v)
  step-IsLive (sync_read_until n a d millis) r v =
      waiting-IsLive _ (async_read_until-IsLive r n a read_callback millis v d)
  step-IsLive flushes r v = v
  step-IsLive (dump_to name append opens) r v = enable_dump-IsLive r name append opens v
  step-IsLive dump_off r v = v
  step-IsLive (completes k bs err) r v = complete_at-IsLive r k _ bs err refl v
  step-IsLive (timer k) r v = timer_at-IsLive r k _ v
  step-IsLive serves r v = serve-IsLive r _ refl v

  run-IsLive : (es : List Event) (r : Reader B) → IsLive r → IsLive (run es r)
  unfolding run
  run-IsLive [] r v = v
  run-IsLive (e ∷ es) r v = run-IsLive es (step e r) (step-IsLive e r v)

  -- The reader is idle, or the stream or the service's queue holds a handler with the read's id.
  abbrev pub IsAttended : Reader B → Type 0
  IsAttended r = (r.read_id ≡ 0) ⊎ InHand r

  -- No schedule abandons a read: if the reader is idle, or the stream or the service's queue holds a
  -- handler with the id of the read in progress, then this still holds after any calls, completions
  -- (with errors too), timer waits and service rounds.
  pub run-IsAttended : (es : List Event) (r : Reader B) → IsAttended r → IsAttended (run es r)
  run-IsAttended es r v = elim (ℕ_discrete (run es r).read_id 0) [
    | yes idle ↦ inl idle
    | no busy ↦ inr (run-IsLive es r (λ b. attended b v) busy)
  ]
    where
      attended : r.read_id ≢ 0 → (r.read_id ≡ 0) ⊎ InHand r → InHand r
      attended b (inl idle) = absurd (b idle)
      attended b (inr held) = held
