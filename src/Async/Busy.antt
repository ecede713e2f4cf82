-- ===== src/Async/Busy.antt =====
-- src/AsyncService.cpp, the timer that keeps `service_.run()` busy: its functions in the queue, and
-- the functions that are posted.
use rtac_asio.Prelude.{
  ℕ, zero, suc, ◌+◌, ◌≤◌, ◌≡◌, ◌≢◌, refl, sym, ap, ◌∙◌, Option, none, some, get_elem?, erase_idx,
  List, [], ◌∷◌, ◌++◌, arith,
}
use rtac_asio.Service.{ErrorCode, success}
use rtac_asio.Async.Guard.{
  IoTimer, Job, guard, function, Context, Event, runs, posts, elapses, serves, guards_of, construct,
  end_waits, timer_callback, guard_run, post, serve, step, steps,
}

-- How often a schedule runs the service.
abbrev pub begun : Event → ℕ
begun runs = 1
begun _ = 0

abbrev pub times_run : List Event → ℕ
times_run [] = 0
times_run (e ∷ es) = begun e + times_run es

-- The timer's functions in a queue.
abbrev pub guards : List Job → ℕ
guards [] = 0
guards (guard err ∷ js) = suc (guards js)
guards (function f ∷ js) = guards js

guards-append : (xs ys : List Job) → guards (xs ++ ys) ≡ guards xs + guards ys
guards-append [] ys = omega arith
guards-append (guard err ∷ xs) ys = omega (arith, guards-append xs ys)
guards-append (function f ∷ xs) ys = guards-append xs ys

guards-guards_of : (n : ℕ) (err : ErrorCode) → guards (guards_of n err) ≡ n
guards-guards_of zero err = refl
guards-guards_of (suc n) err = ap suc (guards-guards_of n err)

guards-erase_idx :
    (js : List Job) (k : ℕ) (j : Job)
    → get_elem? js k ≡ some j
    → guards (erase_idx js k) + guards (j ∷ []) ≡ guards js
guards-erase_idx [] k j e = cc
guards-erase_idx (guard err ∷ js) zero j e =
    ap {B = ℕ} (λ o. guards js + (elim o [ none ↦ 0 | some x ↦ guards (x ∷ []) ])) (sym e)
    ∙ omega arith
guards-erase_idx (function f ∷ js) zero j e =
    ap {B = ℕ} (λ o. guards js + (elim o [ none ↦ 0 | some x ↦ guards (x ∷ []) ])) (sym e)
    ∙ omega arith
guards-erase_idx (guard err ∷ js) (suc k) j e = omega (arith, guards-erase_idx js k j e)
guards-erase_idx (function f ∷ js) (suc k) j e = guards-erase_idx js k j e

module _ {T : Type 0} ⦃io : IoTimer T⦄ where
  -- With `k` functions of the timer's alive, of which one at most waits for it.
  record IsGuarded (k : ℕ) (c : Context T) : Type 0 where
    few : io.waits c.timer ≤ 1
    total : io.waits c.timer + guards c.queue ≡ k

  -- The waits that an operation ends are functions in the queue.
  end_waits-guards :
      (c : Context T) (t : T) (err : ErrorCode)
      → guards (end_waits c t err).queue ≡ guards c.queue + io.waits c.timer
  unfolding end_waits
  end_waits-guards c t err = omega (
    arith,
    guards-append c.queue (guards_of (io.waits c.timer) err),
    guards-guards_of (io.waits c.timer) err,
  )

  -- `timer_callback` starts a wait beside those that it ends.
  timer_callback-IsGuarded :
      (c : Context T) (err : ErrorCode)
      → IsGuarded (suc (guards c.queue + io.waits c.timer)) (timer_callback c err)
  unfolding timer_callback end_waits
  timer_callback-IsGuarded c err = record {
    few = omega (arith, one);
    total =
        omega
          (arith, one, end_waits-guards c (io.expires_from_now 1000 c.timer) io.operation_aborted);
  }
    where
      one : io.waits (io.async_wait (io.expires_from_now 1000 c.timer)) ≡ 1
      one =
          io.async_wait_lem (io.expires_from_now 1000 c.timer)
          ∙ ap suc (io.expires_from_now_lem 1000 c.timer)

  timer_callback-alive :
      (k : ℕ) (c : Context T) (err : ErrorCode)
      → io.waits c.timer + guards c.queue ≡ k
      → IsGuarded (suc k) (timer_callback c err)
  timer_callback-alive k c err e =
      let g = timer_callback-IsGuarded c err in
      record { few = g.few; total = omega (arith, g.total) }

  ended_waits-IsGuarded :
      (k : ℕ) (c : Context T) (t : T) (err : ErrorCode)
      → IsGuarded k c
      → io.waits t ≡ 0
      → IsGuarded k (end_waits c t err)
  unfolding end_waits
  ended_waits-IsGuarded k c t err g none_left = record {
    few = omega (arith, none_left);
    total = omega (arith, none_left, g.total, end_waits-guards c t err);
  }

  serve-IsGuarded :
      (n : ℕ) (c : Context T) (k : ℕ) (o : Option Job)
      → get_elem? c.queue k ≡ o
      → IsGuarded n c
      → IsGuarded n (serve c k o)
  unfolding serve
  serve-IsGuarded n c k none e g = g
  serve-IsGuarded zero c k (some (guard err)) e g =
      absurd (omega (arith, g.total, guards-erase_idx c.queue k (guard err) e))
  serve-IsGuarded (suc n) c k (some (guard err)) e g =
      timer_callback-alive n (record c { queue = erase_idx c.queue k }) err
        (omega (arith, g.total, guards-erase_idx c.queue k (guard err) e))
  serve-IsGuarded n c k (some (function f)) e g = record {
    few = g.few;
    total = omega (arith, g.total, guards-erase_idx c.queue k (function f) e);
  }

  counted : (k n : ℕ) (c : Context T) → k ≡ n → IsGuarded k c → IsGuarded n c
  counted k n c e g = record { few = g.few; total = g.total ∙ e }

  step-IsGuarded :
      (e : Event) (k : ℕ) (c : Context T) → IsGuarded k c → IsGuarded (begun e + k) (step e c)
  unfolding step guard_run post
  step-IsGuarded runs k c g =
      let off =
        ended_waits-IsGuarded k c (io.cancel c.timer) io.operation_aborted g
          (io.cancel_lem c.timer) in
      counted (suc k) (1 + k) _ (omega arith) (
        timer_callback-alive k (end_waits c (io.cancel c.timer) io.operation_aborted) success
          off.total)
  step-IsGuarded (posts f) k c g = record {
    few = g.few;
    total = omega (arith, g.total, guards-append c.queue (function f ∷ []));
  }
  step-IsGuarded elapses k c g =
      counted k (0 + k) _ (omega arith)
        (ended_waits-IsGuarded k c (io.elapse c.timer) success g (io.elapse_lem c.timer))
  step-IsGuarded (serves i) k c g =
      counted k (0 + k) _ (omega arith) (serve-IsGuarded k c i (get_elem? c.queue i) refl g)

  steps-IsGuarded :
      (es : List Event) (k : ℕ) (c : Context T)
      → IsGuarded k c
      → IsGuarded (times_run es + k) (steps es c)
  unfolding steps
  steps-IsGuarded [] k c g = counted k (0 + k) c (omega arith) g
  steps-IsGuarded (e ∷ es) k c g =
      let g' = steps-IsGuarded es (begun e + k) (step e c) (step-IsGuarded e k c g) in
      record { few = g'.few; total = omega (arith, g'.total) }

  constructed-IsGuarded : IsGuarded 0 construct
  unfolding construct
  constructed-IsGuarded = record {
    few = omega (arith, io.fresh_lem);
    total = omega (arith, io.fresh_lem);
  }

-- However calls of `run` that pass its check, posts, the timer's time and the io_context's turns follow
-- each other from the constructor on, whichever function the io_context takes, each such call has added one function of the timer's, which
-- waits for the timer or is in the queue, and is never lost; at most one of them waits. So once
-- `run` was called, `service_.run()` always has work.
pub steps-guards :
    (T : Type 0) ⦃io : IoTimer T⦄ (es : List Event)
    → let c : Context T = steps es construct in
      (io.waits c.timer ≤ 1) × (io.waits c.timer + guards c.queue ≡ times_run es)
steps-guards T es =
    let g = steps-IsGuarded {T = T} es 0 construct constructed-IsGuarded in
    (g.few, omega (arith, g.total))

-- After a second call of `run` has passed its check, the queue is not empty between any two turns of the
-- io_context: `service_.run()` never has to wait for the timer, and its thread never sleeps.
pub steps-spin :
    (T : Type 0) ⦃io : IoTimer T⦄ (es : List Event)
    → 2 ≤ times_run es
    → let c : Context T = steps es construct in c.queue ≢ []
steps-spin T es twice empty =
    let g = steps-guards T es in absurd (omega (arith, g.0, g.1, ap guards empty))
