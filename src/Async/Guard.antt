-- ===== src/Async/Guard.antt =====
-- src/AsyncService.cpp, the timer that keeps `service_.run()` busy: `timer_callback`, the lines of
-- `run` before `service_.run()`, `post`, and what the io_context has to call, in whatever order.
mod Tests
use rtac_asio.Prelude.{
  ℕ, zero, suc, ◌≡◌, refl, Option, none, some, List, [], ◌∷◌, ◌++◌, get_elem?, erase_idx,
}
use rtac_asio.Service.{ErrorCode, success}

-- `boost::asio::deadline_timer`, as its documentation has it.
pub record IoTimer (T : Type 0) : Type 0 where
  -- The waits that `async_wait` started and that have not ended.
  pub waits : T → ℕ
  pub fresh : T
  -- `cancel` and `expires_from_now` end all waits: their handlers are called with
  -- `operation_aborted`.
  pub cancel : T → T
  pub expires_from_now : ℕ → T → T
  pub async_wait : T → T
  -- The time that was set comes, which ends all waits with success.
  pub elapse : T → T
  pub operation_aborted : ErrorCode
  pub fresh_lem : waits fresh ≡ 0
  pub cancel_lem : (t : T) → waits (cancel t) ≡ 0
  pub expires_from_now_lem : (millis : ℕ) (t : T) → waits (expires_from_now millis t) ≡ 0
  pub async_wait_lem : (t : T) → waits (async_wait t) ≡ suc (waits t)
  pub elapse_lem : (t : T) → waits (elapse t) ≡ 0

-- The number of the waits is such a timer.
instance abbrev pub counted_timer : IoTimer ℕ
counted_timer = record {
  waits = λ t. t;
  fresh = 0;
  cancel = λ t. 0;
  expires_from_now = λ millis t. 0;
  async_wait = λ t. suc t;
  elapse = λ t. 0;
  operation_aborted = 125;
  fresh_lem = refl;
  cancel_lem = λ t. refl;
  expires_from_now_lem = λ millis t. refl;
  async_wait_lem = λ t. refl;
  elapse_lem = λ t. refl;
}

-- What the io_context has to call: a bound `timer_callback`, or a function that was posted.
pub data Job : Type 0 where
  guard : ErrorCode → Job
  function : ℕ → Job

-- `timer_`, the functions that the io_context has to call, in the order in which they came, and the
-- posted ones that it has called.
pub record Context (T : Type 0) : Type 0 where
  pub timer : T
  pub queue : List Job
  pub called : List ℕ

pub data Event : Type 0 where
  -- `run` gets past its first block.
  runs : Event
  -- `post`, by a thread or by a function that the service calls.
  posts : ℕ → Event
  -- The timer's time comes.
  elapses : Event
  -- The io_context calls the function at an index: which one is its choice.
  serves : ℕ → Event

-- The handlers of a number of waits that end.
abbrev pub guards_of : ℕ → ErrorCode → List Job
guards_of zero err = []
guards_of (suc n) err = guard err ∷ guards_of n err

module _ {T : Type 0} ⦃io : IoTimer T⦄ where
  unfoldable pub construct : Context T
  construct = record { timer = io.fresh; queue = []; called = [] }

  -- The timer becomes `t`, and all its waits end.
  unfoldable pub end_waits : Context T → T → ErrorCode → Context T
  end_waits c t err = record c { timer = t; queue = c.queue ++ guards_of (io.waits c.timer) err }

  -- `err` is not looked at.
  unfoldable pub timer_callback : Context T → ErrorCode → Context T
  timer_callback c err =
      let c' : Context T = end_waits c (io.expires_from_now 1000 c.timer) io.operation_aborted in
      record c' { timer = io.async_wait c'.timer }

  -- `timer_.cancel(); this->timer_callback(ErrorCode());`
  unfoldable pub guard_run : Context T → Context T
  guard_run c = timer_callback (end_waits c (io.cancel c.timer) io.operation_aborted) success

  unfoldable pub post : Context T → ℕ → Context T
  post c f = record c { queue = c.queue ++ function f ∷ [] }

  unfoldable pub serve : Context T → ℕ → Option Job → Context T
  serve c k none = c
  serve c k (some (guard err)) = timer_callback (record c { queue = erase_idx c.queue k }) err
  serve c k (some (function f)) = record c {
    queue = erase_idx c.queue k;
    called = c.called ++ f ∷ [];
  }

  unfoldable pub step : Event → Context T → Context T
  step runs c = guard_run c
  step (posts f) c = post c f
  step elapses c = end_waits c (io.elapse c.timer) success
  step (serves k) c = serve c k (get_elem? c.queue k)

  unfoldable pub steps : List Event → Context T → Context T
  steps [] c = c
  steps (e ∷ es) c = steps es (step e c)
