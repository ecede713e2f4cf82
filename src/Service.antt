-- ===== src/Service.antt =====
-- include/rtac_asio/StreamInterface.h and AsyncService::post: what an operation acts on beyond its
-- own object. `H` is the type of the handlers that a component binds (`std::bind(...)`).
pub mod Hand
pub mod Files
use rtac_asio.Prelude.{ℕ, zero, suc, ◌≡◌, refl, List, [], ◌∷◌, ◌++◌, if◌then◌else◌, ◌==◌}
use rtac_asio.Memory.{Bytes}

-- `boost::system::error_code` by its value: `ErrorCode()` is 0, and `!err` tests for 0.
abbrev pub ErrorCode : Type 0
ErrorCode = ℕ

abbrev pub success : ErrorCode
success = 0

-- A nullary function handed to `AsyncService::post`: a handler bound to its two arguments.
pub record Task (H : Type 0) : Type 0 where
  pub handler : H
  pub err : ErrorCode
  pub count : ℕ

-- A call of `async_read_some(count, addr, handler)` or `async_write_some` that the stream has not
-- completed.
pub record Request (H : Type 0) : Type 0 where
  pub count : ℕ
  pub addr : ℕ
  pub handler : H

-- Memory, the service's queue (oldest first), the operations that the stream has in hand, the waits
-- of the component's timer (the id bound into each handler) and the files, by name.
pub record Env (H : Type 0) : Type 0 where
  pub mem : Bytes
  pub posted : List (Task H)
  pub pending : List (Request H)
  pub waits : List ℕ
  pub files : ℕ → List ℕ

abbrev pub append_file : (ℕ → List ℕ) → ℕ → List ℕ → ℕ → List ℕ
append_file fs name bs f = if name == f then fs f ++ bs else fs f

abbrev pub put_file : (ℕ → List ℕ) → ℕ → List ℕ → ℕ → List ℕ
put_file fs name bs f = if name == f then bs else fs f

module _ {H : Type 0} where
  -- `AsyncService::post`. The service is taken to run posted functions in the order in which they came,
  -- as one thread in `io_context::run` does.
  unfoldable pub post : Env H → H → ErrorCode → ℕ → Env H
  post e h err n = record e {
    posted = e.posted ++ record { handler = h; err = err; count = n } ∷ [];
  }

  -- `stream_->async_read_some`, `stream_->async_write_some`: the stream takes the operation in hand.
  unfoldable pub submit : Env H → ℕ → ℕ → H → Env H
  submit e n p h = record e {
    pending = e.pending ++ record { count = n; addr = p; handler = h } ∷ [];
  }

  -- `timer_.expires_from_now(Millis(timeoutMillis)); timer_.async_wait(...)` for a timeout above 0.
  -- The handler of an earlier wait is called too, with an error that the handlers ignore; so all
  -- waits stay, and the environment chooses when each is called.
  unfoldable pub arm : Env H → ℕ → ℕ → Env H
  arm e zero id = e
  arm e (suc millis) id = record e { waits = e.waits ++ id ∷ [] }

  pub arm-posted : (e : Env H) (millis id : ℕ) → (arm e millis id).posted ≡ e.posted
  unfolding arm
  arm-posted e zero id = refl
  arm-posted e (suc millis) id = refl

  pub arm-pending : (e : Env H) (millis id : ℕ) → (arm e millis id).pending ≡ e.pending
  unfolding arm
  arm-pending e zero id = refl
  arm-pending e (suc millis) id = refl

  pub arm-mem : (e : Env H) (millis id : ℕ) → (arm e millis id).mem ≡ e.mem
  unfolding arm
  arm-mem e zero id = refl
  arm-mem e (suc millis) id = refl

  pub arm-files : (e : Env H) (millis id : ℕ) → (arm e millis id).files ≡ e.files
  unfolding arm
  arm-files e zero id = refl
  arm-files e (suc millis) id = refl
