-- ===== src/Writer/Callbacks.antt =====
-- The handlers of src/StreamWriter.cpp, and the callbacks in the writer, the queue and the record of
-- calls.
use rtac_asio.Prelude.{ℕ, refl, true, ◌&&◌, ◌==◌, ltb, inl, inr, Bool-cases, add_size}
use rtac_asio.Service.{ErrorCode, success}
use rtac_asio.Writer.{
  Handler, call, write_some_continue, write_continue, dump_callback, Writer, dump_bytes,
  timeout_reached, async_write_some_continue, async_write_continue,
}
use rtac_asio.Writer.Run.{run_handler}
use rtac_asio.Writer.Order.{
  IsContinuation, Keeps, Keeps-trans, finish_write-Keeps, do_write_some-Keeps, dump_bytes-Keeps,
}

pub Keeps-refl : (r : Writer) → Keeps r r
Keeps-refl r = record { order = refl; bound = λ v. v; counter = refl }

pub timeout_reached-Keeps : (r : Writer) (id : ℕ) → Keeps r (timeout_reached r id)
unfolding timeout_reached
timeout_reached-Keeps r id = elim (Bool-cases (id == r.write_id)) [
  | inl current ↦
      rw current
        (Keeps-trans (noted r) (finish_write-Keeps (record r { waiter_notified = true }) success))
  | inr stale ↦ rw stale (Keeps-refl r)
]
  where
    noted : (r : Writer) → Keeps r (record r { waiter_notified = true })
    noted r = record {
      order = refl;
      bound = λ v. record { tasks = v.tasks; requests = v.requests };
      counter = refl;
    }

processed-Keeps : (r : Writer) (n : ℕ) → Keeps r (record r { processed = n })
processed-Keeps r n = record {
  order = refl;
  bound = λ v. record { tasks = v.tasks; requests = v.requests };
  counter = refl;
}

async_write_some_continue-Keeps :
    (r : Writer) (id : ℕ) (err : ErrorCode) (n : ℕ) → Keeps r (async_write_some_continue r id err n)
unfolding async_write_some_continue
async_write_some_continue-Keeps r id err n = elim (Bool-cases (id == r.write_id)) [
  | inl current ↦
      rw current
        (Keeps-trans (processed-Keeps r n) (finish_write-Keeps (record r { processed = n }) err))
  | inr stale ↦ rw stale (Keeps-refl r)
]

async_write_continue-Keeps :
    (r : Writer) (id : ℕ) (err : ErrorCode) (n : ℕ) → Keeps r (async_write_continue r id err n)
unfolding async_write_continue
async_write_continue-Keeps r id err n = elim (Bool-cases (id == r.write_id)) [
  | inr stale ↦ rw stale (Keeps-refl r)
  | inl current ↦ rw current (elim (Bool-cases (err == success && ltb p r.requested_size)) [
    | inl more ↦
        rw more
          (Keeps-trans (processed-Keeps r p) (do_write_some-Keeps _ _ _ (write_continue id) tt))
    | inr done ↦
        rw done
          (Keeps-trans (processed-Keeps r p) (finish_write-Keeps (record r { processed = p }) err))
  ])
]
  where
    p : ℕ
    p = add_size r.processed n

pub run_handler-Keeps :
    (h : Handler) (r : Writer) (err : ErrorCode) (n : ℕ)
    → IsContinuation h
    → Keeps r (run_handler h r err n)
unfolding run_handler
run_handler-Keeps (call c) r err n k = absurd k
run_handler-Keeps (write_some_continue id) r err n k = async_write_some_continue-Keeps r id err n
run_handler-Keeps (write_continue id) r err n k = async_write_continue-Keeps r id err n
run_handler-Keeps (dump_callback h addr) r err n k =
    Keeps-trans (dump_bytes-Keeps r addr err n)
      (run_handler-Keeps h (dump_bytes r addr err n) err n k)
