-- ===== src/Reader/Callbacks.antt =====
-- The handlers of src/StreamReader.cpp, and the callbacks in the reader, the queue and the record of
-- calls.
use rtac_asio.Prelude.{
  ℕ, zero, suc, ◌+◌, ◌-◌, ◌≡◌, refl, Bool, true, false, ◌&&◌, ◌||◌, Option, none, some,
  if◌then◌else◌, ◌==◌, ltb, leb, inl, inr, Bool-cases, add_size,
}
use rtac_asio.Memory.{poke}
use rtac_asio.Service.{ErrorCode, success}
use rtac_asio.Streambuf.{Streambuf}
use rtac_asio.Reader.{
  Handler, call, read_some_continue, read_continue, read_until_continue, dump_callback, Reader,
  finish_read, do_read_some, dump_bytes, timeout_reached, async_read_some_continue,
  async_read_continue,
}
use rtac_asio.Reader.Until.{
  char_byte, scan, scan_buffer, find_delimiter, save, async_read_until_continue,
}
use rtac_asio.Reader.Run.{run_handler}
use rtac_asio.Reader.Order.{
  IsContinuation, Keeps, Keeps-trans, finish_read-Keeps, do_read_some-Keeps, dump_bytes-Keeps,
}

module _ {B : Type 0} where
  pub Keeps-refl : (r : Reader B) → Keeps r r
  Keeps-refl r = record { order = refl; bound = λ v. v; counter = refl }

  pub timeout_reached-Keeps : (r : Reader B) (id : ℕ) → Keeps r (timeout_reached r id)
  unfolding timeout_reached
  timeout_reached-Keeps r id = elim (Bool-cases (id == r.read_id)) [
    | inl current ↦
        rw current
          (Keeps-trans (noted r) (finish_read-Keeps (record r { waiter_notified = true }) success))
    | inr stale ↦ rw stale (Keeps-refl r)
  ]
    where
      noted : (r : Reader B) → Keeps r (record r { waiter_notified = true })
      noted r = record {
        order = refl;
        bound = λ v. record { tasks = v.tasks; requests = v.requests };
        counter = refl;
      }

  processed-Keeps : (r : Reader B) (n : ℕ) → Keeps r (record r { processed = n })
  processed-Keeps r n = record {
    order = refl;
    bound = λ v. record { tasks = v.tasks; requests = v.requests };
    counter = refl;
  }

  async_read_some_continue-Keeps :
      (r : Reader B) (id : ℕ) (err : ErrorCode) (n : ℕ)
      → Keeps r (async_read_some_continue r id err n)
  unfolding async_read_some_continue
  async_read_some_continue-Keeps r id err n = elim (Bool-cases (id == r.read_id)) [
    | inl current ↦
        rw current
          (Keeps-trans (processed-Keeps r n) (finish_read-Keeps (record r { processed = n }) err))
    | inr stale ↦ rw stale (Keeps-refl r)
  ]

module _ {B : Type 0} ⦃s : Streambuf B⦄ where
  async_read_continue-Keeps :
      (r : Reader B) (id : ℕ) (err : ErrorCode) (n : ℕ) → Keeps r (async_read_continue r id err n)
  unfolding async_read_continue
  async_read_continue-Keeps r id err n = elim (Bool-cases (id == r.read_id)) [
    | inr stale ↦ rw stale (Keeps-refl r)
    | inl current ↦ rw current (elim (Bool-cases (err == success && ltb p r.requested_size)) [
      | inl more ↦
          rw more
            (Keeps-trans (processed-Keeps r p) (do_read_some-Keeps _ _ _ (read_continue id) tt))
      | inr done ↦
          rw done
            (Keeps-trans (processed-Keeps r p) (finish_read-Keeps (record r { processed = p }) err))
    ])
  ]
    where
      p : ℕ
      p = add_size r.processed n

  scan-Keeps : (fuel : ℕ) (c : Option ℕ) (d : ℕ) (r : Reader B) → Keeps r (scan fuel c d r).1
  unfolding scan
  scan-Keeps zero c d r = Keeps-refl r
  scan-Keeps (suc fuel) none d r = Keeps-refl r
  scan-Keeps (suc fuel) (some c) d r =
      elim (Bool-cases (c == char_byte d || leb r.requested_size (r.processed + 1))) [
        | inl last ↦ rw last (Keeps-trans (stored r.read_buffer) (finish_read-Keeps _ success))
        | inr more ↦ rw more (Keeps-trans (stored _) (scan-Keeps fuel (s.get r.read_buffer).0 d _))
      ]
    where
      stored :
          (b : B)
          → Keeps r (record r {
            processed = r.processed + 1;
            read_buffer = b;
            env = record r.env { mem = poke r.mem (r.dst + r.processed) c };
          })
      stored b = record {
        order = refl;
        bound = λ v. record { tasks = v.tasks; requests = v.requests };
        counter = refl;
      }

  pub buffer-Keeps : (r : Reader B) (b : B) → Keeps r (record r { read_buffer = b })
  buffer-Keeps r b = record {
    order = refl;
    bound = λ v. record { tasks = v.tasks; requests = v.requests };
    counter = refl;
  }

  pub scan_buffer-Keeps : (d : ℕ) (r : Reader B) → Keeps r (scan_buffer d r).1
  unfolding scan_buffer
  scan_buffer-Keeps d r = elim (Bool-cases (ltb 0 (s.size r.read_buffer))) [
    | inl full ↦ rw full (Keeps-trans (buffer-Keeps r _) (scan-Keeps _ _ d _))
    | inr dry ↦ rw dry (Keeps-refl r)
  ]

  async_read_until_continue-Keeps :
      (r : Reader B) (id d : ℕ) (err : ErrorCode) (n : ℕ)
      → Keeps r (async_read_until_continue r id d err n)
  unfolding async_read_until_continue
  async_read_until_continue-Keeps r id d err n = elim (Bool-cases (id == r.read_id)) [
    | inr stale ↦ rw stale (Keeps-refl r)
    | inl current ↦ rw current (go (find_delimiter r.mem (r.dst + r.processed) d n 0) refl)
  ]
    where
      p : ℕ
      p = add_size r.processed n

      ends : Bool
      ends = (if err == success then false else true) || leb r.requested_size p

      go :
          (o : Option ℕ)
          → find_delimiter r.mem (r.dst + r.processed) d n 0 ≡ o
          → Keeps r (elim o [
            | some i ↦
                finish_read
                  (record r {
                    read_buffer = save (n - i) i r.mem (r.dst + r.processed) r.read_buffer;
                    processed = add_size r.processed i;
                  })
                  err
            | none ↦
                if ends
                then finish_read (record r { processed = p }) err
                else do_read_some
                    (record r { processed = p })
                    (r.requested_size - p)
                    (r.dst + p)
                    (read_until_continue id d)
          ])
      go (some i) e =
          Keeps-trans (buffer-Keeps r _)
            (Keeps-trans (processed-Keeps _ (add_size r.processed i)) (finish_read-Keeps _ err))
      go none e = elim (Bool-cases ends) [
        | inl over ↦ rw over (Keeps-trans (processed-Keeps r p) (finish_read-Keeps _ err))
        | inr more ↦ rw more (
            Keeps-trans (processed-Keeps r p)
              (do_read_some-Keeps _ _ _ (read_until_continue id d) tt))
      ]

  pub run_handler-Keeps :
      (h : Handler) (r : Reader B) (err : ErrorCode) (n : ℕ)
      → IsContinuation h
      → Keeps r (run_handler h r err n)
  unfolding run_handler
  run_handler-Keeps (call c) r err n k = absurd k
  run_handler-Keeps (read_some_continue id) r err n k = async_read_some_continue-Keeps r id err n
  run_handler-Keeps (read_continue id) r err n k = async_read_continue-Keeps r id err n
  run_handler-Keeps (read_until_continue id d) r err n k =
      async_read_until_continue-Keeps r id d err n
  run_handler-Keeps (dump_callback h addr) r err n k =
      Keeps-trans (dump_bytes-Keeps r addr err n)
        (run_handler-Keeps h (dump_bytes r addr err n) err n k)
