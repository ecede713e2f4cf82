-- ===== src/Reader/Progress.antt =====
-- The handlers of src/StreamReader.cpp, and what the stream and the service's queue hold for the read in
-- progress.
use rtac_asio.Prelude.{
  ℕ, ◌+◌, ◌≡◌, ◌≢◌, ◌⊎◌, refl, sym, Bool, true, false, ◌&&◌, ◌||◌, List, if◌then◌else◌, ◌==◌, ltb,
  leb, inl, inr, Bool-cases, Option-cases, add_size, ==→≡, ==→≢,
}
use rtac_asio.Service.{ErrorCode, success, Task, Request, post, submit}
use rtac_asio.Streambuf.{Streambuf}
use rtac_asio.Service.Hand.{AnyTask, AnyRequest, AnyRequest-last, AnyTask-last}
use rtac_asio.Reader.{
  user, read_callback, Handler, call, read_some_continue, read_continue, finish_read,
  timeout_reached, read_until_continue, dump_callback, Reader, do_read_some, dump_bytes,
  dump_enabled, async_read_some_continue, async_read_continue,
}
use rtac_asio.Reader.Until.{async_read_until_continue, find_delimiter}
use rtac_asio.Reader.Run.{invoke, run_handler}

-- The read that a handler goes on with; a caller's callback belongs to none.
abbrev pub handler_id : Handler → ℕ
handler_id (call c) = 0
handler_id (read_some_continue id) = id
handler_id (read_continue id) = id
handler_id (read_until_continue id d) = id
handler_id (dump_callback h a) = handler_id h

abbrev pub IsOf : ℕ → Handler → Type 0
IsOf id h = handler_id h ≡ id

abbrev pub HasTask : ℕ → List (Task Handler) → Type 0
HasTask id ts = AnyTask (IsOf id) ts

abbrev pub HasRequest : ℕ → List (Request Handler) → Type 0
HasRequest id qs = AnyRequest (IsOf id) qs

module _ {B : Type 0} where
  abbrev pub InHand : Reader B → Type 0
  InHand r = HasRequest r.read_id r.pending ⊎ HasTask r.read_id r.posted

  abbrev pub IsLive : Reader B → Type 0
  IsLive r = r.read_id ≢ 0 → InHand r

  pub finish_read-IsLive : (r : Reader B) (err : ErrorCode) → IsLive (finish_read r err)
  unfolding finish_read
  finish_read-IsLive r err = elim (Bool-cases (r.read_id == 0)) [
    | inl idle ↦ rw idle (λ busy. absurd (busy (==→≡ r.read_id 0 idle)))
    | inr busy ↦ rw busy (λ ne. absurd (ne refl))
  ]

  -- What lets a handler of the read `id` run: it is this handler's, or another is in hand.
  abbrev pub Covered : ℕ → Reader B → Type 0
  Covered id r = r.read_id ≢ 0 → (id ≡ r.read_id) ⊎ InHand r

  stale-IsLive : (r : Reader B) (id : ℕ) → (id == r.read_id) ≡ false → Covered id r → IsLive r
  stale-IsLive r id e c busy = elim (c busy) [
    | inl same ↦ absurd (==→≢ id r.read_id e same)
    | inr kept ↦ kept
  ]

  other-IsLive : (r : Reader B) → Covered 0 r → IsLive r
  other-IsLive r c busy = elim (c busy) [ inl e ↦ absurd (busy (sym e)) | inr kept ↦ kept ]

  pub timeout_reached-IsLive : (r : Reader B) (id : ℕ) → IsLive r → IsLive (timeout_reached r id)
  unfolding timeout_reached
  timeout_reached-IsLive r id v = elim (Bool-cases (id == r.read_id)) [
    | inl current ↦ rw current (finish_read-IsLive _ success)
    | inr stale ↦ rw stale v
  ]

  async_read_some_continue-IsLive :
      (r : Reader B) (id : ℕ) (err : ErrorCode) (n : ℕ)
      → Covered id r
      → IsLive (async_read_some_continue r id err n)
  unfolding async_read_some_continue
  async_read_some_continue-IsLive r id err n c = elim (Bool-cases (id == r.read_id)) [
    | inl current ↦ rw current (finish_read-IsLive _ err)
    | inr stale ↦ rw stale (stale-IsLive r id stale c)
  ]

  dump_bytes-Covered :
      (r : Reader B) (id a : ℕ) (err : ErrorCode) (n : ℕ)
      → Covered id r
      → Covered id (dump_bytes r a err n)
  unfolding dump_bytes
  dump_bytes-Covered r id a err n c = elim (Bool-cases (err == success)) [
    | inr bad ↦ rw bad c
    | inl good ↦
        rw good (elim (Option-cases r.rx_dump) [ inl off ↦ rw off c | inr (name, on) ↦ rw on c ])
  ]

module _ {B : Type 0} ⦃s : Streambuf B⦄ where
  pub do_read_some-IsLive :
      (r : Reader B) (n p : ℕ) (h : Handler)
      → handler_id h ≡ r.read_id
      → IsLive (do_read_some r n p h)
  unfolding do_read_some post submit
  do_read_some-IsLive r n p h e = elim (Bool-cases (ltb 0 (s.size r.read_buffer))) [
    | inl full ↦ rw full (λ _. inr (AnyTask-last (IsOf r.read_id) r.posted _ e))
    | inr dry ↦ rw dry (elim (Bool-cases (dump_enabled r)) [
      | inl on ↦ rw on (λ _. inl (AnyRequest-last (IsOf r.read_id) r.pending _ e))
      | inr off ↦ rw off (λ _. inl (AnyRequest-last (IsOf r.read_id) r.pending _ e))
    ])
  ]

  async_read_continue-IsLive :
      (r : Reader B) (id : ℕ) (err : ErrorCode) (n : ℕ)
      → Covered id r
      → IsLive (async_read_continue r id err n)
  unfolding async_read_continue
  async_read_continue-IsLive r id err n c = elim (Bool-cases (id == r.read_id)) [
    | inr stale ↦ rw stale (stale-IsLive r id stale c)
    | inl current ↦
        rw current
          (elim (Bool-cases (err == success && ltb (add_size r.processed n) r.requested_size)) [
            | inl more ↦
                rw more (do_read_some-IsLive _ _ _ (read_continue id) (==→≡ id r.read_id current))
            | inr done ↦ rw done (finish_read-IsLive _ err)
          ])
  ]

  async_read_until_continue-IsLive :
      (r : Reader B) (id d : ℕ) (err : ErrorCode) (n : ℕ)
      → Covered id r
      → IsLive (async_read_until_continue r id d err n)
  unfolding async_read_until_continue
  async_read_until_continue-IsLive r id d err n c = elim (Bool-cases (id == r.read_id)) [
    | inr stale ↦ rw stale (stale-IsLive r id stale c)
    | inl current ↦
        rw current (elim (Option-cases (find_delimiter r.mem (r.dst + r.processed) d n 0)) [
          | inr (i, e) ↦ rw e (finish_read-IsLive _ err)
          | inl e ↦ rw e (elim (Bool-cases ends) [
            | inl over ↦ rw over (finish_read-IsLive _ err)
            | inr more ↦
                rw more
                  (do_read_some-IsLive _ _ _ (read_until_continue id d) (==→≡ id r.read_id current))
          ])
        ])
  ]
    where
      ends : Bool
      ends =
          (if err == success then false else true) || leb r.requested_size (add_size r.processed n)

  pub run_handler-IsLive :
      (h : Handler) (r : Reader B) (err : ErrorCode) (n : ℕ)
      → Covered (handler_id h) r
      → IsLive (run_handler h r err n)
  unfolding run_handler invoke
  run_handler-IsLive (call (user u)) r err n c = other-IsLive r c
  run_handler-IsLive (call read_callback) r err n c = other-IsLive r c
  run_handler-IsLive (read_some_continue id) r err n c =
      async_read_some_continue-IsLive r id err n c
  run_handler-IsLive (read_continue id) r err n c = async_read_continue-IsLive r id err n c
  run_handler-IsLive (read_until_continue id d) r err n c =
      async_read_until_continue-IsLive r id d err n c
  run_handler-IsLive (dump_callback h addr) r err n c =
      run_handler-IsLive h (dump_bytes r addr err n) err n
        (dump_bytes-Covered r (handler_id h) addr err n c)
