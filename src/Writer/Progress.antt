-- ===== src/Writer/Progress.antt =====
-- The handlers of src/StreamWriter.cpp, and what the stream and the service's queue hold for the write in
-- progress.
use rtac_asio.Prelude.{
  ℕ, ◌≡◌, ◌≢◌, ◌⊎◌, refl, sym, false, ◌&&◌, List, ◌==◌, ltb, inl, inr, Bool-cases, Option-cases,
  add_size, ==→≡, ==→≢,
}
use rtac_asio.Service.{ErrorCode, success, Task, Request, submit}
use rtac_asio.Service.Hand.{AnyTask, AnyRequest, AnyRequest-last}
use rtac_asio.Writer.{
  user, write_callback, Handler, call, write_some_continue, write_continue, finish_write,
  timeout_reached, dump_callback, Writer, do_write_some, dump_bytes, dump_enabled,
  async_write_some_continue, async_write_continue,
}
use rtac_asio.Writer.Run.{invoke, run_handler}

-- The write that a handler goes on with; a caller's callback belongs to none.
abbrev pub handler_id : Handler → ℕ
handler_id (call c) = 0
handler_id (write_some_continue id) = id
handler_id (write_continue id) = id
handler_id (dump_callback h a) = handler_id h

abbrev pub IsOf : ℕ → Handler → Type 0
IsOf id h = handler_id h ≡ id

abbrev pub HasTask : ℕ → List (Task Handler) → Type 0
HasTask id ts = AnyTask (IsOf id) ts

abbrev pub HasRequest : ℕ → List (Request Handler) → Type 0
HasRequest id qs = AnyRequest (IsOf id) qs

abbrev pub InHand : Writer → Type 0
InHand r = HasRequest r.write_id r.pending ⊎ HasTask r.write_id r.posted

abbrev pub IsLive : Writer → Type 0
IsLive r = r.write_id ≢ 0 → InHand r

pub finish_write-IsLive : (r : Writer) (err : ErrorCode) → IsLive (finish_write r err)
unfolding finish_write
finish_write-IsLive r err = elim (Bool-cases (r.write_id == 0)) [
  | inl idle ↦ rw idle (λ busy. absurd (busy (==→≡ r.write_id 0 idle)))
  | inr busy ↦ rw busy (λ ne. absurd (ne refl))
]

-- What lets a handler of the write `id` run: it is this handler's, or another is in hand.
abbrev pub Covered : ℕ → Writer → Type 0
Covered id r = r.write_id ≢ 0 → (id ≡ r.write_id) ⊎ InHand r

stale-IsLive : (r : Writer) (id : ℕ) → (id == r.write_id) ≡ false → Covered id r → IsLive r
stale-IsLive r id e c busy = elim (c busy) [
  | inl same ↦ absurd (==→≢ id r.write_id e same)
  | inr kept ↦ kept
]

other-IsLive : (r : Writer) → Covered 0 r → IsLive r
other-IsLive r c busy = elim (c busy) [ inl e ↦ absurd (busy (sym e)) | inr kept ↦ kept ]

pub timeout_reached-IsLive : (r : Writer) (id : ℕ) → IsLive r → IsLive (timeout_reached r id)
unfolding timeout_reached
timeout_reached-IsLive r id v = elim (Bool-cases (id == r.write_id)) [
  | inl current ↦ rw current (finish_write-IsLive _ success)
  | inr stale ↦ rw stale v
]

async_write_some_continue-IsLive :
    (r : Writer) (id : ℕ) (err : ErrorCode) (n : ℕ)
    → Covered id r
    → IsLive (async_write_some_continue r id err n)
unfolding async_write_some_continue
async_write_some_continue-IsLive r id err n c = elim (Bool-cases (id == r.write_id)) [
  | inl current ↦ rw current (finish_write-IsLive _ err)
  | inr stale ↦ rw stale (stale-IsLive r id stale c)
]

dump_bytes-Covered :
    (r : Writer) (id a : ℕ) (err : ErrorCode) (n : ℕ)
    → Covered id r
    → Covered id (dump_bytes r a err n)
unfolding dump_bytes
dump_bytes-Covered r id a err n c = elim (Bool-cases (err == success)) [
  | inr bad ↦ rw bad c
  | inl good ↦
      rw good (elim (Option-cases r.tx_dump) [ inl off ↦ rw off c | inr (name, on) ↦ rw on c ])
]

pub do_write_some-IsLive :
    (r : Writer) (n p : ℕ) (h : Handler)
    → handler_id h ≡ r.write_id
    → IsLive (do_write_some r n p h)
unfolding do_write_some submit
do_write_some-IsLive r n p h e = elim (Bool-cases (dump_enabled r)) [
  | inl on ↦ rw on (λ _. inl (AnyRequest-last (IsOf r.write_id) r.pending _ e))
  | inr off ↦ rw off (λ _. inl (AnyRequest-last (IsOf r.write_id) r.pending _ e))
]

async_write_continue-IsLive :
    (r : Writer) (id : ℕ) (err : ErrorCode) (n : ℕ)
    → Covered id r
    → IsLive (async_write_continue r id err n)
unfolding async_write_continue
async_write_continue-IsLive r id err n c = elim (Bool-cases (id == r.write_id)) [
  | inr stale ↦ rw stale (stale-IsLive r id stale c)
  | inl current ↦
      rw current
        (elim (Bool-cases (err == success && ltb (add_size r.processed n) r.requested_size)) [
          | inl more ↦
              rw more (do_write_some-IsLive _ _ _ (write_continue id) (==→≡ id r.write_id current))
          | inr done ↦ rw done (finish_write-IsLive _ err)
        ])
]

pub run_handler-IsLive :
    (h : Handler) (r : Writer) (err : ErrorCode) (n : ℕ)
    → Covered (handler_id h) r
    → IsLive (run_handler h r err n)
unfolding run_handler invoke
run_handler-IsLive (call (user u)) r err n c = other-IsLive r c
run_handler-IsLive (call write_callback) r err n c = other-IsLive r c
run_handler-IsLive (write_some_continue id) r err n c =
    async_write_some_continue-IsLive r id err n c
run_handler-IsLive (write_continue id) r err n c = async_write_continue-IsLive r id err n c
run_handler-IsLive (dump_callback h addr) r err n c =
    run_handler-IsLive h (dump_bytes r addr err n) err n
      (dump_bytes-Covered r (handler_id h) addr err n c)
