-- ===== src/Writer/Quiet.antt =====
-- src/StreamWriter.cpp with no dump open: memory and the files.
use rtac_asio.Prelude.{
  ℕ, ◌≡◌, refl, sym, subst, ap, ◌∙◌, true, ◌&&◌, Option, none, some, ◌==◌, ltb, inl, inr,
  Bool-cases, add_size,
}
use rtac_asio.Service.{ErrorCode, success, post, submit, arm-mem, arm-files, append_file}
use rtac_asio.Memory.{peek}
use rtac_asio.Writer.{
  Callback, user, write_callback, Handler, call, write_some_continue, write_continue, dump_callback,
  Writer, dump_enabled, dump_bytes, new_write, finish_write, timeout_reached, do_write_some,
  async_write_some, async_write_some_continue, async_write, async_write_continue, write_begin,
}
use rtac_asio.Writer.Run.{invoke, run_handler, timer_at}

-- From a state with no dump: nothing of memory or of the files changes, and no dump is opened.
pub record Quiet (w w' : Writer) : Type 0 where
  pub mem : w'.mem ≡ w.mem
  pub files : w'.files ≡ w.files
  pub undumped : w'.tx_dump ≡ w.tx_dump

Quiet-trans : {u v w : Writer} → Quiet u v → Quiet v w → Quiet u w
Quiet-trans p q = record {
  mem = q.mem ∙ p.mem;
  files = q.files ∙ p.files;
  undumped = q.undumped ∙ p.undumped;
}

same-Quiet : (w : Writer) → Quiet w w
same-Quiet w = record { mem = refl; files = refl; undumped = refl }

finish_write-Quiet : (w : Writer) (err : ErrorCode) → Quiet w (finish_write w err)
unfolding finish_write post
finish_write-Quiet w err = elim (Bool-cases (w.write_id == 0)) [
  | inl idle ↦ rw idle (same-Quiet w)
  | inr busy ↦ rw busy (record { mem = refl; files = refl; undumped = refl })
]

do_write_some-Quiet : (w : Writer) (n p : ℕ) (h : Handler) → Quiet w (do_write_some w n p h)
unfolding do_write_some submit
do_write_some-Quiet w n p h = elim (Bool-cases (dump_enabled w)) [
  | inl on ↦ rw on (record { mem = refl; files = refl; undumped = refl })
  | inr off ↦ rw off (record { mem = refl; files = refl; undumped = refl })
]

new_write-Quiet :
    (w : Writer) (n a : ℕ) (c : Callback) (millis : ℕ) → Quiet w (new_write w n a c millis).1
unfolding new_write
new_write-Quiet w n a c millis = elim (Bool-cases (w.write_id == 0)) [
  | inl idle ↦
      rw idle
        (record { mem = arm-mem w.env millis _; files = arm-files w.env millis _; undumped = refl })
  | inr busy ↦ rw busy (same-Quiet w)
]

module _ (w : Writer) (n a : ℕ) (c : Callback) (millis : ℕ) where
  pub async_write_some-Quiet : Quiet w (async_write_some w n a c millis).1
  unfolding async_write_some
  async_write_some-Quiet = elim (Bool-cases (new_write w n a c millis).0) [
    | inl begun ↦
        rw begun (Quiet-trans (new_write-Quiet w n a c millis) (do_write_some-Quiet _ _ _ _))
    | inr busy ↦ rw busy (new_write-Quiet w n a c millis)
  ]

  pub async_write-Quiet : Quiet w (async_write w n a c millis).1
  unfolding async_write
  async_write-Quiet = elim (Bool-cases (new_write w n a c millis).0) [
    | inl begun ↦
        rw begun (Quiet-trans (new_write-Quiet w n a c millis) (do_write_some-Quiet _ _ _ _))
    | inr busy ↦ rw busy (new_write-Quiet w n a c millis)
  ]

pub write_begin-Quiet : (w : Writer) (n a millis : ℕ) → Quiet w (write_begin w n a millis).1
unfolding write_begin
write_begin-Quiet w n a millis = elim (Bool-cases (async_write w n a write_callback millis).0) [
  | inl begun ↦
      let q = async_write-Quiet w n a write_callback millis in
      rw begun (record { mem = q.mem; files = q.files; undumped = q.undumped })
  | inr busy ↦ rw busy (async_write-Quiet w n a write_callback millis)
]

timeout_reached-Quiet : (w : Writer) (id : ℕ) → Quiet w (timeout_reached w id)
unfolding timeout_reached
timeout_reached-Quiet w id = elim (Bool-cases (id == w.write_id)) [
  | inl current ↦
      let q = finish_write-Quiet (record w { waiter_notified = true }) success in
      rw current (record { mem = q.mem; files = q.files; undumped = q.undumped })
  | inr stale ↦ rw stale (same-Quiet w)
]

pub timer_at-Quiet : (w : Writer) (k : ℕ) (o : Option ℕ) → Quiet w (timer_at w k o)
unfolding timer_at
timer_at-Quiet w k none = same-Quiet w
timer_at-Quiet w k (some id) =
    let q = timeout_reached-Quiet _ id in
    record { mem = q.mem; files = q.files; undumped = q.undumped }

dump_bytes-Quiet :
    (w : Writer) (a : ℕ) (err : ErrorCode) (n : ℕ)
    → w.tx_dump ≡ none
    → Quiet w (dump_bytes w a err n)
unfolding dump_bytes
dump_bytes-Quiet w a err n off = elim (Bool-cases (err == success)) [
  | inl good ↦ rw good (
      subst (Quiet w)
        (sym (
          ap {B = Writer}
            (λ o. elim o [
              | none ↦ w
              | some name ↦ record w {
                env = record w.env { files = append_file w.files name (peek w.mem a n) };
              }
            ])
            off))
        (same-Quiet w))
  | inr bad ↦ rw bad (same-Quiet w)
]

write_some_continue-Quiet :
    (w : Writer) (id : ℕ) (err : ErrorCode) (n : ℕ) → Quiet w (async_write_some_continue w id err n)
unfolding async_write_some_continue
write_some_continue-Quiet w id err n = elim (Bool-cases (id == w.write_id)) [
  | inl current ↦
      let q = finish_write-Quiet (record w { processed = n }) err in
      rw current (record { mem = q.mem; files = q.files; undumped = q.undumped })
  | inr stale ↦ rw stale (same-Quiet w)
]

write_continue-Quiet :
    (w : Writer) (id : ℕ) (err : ErrorCode) (n : ℕ) → Quiet w (async_write_continue w id err n)
unfolding async_write_continue
write_continue-Quiet w id err n = elim (Bool-cases (id == w.write_id)) [
  | inr stale ↦ rw stale (same-Quiet w)
  | inl current ↦
      rw current
        (elim (Bool-cases (err == success && ltb (add_size w.processed n) w.requested_size)) [
          | inl more ↦
              let q = do_write_some-Quiet (record w { processed = add_size w.processed n }) _ _ _ in
              rw more (record { mem = q.mem; files = q.files; undumped = q.undumped })
          | inr done ↦
              let q = finish_write-Quiet (record w { processed = add_size w.processed n }) err in
              rw done (record { mem = q.mem; files = q.files; undumped = q.undumped })
        ])
]

pub run_handler-Quiet :
    (h : Handler) (w : Writer) (err : ErrorCode) (n : ℕ)
    → w.tx_dump ≡ none
    → Quiet w (run_handler h w err n)
unfolding run_handler invoke
run_handler-Quiet (call (user k)) w err n off = record { mem = refl; files = refl; undumped = refl }
run_handler-Quiet (call write_callback) w err n off = record {
  mem = refl;
  files = refl;
  undumped = refl;
}
run_handler-Quiet (write_some_continue id) w err n off = write_some_continue-Quiet w id err n
run_handler-Quiet (write_continue id) w err n off = write_continue-Quiet w id err n
run_handler-Quiet (dump_callback h addr) w err n off =
    let q = dump_bytes-Quiet w addr err n off in
    Quiet-trans q (run_handler-Quiet h _ err n (q.undumped ∙ off))
