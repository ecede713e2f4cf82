-- ===== src/Writer/Expiry.antt =====
-- src/StreamWriter.cpp, `async_write` with a timeout that comes before all its bytes are taken, and what
-- the stream takes after it.
use rtac_asio.Prelude.{
  ℕ, suc, ◌+◌, ◌-◌, ◌^◌, ◌<◌, ◌≡◌, ◌≢◌, refl, sym, ap, ◌∙◌, true, Option, none, some, List, [], ◌∷◌,
  ◌++◌, if◌then◌else◌, ◌==◌, append-nil, append_assoc, arith, length, get_elem?, get_elem?-last,
  erase_idx, erase_idx-last, ≡→==, ≢→==, Bool-cases, inl, inr,
}
use rtac_asio.Memory.{peek, peek-append}
use rtac_asio.Service.{ErrorCode, success, Request, post, submit, arm}
use rtac_asio.Service.Files.{logged, logged-append, logged-nil}
use rtac_asio.Writer.{
  Callback, Handler, call, write_continue, Writer, finish_write, dump_bytes, timeout_reached,
  async_write, async_write_continue,
}
use rtac_asio.Writer.Run.{completes, timer, run_handler, complete_at, timer_at, step, run}
use rtac_asio.Writer.Pieces.{
  Writing, wrapped, missing, advanced, completes-taken, continue-advanced, advanced-Writing,
}
use rtac_asio.Writer.Whole.{sum, deliveries, begun, async_write-begun, begun-Writing}

-- The operation in hand when `k` bytes are counted.
abbrev missing_at : Writer → ℕ → Request Handler
missing_at w k = missing (record w { processed = k })

advanced-nil : (w : Writer) (old : List (Request Handler)) → Writing w old → advanced w old 0 ≡ w
advanced-nil w old v = λ i. record w {
  processed = none_more i;
  sent = append-nil w.sent i;
  env = record w.env { files = logged-nil w.tx_dump w.files i; pending = hands i };
}
  where
    none_more : w.processed + 0 ≡ w.processed
    none_more = omega arith

    hands : old ++ missing_at w (w.processed + 0) ∷ [] ≡ w.pending
    hands = ap (λ k. old ++ missing_at w k ∷ []) none_more ∙ sym v.in_hand

advanced-append :
    (w : Writer) (old : List (Request Handler)) (j k : ℕ)
    → advanced (advanced w old j) old k ≡ advanced w old (j + k)
advanced-append w old j k = λ i. record w {
  processed = all i;
  sent = taken i;
  env = record w.env { files = noted i; pending = old ++ missing_at w (all i) ∷ [] };
}
  where
    p : ℕ
    p = w.src + w.processed

    all : w.processed + j + k ≡ w.processed + (j + k)
    all = omega arith

    whole : peek w.mem p j ++ peek w.mem (w.src + (w.processed + j)) k ≡ peek w.mem p (j + k)
    whole = ap (λ q. peek w.mem p j ++ peek w.mem q k) (omega arith) ∙ sym (peek-append w.mem p j k)

    taken :
        (w.sent ++ peek w.mem p j) ++ peek w.mem (w.src + (w.processed + j)) k
        ≡ w.sent ++ peek w.mem p (j + k)
    taken =
        append_assoc w.sent (peek w.mem p j) (peek w.mem (w.src + (w.processed + j)) k)
        ∙ ap (◌++◌ w.sent) whole

    noted :
        logged w.tx_dump
          (logged w.tx_dump w.files (peek w.mem p j))
          (peek w.mem (w.src + (w.processed + j)) k)
        ≡ logged w.tx_dump w.files (peek w.mem p (j + k))
    noted =
        logged-append w.tx_dump w.files (peek w.mem p j) (peek w.mem (w.src + (w.processed + j)) k)
        ∙ ap (logged w.tx_dump w.files) whole

-- One piece after the other is as all of them in one.
deliveries-advanced :
    (ks : List ℕ) {w : Writer} {old : List (Request Handler)}
    → Writing w old
    → w.processed + sum ks < w.requested_size
    → run (deliveries old ks) w ≡ advanced w old (sum ks)
unfolding run
deliveries-advanced [] {w} {old} v room = sym (advanced-nil w old v)
deliveries-advanced (k ∷ ks) {w} {old} v room =
    ap (run (deliveries old ks)) (completes-taken k v ∙ continue-advanced k v more)
    ∙ deliveries-advanced ks {w = advanced w old k} {old = old} (advanced-Writing k v more)
        (omega arith)
    ∙ advanced-append w old k (sum ks)
  where
    more : w.processed + k < w.requested_size
    more = omega arith

-- The timer of the write in progress, whose wait is the last one.
timer-ends :
    (w : Writer) (id : ℕ) (ws : List ℕ)
    → id ≢ 0
    → step
        (timer (length ws))
        (record w { write_id = id; env = record w.env { waits = ws ++ id ∷ [] } })
      ≡ record w {
        write_id = 0;
        waiter_notified = true;
        env = post (record w.env { waits = ws }) (call w.callback) success w.processed;
      }
unfolding step timer_at timeout_reached finish_write
timer-ends w id ws busy =
    ap (λ o. timer_at q (length ws) o) (get_elem?-last ws id)
    ∙ rw (≡→== id id refl, ≢→== id 0 busy)
        (ap
          (λ l. record w {
            write_id = 0;
            waiter_notified = true;
            env = post (record w.env { waits = l }) (call w.callback) success w.processed;
          })
          (erase_idx-last ws id))
  where
    q : Writer
    q = record w { write_id = id; env = record w.env { waits = ws ++ id ∷ [] } }

-- What a completion leaves when its write is over: the stream has the bytes, and an open dump.
abbrev pub after_late : Writer → ℕ → ℕ → ErrorCode → List (Request Handler) → Writer
after_late w a n err old = record w {
  sent = w.sent ++ peek w.mem a n;
  env = record w.env {
    pending = old;
    files = if err == success then logged w.tx_dump w.files (peek w.mem a n) else w.files;
  };
}

late-wrapped :
    (w : Writer) (o : Option ℕ) (id a n : ℕ) (err : ErrorCode)
    → id ≢ w.write_id
    → run_handler (wrapped o (write_continue id) a) (record w { tx_dump = o }) err n ≡ record w {
      tx_dump = o;
      env = record w.env {
        files = if err == success then logged o w.files (peek w.mem a n) else w.files;
      };
    }
unfolding run_handler dump_bytes async_write_continue
late-wrapped w none id a n err other = elim (Bool-cases (err == success)) [
  | inl good ↦ rw (≢→== id w.write_id other, good) refl
  | inr bad ↦ rw (≢→== id w.write_id other, bad) refl
]
late-wrapped w (some name) id a n err other = elim (Bool-cases (err == success)) [
  | inl good ↦ rw (good, ≢→== id w.write_id other) refl
  | inr bad ↦ rw (bad, ≢→== id w.write_id other) refl
]

completes-late :
    (w : Writer) (old : List (Request Handler)) (id k a n : ℕ) (err : ErrorCode)
    → id ≢ w.write_id
    → w.pending
      ≡ old
        ++ record { count = k; addr = a; handler = wrapped w.tx_dump (write_continue id) a } ∷ []
    → step (completes (length old) n err) w ≡ after_late w a n err old
unfolding step complete_at
completes-late w old id k a n err other hand =
    ap (λ qs. complete_at w (length old) (get_elem? qs (length old)) n err) hand
    ∙ ap (λ o. complete_at w (length old) o n err) (get_elem?-last old q)
    ∙ ap
        (λ qs.
          run_handler q.handler
            (record w { sent = w.sent ++ peek w.mem a n; env = record w.env { pending = qs } }) err
            n)
        (ap (λ qs. erase_idx qs (length old)) hand ∙ erase_idx-last old q)
    ∙ late-wrapped
        (record w { sent = w.sent ++ peek w.mem a n; env = record w.env { pending = old } })
        w.tx_dump id a n err other
  where
    q : Request Handler
    q = record { count = k; addr = a; handler = wrapped w.tx_dump (write_continue id) a }

-- An `async_write` of `n` bytes with a timeout, in an idle writer, of which the stream has taken fewer
-- than `n` bytes, in any pieces, when the timer ends: the stream has the first of the caller's
-- bytes, as many as it took, and an open dump has them too; the callback is posted once, with the
-- code of success and their count; a caller that waits is woken, and the writer is idle. When the
-- stream then ends the operation that it still has in hand, having taken any number of bytes and
-- with any code, no callback is called or posted and the writer stays as it is; but those bytes are
-- sent, behind the others, and where there was no error an open dump gets them.
pub async_write_expires :
    (w : Writer) (n a : ℕ) (c : Callback) (millis : ℕ) (ks : List ℕ) (late : ℕ) (err : ErrorCode)
    → w.write_id ≡ 0
    → w.write_counter + 1 < 2 ^ 32
    → n < 2 ^ 64
    → sum ks < n
    → let t =
        step
          (timer (length w.waits))
          (run (deliveries w.pending ks) (async_write w n a c (suc millis)).1) in
      (t.posted ≡ w.posted ++ record { handler = call c; err = success; count = sum ks } ∷ [])
      × (t.sent ≡ w.sent ++ peek w.mem a (sum ks))
      × (t.files ≡ logged w.tx_dump w.files (peek w.mem a (sum ks)))
      × (t.write_id ≡ 0)
      × (t.processed ≡ sum ks)
      × (t.waiter_notified ≡ true)
      × (t.waits ≡ w.waits)
      × (t.mem ≡ w.mem)
      × (step (completes (length w.pending) late err) t
          ≡ after_late t (a + sum ks) late err w.pending)
unfolding submit arm post
async_write_expires w n a c millis ks late err idle small fits room =
    rw
      (ap (λ x. step (timer (length w.waits)) (run (deliveries w.pending ks) x.1))
          (async_write-begun w n a c (suc millis) idle small)
        ∙ ap (step (timer (length w.waits))) (
            deliveries-advanced ks {w = b} {old = w.pending}
              (begun-Writing w n a c (suc millis) (omega arith) fits) (omega arith))
        ∙ timer-ends (advanced b w.pending (sum ks)) (w.write_counter + 1) w.waits
            (λ e. absurd (omega arith)))
      (
        ap (λ j. w.posted ++ record { handler = call c; err = success; count = j } ∷ []) from_none,
        ap (λ p. w.sent ++ peek w.mem p (sum ks)) at_start,
        ap (λ p. logged w.tx_dump w.files (peek w.mem p (sum ks))) at_start,
        refl,
        from_none,
        refl,
        refl,
        refl,
        completes-late _ w.pending (w.write_counter + 1) (n - (0 + sum ks)) (a + sum ks) late err
            (λ e. absurd (omega arith))
            (ap
              (λ j.
                w.pending
                ++ record {
                  count = n - (0 + sum ks);
                  addr = a + j;
                  handler = wrapped w.tx_dump (write_continue (w.write_counter + 1)) (a + j);
                }
                  ∷ [])
              from_none),
      )
  where
    b : Writer
    b = begun w n a c (suc millis)

    from_none : 0 + sum ks ≡ sum ks
    from_none = omega arith

    at_start : a + 0 ≡ a
    at_start = omega arith
