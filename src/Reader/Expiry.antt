-- ===== src/Reader/Expiry.antt =====
-- src/StreamReader.cpp, `async_read` with a timeout that comes before all its bytes, and what the stream
-- delivers after it.
use rtac_asio.Prelude.{
  ℕ, suc, ◌+◌, ◌-◌, ◌^◌, ◌<◌, ◌≡◌, ◌≢◌, refl, sym, ap, ◌∙◌, true, Option, none, some, List, [], ◌∷◌,
  ◌++◌, if◌then◌else◌, ◌==◌, arith, length, length-append, get_elem?, get_elem?-last, erase_idx,
  erase_idx-last, ≡→==, ≢→==, Bool-cases, inl, inr,
}
use rtac_asio.Memory.{fill, fill-append, peek-fill}
use rtac_asio.Service.{ErrorCode, success, Request, post, submit, append_file, arm}
use rtac_asio.Streambuf.{Streambuf}
use rtac_asio.Reader.{
  Callback, Handler, call, read_continue, Reader, finish_read, timeout_reached, async_read,
  async_read_continue, dump_bytes,
}
use rtac_asio.Reader.Run.{completes, timer, run_handler, complete_at, timer_at, step, run}
use rtac_asio.Reader.Tap.{tapped}
use rtac_asio.Service.Files.{logged, logged-append, logged-nil}
use rtac_asio.Reader.Pieces.{
  Reading, concat, grown, completes-filled, continue-grown, grown-Reading,
}
use rtac_asio.Reader.Whole.{deliveries, begun, async_read-begun, begun-Reading}

module _ {B : Type 0} ⦃s : Streambuf B⦄ where
  -- One piece after the other is as all of them in one.
  grown-nil :
      (r : Reader B) (old : List (Request Handler))
      → Reading read_continue r old
      → grown read_continue r old [] ≡ r
  grown-nil r old v = λ i. record r {
    processed = none_more i;
    env = record r.env { files = logged-nil r.rx_dump r.files i; pending = hands i };
  }
    where
      none_more : r.processed + 0 ≡ r.processed
      none_more = omega arith

      hands : (grown read_continue r old []).pending ≡ r.pending
      hands =
          ap
            (λ k.
              old
              ++ record {
                count = r.requested_size - k;
                addr = r.dst + k;
                handler = tapped r.rx_dump (read_continue r.read_id) (r.dst + k);
              }
                ∷ [])
            none_more
          ∙ sym v.in_hand

  grown-append :
      (r : Reader B) (old : List (Request Handler)) (xs ys : List ℕ)
      → grown read_continue (grown read_continue r old xs) old ys
        ≡ grown read_continue r old (xs ++ ys)
  grown-append r old xs ys = λ i. record r {
    processed = all i;
    env = record r.env {
      mem = bytes i;
      files = logged-append r.rx_dump r.files xs ys i;
      pending =
          old
          ++ record {
            count = r.requested_size - all i;
            addr = r.dst + all i;
            handler = tapped r.rx_dump (read_continue r.read_id) (r.dst + all i);
          }
            ∷ [];
    };
  }
    where
      all : r.processed + length xs + length ys ≡ r.processed + length (xs ++ ys)
      all = omega (arith, length-append xs ys)

      bytes :
          fill (fill r.mem (r.dst + r.processed) xs) (r.dst + (r.processed + length xs)) ys
          ≡ fill r.mem (r.dst + r.processed) (xs ++ ys)
      bytes =
          ap (λ p. fill (fill r.mem (r.dst + r.processed) xs) p ys) (omega arith)
          ∙ sym (fill-append r.mem (r.dst + r.processed) xs ys)

  deliveries-grown :
      (cs : List (List ℕ)) {r : Reader B} {old : List (Request Handler)}
      → Reading read_continue r old
      → r.processed + length (concat cs) < r.requested_size
      → run (deliveries old cs) r ≡ grown read_continue r old (concat cs)
  unfolding run run_handler
  deliveries-grown [] {r} {old} v room = sym (grown-nil r old v)
  deliveries-grown (c ∷ cs) {r} {old} v room =
      ap (run (deliveries old cs)) (completes-filled read_continue c v ∙ continue-grown c v more)
      ∙ deliveries-grown cs {r = grown read_continue r old c} {old = old}
          (grown-Reading read_continue c v more) (omega (arith, sum))
      ∙ grown-append r old c (concat cs)
    where
      sum : length (c ++ concat cs) ≡ length c + length (concat cs)
      sum = length-append c (concat cs)

      more : r.processed + length c < r.requested_size
      more = omega (arith, sum)

  -- The timer of the read in progress, whose wait is the last one.
  timer-ends :
      (r : Reader B) (id : ℕ) (ws : List ℕ)
      → id ≢ 0
      → step
          (timer (length ws))
          (record r { read_id = id; env = record r.env { waits = ws ++ id ∷ [] } })
        ≡ record r {
          read_id = 0;
          waiter_notified = true;
          env = post (record r.env { waits = ws }) (call r.callback) success r.processed;
        }
  unfolding step timer_at timeout_reached finish_read
  timer-ends r id ws busy =
      ap (λ o. timer_at q (length ws) o) (get_elem?-last ws id)
      ∙ rw (≡→== id id refl, ≢→== id 0 busy)
          (ap
            (λ l. record r {
              read_id = 0;
              waiter_notified = true;
              env = post (record r.env { waits = l }) (call r.callback) success r.processed;
            })
            (erase_idx-last ws id))
    where
      q : Reader B
      q = record r { read_id = id; env = record r.env { waits = ws ++ id ∷ [] } }

  -- What a completion leaves when its read is over: the bytes are in memory and in an open dump.
  abbrev pub after_late : Reader B → ℕ → List ℕ → ErrorCode → List (Request Handler) → Reader B
  after_late r a bs err old = record r {
    env = record r.env {
      mem = fill r.mem a bs;
      pending = old;
      files = if err == success then logged r.rx_dump r.files bs else r.files;
    };
  }

  late-tapped :
      (r : Reader B) (o : Option ℕ) (id a : ℕ) (bs : List ℕ) (err : ErrorCode)
      → id ≢ r.read_id
      → run_handler
          (tapped o (read_continue id) a)
          (record r { rx_dump = o; env = record r.env { mem = fill r.mem a bs } })
          err
          (length bs)
        ≡ record r {
          rx_dump = o;
          env = record r.env {
            mem = fill r.mem a bs;
            files = if err == success then logged o r.files bs else r.files;
          };
        }
  unfolding run_handler dump_bytes async_read_continue
  late-tapped r none id a bs err other = elim (Bool-cases (err == success)) [
    | inl good ↦ rw (≢→== id r.read_id other, good) refl
    | inr bad ↦ rw (≢→== id r.read_id other, bad) refl
  ]
  late-tapped r (some name) id a bs err other = elim (Bool-cases (err == success)) [
    | inl good ↦
        rw (good, ≢→== id r.read_id other)
          (ap
            (λ xs. record r {
              rx_dump = some name;
              env = record r.env { mem = fill r.mem a bs; files = append_file r.files name xs };
            })
            (peek-fill r.mem a bs))
    | inr bad ↦ rw (bad, ≢→== id r.read_id other) refl
  ]

  completes-late :
      (r : Reader B) (old : List (Request Handler)) (id n a : ℕ) (bs : List ℕ) (err : ErrorCode)
      → id ≢ r.read_id
      → r.pending
        ≡ old
          ++ record { count = n; addr = a; handler = tapped r.rx_dump (read_continue id) a } ∷ []
      → step (completes (length old) bs err) r ≡ after_late r a bs err old
  unfolding step complete_at
  completes-late r old id n a bs err other hand =
      ap (λ qs. complete_at r (length old) (get_elem? qs (length old)) bs err) hand
      ∙ ap (λ o. complete_at r (length old) o bs err) (get_elem?-last old q)
      ∙ ap
          (λ qs.
            run_handler q.handler
              (record r { env = record r.env { mem = fill r.mem a bs; pending = qs } }) err
              (length bs))
          (ap (λ qs. erase_idx qs (length old)) hand ∙ erase_idx-last old q)
      ∙ late-tapped (record r { env = record r.env { pending = old } }) r.rx_dump id a bs err other
    where
      q : Request Handler
      q = record { count = n; addr = a; handler = tapped r.rx_dump (read_continue id) a }

  -- An `async_read` of `n` bytes with a timeout, in an idle reader that has nothing buffered, of which
  -- the stream has delivered fewer than `n` bytes, in any pieces, when the timer ends: the callback is
  -- posted once, with the code of success and the count of those bytes, which the caller's buffer
  -- holds; a caller that waits is woken, and the reader is idle. When the stream then ends the
  -- operation that it still has in hand, with whatever bytes and code, no callback is called or
  -- posted and the reader stays as it is; but the bytes go to the caller's buffer, behind the
  -- others, and where there was no error also to an open dump.
  pub async_read_expires :
      (r : Reader B) (n a : ℕ) (c : Callback) (millis : ℕ) (cs : List (List ℕ)) (late : List ℕ)
      (err : ErrorCode)
      → r.read_id ≡ 0
      → s.contents r.read_buffer ≡ []
      → r.read_counter + 1 < 2 ^ 32
      → n < 2 ^ 64
      → length (concat cs) < n
      → let k : ℕ = length (concat cs) in
        let t =
          step
            (timer (length r.waits))
            (run (deliveries r.pending cs) (async_read r n a c (suc millis)).1) in
        (t.posted ≡ r.posted ++ record { handler = call c; err = success; count = k } ∷ [])
        × (t.mem ≡ fill r.mem a (concat cs))
        × (t.read_id ≡ 0)
        × (t.processed ≡ k)
        × (t.waiter_notified ≡ true)
        × (t.waits ≡ r.waits)
        × (t.files ≡ logged r.rx_dump r.files (concat cs))
        × (step (completes (length r.pending) late err) t ≡ after_late t (a + k) late err r.pending)
  unfolding submit arm post
  async_read_expires r n a c millis cs late err idle dry small fits room =
      rw
        (ap (λ x. step (timer (length r.waits)) (run (deliveries r.pending cs) x.1))
            (async_read-begun r n a c (suc millis) idle dry small)
          ∙ ap (step (timer (length r.waits))) (
              deliveries-grown cs {r = b} {old = r.pending}
                (begun-Reading r n a c (suc millis) dry small fits (omega arith)) (omega arith))
          ∙ timer-ends (grown read_continue b r.pending (concat cs)) (r.read_counter + 1) r.waits
              (λ e. absurd (omega arith)))
        (
          ap (λ j. r.posted ++ record { handler = call c; err = success; count = j } ∷ [])
              from_none,
          ap (λ p. fill r.mem p (concat cs)) at_start,
          refl,
          from_none,
          refl,
          refl,
          refl,
          completes-late _ r.pending (r.read_counter + 1) (n - (0 + length (concat cs)))
              (a + length (concat cs)) late err (λ e. absurd (omega arith))
              (ap
                (λ j.
                  r.pending
                  ++ record {
                    count = n - (0 + length (concat cs));
                    addr = a + j;
                    handler = tapped r.rx_dump (read_continue (r.read_counter + 1)) (a + j);
                  }
                    ∷ [])
                from_none),
        )
    where
      b : Reader B
      b = begun r n a c (suc millis)

      from_none : 0 + length (concat cs) ≡ length (concat cs)
      from_none = omega arith

      at_start : a + 0 ≡ a
      at_start = omega arith
