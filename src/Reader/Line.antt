-- ===== src/Reader/Line.antt =====
-- src/StreamReader.cpp, `async_read_until` and its continuation, over all the pieces that the stream
-- delivers.
use rtac_asio.Prelude.{
  ℕ, ◌+◌, ◌-◌, ◌^◌, ◌<◌, ◌≤◌, ◌≡◌, sym, ap, ap₂, subst, ◌∙◌, true, List, [], ◌∷◌, ◌++◌, arith,
  length, ≡→==, append_assoc, length-append, add_uint,
}
use rtac_asio.Memory.{fill, peek-fill, fill-append}
use rtac_asio.Service.{success, Request, submit, arm, arm-posted, arm-pending, arm-mem}
use rtac_asio.Streambuf.{Streambuf, size-empty}
use rtac_asio.Reader.{Callback, Handler, call, read_until_continue, Reader, new_read}
use rtac_asio.Reader.Until.{async_read_until, scan_buffer}
use rtac_asio.Reader.Run.{completes, run_handler, step, run}
use rtac_asio.Reader.Tap.{tapped, do_read_some-tapped}
use rtac_asio.Reader.Pieces.{Reading, concat, filled, grown, completes-filled, grown-Reading}
use rtac_asio.Reader.Whole.{deliveries}
use rtac_asio.Reader.Delimiter.{Lacks}
use rtac_asio.Reader.Lines.{async_read_until_continue_found, async_read_until_continue_more}

pub Lacks-left : (d : ℕ) (xs ys : List ℕ) → Lacks d (xs ++ ys) → Lacks d xs
Lacks-left d [] ys l = tt
Lacks-left d (x ∷ xs) ys l = (l.0, Lacks-left d xs ys l.1)

pub Lacks-right : (d : ℕ) (xs ys : List ℕ) → Lacks d (xs ++ ys) → Lacks d ys
Lacks-right d [] ys l = l
Lacks-right d (x ∷ xs) ys l = Lacks-right d xs ys l.1

-- The continuation of a `read_until`.
abbrev pub goes_on : ℕ → ℕ → Handler
goes_on d id = read_until_continue id d

module _ {B : Type 0} ⦃s : Streambuf B⦄ (d : ℕ) where
  -- The state when a `read_until` got the bytes `rest` up to the delimiter, and `after` behind it,
  -- against its state before.
  record Finds (r : Reader B) (old : List (Request Handler)) (rest after : List ℕ) (r' : Reader B)
      : Type 0 where
    told :
        r'.posted
        ≡ r.posted
          ++ record { handler = call r.callback; err = success; count = r.processed + length rest }
            ∷ []
    saved : s.contents r'.read_buffer ≡ after
    idle : r'.read_id ≡ 0
    stored : r'.mem ≡ fill r.mem (r.dst + r.processed) (rest ++ after)
    in_hand : r'.pending ≡ old

  pub continue-grown :
      {r : Reader B} {old : List (Request Handler)} (c : List ℕ)
      → Reading (goes_on d) r old
      → Lacks d c
      → r.processed + length c < r.requested_size
      → run_handler (goes_on d r.read_id) (filled r old c) success (length c)
        ≡ grown (goes_on d) r old c
  unfolding run_handler submit
  continue-grown {r} {old} c v lacks more =
      async_read_until_continue_more (filled r old c) d (length c)
        (subst (Lacks d) (sym (peek-fill r.mem (r.dst + r.processed) c)) lacks) more v.fits
      ∙ do_read_some-tapped (record (filled r old c) { processed = r.processed + length c })
          r.rx_dump (r.requested_size - (r.processed + length c)) (r.dst + (r.processed + length c))
          (goes_on d r.read_id) v.empty

  continue-Finds :
      {r : Reader B} {old : List (Request Handler)} (before after : List ℕ)
      → Reading (goes_on d) r old
      → Lacks d before
      → r.processed + length (before ++ d ∷ after) ≤ r.requested_size
      → let c : List ℕ = before ++ d ∷ after in
        Finds r old
          (before ++ d ∷ [])
          after
          (run_handler (goes_on d r.read_id) (filled r old c) success (length c))
  unfolding run_handler
  continue-Finds {r} {old} before after v lacks room =
      let c : List ℕ = before ++ d ∷ after in
      let (told, saved, idle, stored, in_hand) =
        async_read_until_continue_found (filled r old c) d success (length c) before after v.busy
          lacks (peek-fill r.mem (r.dst + r.processed) c) (omega (arith, v.fits)) in
      record {
        told =
            told
            ∙ ap
                (λ k.
                  r.posted
                  ++ record { handler = call r.callback; err = success; count = r.processed + k }
                    ∷ [])
                (sym (length-append before (d ∷ [])));
        saved = saved ∙ ap (λ xs. xs ++ after) v.empty;
        idle = idle;
        stored =
            stored
            ∙ ap (fill r.mem (r.dst + r.processed)) (sym (append_assoc before (d ∷ []) after));
        in_hand = in_hand;
      }

  deliveries-Finds :
      (cs : List (List ℕ)) (before after : List ℕ) {r : Reader B} {old : List (Request Handler)}
      → Reading (goes_on d) r old
      → Lacks d (concat cs ++ before)
      → r.processed + (length (concat cs) + length (before ++ d ∷ after)) ≤ r.requested_size
      → Finds r old
          (concat cs ++ (before ++ d ∷ []))
          after
          (run (deliveries old (cs ++ (before ++ d ∷ after) ∷ [])) r)
  unfolding run
  deliveries-Finds [] before after {r} {old} v lacks room =
      subst (Finds r old (before ++ d ∷ []) after)
        (sym (completes-filled (goes_on d) (before ++ d ∷ after) v))
        (continue-Finds before after v lacks (omega arith))
  deliveries-Finds (c ∷ cs) before after {r} {old} v lacks room =
      let split : Lacks d (c ++ (concat cs ++ before)) =
        subst (Lacks d) (append_assoc c (concat cs) before) lacks in
      let more : r.processed + length c < r.requested_size = omega (arith, sizes, last) in
      let later =
        deliveries-Finds cs before after {r = grown (goes_on d) r old c} {old = old}
          (grown-Reading (goes_on d) c v more) (Lacks-right d c (concat cs ++ before) split)
          (omega (arith, sizes)) in
      let state : step (completes (length old) c success) r ≡ grown (goes_on d) r old c =
        completes-filled (goes_on d) c v
        ∙ continue-grown c v (Lacks-left d c (concat cs ++ before) split) more in
      subst (Finds r old ((c ++ concat cs) ++ (before ++ d ∷ [])) after)
        (sym (ap (run (deliveries old (cs ++ (before ++ d ∷ after) ∷ []))) state))
        (record {
          told =
              later.told
              ∙ ap
                  (λ k.
                    r.posted ++ record { handler = call r.callback; err = success; count = k } ∷ [])
                  (omega (
                    arith,
                    length-append c (concat cs ++ (before ++ d ∷ [])),
                    ap length (append_assoc c (concat cs) (before ++ d ∷ [])),
                  ));
          saved = later.saved;
          idle = later.idle;
          stored =
              later.stored
              ∙ ap
                  (λ p.
                    fill (fill r.mem (r.dst + r.processed) c) p
                      ((concat cs ++ (before ++ d ∷ [])) ++ after))
                  (omega arith)
              ∙ sym (
                  fill-append r.mem (r.dst + r.processed) c
                    ((concat cs ++ (before ++ d ∷ [])) ++ after))
              ∙ ap (fill r.mem (r.dst + r.processed)) (
                  sym (append_assoc c (concat cs ++ (before ++ d ∷ [])) after)
                  ∙ ap (λ xs. xs ++ after) (sym (append_assoc c (concat cs) (before ++ d ∷ []))));
          in_hand = later.in_hand;
        })
    where
      sizes : length (c ++ concat cs) ≡ length c + length (concat cs)
      sizes = length-append c (concat cs)

      last : length (before ++ d ∷ after) ≡ length before + (1 + length after)
      last = omega (arith, length-append before (d ∷ after))

  module _ (r : Reader B) (n a : ℕ) (c : Callback) (millis : ℕ) where
    -- The state that an accepted `async_read_until` leaves, when nothing is buffered.
    abbrev pub begun : Reader B
    begun = record r {
      read_counter = r.read_counter + 1;
      read_id = r.read_counter + 1;
      requested_size = n;
      processed = 0;
      dst = a;
      callback = c;
      env =
          submit (arm r.env millis (r.read_counter + 1)) n (a + 0)
            (tapped r.rx_dump (goes_on d (r.read_counter + 1)) (a + 0));
    }

    pub async_read_until-begun :
        r.read_id ≡ 0
        → s.contents r.read_buffer ≡ []
        → r.read_counter + 1 < 2 ^ 32
        → async_read_until r n a d c millis ≡ (true, begun)
    unfolding async_read_until new_read scan_buffer
    async_read_until-begun idle dry small =
        rw (≡→== r.read_id 0 idle, counter, size-empty r.read_buffer dry)
          (ap (λ x. (true, x))
            (do_read_some-tapped
              (record r {
                read_counter = r.read_counter + 1;
                read_id = r.read_counter + 1;
                requested_size = n;
                processed = 0;
                dst = a;
                callback = c;
                env = arm r.env millis (r.read_counter + 1);
              })
              r.rx_dump n (a + 0) (goes_on d (r.read_counter + 1)) dry))
      where
        counter : add_uint r.read_counter 1 ≡ r.read_counter + 1
        counter = omega arith

    -- An `async_read_until` of at most `n` bytes, in an idle reader that has nothing buffered, ends
    -- with the piece that holds the first byte of the delimiter's value, however the stream cuts its bytes
    -- into pieces, when they fit the caller's buffer: the callback is posted once, with success and
    -- the count of the bytes up to the delimiter, which stand at the start of the caller's
    -- buffer; the bytes behind it in the last piece are saved for the next read, in order; the
    -- reader is idle, and the operations of earlier reads that the stream has in hand are as they were.
    pub async_read_until_whole :
        (cs : List (List ℕ)) (before after : List ℕ)
        → r.read_id ≡ 0
        → s.contents r.read_buffer ≡ []
        → r.read_counter + 1 < 2 ^ 32
        → n < 2 ^ 64
        → Lacks d (concat cs ++ before)
        → length (concat cs) + length (before ++ d ∷ after) ≤ n
        → let line : List ℕ = concat cs ++ (before ++ d ∷ []) in
          let r' =
            run
              (deliveries r.pending (cs ++ (before ++ d ∷ after) ∷ []))
              (async_read_until r n a d c millis).1 in
          (r'.posted
            ≡ r.posted ++ record { handler = call c; err = success; count = length line } ∷ [])
          × (r'.mem ≡ fill r.mem a (line ++ after))
          × (s.contents r'.read_buffer ≡ after)
          × (r'.read_id ≡ 0)
          × (r'.pending ≡ r.pending)
    unfolding submit
    async_read_until_whole cs before after idle dry small fits lacks room =
        let g =
          deliveries-Finds cs before after {r = begun} {old = r.pending} starts lacks
            (omega arith) in
        rw (async_read_until-begun idle dry small) (
          g.told
              ∙ ap₂ (λ l k. l ++ record { handler = call c; err = success; count = k } ∷ [])
                  (arm-posted r.env millis (r.read_counter + 1)) (omega arith),
          g.stored
              ∙ ap₂ (λ m p. fill m p ((concat cs ++ (before ++ d ∷ [])) ++ after))
                  (arm-mem r.env millis (r.read_counter + 1)) (omega arith),
          g.saved,
          g.idle,
          g.in_hand,
        )
      where
        starts : Reading (goes_on d) begun r.pending
        starts = record {
          busy = λ e. absurd (omega arith);
          empty = dry;
          fits = fits;
          room = omega (arith, length-append before (d ∷ after));
          in_hand =
              ap₂
                (λ l k.
                  l
                  ++ record {
                    count = k;
                    addr = a + 0;
                    handler = tapped r.rx_dump (goes_on d (r.read_counter + 1)) (a + 0);
                  }
                    ∷ [])
                (arm-pending r.env millis (r.read_counter + 1)) (omega arith);
        }
