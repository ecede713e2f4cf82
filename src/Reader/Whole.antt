-- ===== src/Reader/Whole.antt =====
-- src/StreamReader.cpp, `async_read` and its continuation, over all the pieces that the stream delivers.
use rtac_asio.Prelude.{
  if◌then◌else◌, ℕ, ◌+◌, ◌-◌, ◌^◌, ◌<◌, ◌≡◌, refl, sym, ap, ap₂, subst, ◌∙◌, true, List, [], ◌∷◌,
  ◌++◌, arith, length, get_elem?, get_elem?-length, ≡→==, append-nil, length-append, length-zero,
  add_uint,
}
use native.Mathlib.Decide.{dec_lt}
use rtac_asio.Memory.{peek, fill, peek-fill, fill-append}
use rtac_asio.Service.{success, Request, submit, arm, arm-posted, arm-pending, arm-mem, arm-files}
use rtac_asio.Streambuf.{Streambuf}
use rtac_asio.Reader.{Callback, Handler, call, read_continue, Reader, new_read, async_read}
use rtac_asio.Reader.Dump.{dumps_to}
use rtac_asio.Reader.Tap.{tapped, do_read_some-tapped}
use rtac_asio.Service.Files.{logged, logged-append, logged_lem}
use rtac_asio.Reader.Run.{Event, completes, run_handler, complete_at, step, run}
use rtac_asio.Reader.Pieces.{
  Reading, Gets, concat, grown, ended, completes-filled, continue-grown, continue-ended,
  grown-Reading,
}

-- The stream ends one operation after the other, each with the next piece.
abbrev pub deliveries : List (Request Handler) → List (List ℕ) → List Event
deliveries old [] = []
deliveries old (c ∷ cs) = completes (length old) c success ∷ deliveries old cs

module _ {B : Type 0} ⦃s : Streambuf B⦄ where
  pub deliveries-idle :
      (old : List (Request Handler)) (cs : List (List ℕ)) (r : Reader B)
      → r.pending ≡ old
      → run (deliveries old cs) r ≡ r
  unfolding run step complete_at
  deliveries-idle old [] r e = refl
  deliveries-idle old (c ∷ cs) r e =
      ap (run (deliveries old cs)) (
        ap (λ o. complete_at r (length old) o c success)
          (ap (λ qs. get_elem? qs (length old)) e ∙ get_elem?-length old))
      ∙ deliveries-idle old cs r e

  Reading-Gets :
      (cs : List (List ℕ)) {r : Reader B} {old : List (Request Handler)}
      → Reading read_continue r old
      → r.processed + length (concat cs) ≡ r.requested_size
      → Gets r old (concat cs) (run (deliveries old cs) r)
  unfolding run run_handler
  Reading-Gets [] v total = absurd (omega (arith, v.room))
  Reading-Gets (c ∷ cs) {r} {old} v total =
      elim (dec_lt (r.processed + length c) r.requested_size) [
        | yes more ↦
            let later =
              Reading-Gets cs {r = grown read_continue r old c} {old = old}
                (grown-Reading read_continue c v more) (omega (arith, sum)) in
            let state : step (completes (length old) c success) r ≡ grown read_continue r old c =
              completes-filled read_continue c v ∙ continue-grown c v more in
            subst (Gets r old (c ++ concat cs)) (sym (ap (run (deliveries old cs)) state)) (record {
              idle = later.idle;
              counted = later.counted;
              stored =
                  later.stored
                  ∙ ap (λ p. fill (fill r.mem (r.dst + r.processed) c) p (concat cs)) (omega arith)
                  ∙ sym (fill-append r.mem (r.dst + r.processed) c (concat cs));
              told = later.told;
              in_hand = later.in_hand;
              recorded = later.recorded ∙ logged-append r.rx_dump r.files c (concat cs);
            })
        | no last ↦
            let exact : r.processed + length c ≡ r.requested_size = omega (arith, sum) in
            let none_left : concat cs ≡ [] = length-zero (concat cs) (omega (arith, sum)) in
            let state : step (completes (length old) c success) r ≡ ended r old c =
              completes-filled read_continue c v ∙ continue-ended c v exact in
            subst (Gets r old (c ++ concat cs))
              (sym
                (ap (run (deliveries old cs)) state ∙ deliveries-idle old cs (ended r old c) refl))
              (record {
                idle = refl;
                counted = exact;
                stored =
                    ap (fill r.mem (r.dst + r.processed))
                      (sym (append-nil c) ∙ ap (◌++◌ c) (sym none_left));
                told =
                    ap
                      (λ k.
                        r.posted
                        ++ record { handler = call r.callback; err = success; count = k } ∷ [])
                      exact;
                in_hand = refl;
                recorded =
                    ap (logged r.rx_dump r.files)
                      (sym (append-nil c) ∙ ap (◌++◌ c) (sym none_left));
              })
      ]
    where
      sum : r.processed + (length c + length (concat cs)) ≡ r.requested_size
      sum = omega (arith, total, length-append c (concat cs))

  module _ (r : Reader B) (n a : ℕ) (c : Callback) (millis : ℕ) where
    -- The state that an accepted `async_read` leaves, when nothing is buffered.
    abbrev pub begun : Reader B
    begun = record r {
      read_counter = r.read_counter + 1;
      read_id = r.read_counter + 1;
      requested_size = n;
      processed = 0;
      dst = a;
      callback = c;
      env =
          submit (arm r.env millis (r.read_counter + 1)) n a
            (tapped r.rx_dump (read_continue (r.read_counter + 1)) a);
    }

    pub async_read-begun :
        r.read_id ≡ 0
        → s.contents r.read_buffer ≡ []
        → r.read_counter + 1 < 2 ^ 32
        → async_read r n a c millis ≡ (true, begun)
    unfolding async_read new_read
    async_read-begun idle dry small =
        rw (≡→== r.read_id 0 idle, counter)
          (ap (λ x. (true, x))
            (do_read_some-tapped
              (record r {
                read_counter = r.read_counter + 1;
                read_id = r.read_counter + 1;
                requested_size = n;
                processed = 0;
                dst = a;
                callback = c;
                env = arm r.env millis (r.read_counter + 1);
              })
              r.rx_dump n a (read_continue (r.read_counter + 1)) dry))
      where
        counter : add_uint r.read_counter 1 ≡ r.read_counter + 1
        counter = omega arith

    pub begun-Reading :
        s.contents r.read_buffer ≡ []
        → r.read_counter + 1 < 2 ^ 32
        → n < 2 ^ 64
        → 0 < n
        → Reading read_continue begun r.pending
    unfolding submit
    begun-Reading dry small fits pos = record {
      busy = λ e. absurd (omega arith);
      empty = dry;
      fits = fits;
      room = pos;
      in_hand =
          ap
            (λ l.
              l
              ++ record {
                count = n;
                addr = a;
                handler = tapped r.rx_dump (read_continue (r.read_counter + 1)) a;
              }
                ∷ [])
            (arm-pending r.env millis (r.read_counter + 1))
          ∙ ap₂
              (λ k p.
                r.pending
                ++ record {
                  count = k;
                  addr = p;
                  handler = tapped r.rx_dump (read_continue (r.read_counter + 1)) p;
                }
                  ∷ [])
              whole start;
    }
      where
        start : a ≡ a + 0
        start = omega arith

        whole : n ≡ n - 0
        whole = omega arith

    -- An `async_read` of `n` bytes, in an idle reader that has nothing buffered, gets
    -- exactly the bytes that the stream delivers, however these are cut into pieces, when the
    -- pieces are `n` bytes together: the caller's buffer holds them in order, memory outside it is
    -- as it was, the callback is posted once, with success and `n`, the reader is idle again,
    -- with `n` as the count that a synchronous `read` returns, and
    -- the operations of earlier reads that the stream still has in hand are as they were. The file of
    -- an open dump gets these bytes, behind what it held, and no other file changes.
    pub async_read_whole :
        (cs : List (List ℕ))
        → r.read_id ≡ 0
        → s.contents r.read_buffer ≡ []
        → r.read_counter + 1 < 2 ^ 32
        → 0 < n
        → n < 2 ^ 64
        → length (concat cs) ≡ n
        → let r' = run (deliveries r.pending cs) (async_read r n a c millis).1 in
          (r'.mem ≡ fill r.mem a (concat cs))
          × (peek r'.mem a n ≡ concat cs)
          × (r'.posted ≡ r.posted ++ record { handler = call c; err = success; count = n } ∷ [])
          × (r'.read_id ≡ 0)
          × (r'.processed ≡ n)
          × (r'.pending ≡ r.pending)
          × ((f : ℕ) → r'.files f ≡ r.files f ++ (if dumps_to r f then concat cs else []))
    unfolding submit
    async_read_whole cs idle dry small pos fits total =
        let g =
          Reading-Gets cs {r = begun} {old = r.pending} (begun-Reading dry small fits pos)
            (omega (arith, total)) in
        rw (async_read-begun idle dry small) (
          stored g.stored,
          ap (λ m. peek m a n) (stored g.stored)
              ∙ subst (λ k. peek (fill r.mem a (concat cs)) a k ≡ concat cs) total
                  (peek-fill r.mem a (concat cs)),
          g.told
              ∙ ap (λ l. l ++ record { handler = call c; err = success; count = n } ∷ [])
                  (arm-posted r.env millis (r.read_counter + 1)),
          g.idle,
          g.counted,
          g.in_hand,
          λ f.
              ap (λ fs. fs f) g.recorded
              ∙ logged_lem r.rx_dump (arm r.env millis (r.read_counter + 1)).files (concat cs) f
              ∙ ap (λ fs. fs f ++ (if dumps_to r f then concat cs else []))
                  (arm-files r.env millis (r.read_counter + 1)),
        )
      where
        start : a ≡ a + 0
        start = omega arith

        stored :
            {m : ℕ → ℕ}
            → m ≡ fill (arm r.env millis (r.read_counter + 1)).mem (a + 0) (concat cs)
            → m ≡ fill r.mem a (concat cs)
        stored e =
            e ∙ (λ i. fill (arm-mem r.env millis (r.read_counter + 1) i) (sym start i) (concat cs))
