-- ===== src/Reader/Missed.antt =====
-- src/StreamReader.cpp, `async_read_until` for a delimiter that is a negative `char`, over all the
-- pieces that the stream delivers.
use native.Mathlib.Decide.{dec_lt}
use rtac_asio.Prelude.{
  ℕ, ◌+◌, ◌-◌, ◌^◌, ◌<◌, ◌≤◌, ◌≡◌, refl, sym, ap, ap₂, subst, ◌∙◌, List, [], ◌∷◌, ◌++◌, arith,
  length, length-zero, append-nil, length-append, inr,
}
use rtac_asio.Memory.{fill, peek-fill, fill-append}
use rtac_asio.Service.{success, Request, post, submit, arm-posted, arm-pending, arm-mem}
use rtac_asio.Streambuf.{Streambuf}
use rtac_asio.Reader.{Callback, Handler, call, Reader}
use rtac_asio.Reader.Until.{async_read_until}
use rtac_asio.Reader.Run.{completes, run_handler, step, run}
use rtac_asio.Reader.Tap.{tapped}
use rtac_asio.Reader.Pieces.{Reading, concat, filled, grown, completes-filled, grown-Reading}
use rtac_asio.Reader.Whole.{deliveries, deliveries-idle}
use rtac_asio.Reader.Delimiter.{Lacks}
use rtac_asio.Reader.Lines.{async_read_until_continue_ends}
use rtac_asio.Reader.Line.{
  goes_on, continue-grown, begun, async_read_until-begun, Lacks-left, Lacks-right,
}

-- Values of `uint8_t`.
abbrev pub AreBytes : List ℕ → Type 0
AreBytes [] = Unit {0}
AreBytes (x ∷ xs) = (x < 256) × AreBytes xs

AreBytes-Lacks : (d : ℕ) (xs : List ℕ) → 256 ≤ d → AreBytes xs → Lacks d xs
AreBytes-Lacks d [] h v = tt
AreBytes-Lacks d (x ∷ xs) h v = ((λ e. absurd (omega (arith, e, v.0))), AreBytes-Lacks d xs h v.1)

module _ {B : Type 0} ⦃s : Streambuf B⦄ (d : ℕ) where
  -- The state when a `read_until` got all that it has room for, against its state before.
  record Fills (r : Reader B) (old : List (Request Handler)) (rest : List ℕ) (r' : Reader B)
      : Type 0 where
    told :
        r'.posted
        ≡ r.posted
          ++ record { handler = call r.callback; err = success; count = r.requested_size } ∷ []
    unsaved : s.contents r'.read_buffer ≡ []
    idle : r'.read_id ≡ 0
    stored : r'.mem ≡ fill r.mem (r.dst + r.processed) rest
    in_hand : r'.pending ≡ old

  continue-ended :
      {r : Reader B} {old : List (Request Handler)} (c : List ℕ)
      → Reading (goes_on d) r old
      → Lacks d c
      → r.processed + length c ≡ r.requested_size
      → run_handler (goes_on d r.read_id) (filled r old c) success (length c)
        ≡ record (filled r old c) {
          processed = r.processed + length c;
          read_id = 0;
          env = post (filled r old c).env (call r.callback) success (r.processed + length c);
        }
  unfolding run_handler
  continue-ended {r} {old} c v lacks all =
      async_read_until_continue_ends (filled r old c) d success (length c) v.busy
        (subst (Lacks d) (sym (peek-fill r.mem (r.dst + r.processed) c)) lacks) (inr (omega arith))
        (omega (arith, v.fits))

  deliveries-Fills :
      (cs : List (List ℕ)) {r : Reader B} {old : List (Request Handler)}
      → Reading (goes_on d) r old
      → Lacks d (concat cs)
      → r.processed + length (concat cs) ≡ r.requested_size
      → Fills r old (concat cs) (run (deliveries old cs) r)
  unfolding run post
  deliveries-Fills [] v lacks total = absurd (omega (arith, v.room))
  deliveries-Fills (c ∷ cs) {r} {old} v lacks total =
      elim (dec_lt (r.processed + length c) r.requested_size) [
        | yes more ↦
            let later =
              deliveries-Fills cs {r = grown (goes_on d) r old c} {old = old}
                (grown-Reading (goes_on d) c v more) (Lacks-right d c (concat cs) lacks)
                (omega (arith, sum)) in
            let state : step (completes (length old) c success) r ≡ grown (goes_on d) r old c =
              completes-filled (goes_on d) c v
              ∙ continue-grown d c v (Lacks-left d c (concat cs) lacks) more in
            subst (Fills r old (c ++ concat cs)) (sym (ap (run (deliveries old cs)) state))
              (record {
                told = later.told;
                unsaved = later.unsaved;
                idle = later.idle;
                stored =
                    later.stored
                    ∙ ap (λ p. fill (fill r.mem (r.dst + r.processed) c) p (concat cs))
                        (omega arith)
                    ∙ sym (fill-append r.mem (r.dst + r.processed) c (concat cs));
                in_hand = later.in_hand;
              })
        | no last ↦
            let exact : r.processed + length c ≡ r.requested_size = omega (arith, sum) in
            let none_left : concat cs ≡ [] = length-zero (concat cs) (omega (arith, sum)) in
            let r' : Reader B = record (filled r old c) {
              processed = r.processed + length c;
              read_id = 0;
              env = post (filled r old c).env (call r.callback) success (r.processed + length c);
            } in
            let state : step (completes (length old) c success) r ≡ r' =
              completes-filled (goes_on d) c v
              ∙ continue-ended c v (Lacks-left d c (concat cs) lacks) exact in
            subst (Fills r old (c ++ concat cs))
              (sym (ap (run (deliveries old cs)) state ∙ deliveries-idle old cs r' refl))
              (record {
                told =
                    ap
                      (λ k.
                        r.posted
                        ++ record { handler = call r.callback; err = success; count = k } ∷ [])
                      exact;
                unsaved = v.empty;
                idle = refl;
                stored =
                    ap (fill r.mem (r.dst + r.processed))
                      (sym (append-nil c) ∙ ap (◌++◌ c) (sym none_left));
                in_hand = refl;
              })
      ]
    where
      sum : r.processed + (length c + length (concat cs)) ≡ r.requested_size
      sum = omega (arith, total, length-append c (concat cs))

  module _ (r : Reader B) (n a : ℕ) (c : Callback) (millis : ℕ) where
    -- Where `char` is signed, an `async_read_until` of at most `n` bytes for a negative delimiter, in an
    -- idle reader that has nothing buffered, does not end before the caller's buffer is full, whatever
    -- bytes the stream delivers, those of the delimiter included, and in whatever pieces: when they
    -- are `n` together, the callback is posted once, with success and `n`, the caller's buffer holds
    -- them all, and nothing is saved for the next read.
    pub async_read_until_misses :
        (cs : List (List ℕ))
        → 2 ^ 32 - 128 ≤ d
        → AreBytes (concat cs)
        → r.read_id ≡ 0
        → s.contents r.read_buffer ≡ []
        → r.read_counter + 1 < 2 ^ 32
        → 0 < n
        → n < 2 ^ 64
        → length (concat cs) ≡ n
        → let r' = run (deliveries r.pending cs) (async_read_until r n a d c millis).1 in
          (r'.posted ≡ r.posted ++ record { handler = call c; err = success; count = n } ∷ [])
          × (r'.mem ≡ fill r.mem a (concat cs))
          × (s.contents r'.read_buffer ≡ [])
          × (r'.read_id ≡ 0)
          × (r'.pending ≡ r.pending)
    unfolding submit
    async_read_until_misses cs negative bytes idle dry small pos fits total =
        let g =
          deliveries-Fills cs {r = begun d r n a c millis} {old = r.pending} starts
            (AreBytes-Lacks d (concat cs) (omega (arith, negative)) bytes) (omega (arith, total)) in
        rw (async_read_until-begun d r n a c millis idle dry small) (
          g.told
              ∙ ap (λ l. l ++ record { handler = call c; err = success; count = n } ∷ [])
                  (arm-posted r.env millis (r.read_counter + 1)),
          g.stored
              ∙ ap₂ (λ m p. fill m p (concat cs)) (arm-mem r.env millis (r.read_counter + 1))
                  (omega arith),
          g.unsaved,
          g.idle,
          g.in_hand,
        )
      where
        starts : Reading (goes_on d) (begun d r n a c millis) r.pending
        starts = record {
          busy = λ e. absurd (omega arith);
          empty = dry;
          fits = fits;
          room = pos;
          in_hand =
              ap₂
                (λ l k.
                  l
                  ++ record {
                    count = k;
                    addr = a + 0;
                    handler = tapped r.rx_dump (goes_on d (r.read_counter + 1)) (a + 0);
                  }
                    ∷ [])
                (arm-pending r.env millis (r.read_counter + 1)) (omega arith);
        }
