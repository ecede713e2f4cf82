-- ===== src/Reader/Leftover.antt =====
-- src/StreamReader.cpp, `async_read_until` in a reader whose `readBuffer_` holds bytes that an earlier
-- `read_until` saved.
use rtac_asio.Prelude.{
  ℕ, suc, ◌+◌, ◌^◌, ◌<◌, ◌≡◌, ◌≢◌, ◌⊎◌, refl, sym, ap, subst, ◌∙◌, true, false, ◌||◌, Option, none,
  some, List, [], ◌∷◌, ◌++◌, ◌==◌, ltb, leb, arith, inl, inr, length, length-append, ≡→==, ≢→==,
  append-nil, lt→ltb, le→not-ltb, add_uint,
}
use rtac_asio.Memory.{poke, fill, fill-append}
use rtac_asio.Service.{success, post, submit, arm, arm-mem, arm-posted, arm-pending}
use rtac_asio.Streambuf.{Streambuf}
use rtac_asio.Reader.{
  Callback, call, read_until_continue, Reader, finish_read, new_read, do_read_some, dump_enabled,
}
use rtac_asio.Reader.Until.{char_byte, scan, scan_buffer, async_read_until}
use rtac_asio.Reader.Delimiter.{Lacks}
use rtac_asio.Reader.Buffer.{Ahead, get-Ahead}
use rtac_asio.Reader.Scan.{moved, Passes, scan-Passes}

module _ {B : Type 0} ⦃s : Streambuf B⦄ where
  -- The state behind an accepted `new_read`.
  abbrev pub opened : Reader B → ℕ → ℕ → Callback → ℕ → Reader B
  opened r n a c millis = record r {
    read_counter = r.read_counter + 1;
    read_id = r.read_counter + 1;
    requested_size = n;
    processed = 0;
    dst = a;
    callback = c;
    env = arm r.env millis (r.read_counter + 1);
  }

  pub new_read-opened :
      (r : Reader B) (n a : ℕ) (c : Callback) (millis : ℕ)
      → r.read_id ≡ 0
      → r.read_counter + 1 < 2 ^ 32
      → new_read r n a c millis ≡ (true, opened r n a c millis)
  unfolding new_read
  new_read-opened r n a c millis idle small = rw (≡→== r.read_id 0 idle, counter) refl
    where
      counter : add_uint r.read_counter 1 ≡ r.read_counter + 1
      counter = omega arith

  scan_buffer-Passes :
      (d : ℕ) (r : Reader B) (xs ys : List ℕ)
      → s.contents r.read_buffer ≡ xs ++ ys
      → 0 < length (xs ++ ys)
      → Lacks (char_byte d) xs
      → r.processed + length xs < r.requested_size
      → Passes (suc (length ys)) d r xs ys (scan_buffer d r)
  unfolding scan_buffer
  scan_buffer-Passes d r xs ys e pos lacks room =
      subst (λ out. Passes (suc (length ys)) d r xs ys out) (sym full) passed
    where
      size : s.size r.read_buffer ≡ length (xs ++ ys)
      size = s.size_lem r.read_buffer ∙ ap length e

      r' : Reader B
      r' = record r { read_buffer = (s.get r.read_buffer).1 }

      full : scan_buffer d r ≡ scan (suc (s.size r.read_buffer)) (s.get r.read_buffer).0 d r'
      full = rw (lt→ltb 0 (s.size r.read_buffer) (omega (arith, size))) refl

      passed :
          Passes
            (suc (length ys))
            d
            r
            xs
            ys
            (scan (suc (s.size r.read_buffer)) (s.get r.read_buffer).0 d r')
      passed =
          let p =
            scan-Passes xs ys d (suc (s.size r.read_buffer)) (suc (length ys))
              (s.get r.read_buffer).0 r' (omega (arith, size, length-append xs ys)) lacks room
              (get-Ahead r.read_buffer (xs ++ ys) e) in
          record { char = p.char; buffer = p.buffer; ahead = p.ahead; goes_on = p.goes_on }

  -- The byte that ends the loop: the delimiter, or the one that fills the caller's buffer.
  scan-stops :
      (k d x : ℕ) (after : List ℕ) (c : Option ℕ) (r : Reader B)
      → Ahead c r.read_buffer (x ∷ after)
      → (x ≡ char_byte d) ⊎ (r.processed + 1 ≡ r.requested_size)
      → (scan (suc k) c d r ≡ (
        true,
        finish_read
            (record r {
              processed = r.processed + 1;
              env = record r.env { mem = poke r.mem (r.dst + r.processed) x };
            })
            success,
      ))
        × (s.contents r.read_buffer ≡ after)
  unfolding scan
  scan-stops k d x after none r h over = absurd h
  scan-stops k d x after (some c) r h over = (rw (stops, h.0) refl, h.1)
    where
      stops : c == char_byte d || leb r.requested_size (r.processed + 1) ≡ true
      stops = ground (arith, over, h.0)

  scan-exhausted :
      (k d : ℕ) (c : Option ℕ) (r : Reader B)
      → Ahead c r.read_buffer []
      → (scan (suc k) c d r ≡ (false, r)) × (s.contents r.read_buffer ≡ [])
  unfolding scan
  scan-exhausted k d none r h = (refl, h)
  scan-exhausted k d (some c) r h = absurd h

  module _ (r : Reader B) (max a d : ℕ) (c : Callback) (millis : ℕ) (idle : r.read_id ≡ 0)
      (small : r.read_counter + 1 < 2 ^ 32) where
    -- The buffer's bytes `before` hold no delimiter, and the next one, `x`, is the delimiter's or fills
    -- the caller's `max` bytes. Then an idle reader answers at once, without the stream: the
    -- caller's buffer gets `before` and `x`, the callback is posted with success and their number, all
    -- that stands behind `x` stays in the buffer, and the reader is idle again.
    pub async_read_until_buffered :
        (before after : List ℕ) (x : ℕ)
        → s.contents r.read_buffer ≡ before ++ x ∷ after
        → Lacks (char_byte d) before
        → length before < max
        → (x ≡ char_byte d) ⊎ (length before + 1 ≡ max)
        → let (started, r') = async_read_until r max a d c millis in
          (started ≡ true)
          × (r'.mem ≡ fill r.mem a (before ++ x ∷ []))
          × (r'.posted
              ≡ r.posted
                ++ record { handler = call c; err = success; count = length before + 1 } ∷ [])
          × (s.contents r'.read_buffer ≡ after)
          × (r'.read_id ≡ 0)
          × (r'.pending ≡ r.pending)
    unfolding async_read_until finish_read post
    async_read_until_buffered before after x e lacks room over =
        rw
          (
            new_read-opened r max a c millis idle small,
            p.goes_on,
            st.0,
            ≢→== (r.read_counter + 1) 0 busy,
          )
          (
            refl,
            (λ i.
                  poke (fill (arm-mem r.env millis (r.read_counter + 1) i) (at_start i) before)
                    (at_end i) x)
                ∙ sym (fill-append r.mem a before (x ∷ [])),
            (λ i.
                arm-posted r.env millis (r.read_counter + 1) i
                ++ record { handler = call c; err = success; count = total i } ∷ []),
            st.1,
            refl,
            arm-pending r.env millis (r.read_counter + 1),
          )
      where
        o : Reader B
        o = opened r max a c millis

        p : Passes (suc (length (x ∷ after))) d o before (x ∷ after) (scan_buffer d o)
        p =
            scan_buffer-Passes d o before (x ∷ after) e
              (omega (arith, length-append before (x ∷ after))) lacks (omega arith)

        st :
            (scan (suc (length (x ∷ after))) p.char d (moved o before p.buffer) ≡ (
              true,
              finish_read
                  (record (moved o before p.buffer) {
                    processed = 0 + length before + 1;
                    env = record (moved o before p.buffer).env {
                      mem = poke (moved o before p.buffer).mem (a + (0 + length before)) x;
                    };
                  })
                  success,
            ))
            × (s.contents p.buffer ≡ after)
        st =
            scan-stops (length (x ∷ after)) d x after p.char (moved o before p.buffer) p.ahead
              (reaches over)
          where
            reaches :
                (x ≡ char_byte d) ⊎ (length before + 1 ≡ max)
                → (x ≡ char_byte d) ⊎ (0 + length before + 1 ≡ max)
            reaches (inl same) = inl same
            reaches (inr full) = inr (omega arith)

        busy : r.read_counter + 1 ≢ 0
        busy = omega arith

        at_start : a + 0 ≡ a
        at_start = omega arith

        at_end : a + (0 + length before) ≡ a + length before
        at_end = omega arith

        total : 0 + length before + 1 ≡ length before + 1
        total = omega arith

    -- The buffer holds `xs`, some bytes with no delimiter and fewer than the `max` that the caller has
    -- room for. Then the stream is asked for `max` bytes more, at the place behind `xs`: the last of
    -- them lie behind the end of the caller's buffer, as many as `xs` has.
    pub async_read_until_overruns :
        (xs : List ℕ)
        → s.contents r.read_buffer ≡ xs
        → 0 < length xs
        → Lacks (char_byte d) xs
        → length xs < max
        → r.rx_dump ≡ none
        → let (started, r') = async_read_until r max a d c millis in
          (started ≡ true)
          × (r'.pending
              ≡ r.pending
                ++ record {
                  count = max;
                  addr = a + length xs;
                  handler = read_until_continue (r.read_counter + 1) d;
                }
                  ∷ [])
          × (a + max < a + length xs + max)
    unfolding async_read_until do_read_some submit dump_enabled
    async_read_until_overruns xs e pos lacks room off =
        rw (new_read-opened r max a c millis idle small, p.goes_on, ex.0, dry, off)
          (
            refl,
            (λ i.
                arm-pending r.env millis (r.read_counter + 1) i
                ++ record {
                  count = max;
                  addr = a + place i;
                  handler = read_until_continue (r.read_counter + 1) d;
                }
                  ∷ []),
            omega arith,
          )
      where
        o : Reader B
        o = opened r max a c millis

        p : Passes 1 d o xs [] (scan_buffer d o)
        p =
            scan_buffer-Passes d o xs [] (e ∙ sym (append-nil xs))
              (omega (arith, length-append xs [])) lacks (omega arith)

        ex :
            (scan 1 p.char d (moved o xs p.buffer) ≡ (false, moved o xs p.buffer))
            × (s.contents p.buffer ≡ [])
        ex = scan-exhausted 0 d p.char (moved o xs p.buffer) p.ahead

        dry : ltb 0 (s.size p.buffer) ≡ false
        dry = le→not-ltb 0 (s.size p.buffer) (omega (arith, s.size_lem p.buffer, ap length ex.1))

        place : 0 + length xs ≡ length xs
        place = omega arith
