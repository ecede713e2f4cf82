-- ===== src/Reader/Buffer.antt =====
-- src/StreamReader.cpp, `do_read_some`: what is read from `readBuffer_`, and what stays in it.
use rtac_asio.Prelude.{
  ℕ, zero, suc, ◌+◌, ◌≡◌, refl, ap, subst, ◌∙◌, true, Option, none, some, List, [], ◌∷◌, ◌++◌, min,
  ltb, arith, length, take, drop, drop-all, lt→ltb,
}
use rtac_asio.Memory.{Bytes, poke, fill}
use rtac_asio.Service.{success, post}
use rtac_asio.Streambuf.{Streambuf, list_streambuf}
use rtac_asio.Reader.{Handler, Drained, Reader, drain, drain_buffer, do_read_some, flush}

module _ {B : Type 0} ⦃s : Streambuf B⦄ where
  -- `c` is the byte that was taken last, in front of what the buffer still holds.
  abbrev pub Ahead : Option ℕ → B → List ℕ → Type 0
  Ahead none b [] = s.contents b ≡ []
  Ahead none b (x ∷ xs) = ⊥
  Ahead (some c) b [] = ⊥
  Ahead (some c) b (x ∷ xs) = (c ≡ x) × (s.contents b ≡ xs)

  pub get-Ahead : (b : B) (xs : List ℕ) → s.contents b ≡ xs → Ahead (s.get b).0 (s.get b).1 xs
  get-Ahead b [] e = rw (s.get_empty b e) e
  get-Ahead b (x ∷ xs) e =
      let c : (s.get b).0 ≡ some x = s.get_char b x xs e in rw c (refl, s.get_rest b x xs e)

  -- What the loop leaves, started with `i` bytes counted.
  pub record Drains (k i a : ℕ) (m : Bytes) (xs : List ℕ) (d : Drained B) : Type 0 where
    pub count : d.got ≡ i + min k (length xs)
    pub stored : d.bytes ≡ fill m (a + i) (take k xs)
    pub left : s.contents d.rest ≡ drop (suc k) xs

  drain-Drains :
      (k : ℕ) (c : Option ℕ) (i a : ℕ) (m : Bytes) (b : B) (xs : List ℕ)
      → Ahead c b xs
      → Drains k i a m xs (drain k c i a m b)
  unfolding drain
  drain-Drains zero none i a m b [] h = record { count = omega arith; stored = refl; left = h }
  drain-Drains zero none i a m b (x ∷ xs) h = absurd h
  drain-Drains zero (some c) i a m b [] h = absurd h
  drain-Drains zero (some c) i a m b (x ∷ xs) h = record {
    count = omega arith;
    stored = refl;
    left = h.1;
  }
  drain-Drains (suc k) none i a m b [] h = record { count = omega arith; stored = refl; left = h }
  drain-Drains (suc k) none i a m b (x ∷ xs) h = absurd h
  drain-Drains (suc k) (some c) i a m b [] h = absurd h
  drain-Drains (suc k) (some c) i a m b (x ∷ xs) h =
      let ih =
        drain-Drains k (s.get b).0 (i + 1) a (poke m (a + i) c) (s.get b).1 xs
          (get-Ahead b xs h.1) in
      record {
        count = omega (arith, ih.count);
        stored =
            ih.stored
            ∙ ap (λ p. fill (poke m (a + i) c) p (take k xs)) (omega arith)
            ∙ ap (λ v. fill (poke m (a + i) v) (a + i + 1) (take k xs)) h.0;
        left = ih.left;
      }

  pub drain_buffer-Drains :
      (r : Reader B) (n a : ℕ) → Drains n 0 a r.mem (s.contents r.read_buffer) (drain_buffer r n a)
  unfolding drain_buffer
  drain_buffer-Drains r n a =
      drain-Drains n _ 0 a r.mem _ (s.contents r.read_buffer) (get-Ahead r.read_buffer _ refl)

  size-pos : (b : B) (xs : List ℕ) (x : ℕ) → s.contents b ≡ x ∷ xs → ltb 0 (s.size b) ≡ true
  size-pos b xs x e = lt→ltb 0 (s.size b) (omega (arith, s.size_lem b, ap length e))

  -- Where `readBuffer_` holds bytes, `do_read_some` asks the stream for nothing. It copies the first
  -- `count` of them to the caller, or all if there are fewer, posts the handler with their number and
  -- success, and what stays is what stands behind the first `count + 1`.
  pub do_read_some_buffered :
      (r : Reader B) (n a : ℕ) (h : Handler) (x : ℕ) (xs : List ℕ)
      → s.contents r.read_buffer ≡ x ∷ xs
      → let r' = do_read_some r n a h in
        (r'.mem ≡ fill r.mem a (take n (x ∷ xs)))
        × (r'.posted
            ≡ r.posted
              ++ record { handler = h; err = success; count = min n (length (x ∷ xs)) } ∷ [])
        × (r'.pending ≡ r.pending)
        × (s.contents r'.read_buffer ≡ drop n xs)
  unfolding do_read_some post
  do_read_some_buffered r n a h x xs e =
      let d : Drains n 0 a r.mem (x ∷ xs) (drain_buffer r n a) =
        subst (λ l. Drains n 0 a r.mem l (drain_buffer r n a)) e (drain_buffer-Drains r n a) in
      rw (size-pos r.read_buffer xs x e) (
        d.stored ∙ ap (λ p. fill r.mem p (take n (x ∷ xs))) (omega arith),
        ap (λ k. r.posted ++ record { handler = h; err = success; count = k } ∷ [])
            (omega (arith, d.count)),
        refl,
        d.left,
      )

module _ {B : Type 0} ⦃s : Streambuf B⦄ where
  -- `flush` leaves nothing to read, and nothing else changes.
  flush_lem :
      (r : Reader B)
      → (s.contents (flush r).read_buffer ≡ [])
        × (record (flush r) { read_buffer = r.read_buffer } ≡ r)
  unfolding flush
  flush_lem r = (
    s.consume_lem r.read_buffer (s.size r.read_buffer)
        ∙ drop-all (s.size r.read_buffer) (s.contents r.read_buffer)
            (omega (arith, s.size_lem r.read_buffer)),
    refl,
  )
