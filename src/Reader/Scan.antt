-- ===== src/Reader/Scan.antt =====
-- src/StreamReader.cpp, `async_read_until`: its loop over what `readBuffer_` holds.
use rtac_asio.Prelude.{
  ℕ, zero, suc, ◌+◌, ◌<◌, ◌≡◌, sym, ap, ap₂, ◌∙◌, Bool, true, false, ◌||◌, Option, none, some, List,
  [], ◌∷◌, ◌++◌, if◌then◌else◌, ◌==◌, leb, arith, length,
}
use rtac_asio.Memory.{poke, fill}
use rtac_asio.Service.{success}
use rtac_asio.Streambuf.{Streambuf}
use rtac_asio.Reader.{Reader, finish_read}
use rtac_asio.Reader.Until.{char_byte, scan}
use rtac_asio.Reader.Delimiter.{Lacks}
use rtac_asio.Reader.Buffer.{Ahead, get-Ahead}

module _ {B : Type 0} ⦃s : Streambuf B⦄ where
  -- The state when the loop has moved `xs` from the buffer, now `b`, to the caller.
  abbrev pub moved : Reader B → List ℕ → B → Reader B
  moved r xs b = record r {
    processed = r.processed + length xs;
    read_buffer = b;
    env = record r.env { mem = fill r.mem (r.dst + r.processed) xs };
  }

  -- The loop, past bytes that do not end it.
  pub record Passes (fuel d : ℕ) (r : Reader B) (xs ys : List ℕ) (out : Bool × Reader B)
      : Type 0 where
    pub char : Option ℕ
    pub buffer : B
    pub ahead : Ahead char buffer ys
    pub goes_on : out ≡ scan fuel char d (moved r xs buffer)

  moved-nil : (r : Reader B) → moved r [] r.read_buffer ≡ r
  moved-nil r = λ i. record r { processed = same i }
    where
      same : r.processed + 0 ≡ r.processed
      same = omega arith

  moved-cons :
      (r : Reader B) (x : ℕ) (xs : List ℕ) (b b' : B)
      → moved (moved r (x ∷ []) b) xs b' ≡ moved r (x ∷ xs) b'
  moved-cons r x xs b b' = λ i. record r {
    processed = count i;
    read_buffer = b';
    env = record r.env { mem = fill (poke r.mem (r.dst + r.processed) x) (place i) xs };
  }
    where
      count : r.processed + 1 + length xs ≡ r.processed + suc (length xs)
      count = omega arith

      place : r.dst + (r.processed + 1) ≡ r.dst + r.processed + 1
      place = omega arith

  pub scan-Passes :
      (xs ys : List ℕ) (d f fuel : ℕ) (c : Option ℕ) (r : Reader B)
      → f ≡ length xs + fuel
      → Lacks (char_byte d) xs
      → r.processed + length xs < r.requested_size
      → Ahead c r.read_buffer (xs ++ ys)
      → Passes fuel d r xs ys (scan f c d r)
  unfolding scan
  scan-Passes [] ys d f fuel c r e l room h = record {
    char = c;
    buffer = r.read_buffer;
    ahead = h;
    goes_on =
        ap₂ (λ k q. scan k c d q) (let e' : f ≡ fuel = omega (arith, e) in e') (sym (moved-nil r));
  }
  scan-Passes (x ∷ xs) ys d zero fuel c r e l room h = absurd (omega arith)
  scan-Passes (x ∷ xs) ys d (suc f) fuel none r e l room h = absurd h
  scan-Passes (x ∷ xs) ys d (suc f) fuel (some c) r e l room h =
      let (next, b) = s.get r.read_buffer in
      let ih =
        scan-Passes xs ys d f fuel next (moved r (c ∷ []) b) (omega arith) l.1 (omega arith)
          (get-Ahead r.read_buffer (xs ++ ys) h.1) in
      record {
        char = ih.char;
        buffer = ih.buffer;
        ahead = ih.ahead;
        goes_on =
            ap
              (λ t.
                if t
                then (true, finish_read (moved r (c ∷ []) r.read_buffer) success)
                else scan f next d (moved r (c ∷ []) b))
              passes
            ∙ ih.goes_on
            ∙ ap (scan fuel ih.char d)
                (moved-cons r c xs b ih.buffer ∙ ap (λ v. moved r (v ∷ xs) ih.buffer) h.0);
      }
    where
      passes : c == char_byte d || leb r.requested_size (r.processed + 1) ≡ false
      passes = ground (arith, l.0, h.0)
