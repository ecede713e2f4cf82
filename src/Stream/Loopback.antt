-- ===== src/Stream/Loopback.antt =====
-- src/Stream.cpp over include/rtac_asio/StringStream.h: an `async_write` and an `async_read` of as many
-- bytes, over all the rounds of the service.
use native.Mathlib.Decide.{dec_lt}
use rtac_asio.Prelude.{
  ℕ, zero, suc, ◌+◌, ◌-◌, ◌*◌, ◌^◌, ◌<◌, ◌≤◌, ◌≡◌, ◌≢◌, ◌⊎◌, inl, inr, refl, sym, ap, ◌∙◌, Option,
  some, List, [], ◌∷◌, length, min, arith,
}
use rtac_asio.Memory.{
  Bytes, peek, fill, peek-congr, peek-append, fill-append, fill-outside, length-peek,
}
use rtac_asio.Streambuf.{Streambuf}
use rtac_asio.CircularBuffer.{CircularBuffer}
use rtac_asio.StringStream.{StringStream, Loop, read_loop, write_loop, string_stream}
use rtac_asio.StringStream.Fifo.{read_loop-write_loop}
use rtac_asio.Reader.{Reader}
use rtac_asio.Reader
use rtac_asio.Writer.{Writer}
use rtac_asio.Writer
use rtac_asio.Stream.{reading, writing, Stream}
use rtac_asio.Stream.Run.{rounds}
use rtac_asio.Stream.Exchange.{
  written, got, exchange, finished, under_way, rounds-last, rounds-more,
}

-- Bytes that a fill does not reach are read as before.
peek-fill_apart :
    (m : Bytes) (d a n : ℕ) (bs : List ℕ)
    → (d + length bs ≤ a) ⊎ (a + n ≤ d)
    → peek (fill m d bs) a n ≡ peek m a n
peek-fill_apart m d a n bs h =
    peek-congr (fill m d bs) m a n (λ q l u. fill-outside m d bs q (out q l u h))
  where
    out :
        (q : ℕ)
        → a ≤ q
        → q < a + n
        → (d + length bs ≤ a) ⊎ (a + n ≤ d)
        → (q < d) ⊎ (d + length bs ≤ q)
    out q l u (inl x) = inr (omega arith)
    out q l u (inr x) = inl (omega arith)

-- The next `j` bytes go behind the `p` that were copied.
copy_more :
    (m : Bytes) (a d n p j : ℕ)
    → (d + n ≤ a) ⊎ (a + n ≤ d)
    → p + j ≤ n
    → let m' : Bytes = fill m d (peek m a p) in
      fill m' (d + p) (peek m' (a + p) j) ≡ fill m d (peek m a (p + j))
copy_more m a d n p j apart fits =
    ap (fill (fill m d (peek m a p)) (d + p))
      (peek-fill_apart m d (a + p) j (peek m a p) (narrow apart))
    ∙ ap (λ q. fill (fill m d (peek m a p)) q (peek m (a + p) j)) (omega (arith, length-peek m a p))
    ∙ sym (fill-append m d (peek m a p) (peek m (a + p) j))
    ∙ ap (fill m d) (sym (peek-append m a p j))
  where
    narrow : (d + n ≤ a) ⊎ (a + n ≤ d) → (d + length (peek m a p) ≤ a + p) ⊎ (a + p + j ≤ d)
    narrow (inl x) = inl (omega (arith, length-peek m a p))
    narrow (inr x) = inr (omega arith)

two_more : (f : ℕ) → 2 ≤ f → (g : ℕ) × (f ≡ suc (suc g))
two_more zero h = absurd (omega arith)
two_more (suc zero) h = absurd (omega arith)
two_more (suc (suc g)) h = (g, refl)

module _ {B K : Type 0} ⦃b : Streambuf B⦄ ⦃k : CircularBuffer K⦄ where
  module _ (r : Reader B) (w : Writer) (n a d : ℕ) (c : Writer.Callback) (c' : Reader.Callback)
      (wid rid : ℕ) (m : Bytes) where
    -- Everything is copied and both callbacks have run.
    abbrev pub Copied : Option (Stream B (StringStream K)) → K → Type 0
    Copied s o =
        (o' : K) × (s ≡ some (finished r w n a d c c' (fill m d (peek m a n)) o'))
        × (k.contents o' ≡ [])
        × (k.capacity o' ≡ k.capacity o)

    pub rounds-Copied :
        (fuel p j : ℕ) (now old : Bytes) (o : K)
        → b.contents r.read_buffer ≡ []
        → n < 2 ^ 64
        → wid ≢ 0
        → rid ≢ 0
        → (d + n ≤ a) ⊎ (a + n ≤ d)
        → k.contents o ≡ []
        → 0 < k.capacity o
        → p + j ≤ n
        → now ≡ fill m d (peek m a (p + j))
        → 2 * (n - (p + j)) + 4 ≤ fuel
        → Copied (rounds fuel (under_way r w n a d c c' wid rid now old o p j)) o
    rounds-Copied zero p j now old o dry fits busy busy' apart empty room bound stored enough =
        absurd (omega arith)
    rounds-Copied (suc zero) p j now old o dry fits busy busy' apart empty room bound stored
          enough =
        absurd (omega arith)
    rounds-Copied (suc (suc f)) p j now old o dry fits busy busy' apart empty room bound stored
          enough =
        elim (dec_lt (p + j) n) [
          | yes more ↦
              let (wrote, took, copied, left, kept) = moved in
              let (o', done, nothing, same) =
                rounds-Copied f (p + j) (min rest (k.capacity o)) l'.memory now l'.rest dry fits
                  busy busy' apart left (omega (arith, kept)) (omega arith) (later copied)
                  (omega arith) in
              (
                o',
                rounds-more r w n a d c c' wid rid now old o p j f dry fits more
                    ∙ (λ i. rounds f (
                        exchange r w n a d c c' wid rid (p + j) (p + j) (written wid (wrote i) ∷ [])
                          (got rid (took i) ∷ []) l'.memory now l'.rest (writing ∷ reading ∷ [])))
                    ∙ done,
                nothing,
                same ∙ kept,
              )
          | no last ↦
              let exact : p + j ≡ n = omega arith in
              let (g, two) = two_more f (omega arith) in
              (
                o,
                ap (λ x. rounds (suc (suc x)) (under_way r w n a d c c' wid rid now old o p j)) two
                    ∙ rounds-last r w n a d c c' wid rid now old o p j g fits busy busy' exact
                    ∙ ap (λ x. some (finished r w n a d c c' x o))
                        (stored ∙ ap (λ x. fill m d (peek m a x)) exact),
                empty,
                refl,
              )
        ]
      where
        rest : ℕ
        rest = n - (p + j)

        l : Loop K
        l = write_loop rest 0 (a + (p + j)) now o

        l' : Loop K
        l' = read_loop rest 0 (d + (p + j)) now l.rest

        moved :
            (l.counted ≡ min rest (k.capacity o))
            × (l'.counted ≡ min rest (k.capacity o))
            × (l'.memory
                ≡ fill now (d + (p + j)) (peek now (a + (p + j)) (min rest (k.capacity o))))
            × (k.contents l'.rest ≡ [])
            × (k.capacity l'.rest ≡ k.capacity o)
        moved = read_loop-write_loop rest (a + (p + j)) (d + (p + j)) now o empty

        later :
            l'.memory ≡ fill now (d + (p + j)) (peek now (a + (p + j)) (min rest (k.capacity o)))
            → l'.memory ≡ fill m d (peek m a (p + j + min rest (k.capacity o)))
        later e =
            e
            ∙ ap (λ x. fill x (d + (p + j)) (peek x (a + (p + j)) (min rest (k.capacity o)))) stored
            ∙ copy_more m a d n (p + j) (min rest (k.capacity o)) apart (omega arith)
