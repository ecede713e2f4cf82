-- ===== src/StringStream/Lawful.antt =====
-- include/rtac_asio/StringStream.h as a stream behind the virtual operations.
use rtac_asio.Prelude.{
  ℕ, ◌+◌, ◌-◌, ◌<◌, ◌≤◌, ◌≡◌, ◌⊎◌, refl, ap, subst, ◌∙◌, inl, inr, take, length, length-take, min,
  arith,
}
use mathlib.Core.Option
use rtac_asio.Memory.{fill-outside}
use rtac_asio.Service.{success, Env, post}
use rtac_asio.Interface.{IsLawful, Answers}
use rtac_asio.CircularBuffer.{CircularBuffer}
use rtac_asio.StringStream.{StringStream, string_stream, async_read_some, async_write_some}
use rtac_asio.StringStream.Fifo.{read_takes, write_adds}

module _ {B H : Type 0} ⦃k : CircularBuffer B⦄ (b : B) (e : Env H) (n p : ℕ) (h : H) where
  read-Answers : Answers e (async_read_some b e n p h).1 n p h
  unfolding async_read_some post
  read-Answers =
      let (mem, posted, _, _) = read_takes b e n p h in
      record {
        answered =
            inl (success, length (take n (k.contents b)), omega (arith, short), posted, refl);
        apart = λ q out.
            ap (λ m. m q) mem ∙ fill-outside e.mem p (take n (k.contents b)) q (within q out);
        waits = refl;
        files = refl;
      }
    where
      short : length (take n (k.contents b)) ≡ min n (length (k.contents b))
      short = length-take n (k.contents b)

      within : (q : ℕ) → (q < p) ⊎ (p + n ≤ q) → (q < p) ⊎ (p + length (take n (k.contents b)) ≤ q)
      within q (inl l) = inl l
      within q (inr u) = inr (omega (arith, short))

  write-Answers :
      Answers e (async_write_some b e n p h).1 n p h × ((async_write_some b e n p h).1.mem ≡ e.mem)
  unfolding async_write_some post
  write-Answers =
      let (_, posted, mem, _) = write_adds b e n p h in
      (
        record {
          answered = inl (success, min n (k.capacity b - k.size b), omega arith, posted, refl);
          apart = λ q out. ap (λ m. m q) mem;
          waits = refl;
          files = refl;
        },
        mem,
      )

pub string_stream-IsLawful : {B : Type 0} ⦃k : CircularBuffer B⦄ → IsLawful (StringStream B)
string_stream-IsLawful = record {
  reads = λ d d' e e' n p h eq.
      subst (λ x. Answers e x.1 n p h) (Option.some-injective _ _ eq)
        (read-Answers d.buffer e n p h);
  writes = λ d d' e e' n p h eq.
      subst (λ x. Answers e x.1 n p h × (x.1.mem ≡ e.mem)) (Option.some-injective _ _ eq)
        (write-Answers d.buffer e n p h);
}
