-- ===== src/StringStream/Refine.antt =====
-- include/rtac_asio/StringStream.h against a bounded queue of bytes, over any sequence of operations.
use rtac_asio.Prelude.{
  ℕ, ◌-◌, ◌≡◌, refl, ap, ◌∙◌, List, [], ◌∷◌, ◌++◌, length, take, drop, min, length-take,
}
use rtac_asio.Memory.{peek, fill}
use rtac_asio.Service.{success, Env, post}
use rtac_asio.CircularBuffer.{CircularBuffer}
use rtac_asio.StringStream.{async_read_some, async_write_some, flush, reset}
use rtac_asio.StringStream.Fifo.{read_takes, write_adds}

pub data Operation (H : Type 0) : Type 0 where
  -- Count, address and callback.
  reads writes : ℕ → ℕ → H → Operation H
  flushes resets : Operation H

module _ {H : Type 0} where
  -- A queue of bytes with room for `c`: a write adds what there is room for at the end, a read takes
  -- the oldest bytes, and each tells the callback how many.
  abbrev pub spec_step : ℕ → Operation H → List ℕ × Env H → List ℕ × Env H
  spec_step c (reads n p h) (xs, e) =
      (drop n xs, post (record e { mem = fill e.mem p (take n xs) }) h success (min n (length xs)))
  spec_step c (writes n p h) (xs, e) =
      let k = min n (c - length xs) in (xs ++ peek e.mem p k, post e h success k)
  spec_step c flushes (xs, e) = ([], e)
  spec_step c resets (xs, e) = ([], e)

  abbrev pub spec_run : ℕ → List (Operation H) → List ℕ × Env H → List ℕ × Env H
  spec_run c [] s = s
  spec_run c (o ∷ os) s = spec_run c os (spec_step c o s)

  module _ {B : Type 0} ⦃k : CircularBuffer B⦄ where
    unfoldable pub step : Operation H → B × Env H → B × Env H
    step (reads n p h) (b, e) = async_read_some b e n p h
    step (writes n p h) (b, e) = async_write_some b e n p h
    step flushes (b, e) = (flush b, e)
    step resets (b, e) = (reset b, e)

    unfoldable pub run : List (Operation H) → B × Env H → B × Env H
    run [] s = s
    run (o ∷ os) s = run os (step o s)

    abbrev pub view : B × Env H → List ℕ × Env H
    view (b, e) = (k.contents b, e)

    step_capacity : (o : Operation H) (s : B × Env H) → k.capacity (step o s).0 ≡ k.capacity s.0
    unfolding step flush reset
    step_capacity (reads n p h) (b, e) = (read_takes b e n p h).3
    step_capacity (writes n p h) (b, e) = (write_adds b e n p h).3
    step_capacity flushes (b, e) = k.clear_capacity b
    step_capacity resets (b, e) = k.clear_capacity b

    step-refines :
        (o : Operation H) (s : B × Env H) → view (step o s) ≡ spec_step (k.capacity s.0) o (view s)
    unfolding step flush reset async_read_some async_write_some post
    step-refines (reads n p h) (b, e) =
        let (mem, posted, left, _) = read_takes b e n p h in
        λ i. (
          left i,
          record e {
            mem = mem i;
            posted =
                (posted
                    ∙ ap (λ c. e.posted ++ record { handler = h; err = success; count = c } ∷ [])
                        (length-take n (k.contents b)))
                  i;
          },
        )
    step-refines (writes n p h) (b, e) =
        let (held, posted, _, _) = write_adds b e n p h in
        λ i. (
          (held ∙ ap (λ c. k.contents b ++ peek e.mem p (min n (k.capacity b - c))) (k.size_lem b))
              i,
          record e {
            posted =
                (posted
                    ∙ ap
                        (λ c.
                          e.posted
                          ++ record { handler = h; err = success; count = min n (k.capacity b - c) }
                            ∷ [])
                        (k.size_lem b))
                  i;
          },
        )
    step-refines flushes (b, e) = λ i. (k.clear_lem b i, e)
    step-refines resets (b, e) = λ i. (k.clear_lem b i, e)

    -- Over any sequence of reads, writes, flushes and resets, of any counts and addresses, the stream
    -- does what a queue of bytes does that has room for as many as `buffer_`: the bytes that it holds,
    -- those that readers get, what each callback is posted with, and all of memory, are the queue's,
    -- and the room stays.
    pub run-refines :
        (os : List (Operation H)) (b : B) (e : Env H)
        → (view (run os (b, e)) ≡ spec_run (k.capacity b) os (k.contents b, e))
          × (k.capacity (run os (b, e)).0 ≡ k.capacity b)
    unfolding run
    run-refines [] b e = (refl, refl)
    run-refines (o ∷ os) b e =
        let (same, room) = run-refines os (step o (b, e)).0 (step o (b, e)).1 in
        (
          same ∙ (λ i. spec_run (step_capacity o (b, e) i) os (step-refines o (b, e) i)),
          room ∙ step_capacity o (b, e),
        )
