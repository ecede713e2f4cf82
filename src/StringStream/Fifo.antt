-- ===== src/StringStream/Fifo.antt =====
-- include/rtac_asio/StringStream.h: reads and writes against the contents of the buffer.
use rtac_asio.Prelude.{
  ℕ, zero, suc, ◌+◌, ◌-◌, ◌<◌, ◌≤◌, ◌≡◌, refl, sym, ap, ap₂, ◌∙◌, List, [], ◌∷◌, ◌++◌, length, take,
  drop, min, arith, lt→ltb, le→not-ltb, append-nil, append_assoc, length-append, take-all, drop-all,
  length-take,
}
use native.Mathlib.Decide.{dec_lt}
use rtac_asio.Memory.{Bytes, poke, peek, fill, length-peek}
use rtac_asio.Service.{success, Env, post}
use rtac_asio.CircularBuffer.{CircularBuffer}
use rtac_asio.StringStream.{Loop, read_loop, write_loop, async_read_some, async_write_some}

none_left : (n : ℕ) → 0 ≡ min 0 n
none_left n = omega arith

shift : (a i : ℕ) → a + (i + 1) ≡ a + i + 1
shift a i = omega arith

module _ {B : Type 0} ⦃k : CircularBuffer B⦄ where
  -- What the read loop leaves of a buffer that holds `xs`, with `left` rounds to go.
  record Took (left i addr : ℕ) (m : Bytes) (xs : List ℕ) (c : ℕ) (l : Loop B) : Type 0 where
    counted : l.counted ≡ i + length (take left xs)
    memory : l.memory ≡ fill m (addr + i) (take left xs)
    rest : k.contents l.rest ≡ drop left xs
    room : k.capacity l.rest ≡ c

  read_loop-Took :
      (left i addr : ℕ) (m : Bytes) (b : B) (xs : List ℕ)
      → k.contents b ≡ xs
      → Took left i addr m xs (k.capacity b) (read_loop left i addr m b)
  unfolding read_loop
  read_loop-Took zero i addr m b xs e = record {
    counted = omega arith;
    memory = refl;
    rest = e;
    room = refl;
  }
  read_loop-Took (suc left) i addr m b [] e =
      rw (le→not-ltb 0 (k.size b) (omega (arith, k.size_lem b, ap length e)))
        (record { counted = omega arith; memory = refl; rest = e; room = refl })
  read_loop-Took (suc left) i addr m b (x ∷ xs) e =
      let r =
        read_loop-Took left (i + 1) addr (poke m (addr + i) (k.front b)) (k.pop_front b) xs
          (k.pop_front_lem b x xs e) in
      rw (lt→ltb 0 (k.size b) (omega (arith, k.size_lem b, ap length e))) (record {
        counted = omega (arith, r.counted);
        memory =
            r.memory
            ∙ ap (λ y. fill (poke m (addr + i) y) (addr + (i + 1)) (take left xs))
                (k.front_lem b x xs e)
            ∙ ap (λ p. fill (poke m (addr + i) x) p (take left xs)) (omega arith);
        rest = r.rest;
        room = r.room ∙ k.pop_front_capacity b;
      })

  record Put (left i addr : ℕ) (m : Bytes) (b : B) (l : Loop B) : Type 0 where
    counted : l.counted ≡ i + min left (k.capacity b - k.size b)
    rest :
        k.contents l.rest ≡ k.contents b ++ peek m (addr + i) (min left (k.capacity b - k.size b))
    room : k.capacity l.rest ≡ k.capacity b

  write_loop-Put :
      (left i addr : ℕ) (m : Bytes) (b : B) → Put left i addr m b (write_loop left i addr m b)
  unfolding write_loop
  write_loop-Put zero i addr m b = record {
    counted = omega arith;
    rest =
        sym (append-nil (k.contents b))
        ∙ ap (λ n. k.contents b ++ peek m (addr + i) n) (none_left (k.capacity b - k.size b));
    room = refl;
  }
  write_loop-Put (suc left) i addr m b = elim (dec_lt (k.size b) (k.capacity b)) [
    | yes free ↦
        let r = write_loop-Put left (i + 1) addr m (k.push_back b (m (addr + i))) in
        let one_less : min left
              (k.capacity (k.push_back b (m (addr + i))) - k.size (k.push_back b (m (addr + i))))
            ≡ min left (k.capacity b - k.size b - 1) =
          ap (min left) (less_room free) in
        rw (lt→ltb (k.size b) (k.capacity b) free) (record {
          counted = omega (arith, r.counted, one_less);
          rest =
              r.rest
              ∙ ap₂ (λ xs n. xs ++ peek m (addr + (i + 1)) n)
                  (k.push_back_lem b (m (addr + i)) free) one_less
              ∙ append_assoc (k.contents b) (m (addr + i) ∷ [])
                  (peek m (addr + (i + 1)) (min left (k.capacity b - k.size b - 1)))
              ∙ ap
                  (λ p.
                    k.contents b
                    ++ m (addr + i) ∷ peek m p (min left (k.capacity b - k.size b - 1)))
                  (shift addr i)
              ∙ ap (λ n. k.contents b ++ peek m (addr + i) n)
                  (more (k.capacity b - k.size b) (omega arith));
          room = r.room ∙ k.push_back_capacity b (m (addr + i));
        })
    | no full ↦ rw (le→not-ltb (k.size b) (k.capacity b) (omega arith)) (record {
      counted = omega arith;
      rest =
          sym (append-nil (k.contents b))
          ∙ ap (λ n. k.contents b ++ peek m (addr + i) n)
              (nothing (k.capacity b - k.size b) (omega arith));
      room = refl;
    })
  ]
    where
      longer : (b : B) (x : ℕ) → k.size b < k.capacity b → k.size (k.push_back b x) ≡ k.size b + 1
      longer b x free = omega (
        arith,
        k.size_lem b,
        k.size_lem (k.push_back b x),
        ap length (k.push_back_lem b x free),
        length-append (k.contents b) (x ∷ []),
      )

      less_room :
          k.size b < k.capacity b
          → k.capacity (k.push_back b (m (addr + i))) - k.size (k.push_back b (m (addr + i)))
            ≡ k.capacity b - k.size b - 1
      less_room free =
          omega (arith, longer b (m (addr + i)) free, k.push_back_capacity b (m (addr + i)))

      more : (n : ℕ) → 0 < n → suc (min left (n - 1)) ≡ min (suc left) n
      more n h = omega arith

      nothing : (n : ℕ) → n ≡ 0 → 0 ≡ min (suc left) n
      nothing n h = omega arith

  -- A read takes the oldest bytes, as many as are asked for or all, and never waits: the caller's
  -- buffer gets them in order, the callback is posted with success and their number, and the others
  -- stay.
  pub read_takes :
      {H : Type 0} (b : B) (e : Env H) (n addr : ℕ) (h : H)
      → let (b', e') = async_read_some b e n addr h in
        (e'.mem ≡ fill e.mem addr (take n (k.contents b)))
        × (e'.posted
            ≡ e.posted
              ++ record { handler = h; err = success; count = length (take n (k.contents b)) } ∷ [])
        × (k.contents b' ≡ drop n (k.contents b))
        × (k.capacity b' ≡ k.capacity b)
  unfolding async_read_some post
  read_takes b e n addr h =
      let l = read_loop-Took n 0 addr e.mem b (k.contents b) refl in
      (
        l.memory ∙ ap (λ p. fill e.mem p (take n (k.contents b))) (omega arith),
        ap (λ c. e.posted ++ record { handler = h; err = success; count = c } ∷ [])
            (l.counted ∙ plus (length (take n (k.contents b)))),
        l.rest,
        l.room,
      )
    where
      plus : (n : ℕ) → 0 + n ≡ n
      plus n = omega arith

  -- A write adds the caller's first bytes behind the others, as many as there is room for, and posts the
  -- callback with success and their number; nothing that was in the buffer is lost.
  pub write_adds :
      {H : Type 0} (b : B) (e : Env H) (n addr : ℕ) (h : H)
      → let (b', e') = async_write_some b e n addr h in
        let c = min n (k.capacity b - k.size b) in
        (k.contents b' ≡ k.contents b ++ peek e.mem addr c)
        × (e'.posted ≡ e.posted ++ record { handler = h; err = success; count = c } ∷ [])
        × (e'.mem ≡ e.mem)
        × (k.capacity b' ≡ k.capacity b)
  unfolding async_write_some post
  write_adds b e n addr h =
      let l = write_loop-Put n 0 addr e.mem b in
      (
        l.rest
            ∙ ap (λ p. k.contents b ++ peek e.mem p (min n (k.capacity b - k.size b)))
                (omega arith),
        ap (λ c. e.posted ++ record { handler = h; err = success; count = c } ∷ [])
            (l.counted ∙ plus (min n (k.capacity b - k.size b))),
        refl,
        l.room,
      )
    where
      plus : (n : ℕ) → 0 + n ≡ n
      plus n = omega arith

  -- What is written into an empty buffer with room for it is read back: the reader's memory gets the
  -- writer's `n` bytes, both callbacks are posted with success and `n`, and the buffer is empty again.
  pub async_read_some-async_write_some :
      {H : Type 0} (b : B) (e : Env H) (n source addr : ℕ) (h h' : H)
      → k.contents b ≡ []
      → n ≤ k.capacity b
      → let (b', e') = async_write_some b e n source h in
        let (b'', e'') = async_read_some b' e' n addr h' in
        (e''.mem ≡ fill e.mem addr (peek e.mem source n))
        × (e''.posted
            ≡ e.posted
              ++ record { handler = h; err = success; count = n }
                ∷ record { handler = h'; err = success; count = n }
                ∷ [])
        × (k.contents b'' ≡ [])
  async_read_some-async_write_some b e n source addr h h' dry room =
      let w = write_adds b e n source h in
      let r =
        read_takes (async_write_some b e n source h).0 (async_write_some b e n source h).1 n addr
          h' in
      let held : k.contents (async_write_some b e n source h).0 ≡ peek e.mem source n =
        w.0 ∙ ap₂ (λ xs c. xs ++ peek e.mem source c) dry all_fit in
      (
        r.0
            ∙ (λ i. fill (w.2 i) addr (take n (held i)))
            ∙ ap (fill e.mem addr)
                (take-all n (peek e.mem source n) (omega (arith, length-peek e.mem source n))),
        r.1
            ∙ ap₂ (λ ps c. ps ++ record { handler = h'; err = success; count = c } ∷ []) w.1
                (ap (λ xs. length (take n xs)) held ∙ long)
            ∙ append_assoc e.posted
                (record { handler = h; err = success; count = min n (k.capacity b - k.size b) }
                  ∷ [])
                (record { handler = h'; err = success; count = n } ∷ [])
            ∙ ap
                (λ c.
                  e.posted
                  ++ record { handler = h; err = success; count = c }
                    ∷ record { handler = h'; err = success; count = n }
                    ∷ [])
                all_fit,
        r.2
            ∙ ap (drop n) held
            ∙ drop-all n (peek e.mem source n) (omega (arith, length-peek e.mem source n)),
      )
    where
      all_fit : min n (k.capacity b - k.size b) ≡ n
      all_fit = omega (arith, k.size_lem b, ap length dry)

      long : length (take n (peek e.mem source n)) ≡ n
      long = omega (arith, length-take n (peek e.mem source n), length-peek e.mem source n)

  -- What a write puts into an empty buffer, a read that asks for as much takes out again.
  pub read_loop-write_loop :
      (left p q : ℕ) (m : Bytes) (b : B)
      → k.contents b ≡ []
      → let l = write_loop left 0 p m b in
        let l' = read_loop left 0 q m l.rest in
        let c = min left (k.capacity b) in
        (l.counted ≡ c)
        × (l'.counted ≡ c)
        × (l'.memory ≡ fill m q (peek m p c))
        × (k.contents l'.rest ≡ [])
        × (k.capacity l'.rest ≡ k.capacity b)
  read_loop-write_loop left p q m b dry =
      let w = write_loop-Put left 0 p m b in
      let held : k.contents (write_loop left 0 p m b).rest ≡ peek m p (min left (k.capacity b)) =
        w.rest ∙ (λ i. dry i ++ peek m (start p i) (free i)) in
      let r = read_loop-Took left 0 q m (write_loop left 0 p m b).rest _ held in
      (
        w.counted ∙ omega (arith, free),
        r.counted ∙ ap (λ xs. 0 + length xs) everything ∙ omega (arith, long),
        r.memory ∙ (λ i. fill m (start q i) (everything i)),
        r.rest ∙ drop-all left (peek m p (min left (k.capacity b))) (omega (arith, long)),
        r.room ∙ w.room,
      )
    where
      start : (x : ℕ) → x + 0 ≡ x
      start x = omega arith

      free : min left (k.capacity b - k.size b) ≡ min left (k.capacity b)
      free = ap (min left) (omega (arith, k.size_lem b, ap length dry))

      long : length (peek m p (min left (k.capacity b))) ≡ min left (k.capacity b)
      long = length-peek m p (min left (k.capacity b))

      everything :
          take left (peek m p (min left (k.capacity b))) ≡ peek m p (min left (k.capacity b))
      everything = take-all left (peek m p (min left (k.capacity b))) (omega (arith, long))
