-- ===== src/Udp/Deliver.antt =====
-- src/UDPClientStream.cpp, `receive_continue`: what the caller of a read gets of the datagram that
-- arrives for it.
use rtac_asio.Prelude.{
  ℕ, ◌+◌, ◌-◌, ◌≤◌, ◌<◌, ◌≡◌, refl, sym, ap, ap₂, ◌∙◌, some, List, [], ◌∷◌, ◌++◌, arith, length,
  take, drop, inl, inr, subst, length-take, length-drop, take-append-drop, take-all, drop-all,
}
use native.Mathlib.Decide.{dec_lt}
use rtac_asio.Memory.{Bytes, peek, fill, peek-fill, peek-fill_before, fill-append}
use rtac_asio.Service.{success}
use rtac_asio.Udp.{Udp, Receive, available, call, complete}
use rtac_asio.Udp.Window.{
  window, IsSound, emptied, shortened, async_read_some-emptied, async_read_some-shortened, copied,
}
use rtac_asio.Udp.Arrival.{IsReady-available, got, got-IsReady, complete-got}

-- What was filled, in two parts.
module _ (m : Bytes) (p n : ℕ) (bs : List ℕ) where
  in_two : n ≤ length bs → fill m p bs ≡ fill (fill m p (take n bs)) (p + n) (drop n bs)
  in_two h =
      ap (fill m p) (sym (take-append-drop n bs))
      ∙ fill-append m p (take n bs) (drop n bs)
      ∙ ap (λ k. fill (fill m p (take n bs)) (p + k) (drop n bs)) long
    where
      long : length (take n bs) ≡ n
      long = omega (arith, length-take n bs)

  peek-fill-take : n ≤ length bs → peek (fill m p bs) p n ≡ take n bs
  peek-fill-take h =
      ap (λ f. peek f p n) (in_two h)
      ∙ peek-fill_before (fill m p (take n bs)) p n (p + n) (drop n bs) (omega arith)
      ∙ subst (λ k. peek (fill m p (take n bs)) p k ≡ take n bs) long (peek-fill m p (take n bs))
    where
      long : length (take n bs) ≡ n
      long = omega (arith, length-take n bs)

  peek-fill-drop : n ≤ length bs → peek (fill m p bs) (p + n) (length bs - n) ≡ drop n bs
  peek-fill-drop h =
      ap (λ f. peek f (p + n) (length bs - n)) (in_two h)
      ∙ subst (λ k. peek (fill (fill m p (take n bs)) (p + n) (drop n bs)) (p + n) k ≡ drop n bs)
          (length-drop n bs) (peek-fill (fill m p (take n bs)) (p + n) (drop n bs))

module _ {S E C : Type 0} (u : Udp S E C) (q : Receive C) (d : List ℕ) where
  abbrev Delivered : Udp S E C → Type 0
  Delivered w =
      (w.receives ≡ [])
      × (w.mem ≡ fill u.mem q.addr (take q.count (take u.size d)))
      × (w.calls
          ≡ u.calls
            ++ record {
              callback = q.callback;
              err = success;
              count = length (take q.count (take u.size d));
              seen = take q.count (take u.size d);
            }
              ∷ [])
      × (window w ≡ drop q.count (take u.size d))

  module _ (b : u.buffer_begin ≡ 0) where
    front :
        (n : ℕ)
        → n ≤ length (take u.size d)
        → peek (fill u.buffer 0 (take u.size d)) u.buffer_begin n ≡ take n (take u.size d)
    front n h =
        ap (λ p. peek (fill u.buffer 0 (take u.size d)) p n) b
        ∙ peek-fill-take u.buffer 0 n (take u.size d) h

    told :
        (n : ℕ) (bs : List ℕ)
        → n ≡ length (take q.count (take u.size d))
        → bs ≡ take q.count (take u.size d)
        → u.calls ++ record { callback = q.callback; err = success; count = n; seen = bs } ∷ []
          ≡ u.calls
            ++ record {
              callback = q.callback;
              err = success;
              count = length (take q.count (take u.size d));
              seen = take q.count (take u.size d);
            }
              ∷ []
    told n bs = ap₂ (λ n bs.
        u.calls ++ record { callback = q.callback; err = success; count = n; seen = bs } ∷ [])

    shortened-Delivered :
        u.buffer_end ≡ 0
        → q.count < length (take u.size d)
        → Delivered (shortened (got u [] d) q.count q.addr q.callback)
    unfolding call
    shortened-Delivered e less = (
      refl,
      ap (fill u.mem q.addr) (front q.count (omega arith)),
      told q.count
          (peek (fill u.mem q.addr (peek (fill u.buffer 0 (take u.size d)) u.buffer_begin q.count))
            q.addr q.count)
          (omega (arith, length-take q.count (take u.size d)))
          (copied (got u [] d) q.addr q.count ∙ front q.count (omega arith)),
      ap₂ (peek (fill u.buffer 0 (take u.size d))) place left
          ∙ peek-fill-drop u.buffer 0 q.count (take u.size d) (omega arith),
    )
      where
        place : u.buffer_begin + q.count ≡ 0 + q.count
        place = omega arith

        left :
            u.buffer_end + length (take u.size d) - (u.buffer_begin + q.count)
            ≡ length (take u.size d) - q.count
        left = omega arith

    emptied-Delivered :
        available (got u [] d) ≡ length (take u.size d)
        → length (take u.size d) ≤ q.count
        → Delivered (emptied (got u [] d) q.addr q.callback)
    unfolding call
    emptied-Delivered avail room = (
      refl,
      ap (fill u.mem q.addr) all_of_it,
      told (available (got u [] d))
          (peek
            (fill u.mem q.addr
              (peek (fill u.buffer 0 (take u.size d)) u.buffer_begin (available (got u [] d))))
            q.addr (available (got u [] d)))
          (omega (arith, avail, length-take q.count (take u.size d)))
          (copied (got u [] d) q.addr (available (got u [] d)) ∙ all_of_it),
      sym (drop-all q.count (take u.size d) room),
    )
      where
        all_of_it :
            peek (fill u.buffer 0 (take u.size d)) u.buffer_begin (available (got u [] d))
            ≡ take q.count (take u.size d)
        all_of_it =
            front (available (got u [] d)) (omega (arith, avail))
            ∙ take-all (available (got u [] d)) (take u.size d) (omega (arith, avail))
            ∙ sym (take-all q.count (take u.size d) room)

  -- A read is in hand and a datagram arrives without an error, of which something fits the buffer. The
  -- callback is called at once, with success: the first `count` bytes, or all, stand in the read's
  -- buffer, and those that do not fit it wait, in order, for the next read.
  pub complete_delivers :
      IsSound u
      → u.receives ≡ q ∷ []
      → 0 < length (take u.size d)
      → (w : Udp S E C) × (complete u d success ≡ some w)
        × (w.receives ≡ [])
        × (w.mem ≡ fill u.mem q.addr (take q.count (take u.size d)))
        × (w.calls
            ≡ u.calls
              ++ record {
                callback = q.callback;
                err = success;
                count = length (take q.count (take u.size d));
                seen = take q.count (take u.size d);
              }
                ∷ [])
        × (window w ≡ drop q.count (take u.size d))
  complete_delivers v h bytes = elim v.single [
    | inl none_here ↦ absurd (omega (arith, ap length (sym none_here ∙ h)))
    | inr (p, _, b, e) ↦
        let avail : available (got u [] d) ≡ length (take u.size d) =
          IsReady-available (got-IsReady d v b e) ∙ long b e in
        elim (dec_lt q.count (length (take u.size d))) [
          | yes less ↦
              let (left, put, told, rest) = shortened-Delivered b e less in
              (
                shortened (got u [] d) q.count q.addr q.callback,
                complete-got u q [] d success h
                    ∙ async_read_some-shortened (got u [] d) q.count q.addr q.callback
                        (omega (arith, avail)),
                left,
                put,
                told,
                rest,
              )
          | no room ↦
              let (left, put, told, rest) = emptied-Delivered b avail (omega arith) in
              (
                emptied (got u [] d) q.addr q.callback,
                complete-got u q [] d success h
                    ∙ async_read_some-emptied (got u [] d) q.count q.addr q.callback
                        (omega (arith, avail)) (omega (arith, avail)),
                left,
                put,
                told,
                rest,
              )
        ]
  ]
    where
      long :
          u.buffer_begin ≡ 0
          → u.buffer_end ≡ 0
          → u.buffer_end + length (take u.size d) - u.buffer_begin ≡ length (take u.size d)
      long b e = omega arith
