-- ===== src/Udp/Overlap.antt =====
-- src/UDPClientStream.cpp: a second receive in hand.
use rtac_asio.Prelude.{
  ℕ, ◌+◌, ◌-◌, ◌^◌, ◌≤◌, ◌<◌, ◌≡◌, ap, ◌∙◌, some, List, [], ◌∷◌, ◌++◌, arith, length, take,
}
use rtac_asio.Memory.{peek, fill}
use rtac_asio.Service.{success}
use rtac_asio.Udp.{Udp, Receive, available, call, complete}
use rtac_asio.Udp.Window.{available_lem, emptied, async_read_some-emptied, copied}
use rtac_asio.Udp.Arrival.{got, complete-got}

module _ {S E C : Type 0} where
  -- Bytes of one datagram wait to be read while a receive is in hand, as after two reads at once, or
  -- a read that its caller gave up and another. The next datagram is put over them at the start of
  -- `buffer_`, and the window grows by its length; where this goes past the end of the vector and
  -- the read has room, the callback is told of success and gets, behind what is left in the window,
  -- bytes that lie outside the vector.
  pub complete_overlaps :
      (u : Udp S E C) (q : Receive C) (qs : List (Receive C)) (d : List ℕ)
      → u.receives ≡ q ∷ qs
      → u.buffer_begin < u.buffer_end
      → u.buffer_end + length (take u.size d) < 2 ^ 64
      → u.size < u.buffer_end + length (take u.size d)
      → u.buffer_end + length (take u.size d) - u.buffer_begin ≤ q.count
      → (w : Udp S E C) × (n : ℕ) × (complete u d success ≡ some w)
        × (w.calls
            ≡ u.calls
              ++ record {
                callback = q.callback;
                err = success;
                count = n;
                seen = peek (fill u.buffer 0 (take u.size d)) u.buffer_begin n;
              }
                ∷ [])
        × (u.size < u.buffer_begin + n)
  unfolding call
  complete_overlaps u q qs d h bytes small over room = (
    emptied (got u qs d) q.addr q.callback,
    available (got u qs d),
    complete-got u q qs d success h
        ∙ async_read_some-emptied (got u qs d) q.count q.addr q.callback (omega (arith, avail))
            (omega (arith, avail)),
    ap
        (λ bs.
          u.calls
          ++ record {
            callback = q.callback;
            err = success;
            count = available (got u qs d);
            seen = bs;
          }
            ∷ [])
        (copied (got u qs d) q.addr (available (got u qs d))),
    omega (arith, avail),
  )
    where
      avail : available (got u qs d) ≡ u.buffer_end + length (take u.size d) - u.buffer_begin
      avail = available_lem (got u qs d) (omega arith) small
