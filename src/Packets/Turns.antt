-- ===== src/Packets/Turns.antt =====
-- src/StreamReader.cpp over src/UDPClientStream.cpp: one datagram in a read that waits for bytes.
use rtac_asio.Prelude.{
  ℕ, zero, suc, ◌+◌, ◌-◌, ◌^◌, ◌<◌, ◌≤◌, ◌≡◌, refl, ap, ◌∙◌, some, List, [], ◌∷◌, length, take,
  arith,
}
use rtac_asio.Memory.{Bytes, peek, fill, peek-fill}
use rtac_asio.Service.{success}
use rtac_asio.Udp.{Udp, Receive, call, complete, receive_continue, available}
use rtac_asio.Udp.Window.{
  available_lem, async_read_some-emptied, async_read_some-shortened, async_read_some-waiting,
}
use rtac_asio.Reader.{Handler}

-- The client with a socket, and nothing or a window in `buffer_`.
abbrev pub udp_at :
    {S E : Type 0}
    → Udp S E Handler
    → S
    → Bytes
    → ℕ
    → ℕ
    → List (Receive Handler)
    → Bytes
    → Udp S E Handler
udp_at u s buf from to rs m = record u {
  socket = some s;
  buffer = buf;
  buffer_begin = from;
  buffer_end = to;
  mem = m;
  receives = rs;
  calls = [];
}

peek-fill_part :
    (m : Bytes) (p : ℕ) (xs : List ℕ) (k : ℕ) → k ≤ length xs → peek (fill m p xs) p k ≡ take k xs
peek-fill_part m p xs k h =
    take-peek (fill m p xs) p k (length xs) h ∙ ap (take k) (peek-fill m p xs)
  where
    take-peek : (m : Bytes) (p k n : ℕ) → k ≤ n → peek m p k ≡ take k (peek m p n)
    take-peek m p zero n h = refl
    take-peek m p (suc k) zero h = absurd (omega arith)
    take-peek m p (suc k) (suc n) h = ap (λ l. m p ∷ l) (take-peek m (p + 1) k n (omega arith))

module _ {S E : Type 0} (u : Udp S E Handler) (s : S) (buf m : Bytes) (q : Receive Handler)
    (d : List ℕ) where
  -- The client when it has called `q`'s callback for `xs`.
  abbrev pub told : List ℕ → ℕ → ℕ → ℕ → Udp S E Handler
  told xs k from to =
      let v = udp_at u s (fill buf 0 (take u.size d)) from to [] (fill m q.addr xs) in
      record v {
        calls =
            record {
              callback = q.callback;
              err = success;
              count = k;
              seen = peek (fill m q.addr xs) q.addr k;
            }
            ∷ [];
      }

  -- The client with the datagram in its window.
  abbrev full : Udp S E Handler
  full = udp_at u s (fill buf 0 (take u.size d)) 0 (0 + length (take u.size d)) [] m

  full-available :
      u.size < 2 ^ 64 → length (take u.size d) ≤ u.size → available full ≡ length (take u.size d)
  full-available small inside =
      available_lem full (omega arith) (omega arith) ∙ unshifted (length (take u.size d))
    where
      unshifted : (n : ℕ) → 0 + n - 0 ≡ n
      unshifted n = omega arith

  pub complete-all :
      u.size < 2 ^ 64
      → length (take u.size d) ≤ u.size
      → 0 < length (take u.size d)
      → length (take u.size d) ≤ q.count
      → complete (udp_at u s buf 0 0 (q ∷ []) m) d 0
        ≡ some (told (take u.size d) (length (take u.size d)) 0 0)
  unfolding complete receive_continue call
  complete-all small inside here room =
      let avail : available full ≡ length (take u.size d) = full-available small inside in
      let bytes : peek (fill buf 0 (take u.size d)) 0 (available full) ≡ take u.size d =
        ap (peek (fill buf 0 (take u.size d)) 0) avail ∙ peek-fill buf 0 (take u.size d) in
      async_read_some-emptied full q.count q.addr q.callback (omega (arith, avail))
        (omega (arith, avail))
      ∙ (λ i. some (told (bytes i) (avail i) 0 0))

  pub complete-part :
      u.size < 2 ^ 64
      → length (take u.size d) ≤ u.size
      → q.count < length (take u.size d)
      → complete (udp_at u s buf 0 0 (q ∷ []) m) d 0
        ≡ some (told (take q.count (take u.size d)) q.count q.count (length (take u.size d)))
  unfolding complete receive_continue call
  complete-part small inside less =
      let avail : available full ≡ length (take u.size d) = full-available small inside in
      let bytes : peek (fill buf 0 (take u.size d)) 0 q.count ≡ take q.count (take u.size d) =
        peek-fill_part buf 0 (take u.size d) q.count (omega arith) in
      async_read_some-shortened full q.count q.addr q.callback (omega (arith, avail)) ∙ (λ i.
        some
          (told (bytes i) q.count (from_start q.count i) (from_start (length (take u.size d)) i)))
    where
      from_start : (n : ℕ) → 0 + n ≡ n
      from_start n = omega arith

  -- An empty datagram: the client asks for the next.
  pub complete-none :
      u.size < 2 ^ 64
      → length (take u.size d) ≤ u.size
      → length (take u.size d) ≡ 0
      → complete (udp_at u s buf 0 0 (q ∷ []) m) d 0
        ≡ some (udp_at u s (fill buf 0 (take u.size d)) 0 0 (q ∷ []) m)
  unfolding complete receive_continue
  complete-none small inside none_here =
      async_read_some-waiting full q.count q.addr q.callback s
        (full-available small inside ∙ none_here) refl
      ∙ (λ i. some (udp_at u s (fill buf 0 (take u.size d)) 0 (end i) (q ∷ []) m))
    where
      end : 0 + length (take u.size d) ≡ 0
      end = omega (arith, none_here)
