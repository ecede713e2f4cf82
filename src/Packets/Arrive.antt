-- ===== src/Packets/Arrive.antt =====
-- src/StreamReader.cpp over src/UDPClientStream.cpp: a datagram that comes while an `async_read` waits.
use rtac_asio.Prelude.{
  ℕ, zero, suc, ◌+◌, ◌-◌, ◌^◌, ◌<◌, ◌≤◌, ◌≡◌, ◌≢◌, refl, sym, ap, ◌∙◌, Option, some, List, [], ◌∷◌,
  ◌>>=◌, length, take, drop, take-all, drop-all, arith,
}
use rtac_asio.Memory.{Bytes, peek, fill, peek-fill}
use rtac_asio.Service.{success}
use rtac_asio.Streambuf.{Streambuf}
use rtac_asio.Udp.{Udp, Receive}
use rtac_asio.Udp.Window.{available_lem, async_read_some-waiting, window}
use rtac_asio.Reader.{Reader, Handler, Callback, read_continue}
use rtac_asio.Reader
use rtac_asio.Reader.Run as ReaderRun
use rtac_asio.Stream.Turns.{reader_at, read_continue-more, read_continue-last}
use rtac_asio.Packets.{Packets, facing, answer, settle, arrive}
use rtac_asio.Packets.Turns.{udp_at, complete-all, complete-part, complete-none}
use native.Mathlib.Decide.{dec_lt}

drop-peek : (m : Bytes) (p k n : ℕ) → k ≤ n → drop k (peek m p n) ≡ peek m (p + k) (n - k)
drop-peek m p zero n h = λ i. peek m (at_start i) (whole i)
  where
    at_start : p ≡ p + 0
    at_start = omega arith

    whole : n ≡ n - 0
    whole = omega arith
drop-peek m p (suc k) zero h = absurd (omega arith)
drop-peek m p (suc k) (suc n) h =
    drop-peek m (p + 1) k n (omega arith) ∙ (λ i. peek m (moved i) (fewer i))
  where
    moved : p + 1 + k ≡ p + suc k
    moved = omega arith

    fewer : n - k ≡ suc n - suc k
    fewer = omega arith

from_zero : (x : ℕ) → x ≡ 0 + x
from_zero x = omega arith

peek-fill_rest :
    (m : Bytes) (p : ℕ) (xs : List ℕ) (k : ℕ)
    → k ≤ length xs
    → peek (fill m p xs) (p + k) (length xs - k) ≡ drop k xs
peek-fill_rest m p xs k h =
    sym (drop-peek (fill m p xs) p k (length xs) h) ∙ ap (drop k) (peek-fill m p xs)

module _ {B S E : Type 0} ⦃b : Streambuf B⦄ where
  -- The read `id` has got `p` of its `n` bytes and waits for a datagram.
  abbrev pub waiting :
      Reader B
      → Udp S E Handler
      → S
      → ℕ
      → ℕ
      → Callback
      → ℕ
      → ℕ
      → Bytes
      → Bytes
      → Bytes
      → Packets B S E
  waiting r u s n a c id p m buf um = record {
    reader = reader_at r n a c id p [] m;
    udp =
        udp_at u s buf 0 0
          (record { count = n - p; addr = a + p; callback = read_continue id } ∷ []) um;
  }

  -- The read has ended.
  abbrev pub ended : Reader B → ℕ → ℕ → Callback → Bytes → Udp S E Handler → Packets B S E
  ended r n a c m u = record {
    reader =
        reader_at r n a c 0 n (record { handler = Reader.call c; err = success; count = n } ∷ []) m;
    udp = u;
  }

  -- What follows when the client has run.
  abbrev followed : ℕ → Reader B → Udp S E Handler → Option (Packets B S E)
  followed fuel r u =
      let l : Packets B S E = answer (record r { env = record r.env { mem = u.mem } }) u u.calls in
      settle fuel l.reader l.udp l.reader.pending

  module _ (r : Reader B) (u : Udp S E Handler) (s : S) (n a : ℕ) (c : Callback) (id p : ℕ)
      (m buf um : Bytes) (d : List ℕ) (f : ℕ) where
    pub arrive_more :
        b.contents r.read_buffer ≡ []
        → n < 2 ^ 64
        → u.size < 2 ^ 64
        → length (take u.size d) ≤ u.size
        → 0 < length (take u.size d)
        → p + length (take u.size d) < n
        → arrive (suc f) (waiting r u s n a c id p m buf um) d 0
          ≡ some (
              waiting r u s n a c id
                (p + length (take u.size d))
                (fill m (a + p) (take u.size d))
                (fill buf 0 (take u.size d))
                (fill m (a + p) (take u.size d)))
    unfolding arrive answer settle ReaderRun.run_handler
    arrive_more dry fits small inside here more =
        ap (λ o. o >>= followed (suc f) (reader_at r n a c id p [] m))
          (complete-all u s buf m q d small inside here (omega arith))
        ∙ ap (λ x. settle (suc f) x emptied x.pending)
            (read_continue-more r n a c id m' p (length bs) dry fits more)
        ∙ ap (λ o. o >>= followed f (reader_at r n a c id (p + length bs) [] m'))
            (async_read_some-waiting (facing (reader_at r n a c id (p + length bs) [] m') emptied)
              (n - (p + length bs)) (a + (p + length bs)) (read_continue id) s
              (available_lem _ (omega arith) (omega arith) ∙ omega arith) refl)
      where
        q : Receive Handler
        q = record { count = n - p; addr = a + p; callback = read_continue id }

        bs : List ℕ
        bs = take u.size d

        m' : Bytes
        m' = fill m (a + p) bs

        emptied : Udp S E Handler
        emptied = udp_at u s (fill buf 0 bs) 0 0 [] m'

    pub arrive_none :
        u.size < 2 ^ 64
        → length (take u.size d) ≤ u.size
        → length (take u.size d) ≡ 0
        → arrive f (waiting r u s n a c id p m buf um) d 0
          ≡ some (waiting r u s n a c id p m (fill buf 0 (take u.size d)) m)
    unfolding arrive answer settle
    arrive_none small inside none_here =
        ap (λ o. o >>= followed f (reader_at r n a c id p [] m))
          (complete-none u s buf m
            (record { count = n - p; addr = a + p; callback = read_continue id }) d small inside
            none_here)

    arrive_exact :
        n < 2 ^ 64
        → id ≢ 0
        → u.size < 2 ^ 64
        → length (take u.size d) ≤ u.size
        → 0 < length (take u.size d)
        → p + length (take u.size d) ≡ n
        → arrive f (waiting r u s n a c id p m buf um) d 0
          ≡ some (
              ended r n a c
                (fill m (a + p) (take u.size d))
                (udp_at u s (fill buf 0 (take u.size d)) 0 0 [] (fill m (a + p) (take u.size d))))
    unfolding arrive answer settle ReaderRun.run_handler
    arrive_exact fits busy small inside here all =
        ap (λ o. o >>= followed f (reader_at r n a c id p [] m))
          (complete-all u s buf m
            (record { count = n - p; addr = a + p; callback = read_continue id }) d small inside
            here (omega arith))
        ∙ ap
            (λ x.
              settle f x
                (udp_at u s (fill buf 0 (take u.size d)) 0 0 [] (fill m (a + p) (take u.size d)))
                x.pending)
            (read_continue-last r n a c id (fill m (a + p) (take u.size d)) p
              (length (take u.size d)) fits busy all)

    arrive_over :
        n < 2 ^ 64
        → id ≢ 0
        → u.size < 2 ^ 64
        → length (take u.size d) ≤ u.size
        → p ≤ n
        → n < p + length (take u.size d)
        → arrive f (waiting r u s n a c id p m buf um) d 0
          ≡ some (
              ended r n a c (fill m (a + p) (take (n - p) (take u.size d))) (
                udp_at u s
                  (fill buf 0 (take u.size d))
                  (n - p)
                  (length (take u.size d))
                  []
                  (fill m (a + p) (take (n - p) (take u.size d)))))
    unfolding arrive answer settle ReaderRun.run_handler
    arrive_over fits busy small inside below over =
        ap (λ o. o >>= followed f (reader_at r n a c id p [] m))
          (complete-part u s buf m
            (record { count = n - p; addr = a + p; callback = read_continue id }) d small inside
            (omega arith))
        ∙ ap
            (λ x.
              settle f x
                (udp_at u s (fill buf 0 (take u.size d)) (n - p) (length (take u.size d)) []
                  (fill m (a + p) (take (n - p) (take u.size d))))
                x.pending)
            (read_continue-last r n a c id (fill m (a + p) (take (n - p) (take u.size d))) p (n - p)
              fits busy (omega arith))

    -- The datagram has all that is missing: what is behind it stays in the client's window.
    pub arrive_last :
        n < 2 ^ 64
        → id ≢ 0
        → u.size < 2 ^ 64
        → length (take u.size d) ≤ u.size
        → p < n
        → n ≤ p + length (take u.size d)
        → (u' : Udp S E Handler) × (arrive f (waiting r u s n a c id p m buf um) d 0
            ≡ some (ended r n a c (fill m (a + p) (take (n - p) (take u.size d))) u'))
          × (u'.receives ≡ [])
          × (window u' ≡ drop (n - p) (take u.size d))
    arrive_last fits busy small inside below enough = elim (dec_lt n (p + length (take u.size d))) [
      | yes over ↦ (
        _,
        arrive_over fits busy small inside (omega arith) over,
        refl,
        ap (λ x. peek (fill buf 0 (take u.size d)) x (length (take u.size d) - (n - p)))
              (from_zero (n - p))
            ∙ peek-fill_rest buf 0 (take u.size d) (n - p) (omega arith),
      )
      | no exact ↦
          let all : p + length (take u.size d) ≡ n = omega arith in
          let whole : take u.size d ≡ take (n - p) (take u.size d) =
            sym (take-all (n - p) (take u.size d) (omega arith)) in
          (
            _,
            arrive_exact fits busy small inside (omega arith) all
                ∙ ap
                    (λ xs. some (
                      ended r n a c (fill m (a + p) xs) (
                        udp_at u s (fill buf 0 (take u.size d)) 0 0 []
                          (fill m (a + p) (take u.size d)))))
                    whole,
            refl,
            sym (drop-all (n - p) (take u.size d) (omega arith)),
          )
    ]
