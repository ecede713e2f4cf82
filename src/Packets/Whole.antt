-- ===== src/Packets/Whole.antt =====
-- src/StreamReader.cpp, `async_read`, over src/UDPClientStream.cpp: all the datagrams that it takes.
use native.Mathlib.Decide.{ℕ_discrete}
use rtac_asio.Prelude.{
  ℕ, zero, suc, ◌+◌, ◌-◌, ◌^◌, ◌<◌, ◌≤◌, ◌≡◌, ◌≢◌, refl, sym, ap, ◌∙◌, Bool, true, Option, none,
  some, List, [], ◌∷◌, ◌++◌, ◌>>=◌, length, take, drop, arith, append-nil, length-append,
  length-take, length-zero, take-append, drop-append,
}
use rtac_asio.Memory.{Bytes, fill, fill-append}
use rtac_asio.Service.{success}
use rtac_asio.Streambuf.{Streambuf}
use rtac_asio.Udp.{Udp}
use rtac_asio.Udp.Window.{window}
use rtac_asio.Reader.{Reader, Handler, Callback}
use rtac_asio.Reader
use rtac_asio.Packets.{Packets, async_read, arrivals}
use rtac_asio.Stream.Begin.{counted_reader}
use rtac_asio.Packets.Begin.{ready, async_read-ready}
use rtac_asio.Packets.Arrive.{waiting, ended, arrive_more, arrive_none, arrive_last}

-- The bytes of datagrams, each as much as a buffer of the size has room for.
abbrev pub received : ℕ → List (List ℕ) → List ℕ
received size [] = []
received size (d ∷ ds) = take size d ++ received size ds

module _ {B S E : Type 0} ⦃b : Streambuf B⦄ where
  module _ (r : Reader B) (u : Udp S E Handler) (s : S) (n a : ℕ) (c : Callback) (id f : ℕ)
      (d : List ℕ) where
    arrivals-ended :
        (ds : List (List ℕ)) (p : ℕ) (m buf um : Bytes)
        → b.contents r.read_buffer ≡ []
        → n < 2 ^ 64
        → id ≢ 0
        → u.size < 2 ^ 64
        → p + length (received u.size ds) < n
        → n ≤ p + length (received u.size (ds ++ d ∷ []))
        → (u' : Udp S E Handler) × (arrivals
              (suc f)
              (ds ++ d ∷ [])
              (waiting r u s n a c id p m buf um)
            ≡ some
                (ended r n a c (fill m (a + p) (take (n - p) (received u.size (ds ++ d ∷ [])))) u'))
          × (u'.receives ≡ [])
          × (window u' ≡ drop (n - p) (received u.size (ds ++ d ∷ [])))
    unfolding arrivals
    arrivals-ended [] p m buf um dry fits busy small before enough =
        let whole : take u.size d ≡ take u.size d ++ [] = sym (append-nil (take u.size d)) in
        let (u', ok, none_left, rest) =
          arrive_last r u s n a c id p m buf um d (suc f) fits busy small (inside d) (omega arith)
            (omega (arith, ap length whole)) in
        (
          u',
          ap (λ o. o >>= arrivals (suc f) []) ok
              ∙ ap (λ xs. some (ended r n a c (fill m (a + p) (take (n - p) xs)) u')) whole,
          none_left,
          rest ∙ ap (drop (n - p)) whole,
        )
      where
        inside : (x : List ℕ) → length (take u.size x) ≤ u.size
        inside x = omega (arith, length-take u.size x)
    arrivals-ended (e ∷ ds) p m buf um dry fits busy small before enough =
        elim (ℕ_discrete (length (take u.size e)) 0) [
          | yes empty ↦
              let gone : take u.size e ≡ [] = length-zero (take u.size e) empty in
              let (u', ok, none_left, rest) =
                arrivals-ended ds p m (fill buf 0 (take u.size e)) m dry fits busy small
                  (omega (arith, len, ap length gone)) (omega (arith, len', ap length gone)) in
              (
                u',
                ap (λ o. o >>= arrivals (suc f) (ds ++ d ∷ []))
                      (arrive_none r u s n a c id p m buf um e (suc f) small (inside e) empty)
                    ∙ ok
                    ∙ ap
                        (λ xs. some (
                          ended r n a c
                            (fill m (a + p) (take (n - p) (xs ++ received u.size (ds ++ d ∷ []))))
                            u'))
                        (sym gone),
                none_left,
                rest ∙ ap (λ xs. drop (n - p) (xs ++ received u.size (ds ++ d ∷ []))) (sym gone),
              )
          | no some_bytes ↦
              let (u', ok, none_left, rest) =
                arrivals-ended ds (p + length (take u.size e)) (fill m (a + p) (take u.size e))
                  (fill buf 0 (take u.size e)) (fill m (a + p) (take u.size e)) dry fits busy small
                  (omega (arith, len)) (omega (arith, len')) in
              (
                u',
                ap (λ o. o >>= arrivals (suc f) (ds ++ d ∷ []))
                      (arrive_more r u s n a c id p m buf um e f dry fits small (inside e)
                        (pos (length (take u.size e)) some_bytes) (omega (arith, len)))
                    ∙ ok
                    ∙ ap (λ x. some (ended r n a c x u')) (stored (omega (arith, len))),
                none_left,
                rest
                    ∙ ap (λ k. drop k (received u.size (ds ++ d ∷ []))) (omega arith)
                    ∙ sym (
                        drop-append (take u.size e) (received u.size (ds ++ d ∷ [])) (n - p)
                          (omega (arith, len))),
              )
        ]
      where
        inside : (x : List ℕ) → length (take u.size x) ≤ u.size
        inside x = omega (arith, length-take u.size x)

        pos : (k : ℕ) → k ≢ 0 → 0 < k
        pos zero h = absurd (h refl)
        pos (suc k) h = omega arith

        len :
            length (take u.size e ++ received u.size ds)
            ≡ length (take u.size e) + length (received u.size ds)
        len = length-append (take u.size e) (received u.size ds)

        len' :
            length (take u.size e ++ received u.size (ds ++ d ∷ []))
            ≡ length (take u.size e) + length (received u.size (ds ++ d ∷ []))
        len' = length-append (take u.size e) (received u.size (ds ++ d ∷ []))

        stored :
            length (take u.size e) ≤ n - p
            → fill
                (fill m (a + p) (take u.size e))
                (a + (p + length (take u.size e)))
                (take (n - (p + length (take u.size e))) (received u.size (ds ++ d ∷ [])))
              ≡ fill m (a + p) (take (n - p) (take u.size e ++ received u.size (ds ++ d ∷ [])))
        stored h =
            (λ i.
              fill (fill m (a + p) (take u.size e)) (behind i)
                (take (fewer i) (received u.size (ds ++ d ∷ []))))
            ∙ sym (
                fill-append m (a + p) (take u.size e)
                  (take (n - p - length (take u.size e)) (received u.size (ds ++ d ∷ []))))
            ∙ ap (fill m (a + p))
                (sym (take-append (take u.size e) (received u.size (ds ++ d ∷ [])) (n - p) h))
          where
            behind : a + (p + length (take u.size e)) ≡ a + p + length (take u.size e)
            behind = omega arith

            fewer : n - (p + length (take u.size e)) ≡ n - p - length (take u.size e)
            fewer = omega arith

  -- A reader on which nothing is under way, over a client with a socket that has nothing buffered and
  -- no receive in hand.
  pub record IsReady (l : Packets B S E) : Type 0 where
    pub socket : S
    pub linked : l.udp.socket ≡ some socket
    pub window_begin : l.udp.buffer_begin ≡ 0
    pub window_end : l.udp.buffer_end ≡ 0
    pub unasked : l.udp.receives ≡ []
    pub small : l.udp.size < 2 ^ 64
    pub idle : l.reader.read_id ≡ 0
    pub undumped : l.reader.rx_dump ≡ none
    pub dry : b.contents l.reader.read_buffer ≡ []
    pub posted : l.reader.posted ≡ []
    pub pending : l.reader.pending ≡ []
    pub counter : l.reader.read_counter + 1 < 2 ^ 32

  ready_lem : (l : Packets B S E) (v : IsReady l) → l ≡ ready l.reader l.udp v.socket
  ready_lem l v = λ i. record {
    reader = record l.reader {
      read_id = v.idle i;
      rx_dump = v.undumped i;
      env = record l.reader.env { posted = v.posted i; pending = v.pending i };
    };
    udp = record l.udp {
      socket = v.linked i;
      buffer_begin = v.window_begin i;
      buffer_end = v.window_end i;
      receives = v.unasked i;
    };
  }

  -- `async_read`, then datagrams.
  abbrev pub read_then :
      ℕ → Packets B S E → ℕ → ℕ → Callback → ℕ → List (List ℕ) → Option (Bool × Packets B S E)
  read_then fuel l n a c millis ds = do
    (started, l') ← async_read fuel l n a c millis
    t ← arrivals fuel ds l'
    some (started, t)

  -- An `async_read` of `n` bytes from a UDP client, on which nothing is under way, gets the datagrams as
  -- one stream of bytes, when they come one after the other and the last is the one that completes
  -- the `n`: the call is accepted, the caller's buffer holds their first `n` bytes, each datagram as
  -- much as fits the client's buffer, and memory outside it is as it was; the callback is posted
  -- once, with success and `n`; the reader is idle; and the bytes behind the `n` are in the
  -- client's window, where the next read finds them. One call of the client inside a function of the
  -- reader is enough each time, and no null pointer is used.
  pub async_read-arrivals :
      (l : Packets B S E) (n a : ℕ) (c : Callback) (millis f : ℕ) (ds : List (List ℕ)) (d : List ℕ)
      → IsReady l
      → n < 2 ^ 64
      → length (received l.udp.size ds) < n
      → n ≤ length (received l.udp.size (ds ++ d ∷ []))
      → (t : Packets B S E) × (read_then (suc f) l n a c millis (ds ++ d ∷ []) ≡ some (true, t))
        × (t.reader.mem ≡ fill l.reader.mem a (take n (received l.udp.size (ds ++ d ∷ []))))
        × (t.reader.posted ≡ record { handler = Reader.call c; err = success; count = n } ∷ [])
        × (t.reader.read_id ≡ 0)
        × (t.reader.processed ≡ n)
        × (t.udp.receives ≡ [])
        × (window t.udp ≡ drop n (received l.udp.size (ds ++ d ∷ [])))
  async_read-arrivals l n a c millis f ds d v fits before enough =
      let all : List ℕ = received l.udp.size (ds ++ d ∷ []) in
      let (u', ok, none_left, rest) =
        arrivals-ended (counted_reader l.reader millis) l.udp v.socket n a c
          (l.reader.read_counter + 1) f d ds 0 l.reader.mem l.udp.buffer l.reader.mem v.dry fits
          (λ e. absurd (omega arith)) v.small (omega arith) (omega arith) in
      (
        ended (counted_reader l.reader millis) n a c (fill l.reader.mem a (take n all)) u',
        ap (λ x. read_then (suc f) x n a c millis (ds ++ d ∷ [])) (ready_lem l v)
            ∙ ap (λ o. o >>= then_arrivals)
                (async_read-ready l.reader n a c l.udp v.socket f millis v.dry v.counter)
            ∙ ap (λ o. o >>= λ t. some (true, t)) ok
            ∙ (λ i. some (
              true,
              ended (counted_reader l.reader millis) n a c
                  (fill l.reader.mem (from_start a i) (take (less_none n i) all)) u',
            )),
        refl,
        refl,
        refl,
        refl,
        none_left,
        rest ∙ ap (λ k. drop k all) (less_none n),
      )
    where
      from_start : (x : ℕ) → x + 0 ≡ x
      from_start x = omega arith

      less_none : (x : ℕ) → x - 0 ≡ x
      less_none x = omega arith

      then_arrivals : Bool × Packets B S E → Option (Bool × Packets B S E)
      then_arrivals x = arrivals (suc f) (ds ++ d ∷ []) x.1 >>= λ t. some (x.0, t)
