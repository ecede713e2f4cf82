-- ===== src/Udp/Window.antt =====
-- src/UDPClientStream.cpp: the window of `buffer_` from `bufferBegin_` to `bufferEnd_`, and what each
-- operation does with it.
use rtac_asio.Prelude.{
  ℕ, ◌+◌, ◌-◌, ◌^◌, ◌≤◌, ◌<◌, ◌≡◌, ◌⊎◌, refl, sym, ap, ◌∙◌, subst, none, some, List, [], ◌∷◌, ◌++◌,
  append-nil, append_assoc, arith, lt→ltb, le→not-ltb, le→leb, lt→not-leb,
}
use rtac_asio.Memory.{peek, fill, peek-fill, length-peek, peek-append}
use rtac_asio.Service.{ErrorCode, success}
use rtac_asio.Udp.{Udp, Receive, Call, available, call, async_read_some}

module _ {C : Type 0} where
  -- All the bytes that callbacks have found, in the order of the calls.
  abbrev pub seen_by : List (Call C) → List ℕ
  seen_by [] = []
  seen_by (c ∷ cs) = c.seen ++ seen_by cs

  pub seen_by-append : (cs ds : List (Call C)) → seen_by (cs ++ ds) ≡ seen_by cs ++ seen_by ds
  seen_by-append [] ds = refl
  seen_by-append (c ∷ cs) ds =
      ap (◌++◌ c.seen) (seen_by-append cs ds) ∙ sym (append_assoc c.seen (seen_by cs) (seen_by ds))

  -- A call at the end of the list, with a window behind it.
  pub called :
      (cs : List (Call C)) (bs ws ts : List ℕ) (c : C) (err : ErrorCode) (n : ℕ)
      → bs ++ ws ≡ ts
      → seen_by (cs ++ record { callback = c; err = err; count = n; seen = bs } ∷ []) ++ ws
        ≡ seen_by cs ++ ts
  called cs bs ws ts c err n e =
      ap (λ l. l ++ ws)
        (seen_by-append cs (record { callback = c; err = err; count = n; seen = bs } ∷ [])
          ∙ ap (◌++◌ (seen_by cs)) (append-nil bs))
      ∙ append_assoc (seen_by cs) bs ws
      ∙ ap (◌++◌ (seen_by cs)) e

module _ {S E C : Type 0} where
  -- The bytes received and not yet read.
  abbrev pub window : Udp S E C → List ℕ
  window u = peek u.buffer u.buffer_begin (u.buffer_end - u.buffer_begin)

  -- Between two operations: the window lies in `buffer_` and stands at its start when it is empty; at
  -- most one receive is in hand, and only while the window is empty.
  pub record IsSound (u : Udp S E C) : Type 0 where
    pub linked : (s : S) × (u.socket ≡ some s)
    pub small : u.size < 2 ^ 64
    pub inside : u.buffer_end ≤ u.size
    pub shape : (u.buffer_begin < u.buffer_end) ⊎ ((u.buffer_begin ≡ 0) × (u.buffer_end ≡ 0))
    pub single :
        (u.receives ≡ [])
        ⊎ ((q : Receive C) × (u.receives ≡ q ∷ []) × (u.buffer_begin ≡ 0) × (u.buffer_end ≡ 0))

  pub available_lem :
      (u : Udp S E C)
      → u.buffer_begin ≤ u.buffer_end
      → u.buffer_end < 2 ^ 64
      → available u ≡ u.buffer_end - u.buffer_begin
  unfolding available
  available_lem u h small = omega arith

  -- The states after the three branches of a read.
  abbrev pub emptied : Udp S E C → ℕ → C → Udp S E C
  emptied u addr c =
      call
        (record u {
          mem = fill u.mem addr (peek u.buffer u.buffer_begin (available u));
          buffer_begin = 0;
          buffer_end = 0;
        })
        addr c success (available u)

  abbrev pub shortened : Udp S E C → ℕ → ℕ → C → Udp S E C
  shortened u count addr c =
      call
        (record u {
          mem = fill u.mem addr (peek u.buffer u.buffer_begin count);
          buffer_begin = u.buffer_begin + count;
        })
        addr c success count

  abbrev pub waiting : Udp S E C → ℕ → ℕ → C → Udp S E C
  waiting u count addr c = record u {
    receives = u.receives ++ record { count = count; addr = addr; callback = c } ∷ [];
  }

  pub async_read_some-emptied :
      (u : Udp S E C) (count addr : ℕ) (c : C)
      → 0 < available u
      → available u ≤ count
      → async_read_some u count addr c ≡ some (emptied u addr c)
  unfolding async_read_some
  async_read_some-emptied u count addr c some_bytes room =
      rw (lt→ltb 0 (available u) some_bytes, le→leb (available u) count room) refl

  pub async_read_some-shortened :
      (u : Udp S E C) (count addr : ℕ) (c : C)
      → count < available u
      → async_read_some u count addr c ≡ some (shortened u count addr c)
  unfolding async_read_some
  async_read_some-shortened u count addr c less =
      rw (lt→ltb 0 (available u) (omega arith), lt→not-leb (available u) count less) refl

  pub async_read_some-waiting :
      (u : Udp S E C) (count addr : ℕ) (c : C) (s : S)
      → available u ≡ 0
      → u.socket ≡ some s
      → async_read_some u count addr c ≡ some (waiting u count addr c)
  unfolding async_read_some
  async_read_some-waiting u count addr c s empty linked =
      rw (le→not-ltb 0 (available u) (omega arith))
        (ap (λ o. elim o [ none ↦ none | some _ ↦ some (waiting u count addr c) ]) linked)

  -- What was delivered and what is left.
  abbrev pub stream : Udp S E C → List ℕ
  stream u = seen_by u.calls ++ window u

  -- A copied window is found where it was copied to.
  pub copied :
      (u : Udp S E C) (addr n : ℕ)
      → peek (fill u.mem addr (peek u.buffer u.buffer_begin n)) addr n
        ≡ peek u.buffer u.buffer_begin n
  copied u addr n =
      subst
        (λ k.
          peek (fill u.mem addr (peek u.buffer u.buffer_begin n)) addr k
          ≡ peek u.buffer u.buffer_begin n)
        (length-peek u.buffer u.buffer_begin n)
        (peek-fill u.mem addr (peek u.buffer u.buffer_begin n))

  pub emptied-stream :
      (u : Udp S E C) (addr : ℕ) (c : C)
      → available u ≡ u.buffer_end - u.buffer_begin
      → stream (emptied u addr c) ≡ stream u
  unfolding call
  emptied-stream u addr c avail =
      ap
        (λ bs.
          seen_by
            (u.calls ++ record { callback = c; err = success; count = available u; seen = bs } ∷ [])
          ++ [])
        (copied u addr (available u))
      ∙ called u.calls (peek u.buffer u.buffer_begin (available u)) [] (window u) c success
          (available u)
          (append-nil (peek u.buffer u.buffer_begin (available u))
            ∙ ap (peek u.buffer u.buffer_begin) avail)

  pub shortened-stream :
      (u : Udp S E C) (count addr : ℕ) (c : C)
      → u.buffer_begin + count ≤ u.buffer_end
      → stream (shortened u count addr c) ≡ stream u
  unfolding call
  shortened-stream u count addr c room =
      ap
        (λ bs.
          seen_by (u.calls ++ record { callback = c; err = success; count = count; seen = bs } ∷ [])
          ++ left)
        (copied u addr count)
      ∙ called u.calls (peek u.buffer u.buffer_begin count) left (window u) c success count (
          sym (peek-append u.buffer u.buffer_begin count (u.buffer_end - (u.buffer_begin + count)))
          ∙ ap (peek u.buffer u.buffer_begin) (omega arith))
    where
      left : List ℕ
      left = peek u.buffer (u.buffer_begin + count) (u.buffer_end - (u.buffer_begin + count))
