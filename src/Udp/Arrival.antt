-- ===== src/Udp/Arrival.antt =====
-- src/UDPClientStream.cpp: a read, and the arrival of a datagram, in states where at most one receive is
-- in hand.
use rtac_asio.Prelude.{
  ℕ, ◌+◌, ◌-◌, ◌^◌, ◌≤◌, ◌<◌, ◌≡◌, ◌⊎◌, inl, inr, refl, sym, ap, ap₂, ◌∙◌, Option, some, List, [],
  ◌∷◌, ◌++◌, append-nil, arith, if◌then◌else◌, ◌==◌, length, take, length-take, Bool-cases,
}
use native.Mathlib.Decide.{dec_lt}
use rtac_asio.Memory.{peek, fill, peek-fill}
use rtac_asio.Service.{ErrorCode, success}
use rtac_asio.Udp.{Udp, Receive, available, call, async_read_some, receive_continue, complete}
use rtac_asio.Udp.Window.{
  called, window, IsSound, available_lem, emptied, shortened, waiting, async_read_some-emptied,
  async_read_some-shortened, async_read_some-waiting, seen_by, stream, emptied-stream,
  shortened-stream,
}

module _ {S E C : Type 0} where
  -- The outcome of an operation that let `bs` arrive.
  pub record Goes (u : Udp S E C) (bs : List ℕ) (o : Option (Udp S E C)) : Type 0 where
    pub after : Udp S E C
    pub is : o ≡ some after
    pub sound : IsSound after
    pub conserved : stream after ≡ stream u ++ bs

  -- What a read needs: a receive may have put bytes in the window, and none is in hand.
  pub record IsReady (u : Udp S E C) : Type 0 where
    pub linked : (s : S) × (u.socket ≡ some s)
    pub small : u.size < 2 ^ 64
    pub inside : u.buffer_end ≤ u.size
    pub shape : (u.buffer_begin < u.buffer_end) ⊎ ((u.buffer_begin ≡ 0) × (u.buffer_end ≡ 0))
    pub none_left : u.receives ≡ []

  IsReady-ordered : {u : Udp S E C} → IsReady u → u.buffer_begin ≤ u.buffer_end
  IsReady-ordered v = elim v.shape [ inl l ↦ omega arith | inr (b, e) ↦ omega arith ]

  pub IsReady-available : {u : Udp S E C} → IsReady u → available u ≡ u.buffer_end - u.buffer_begin
  IsReady-available {u} v = available_lem u (IsReady-ordered v) (omega (arith, v.inside, v.small))

  IsReady-waiting :
      {u : Udp S E C} (count addr : ℕ) (c : C)
      → IsReady u
      → available u ≡ 0
      → Goes u [] (async_read_some u count addr c)
  IsReady-waiting {u} count addr c v none_here =
      let left : u.buffer_end - u.buffer_begin ≡ 0 = sym (IsReady-available v) ∙ none_here in
      let empty : (u.buffer_begin ≡ 0) × (u.buffer_end ≡ 0) = elim v.shape [
        | inl l ↦ absurd (omega arith)
        | inr e ↦ e
      ] in
      record {
        after = waiting u count addr c;
        is = async_read_some-waiting u count addr c v.linked.0 none_here v.linked.1;
        sound = record {
          linked = v.linked;
          small = v.small;
          inside = v.inside;
          shape = v.shape;
          single = inr (
            record { count = count; addr = addr; callback = c },
            ap (λ l. l ++ record { count = count; addr = addr; callback = c } ∷ []) v.none_left,
            empty.0,
            empty.1,
          );
        };
        conserved = sym (append-nil (stream u));
      }

  pub async_read_some-Goes :
      {u : Udp S E C} (count addr : ℕ) (c : C)
      → IsReady u
      → Goes u [] (async_read_some u count addr c)
  unfolding call
  async_read_some-Goes {u} count addr c v = elim (dec_lt 0 (available u)) [
    | no empty ↦ IsReady-waiting count addr c v (omega arith)
    | yes some_bytes ↦ elim (dec_lt count (available u)) [
      | yes less ↦
          let room : u.buffer_begin + count < u.buffer_end =
            omega (arith, IsReady-available v, IsReady-ordered v) in
          record {
            after = shortened u count addr c;
            is = async_read_some-shortened u count addr c less;
            sound = record {
              linked = v.linked;
              small = v.small;
              inside = v.inside;
              shape = inl room;
              single = inl v.none_left;
            };
            conserved = shortened-stream u count addr c (omega arith) ∙ sym (append-nil (stream u));
          }
      | no enough ↦ record {
        after = emptied u addr c;
        is = async_read_some-emptied u count addr c some_bytes (omega arith);
        sound = record {
          linked = v.linked;
          small = v.small;
          inside = omega arith;
          shape = inr (refl, refl);
          single = inl v.none_left;
        };
        conserved = emptied-stream u addr c (IsReady-available v) ∙ sym (append-nil (stream u));
      }
    ]
  ]

  -- The state when a datagram has arrived in an empty `buffer_`.
  abbrev pub got : Udp S E C → List (Receive C) → List ℕ → Udp S E C
  got u qs d = record u {
    buffer = fill u.buffer 0 (take u.size d);
    receives = qs;
    buffer_end = u.buffer_end + length (take u.size d);
  }

  pub got-IsReady :
      {u : Udp S E C} (d : List ℕ)
      → IsSound u
      → u.buffer_begin ≡ 0
      → u.buffer_end ≡ 0
      → IsReady (got u [] d)
  got-IsReady {u} d v b e = record {
    linked = v.linked;
    small = v.small;
    inside = omega (arith, length-take u.size d);
    shape = elim (dec_lt 0 (length (take u.size d))) [
      | yes some_bytes ↦ inl (omega arith)
      | no none_here ↦ inr (b, omega arith)
    ];
    none_left = refl;
  }

  got-stream :
      (u : Udp S E C) (d : List ℕ)
      → u.buffer_begin ≡ 0
      → u.buffer_end ≡ 0
      → stream (got u [] d) ≡ stream u ++ take u.size d
  got-stream u d b e =
      ap (◌++◌ (seen_by u.calls)) (ap₂ (peek (fill u.buffer 0 bs)) b long ∙ peek-fill u.buffer 0 bs)
      ∙ ap (λ l. l ++ bs)
          (sym (append-nil (seen_by u.calls)) ∙ ap (◌++◌ (seen_by u.calls)) (sym no_window))
    where
      bs : List ℕ
      bs = take u.size d

      long : u.buffer_end + length bs - u.buffer_begin ≡ length bs
      long = omega arith

      short : u.buffer_end - u.buffer_begin ≡ 0
      short = omega arith

      no_window : window u ≡ []
      no_window = ap₂ (peek u.buffer) b short

  -- The end of the operation in hand, as `receive_continue` is called for it.
  pub complete-got :
      (u : Udp S E C) (q : Receive C) (qs : List (Receive C)) (d : List ℕ) (err : ErrorCode)
      → u.receives ≡ q ∷ qs
      → complete u d err ≡ (
          if err == success
          then async_read_some (got u qs d) q.count q.addr q.callback
          else some (call (got u qs d) q.addr q.callback err 0))
  unfolding complete receive_continue
  complete-got u q qs d err h =
      ap
        (λ l. elim l [
          | [] ↦ some u
          | q ∷ qs ↦
              receive_continue
                (record u { buffer = fill u.buffer 0 (take u.size d); receives = qs }) q.count
                q.addr q.callback err (length (take u.size d))
        ])
        h

  failed-Goes :
      {u : Udp S E C} (addr : ℕ) (c : C) (err : ErrorCode)
      → IsReady u
      → Goes u [] (some (call u addr c err 0))
  unfolding call
  failed-Goes {u} addr c err v = record {
    after = call u addr c err 0;
    is = refl;
    sound = record {
      linked = v.linked;
      small = v.small;
      inside = v.inside;
      shape = v.shape;
      single = inl v.none_left;
    };
    conserved = called u.calls [] (window u) (window u) c err 0 refl ∙ sym (append-nil (stream u));
  }

  pub complete-Goes :
      {u : Udp S E C} (q : Receive C) (d : List ℕ) (err : ErrorCode)
      → IsSound u
      → u.receives ≡ q ∷ []
      → Goes u (take u.size d) (complete u d err)
  complete-Goes {u} q d err v h = elim v.single [
    | inl none_here ↦ absurd (omega (arith, ap length (sym none_here ∙ h)))
    | inr (p, _, b, e) ↦ elim (Bool-cases (err == success)) [
      | inl good ↦
          arrived b e
            (complete-got u q [] d err h ∙ ap (λ t. if t then yes_state else no_state) good)
            (async_read_some-Goes q.count q.addr q.callback (got-IsReady d v b e))
      | inr bad ↦
          arrived b e
            (complete-got u q [] d err h ∙ ap (λ t. if t then yes_state else no_state) bad)
            (failed-Goes q.addr q.callback err (got-IsReady d v b e))
    ]
  ]
    where
      yes_state : Option (Udp S E C)
      yes_state = async_read_some (got u [] d) q.count q.addr q.callback

      no_state : Option (Udp S E C)
      no_state = some (call (got u [] d) q.addr q.callback err 0)

      arrived :
          {o : Option (Udp S E C)}
          → u.buffer_begin ≡ 0
          → u.buffer_end ≡ 0
          → complete u d err ≡ o
          → Goes (got u [] d) [] o
          → Goes u (take u.size d) (complete u d err)
      arrived b e same g = record {
        after = g.after;
        is = same ∙ g.is;
        sound = g.sound;
        conserved = g.conserved ∙ append-nil (stream (got u [] d)) ∙ got-stream u d b e;
      }

  pub IsSound-IsReady : {u : Udp S E C} → IsSound u → u.receives ≡ [] → IsReady u
  IsSound-IsReady v none_here = record {
    linked = v.linked;
    small = v.small;
    inside = v.inside;
    shape = v.shape;
    none_left = none_here;
  }
