-- ===== src/Udp/Conserve.antt =====
-- src/UDPClientStream.cpp: the datagrams as one stream of bytes, under a client that waits for each
-- read's callback before it reads again.
use rtac_asio.Prelude.{
  ℕ, ◌≤◌, ◌≡◌, sym, ap, ◌∙◌, subst, Option, none, some, List, [], ◌∷◌, ◌++◌, append-nil,
  append_assoc, take,
}
use rtac_asio.Service.{ErrorCode, Request, Task}
use rtac_asio.Udp.{Udp, Receive, async_read_some, complete, async_write_some, complete_send}
use rtac_asio.Udp.Window.{IsSound, stream}
use rtac_asio.Udp.Arrival.{Goes, async_read_some-Goes, complete-Goes, IsSound-IsReady}

some-injective {ℓ} : {A : Type ℓ} {x y : A} → some x ≡ some y → x ≡ y
some-injective {x = x} e = ap (λ o. elim o [ none ↦ x | some z ↦ z ]) e

module _ {S E C : Type 0} where
  -- The client reads when no receive is in hand; the socket ends the receive in hand, with a datagram
  -- and an error code of its choice. It writes at any time. The list is what arrives in `buffer_`.
  pub data Step : Udp S E C → List ℕ → Udp S E C → Type 0 where
    reads :
        {u u' : Udp S E C} (count addr : ℕ) (c : C)
        → u.receives ≡ []
        → async_read_some u count addr c ≡ some u'
        → Step u [] u'
    completes :
        {u u' : Udp S E C} (q : Receive C) (datagram : List ℕ) (err : ErrorCode)
        → u.receives ≡ q ∷ []
        → complete u datagram err ≡ some u'
        → Step u (take u.size datagram) u'
    writes :
        {u u' : Udp S E C} (count addr : ℕ) (c : C)
        → async_write_some u count addr c ≡ some u'
        → Step u [] u'
    sends : {u : Udp S E C} (err : ErrorCode) (n : ℕ) → Step u [] (complete_send u u.sends err n)

  pub data Run (u : Udp S E C) : List ℕ → Udp S E C → Type 0 where
    start : Run u [] u
    then_step : {v w : Udp S E C} {xs ys : List ℕ} → Run u xs v → Step v ys w → Run u (xs ++ ys) w

  Goes-is :
      {u w : Udp S E C} {bs : List ℕ} {o : Option (Udp S E C)}
      → Goes u bs o
      → o ≡ some w
      → IsSound w × (stream w ≡ stream u ++ bs)
  Goes-is {u} {bs = bs} g e =
      subst (λ x. IsSound x × (stream x ≡ stream u ++ bs)) (some-injective (sym g.is ∙ e))
        (g.sound, g.conserved)

  abbrev Writes : Udp S E C → Udp S E C → Type 0
  Writes u w = IsSound w × (stream w ≡ stream u ++ [])

  -- Writes have nothing to do with what arrives.
  writing-conserves :
      (u : Udp S E C) (qs : List (Request C)) (ts : List (Task C))
      → IsSound u
      → Writes u (record u { sends = qs; written = ts })
  writing-conserves u qs ts v = (
    record {
      linked = v.linked;
      small = v.small;
      inside = v.inside;
      shape = v.shape;
      single = v.single;
    },
    sym (append-nil (stream u)),
  )

  handed_to :
      (o : Option S) (x w : Udp S E C) → elim o [ none ↦ none | some _ ↦ some x ] ≡ some w → x ≡ w
  handed_to none x w e = cc
  handed_to (some s) x w e = some-injective e

  write-conserves :
      {u w : Udp S E C} (count addr : ℕ) (c : C)
      → IsSound u
      → async_write_some u count addr c ≡ some w
      → Writes u w
  unfolding async_write_some
  write-conserves {u} count addr c v e =
      subst (Writes u) (handed_to u.socket _ _ e) (writing-conserves u _ u.written v)

  sent-conserves :
      (u : Udp S E C) (err : ErrorCode) (n : ℕ) (qs : List (Request C))
      → IsSound u
      → Writes u (complete_send u qs err n)
  unfolding complete_send
  sent-conserves u err n [] v = writing-conserves u u.sends u.written v
  sent-conserves u err n (q ∷ qs) v = writing-conserves u qs _ v

  Step-conserves :
      {u w : Udp S E C} {bs : List ℕ}
      → IsSound u
      → Step u bs w
      → IsSound w × (stream w ≡ stream u ++ bs)
  Step-conserves v (reads count addr c h e) =
      Goes-is (async_read_some-Goes count addr c (IsSound-IsReady v h)) e
  Step-conserves v (completes q d err h e) = Goes-is (complete-Goes q d err v h) e
  Step-conserves v (writes count addr c e) = write-conserves count addr c v e
  Step-conserves {u} v (sends err n) = sent-conserves u err n u.sends v

  -- A client that reads only when no receive is in hand, and writes at any time, gets the datagrams as
  -- one stream: under any such run, whatever sizes it asks for and whatever errors come between, the
  -- bytes that its callbacks found, followed by those still in the buffer, are what there was before
  -- and then the datagrams, each as much as fits the buffer, none lost, repeated or out of order. The
  -- window stays inside `buffer_`.
  pub Run-conserves :
      {u w : Udp S E C} {bs : List ℕ}
      → IsSound u
      → Run u bs w
      → (stream w ≡ stream u ++ bs) × (w.buffer_end ≤ w.size) × IsSound w
  Run-conserves {u} v start = (sym (append-nil (stream u)), v.inside, v)
  Run-conserves {u} v (then_step {v = m} {xs = xs} {ys = ys} r s) =
      let (before, _, sound) = Run-conserves v r in
      let (after, kept) = Step-conserves sound s in
      (kept ∙ ap (λ l. l ++ ys) before ∙ append_assoc (stream u) xs ys, after.inside, after)
