-- ===== src/Tcp.antt =====
-- include/rtac_asio/TCPClientStream.h and src/TCPClientStream.cpp: the connection's life. Reads and
-- writes are the socket's, handed on unchanged.
pub mod Lawful
mod Tests
use rtac_asio.Prelude.{
  ℕ, ◌≡◌, ◌≢◌, ◌⊎◌, refl, sym, ap, ◌∙◌, Bool, true, false, Option, none, some, if◌then◌else◌, ◌==◌,
  inl, inr, Bool-cases, Option-cases, ≢→==, ≡→==, ==→≢,
}
use rtac_asio.Service.{ErrorCode, success, Env, submit}
use rtac_asio.Socket.{Sockets}
use mathlib.Core.Option
use rtac_asio.Interface.{StreamInterface}

pub record Tcp (S E : Type 0) : Type 0 where
  pub socket : Option S
  pub remote : E

module _ {S E : Type 0} ⦃k : Sockets S E⦄ where
  unfoldable pub is_open : Tcp S E → Bool
  is_open t = elim t.socket [ none ↦ false | some s ↦ k.is_open s ]

  -- The `try` block and what follows it, on the socket that `socket_` owns. A call that throws is
  -- caught, and then `socket_` becomes null; so it does after `close`.
  unfoldable pub close_on : Tcp S E → S → Tcp S E
  close_on t s =
      let (s', err) = k.shutdown s in
      elim (k.cancel s') [
        | none ↦ record t { socket = none }
        | some s'' ↦
            if err == success
            then elim (k.close s'') [
              | none ↦ record t { socket = none }
              | some _ ↦ record t { socket = none }
            ]
            else record t { socket = some s'' }
      ]

  unfoldable pub close : Tcp S E → Tcp S E
  unfolding close_on
  close t = if is_open t then elim t.socket [ none ↦ t | some s ↦ close_on t s ] else t

  unfoldable pub flush : Tcp S E → Tcp S E
  flush t = t

  -- `false` is an exception of `connect`; the new socket stays.
  unfoldable pub reset : Tcp S E → Bool × Tcp S E
  unfolding flush
  reset t =
      let t' = flush (close t) in
      let (s, connected) = k.connect k.fresh t'.remote in (connected, record t' { socket = some s })

  unfoldable pub reset_to : Tcp S E → E → Bool × Tcp S E
  reset_to t remote = reset (record t { remote = remote })

  -- The constructor, with what `make_address` made of the address; `remote_` is default-constructed.
  unfoldable pub construct : E → E → Bool × Tcp S E
  construct default_remote remote =
      reset_to (record { socket = none; remote = default_remote }) remote

  -- `none` is the use of a null `socket_`.
  unfoldable pub async_read_some : {H : Type 0} → Tcp S E → Env H → ℕ → ℕ → H → Option (Env H)
  async_read_some t e count addr handler = elim t.socket [
    | none ↦ none
    | some _ ↦ some (submit e count addr handler)
  ]

  unfoldable pub async_write_some : {H : Type 0} → Tcp S E → Env H → ℕ → ℕ → H → Option (Env H)
  async_write_some t e count addr handler = elim t.socket [
    | none ↦ none
    | some _ ↦ some (submit e count addr handler)
  ]

module _ {S E : Type 0} ⦃k : Sockets S E⦄ where
  instance abbrev pub tcp_stream : StreamInterface (Tcp S E)
  tcp_stream = record {
    async_read_some = λ t e n p h. Option.map (λ e'. (t, e')) (async_read_some t e n p h);
    async_write_some = λ t e n p h. Option.map (λ e'. (t, e')) (async_write_some t e n p h);
    flush = λ t. some (flush t);
    reset = reset;
    is_open = is_open;
  }

module _ {S E : Type 0} ⦃k : Sockets S E⦄ where
  abbrev Closed : Tcp S E → Tcp S E → Type 0
  Closed t t' =
      ((is_open t' ≡ false) × (t'.remote ≡ t.remote))
      ⊎ ((s : S) × (t.socket ≡ some s)
          × ((k.shutdown s).1 ≢ success)
          × (is_open t' ≡ true)
          × (t'.remote ≡ t.remote))

  close-Closed_at :
      (o : Option S) (e : E)
      → Closed (record { socket = o; remote = e }) (close (record { socket = o; remote = e }))
  unfolding close close_on is_open
  close-Closed_at none e = inl (refl, refl)
  close-Closed_at (some s) e = elim (Bool-cases (k.is_open s)) [
    | inr shut ↦ rw shut (inl (shut, refl))
    | inl live ↦ rw live (elim (Option-cases (k.cancel (k.shutdown s).0)) [
      | inl threw ↦ rw (threw, close_on, is_open) (inl (refl, refl))
      | inr (s'', ok) ↦
          rw (ok, close_on, is_open)
            (elim (Bool-cases ((k.shutdown s).1 == success)) [
              | inl good ↦ rw good (elim (Option-cases (k.close s'')) [
                | inl e ↦ rw e (inl (refl, refl))
                | inr (_, e) ↦ rw e (inl (refl, refl))
              ])
              | inr bad ↦ rw bad (
                  inr (
                    s,
                    refl,
                    ==→≢ _ _ bad,
                    k.cancel_open _ s'' ok ∙ k.shutdown_open s ∙ live,
                    refl,
                  ))
            ])
    ])
  ]

  -- `close` leaves no open socket, but for one case: `shutdown` reported an error. Then the client may
  -- keep its socket, still open. The remote end point stays.
  pub close_lem :
      (t : Tcp S E)
      → ((is_open (close t) ≡ false) × ((close t).remote ≡ t.remote))
        ⊎ ((s : S) × (t.socket ≡ some s)
            × ((k.shutdown s).1 ≢ success)
            × (is_open (close t) ≡ true)
            × ((close t).remote ≡ t.remote))
  close_lem t = close-Closed_at t.socket t.remote

  -- An open connection whose `shutdown` fails, as when the peer has gone, with a `cancel` that does not
  -- throw, is not closed by `close`: the client still holds an open socket.
  pub close_keeps_open :
      (s t : S) (e : E)
      → k.is_open s ≡ true
      → (k.shutdown s).1 ≢ success
      → k.cancel (k.shutdown s).0 ≡ some t
      → is_open (close (record { socket = some s; remote = e })) ≡ true
  unfolding close close_on is_open
  close_keeps_open s t e live failed ok =
      rw (live, close_on, is_open, ok, ≢→== (k.shutdown s).1 success failed)
        (k.cancel_open _ t ok ∙ k.shutdown_open s ∙ live)

  close-remote : (t : Tcp S E) → (close t).remote ≡ t.remote
  close-remote t = elim (close_lem t) [ inl (_, kept) ↦ kept | inr (_, _, _, _, kept) ↦ kept ]

  -- `reset` always works on a new socket, connected to the remote end point it was given, whatever
  -- `close` left; if it returns, the connection is open, and if `connect` throws, so does it.
  pub reset_to_lem :
      (t : Tcp S E) (e : E)
      → ((reset_to t e).1 ≡ record { socket = some (k.connect k.fresh e).0; remote = e })
        × ((reset_to t e).0 ≡ (k.connect k.fresh e).1)
        × (((reset_to t e).0 ≡ false) ⊎ (is_open (reset_to t e).1 ≡ true))
  unfolding reset_to reset flush is_open
  reset_to_lem t e = rw (close-remote (record t { remote = e })) (
    refl,
    refl,
    elim (Bool-cases (k.connect k.fresh e).1) [
      | inl connected ↦ inr (k.connect_open k.fresh e connected)
      | inr threw ↦ inl threw
    ],
  )
