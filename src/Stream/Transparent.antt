-- ===== src/Stream/Transparent.antt =====
-- src/Stream.cpp over a stream that hands every operation on: what the reader and the writer ask for
-- stays in hand.
use mathlib.Core.Option
use rtac_asio.Prelude.{
  ℕ, ◌-◌, ◌≡◌, refl, ap, ◌∙◌, none, some, List, [], ◌∷◌, ◌++◌, length, take, drop, Option, ◌>>=◌,
  append-nil, append_assoc, take-append-drop, sym,
}
use rtac_asio.Service.{Request, Env, submit}
use rtac_asio.Interface.{StreamInterface}
use rtac_asio.Reader.{Reader}
use rtac_asio.Writer.{Writer}
use rtac_asio.Socket.{Sockets}
use rtac_asio.Tcp.{Tcp, tcp_stream}
use rtac_asio.Tcp
use rtac_asio.Stream.{reading, writing, Stream, replicate, hand_over, after_reader, after_writer}

-- While the stream is `Linked`, a call leaves its operation in hand and the stream as it is; `flush` and
-- `reset` keep it linked.
pub record IsTransparent (D : Type 0) (Linked : D → Type 0) ⦃i : StreamInterface D⦄ : Type 1 where
  pub reads :
      {H : Type 0} (d : D) (e : Env H) (n p : ℕ) (h : H)
      → Linked d
      → i.async_read_some d e n p h ≡ some (d, submit e n p h)
  pub writes :
      {H : Type 0} (d : D) (e : Env H) (n p : ℕ) (h : H)
      → Linked d
      → i.async_write_some d e n p h ≡ some (d, submit e n p h)
  pub flushes : (d : D) → Linked d → (d' : D) × (i.flush d ≡ some d') × Linked d'
  pub resets : (d : D) → Linked d → Linked (i.reset d).1

-- A TCP client that has a socket is such a stream; `reset` always makes a new one.
abbrev pub HasSocket : {S E : Type 0} → Tcp S E → Type 0
HasSocket {S} t = (s : S) × (t.socket ≡ some s)

pub tcp_stream-IsTransparent :
    {S E : Type 0} ⦃k : Sockets S E⦄ → IsTransparent (Tcp S E) (HasSocket {S = S} {E = E})
unfolding Tcp.async_read_some Tcp.async_write_some Tcp.reset Tcp.flush
tcp_stream-IsTransparent {S} {E} = record {
  reads = λ t e n p h v.
      ap
        (λ o.
          Option.map {B = Tcp S E × Env _} (λ x. (t, x))
            (elim o [ none ↦ none | some _ ↦ some (submit e n p h) ]))
        v.1;
  writes = λ t e n p h v.
      ap
        (λ o.
          Option.map {B = Tcp S E × Env _} (λ x. (t, x))
            (elim o [ none ↦ none | some _ ↦ some (submit e n p h) ]))
        v.1;
  flushes = λ t v. (t, refl, v);
  resets = λ t v. (_, refl);
}

module _ {D H : Type 0} (f : D → Env H → ℕ → ℕ → H → Option (D × Env H)) (d : D)
    (keeps : (e : Env H) (n p : ℕ) (h : H) → f d e n p h ≡ some (d, submit e n p h)) where
  hand_over_kept :
      (qs : List (Request H)) (e : Env H)
      → hand_over f qs d e ≡ some (d, record e { pending = e.pending ++ qs })
  unfolding hand_over submit
  hand_over_kept [] e = λ i. some (d, record e { pending = sym (append-nil e.pending) i })
  hand_over_kept (q ∷ qs) e =
      ap (λ o. o >>= λ x. hand_over f qs x.0 x.1) (keeps e q.count q.addr q.handler)
      ∙ hand_over_kept qs (submit e q.count q.addr q.handler)
      ∙ (λ i. some (d, record e { pending = append_assoc e.pending (q ∷ []) qs i }))

  pub hand_over-whole :
      (n : ℕ) (e : Env H)
      → hand_over f (drop n e.pending) d (record e { pending = take n e.pending }) ≡ some (d, e)
  hand_over-whole n e =
      hand_over_kept (drop n e.pending) (record e { pending = take n e.pending })
      ∙ (λ i. some (d, record e { pending = take-append-drop n e.pending i }))

module _ {B D : Type 0} ⦃i : StreamInterface D⦄ {Linked : D → Type 0}
    (law : IsTransparent D Linked) where
  pub after_reader-kept :
      (s : Stream B D) (r : Reader B)
      → Linked s.stream
      → after_reader s r
        ≡ some (record s {
          reader = r;
          queue = s.queue ++ replicate (length r.posted - length s.reader.posted) reading;
        })
  unfolding after_reader
  after_reader-kept s r v =
      ap
        (λ o. o >>= λ x. some (record s {
          reader = record r { env = x.1 };
          stream = x.0;
          queue = s.queue ++ replicate (length x.1.posted - length s.reader.posted) reading;
        }))
        (hand_over-whole i.async_read_some s.stream (λ e n p h. law.reads s.stream e n p h v)
          (length s.reader.pending) r.env)

  pub after_writer-kept :
      (s : Stream B D) (w : Writer)
      → Linked s.stream
      → after_writer s w
        ≡ some (record s {
          reader = record s.reader { env = record s.reader.env { mem = w.mem; files = w.files } };
          writer = w;
          queue = s.queue ++ replicate (length w.posted - length s.writer.posted) writing;
        })
  unfolding after_writer
  after_writer-kept s w v =
      ap
        (λ o. o >>= λ x. some (record s {
          reader = record s.reader {
            env = record s.reader.env { mem = x.1.mem; files = x.1.files };
          };
          writer = record w { env = x.1 };
          stream = x.0;
          queue = s.queue ++ replicate (length x.1.posted - length s.writer.posted) writing;
        }))
        (hand_over-whole i.async_write_some s.stream (λ e n p h. law.writes s.stream e n p h v)
          (length s.writer.pending) w.env)
