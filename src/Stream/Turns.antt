-- ===== src/Stream/Turns.antt =====
-- src/StreamReader.cpp and src/StreamWriter.cpp under Stream: one function of `async_read` and of
-- `async_write` on the states that an exchange goes through.
use rtac_asio.Prelude.{
  ℕ, ◌+◌, ◌-◌, ◌^◌, ◌<◌, ◌≡◌, ◌≢◌, refl, none, List, [], ◌∷◌, arith, add_size, ≡→==, ≢→==, lt→ltb,
  le→not-ltb,
}
use rtac_asio.Memory.{Bytes}
use rtac_asio.Service.{success, Task, Request, post, submit}
use rtac_asio.Streambuf.{Streambuf, size-empty}
use rtac_asio.Reader.{
  Reader, read_continue, async_read_continue, do_read_some, finish_read, dump_enabled,
}
use rtac_asio.Reader
use rtac_asio.Writer.{Writer, write_continue, async_write_continue, do_write_some, finish_write}
use rtac_asio.Writer

-- A write of `n` bytes at `a` as `id`, which has put `p` of them.
abbrev pub writer_at :
    Writer
    → ℕ
    → ℕ
    → Writer.Callback
    → ℕ
    → ℕ
    → List (Task Writer.Handler)
    → Bytes
    → (ℕ → List ℕ)
    → Writer
writer_at w n a c id p ps m fs = record w {
  write_id = id;
  requested_size = n;
  processed = p;
  src = a;
  callback = c;
  tx_dump = none;
  env = record w.env { mem = m; posted = ps; pending = []; files = fs };
}

abbrev pub asking : Writer → Request Writer.Handler → Writer
asking w q = record w { env = record w.env { pending = q ∷ [] } }

module _ (w : Writer) (n a : ℕ) (c : Writer.Callback) (id : ℕ) (m : Bytes) (fs : ℕ → List ℕ) where
  pub write_continue-more :
      (p j : ℕ)
      → n < 2 ^ 64
      → p + j < n
      → async_write_continue (writer_at w n a c id p [] m fs) id success j
        ≡ asking
            (writer_at w n a c id (p + j) [] m fs)
            (record { count = n - (p + j); addr = a + (p + j); handler = write_continue id })
  unfolding async_write_continue do_write_some submit Writer.dump_enabled
  write_continue-more p j fits more = rw (≡→== id id refl, sum, lt→ltb (p + j) n more) refl
    where
      sum : add_size p j ≡ p + j
      sum = omega arith

  pub write_continue-last :
      (p j : ℕ)
      → n < 2 ^ 64
      → id ≢ 0
      → p + j ≡ n
      → async_write_continue (writer_at w n a c id p [] m fs) id success j
        ≡ writer_at w n a c 0 n
            (record { handler = Writer.call c; err = success; count = n } ∷ [])
            m
            fs
  unfolding async_write_continue finish_write post
  write_continue-last p j fits busy all =
      rw (≡→== id id refl, sum, le→not-ltb n n (omega arith), ≢→== id 0 busy) refl
    where
      sum : add_size p j ≡ n
      sum = omega arith

module _ {B : Type 0} ⦃s : Streambuf B⦄ where
  -- A read of `n` bytes to `d` as `id`, which has got `p` of them; nothing is kept from `read_until`.
  abbrev pub reader_at :
      Reader B → ℕ → ℕ → Reader.Callback → ℕ → ℕ → List (Task Reader.Handler) → Bytes → Reader B
  reader_at r n d c id p ps m = record r {
    read_id = id;
    requested_size = n;
    processed = p;
    dst = d;
    callback = c;
    rx_dump = none;
    env = record r.env { mem = m; posted = ps; pending = [] };
  }

  abbrev pub awaiting : Reader B → Request Reader.Handler → Reader B
  awaiting r q = record r { env = record r.env { pending = q ∷ [] } }

  module _ (r : Reader B) (n d : ℕ) (c : Reader.Callback) (id : ℕ) (m : Bytes) where
    pub read_continue-more :
        (p j : ℕ)
        → s.contents r.read_buffer ≡ []
        → n < 2 ^ 64
        → p + j < n
        → async_read_continue (reader_at r n d c id p [] m) id success j
          ≡ awaiting
              (reader_at r n d c id (p + j) [] m)
              (record { count = n - (p + j); addr = d + (p + j); handler = read_continue id })
    unfolding async_read_continue do_read_some submit dump_enabled
    read_continue-more p j dry fits more =
        rw (≡→== id id refl, sum, lt→ltb (p + j) n more, size-empty r.read_buffer dry) refl
      where
        sum : add_size p j ≡ p + j
        sum = omega arith

    pub read_continue-last :
        (p j : ℕ)
        → n < 2 ^ 64
        → id ≢ 0
        → p + j ≡ n
        → async_read_continue (reader_at r n d c id p [] m) id success j
          ≡ reader_at r n d c 0 n
              (record { handler = Reader.call c; err = success; count = n } ∷ [])
              m
    unfolding async_read_continue finish_read post
    read_continue-last p j fits busy all =
        rw (≡→== id id refl, sum, le→not-ltb n n (omega arith), ≢→== id 0 busy) refl
      where
        sum : add_size p j ≡ n
        sum = omega arith
