-- ===== src/Reader/Pieces.antt =====
-- src/StreamReader.cpp, `async_read` and `async_read_until`: one piece of a read that goes on.
use rtac_asio.Prelude.{
  ℕ, ◌+◌, ◌-◌, ◌^◌, ◌<◌, ◌≡◌, ◌≢◌, refl, ap, ◌∙◌, List, [], ◌∷◌, ◌++◌, arith, length, get_elem?,
  get_elem?-last, erase_idx-last, erase_idx, lt→ltb, le→not-ltb, ≡→==, ≢→==, add_size,
}
use rtac_asio.Memory.{fill}
use rtac_asio.Service.{success, Request, post, submit}
use rtac_asio.Streambuf.{Streambuf}
use rtac_asio.Reader.{Handler, call, read_continue, Reader, finish_read, async_read_continue}
use rtac_asio.Reader.Tap.{tapped, do_read_some-tapped, run_handler-tapped}
use rtac_asio.Service.Files.{logged}
use rtac_asio.Reader.Run.{completes, run_handler, complete_at, step}

abbrev pub concat : List (List ℕ) → List ℕ
concat [] = []
concat (c ∷ cs) = c ++ concat cs

module _ {B : Type 0} ⦃s : Streambuf B⦄ where
  -- The operation that a read in progress has in hand: all that is missing, behind what is there. `h`
  -- makes the continuation of the read's id.
  abbrev pub missing : (ℕ → Handler) → Reader B → Request Handler
  missing h r = record {
    count = r.requested_size - r.processed;
    addr = r.dst + r.processed;
    handler = tapped r.rx_dump (h r.read_id) (r.dst + r.processed);
  }

  -- A read that has got some bytes, with the operations `old` of earlier reads still in hand.
  pub record Reading (h : ℕ → Handler) (r : Reader B) (old : List (Request Handler)) : Type 0 where
    pub busy : r.read_id ≢ 0
    pub empty : s.contents r.read_buffer ≡ []
    pub fits : r.requested_size < 2 ^ 64
    pub room : r.processed < r.requested_size
    pub in_hand : r.pending ≡ old ++ missing h r ∷ []

  -- The state when the stream has put `c` where the operation says, and an open dump has logged it.
  abbrev pub filled : Reader B → List (Request Handler) → List ℕ → Reader B
  filled r old c = record r {
    env = record r.env {
      mem = fill r.mem (r.dst + r.processed) c;
      pending = old;
      files = logged r.rx_dump r.files c;
    };
  }

  pub completes-filled :
      (h : ℕ → Handler) {r : Reader B} {old : List (Request Handler)} (c : List ℕ)
      → Reading h r old
      → step (completes (length old) c success) r
        ≡ run_handler (h r.read_id) (filled r old c) success (length c)
  unfolding step complete_at
  completes-filled h {r} {old} c v =
      ap (λ qs. complete_at r (length old) (get_elem? qs (length old)) c success) v.in_hand
      ∙ ap (λ o. complete_at r (length old) o c success) (get_elem?-last old (missing h r))
      ∙ ap
          (λ qs.
            run_handler (missing h r).handler
              (record r {
                env = record r.env { mem = fill r.mem (r.dst + r.processed) c; pending = qs };
              })
              success (length c))
          (ap (λ qs. erase_idx qs (length old)) v.in_hand ∙ erase_idx-last old (missing h r))
      ∙ run_handler-tapped (record r { env = record r.env { pending = old } }) r.rx_dump r.mem
          (r.dst + r.processed) c (h r.read_id)

  -- `filled`, with the bytes counted and the next operation handed to the stream.
  abbrev pub grown : (ℕ → Handler) → Reader B → List (Request Handler) → List ℕ → Reader B
  grown h r old c = record r {
    processed = r.processed + length c;
    env = record r.env {
      mem = fill r.mem (r.dst + r.processed) c;
      files = logged r.rx_dump r.files c;
      pending =
          old
          ++ record {
            count = r.requested_size - (r.processed + length c);
            addr = r.dst + (r.processed + length c);
            handler = tapped r.rx_dump (h r.read_id) (r.dst + (r.processed + length c));
          }
            ∷ [];
    };
  }

  -- `filled`, with the bytes counted and the callback posted.
  abbrev pub ended : Reader B → List (Request Handler) → List ℕ → Reader B
  ended r old c = record r {
    processed = r.processed + length c;
    read_id = 0;
    env = record r.env {
      mem = fill r.mem (r.dst + r.processed) c;
      files = logged r.rx_dump r.files c;
      pending = old;
      posted =
          r.posted
          ++ record { handler = call r.callback; err = success; count = r.processed + length c }
            ∷ [];
    };
  }

  pub continue-grown :
      {r : Reader B} {old : List (Request Handler)} (c : List ℕ)
      → Reading read_continue r old
      → r.processed + length c < r.requested_size
      → async_read_continue (filled r old c) r.read_id success (length c)
        ≡ grown read_continue r old c
  unfolding async_read_continue submit
  continue-grown {r} {old} c v more =
      rw (≡→== r.read_id r.read_id refl, sum, lt→ltb _ r.requested_size more)
        (do_read_some-tapped (record (filled r old c) { processed = r.processed + length c })
          r.rx_dump (r.requested_size - (r.processed + length c)) (r.dst + (r.processed + length c))
          (read_continue r.read_id) v.empty)
    where
      sum : add_size r.processed (length c) ≡ r.processed + length c
      sum = omega (arith, v.fits)

  pub continue-ended :
      {r : Reader B} {old : List (Request Handler)} (c : List ℕ)
      → Reading read_continue r old
      → r.processed + length c ≡ r.requested_size
      → async_read_continue (filled r old c) r.read_id success (length c) ≡ ended r old c
  unfolding async_read_continue finish_read post
  continue-ended {r} {old} c v all =
      rw
        (
          ≡→== r.read_id r.read_id refl,
          sum,
          le→not-ltb (r.processed + length c) r.requested_size (omega arith),
          ≢→== r.read_id 0 v.busy,
        )
        refl
    where
      sum : add_size r.processed (length c) ≡ r.processed + length c
      sum = omega (arith, v.fits)

  pub grown-Reading :
      (h : ℕ → Handler) {r : Reader B} {old : List (Request Handler)} (c : List ℕ)
      → Reading h r old
      → r.processed + length c < r.requested_size
      → Reading h (grown h r old c) old
  grown-Reading h {r} {old} c v more = record {
    busy = v.busy;
    empty = v.empty;
    fits = v.fits;
    room = more;
    in_hand = refl;
  }

  -- The state when a read got the bytes `rest` that were missing, against its state before.
  pub record Gets (r : Reader B) (old : List (Request Handler)) (rest : List ℕ) (r' : Reader B)
      : Type 0 where
    pub idle : r'.read_id ≡ 0
    pub counted : r'.processed ≡ r.requested_size
    pub stored : r'.mem ≡ fill r.mem (r.dst + r.processed) rest
    pub told :
        r'.posted
        ≡ r.posted
          ++ record { handler = call r.callback; err = success; count = r.requested_size } ∷ []
    pub in_hand : r'.pending ≡ old
    pub recorded : r'.files ≡ logged r.rx_dump r.files rest
