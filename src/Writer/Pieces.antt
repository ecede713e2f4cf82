-- ===== src/Writer/Pieces.antt =====
-- src/StreamWriter.cpp, `async_write`: one piece of a write that goes on.
use rtac_asio.Prelude.{
  ℕ, ◌+◌, ◌-◌, ◌^◌, ◌<◌, ◌≡◌, ◌≢◌, refl, ap, ◌∙◌, Option, none, some, List, [], ◌∷◌, ◌++◌, arith,
  add_size, ≡→==, ≢→==, lt→ltb, le→not-ltb, Option-cases, inl, inr, length, get_elem?, erase_idx,
  get_elem?-last, erase_idx-last,
}
use rtac_asio.Memory.{peek}
use rtac_asio.Service.{success, Request, post, submit, append_file}
use rtac_asio.Service.Files.{logged}
use rtac_asio.Writer.{
  Handler, call, write_continue, dump_callback, Writer, finish_write, dump_bytes, do_write_some,
  dump_enabled, async_write_continue,
}
use rtac_asio.Writer.Run.{completes, run_handler, complete_at, step}

-- The handler that is handed to the stream.
abbrev pub wrapped : Option ℕ → Handler → ℕ → Handler
wrapped none h addr = h
wrapped (some name) h addr = dump_callback h addr

-- The operation that a write in progress has in hand: all that is left, from where it has got to.
abbrev pub missing : Writer → Request Handler
missing w = record {
  count = w.requested_size - w.processed;
  addr = w.src + w.processed;
  handler = wrapped w.tx_dump (write_continue w.write_id) (w.src + w.processed);
}

pub record Writing (w : Writer) (old : List (Request Handler)) : Type 0 where
  pub busy : w.write_id ≢ 0
  pub fits : w.requested_size < 2 ^ 64
  pub room : w.processed < w.requested_size
  pub in_hand : w.pending ≡ old ++ missing w ∷ []

-- The state when the stream has taken `k` bytes.
abbrev pub taken : Writer → List (Request Handler) → ℕ → Writer
taken w old k = record w {
  sent = w.sent ++ peek w.mem (w.src + w.processed) k;
  env = record w.env {
    pending = old;
    files = logged w.tx_dump w.files (peek w.mem (w.src + w.processed) k);
  };
}

-- A completion with no error is recorded, if a dump is open, and goes on in the handler.
dump_bytes-logged :
    (w : Writer) (name addr k : ℕ)
    → w.tx_dump ≡ some name
    → dump_bytes w addr success k
      ≡ record w { env = record w.env { files = append_file w.files name (peek w.mem addr k) } }
unfolding dump_bytes
dump_bytes-logged w name addr k e =
    ap {B = Writer}
      (λ o. elim o [
        | none ↦ w
        | some f ↦ record w {
          env = record w.env { files = append_file w.files f (peek w.mem addr k) };
        }
      ])
      e

run_handler-wrapped :
    (o : Option ℕ) (h : Handler) (addr k : ℕ) (w : Writer)
    → w.tx_dump ≡ o
    → run_handler (wrapped o h addr) w success k
      ≡ run_handler h
          (record w { env = record w.env { files = logged o w.files (peek w.mem addr k) } })
          success
          k
unfolding run_handler
run_handler-wrapped none h addr k w e = refl
run_handler-wrapped (some name) h addr k w e =
    ap (λ v. run_handler h v success k) (dump_bytes-logged w name addr k e)

pub do_write_some-wrapped :
    (w : Writer) (n p : ℕ) (h : Handler)
    → do_write_some w n p h ≡ record w { env = submit w.env n p (wrapped w.tx_dump h p) }
unfolding do_write_some dump_enabled
do_write_some-wrapped w n p h = elim (Option-cases w.tx_dump) [
  | inl off ↦ rw off refl
  | inr (name, on) ↦ rw on refl
]

pub completes-taken :
    {w : Writer} {old : List (Request Handler)} (k : ℕ)
    → Writing w old
    → step (completes (length old) k success) w
      ≡ async_write_continue (taken w old k) w.write_id success k
unfolding step complete_at run_handler
completes-taken {w} {old} k v =
    ap (λ qs. complete_at w (length old) (get_elem? qs (length old)) k success) v.in_hand
    ∙ ap (λ o. complete_at w (length old) o k success) (get_elem?-last old (missing w))
    ∙ run_handler-wrapped w.tx_dump (write_continue w.write_id) (w.src + w.processed) k _ refl
    ∙ ap
        (λ qs.
          async_write_continue
            (record (taken w old k) { env = record (taken w old k).env { pending = qs } })
            w.write_id success k)
        (ap (λ qs. erase_idx qs (length old)) v.in_hand ∙ erase_idx-last old (missing w))

-- `taken`, with the bytes counted and the next operation handed to the stream.
abbrev pub advanced : Writer → List (Request Handler) → ℕ → Writer
advanced w old k =
    let t : Writer = record (taken w old k) { processed = w.processed + k } in
    record t { env = record t.env { pending = old ++ missing t ∷ [] } }

-- `taken`, with the bytes counted and the callback posted.
abbrev pub ended : Writer → List (Request Handler) → ℕ → Writer
ended w old k = record (taken w old k) {
  processed = w.processed + k;
  write_id = 0;
  env = post (taken w old k).env (call w.callback) success (w.processed + k);
}

pub continue-advanced :
    {w : Writer} {old : List (Request Handler)} (k : ℕ)
    → Writing w old
    → w.processed + k < w.requested_size
    → async_write_continue (taken w old k) w.write_id success k ≡ advanced w old k
unfolding async_write_continue submit
continue-advanced {w} {old} k v more =
    rw
      (
        ≡→== w.write_id w.write_id refl,
        sum,
        lt→ltb (w.processed + k) w.requested_size more,
        do_write_some-wrapped,
      )
      refl
  where
    sum : add_size w.processed k ≡ w.processed + k
    sum = omega (arith, v.fits)

pub continue-ended :
    {w : Writer} {old : List (Request Handler)} (k : ℕ)
    → Writing w old
    → w.processed + k ≡ w.requested_size
    → async_write_continue (taken w old k) w.write_id success k ≡ ended w old k
unfolding async_write_continue finish_write
continue-ended {w} {old} k v all =
    rw
      (
        ≡→== w.write_id w.write_id refl,
        sum,
        le→not-ltb (w.processed + k) w.requested_size (omega arith),
        ≢→== w.write_id 0 v.busy,
      )
      refl
  where
    sum : add_size w.processed k ≡ w.processed + k
    sum = omega (arith, v.fits)

pub advanced-Writing :
    {w : Writer} {old : List (Request Handler)} (k : ℕ)
    → Writing w old
    → w.processed + k < w.requested_size
    → Writing (advanced w old k) old
advanced-Writing k v more = record { busy = v.busy; fits = v.fits; room = more; in_hand = refl }
