-- ===== src/Writer/Whole.antt =====
-- src/StreamWriter.cpp, `async_write` and its continuation, over all the pieces that the stream takes.
use native.Mathlib.Decide.{dec_lt}
use rtac_asio.Prelude.{
  ℕ, ◌+◌, ◌-◌, ◌^◌, ◌<◌, ◌≡◌, refl, sym, ap, ap₂, ◌∙◌, subst, Bool, true, false, none, some, List,
  [], ◌∷◌, ◌++◌, append-nil, append_assoc, arith, if◌then◌else◌, ◌==◌, add_uint, ≡→==, length,
  get_elem?, get_elem?-length,
}
use rtac_asio.Memory.{peek, peek-append}
use rtac_asio.Service.{
  success, Request, post, submit, arm, arm-pending, arm-posted, arm-mem, arm-files,
}
use rtac_asio.Service.Files.{logged_lem}
use rtac_asio.Writer.{Callback, Handler, call, write_continue, Writer, new_write, async_write}
use rtac_asio.Writer.Run.{Event, completes, complete_at, step, run}
use rtac_asio.Writer.Pieces.{
  Writing, wrapped, advanced, ended, completes-taken, continue-advanced, continue-ended,
  advanced-Writing, do_write_some-wrapped,
}

abbrev pub sum : List ℕ → ℕ
sum [] = 0
sum (k ∷ ks) = k + sum ks

abbrev pub dumps_to : Writer → ℕ → Bool
dumps_to w f = elim w.tx_dump [ none ↦ false | some name ↦ name == f ]

if-append :
    (b : Bool) (xs ys zs : List ℕ)
    → (xs ++ (if b then ys else [])) ++ (if b then zs else []) ≡ xs ++ (if b then ys ++ zs else [])
if-append true xs ys zs = append_assoc xs ys zs
if-append false xs ys zs = append-nil (xs ++ [])

-- The stream ends one operation after the other, each time having taken some bytes.
abbrev pub deliveries : List (Request Handler) → List ℕ → List Event
deliveries old [] = []
deliveries old (k ∷ ks) = completes (length old) k success ∷ deliveries old ks

deliveries-idle :
    (old : List (Request Handler)) (ks : List ℕ) (w : Writer)
    → w.pending ≡ old
    → run (deliveries old ks) w ≡ w
unfolding run step complete_at
deliveries-idle old [] w e = refl
deliveries-idle old (k ∷ ks) w e =
    ap (run (deliveries old ks)) (
      ap (λ o. complete_at w (length old) o k success)
        (ap (λ qs. get_elem? qs (length old)) e ∙ get_elem?-length old))
    ∙ deliveries-idle old ks w e

-- The state when a write has given the stream the `rest` bytes that were left, against its state before.
record Puts (w : Writer) (old : List (Request Handler)) (rest : ℕ) (w' : Writer) : Type 0 where
  idle : w'.write_id ≡ 0
  counted : w'.processed ≡ w.requested_size
  taken : w'.sent ≡ w.sent ++ peek w.mem (w.src + w.processed) rest
  noted :
      (f : ℕ)
      → w'.files f
        ≡ w.files f ++ (if dumps_to w f then peek w.mem (w.src + w.processed) rest else [])
  told :
      w'.posted
      ≡ w.posted
        ++ record { handler = call w.callback; err = success; count = w.requested_size } ∷ []
  in_hand : w'.pending ≡ old
  same : w'.mem ≡ w.mem

Writing-Puts :
    (ks : List ℕ) {w : Writer} {old : List (Request Handler)}
    → Writing w old
    → w.processed + sum ks ≡ w.requested_size
    → Puts w old (sum ks) (run (deliveries old ks) w)
unfolding run post
Writing-Puts [] v total = absurd (omega (arith, v.room))
Writing-Puts (k ∷ ks) {w} {old} v total = elim (dec_lt (w.processed + k) w.requested_size) [
  | yes more ↦
      let later =
        Writing-Puts ks {w = advanced w old k} {old = old} (advanced-Writing k v more)
          (omega (arith, total)) in
      let state : step (completes (length old) k success) w ≡ advanced w old k =
        completes-taken k v ∙ continue-advanced k v more in
      subst (Puts w old (k + sum ks)) (sym (ap (run (deliveries old ks)) state)) (record {
        idle = later.idle;
        counted = later.counted;
        taken =
            later.taken
            ∙ append_assoc w.sent (peek w.mem p k) (peek w.mem (w.src + (w.processed + k)) (sum ks))
            ∙ ap (◌++◌ w.sent) (whole (sum ks));
        noted = λ f.
            later.noted f
            ∙ ap
                (λ x.
                  x
                  ++ (if dumps_to w f then peek w.mem (w.src + (w.processed + k)) (sum ks) else []))
                (logged_lem w.tx_dump w.files (peek w.mem p k) f)
            ∙ if-append (dumps_to w f) (w.files f) (peek w.mem p k)
                (peek w.mem (w.src + (w.processed + k)) (sum ks))
            ∙ ap (λ x. w.files f ++ (if dumps_to w f then x else [])) (whole (sum ks));
        told = later.told;
        in_hand = later.in_hand;
        same = later.same;
      })
  | no last ↦
      let exact : w.processed + k ≡ w.requested_size = omega (arith, total) in
      let none_left : k ≡ k + sum ks = omega (arith, total) in
      let state : step (completes (length old) k success) w ≡ ended w old k =
        completes-taken k v ∙ continue-ended k v exact in
      subst (Puts w old (k + sum ks))
        (sym (ap (run (deliveries old ks)) state ∙ deliveries-idle old ks (ended w old k) refl))
        (record {
          idle = refl;
          counted = exact;
          taken = ap (λ n. w.sent ++ peek w.mem p n) none_left;
          noted = λ f.
              logged_lem w.tx_dump w.files (peek w.mem p k) f
              ∙ ap (λ n. w.files f ++ (if dumps_to w f then peek w.mem p n else [])) none_left;
          told =
              ap
                (λ n.
                  w.posted ++ record { handler = call w.callback; err = success; count = n } ∷ [])
                exact;
          in_hand = refl;
          same = refl;
        })
]
  where
    p : ℕ
    p = w.src + w.processed

    whole :
        (n : ℕ) → peek w.mem p k ++ peek w.mem (w.src + (w.processed + k)) n ≡ peek w.mem p (k + n)
    whole n =
        ap (λ q. peek w.mem p k ++ peek w.mem q n) (omega arith) ∙ sym (peek-append w.mem p k n)

module _ (w : Writer) (n a : ℕ) (c : Callback) (millis : ℕ) where
  -- The state that an accepted `async_write` leaves.
  abbrev pub begun : Writer
  begun =
      let o : Writer = record w {
        write_counter = w.write_counter + 1;
        write_id = w.write_counter + 1;
        requested_size = n;
        processed = 0;
        src = a;
        callback = c;
        env = arm w.env millis (w.write_counter + 1);
      } in
      record o { env = submit o.env n a (wrapped o.tx_dump (write_continue o.write_id) a) }

  pub async_write-begun :
      w.write_id ≡ 0 → w.write_counter + 1 < 2 ^ 32 → async_write w n a c millis ≡ (true, begun)
  unfolding async_write new_write
  async_write-begun idle small = rw (≡→== w.write_id 0 idle, counter, do_write_some-wrapped) refl
    where
      counter : add_uint w.write_counter 1 ≡ w.write_counter + 1
      counter = omega arith

  pub begun-Writing : 0 < n → n < 2 ^ 64 → Writing begun w.pending
  unfolding submit
  begun-Writing pos fits = record {
    busy = λ e. absurd (omega arith);
    fits = fits;
    room = pos;
    in_hand =
        ap
          (λ l.
            l
            ++ record {
              count = n;
              addr = a;
              handler = wrapped w.tx_dump (write_continue (w.write_counter + 1)) a;
            }
              ∷ [])
          (arm-pending w.env millis (w.write_counter + 1))
        ∙ ap₂
            (λ k p.
              w.pending
              ++ record {
                count = k;
                addr = p;
                handler = wrapped w.tx_dump (write_continue (w.write_counter + 1)) p;
              }
                ∷ [])
            whole start;
  }
    where
      start : a ≡ a + 0
      start = omega arith

      whole : n ≡ n - 0
      whole = omega arith

  -- An `async_write` of `n` bytes in an idle writer gives the stream exactly the caller's bytes, each
  -- once and in order, however few the stream takes at a time, when it takes `n` together: the
  -- callback is posted once, with success and `n`, the writer is idle again, with `n` as the count
  -- that a synchronous `write` returns, the file of an open dump gets the same bytes and no other
  -- file changes, and memory and the operations of earlier writes are as they were.
  pub async_write_whole :
      (ks : List ℕ)
      → w.write_id ≡ 0
      → w.write_counter + 1 < 2 ^ 32
      → 0 < n
      → n < 2 ^ 64
      → sum ks ≡ n
      → let w' = run (deliveries w.pending ks) (async_write w n a c millis).1 in
        (w'.sent ≡ w.sent ++ peek w.mem a n)
        × (w'.posted ≡ w.posted ++ record { handler = call c; err = success; count = n } ∷ [])
        × (w'.write_id ≡ 0)
        × (w'.processed ≡ n)
        × ((f : ℕ) → w'.files f ≡ w.files f ++ (if dumps_to w f then peek w.mem a n else []))
        × (w'.mem ≡ w.mem)
        × (w'.pending ≡ w.pending)
  unfolding submit
  async_write_whole ks idle small pos fits total =
      let g =
        Writing-Puts ks {w = begun} {old = w.pending} (begun-Writing pos fits)
          (omega (arith, total)) in
      rw (async_write-begun idle small) (
        g.taken ∙ ap (◌++◌ w.sent) bytes,
        g.told
            ∙ ap (λ l. l ++ record { handler = call c; err = success; count = n } ∷ [])
                (arm-posted w.env millis id),
        g.idle,
        g.counted,
        (λ f.
            g.noted f
            ∙ (λ i. arm-files w.env millis id i f ++ (if dumps_to w f then bytes i else []))),
        g.same ∙ arm-mem w.env millis id,
        g.in_hand,
      )
    where
      start : a ≡ a + 0
      start = omega arith

      id : ℕ
      id = w.write_counter + 1

      bytes : peek (arm w.env millis id).mem (a + 0) (sum ks) ≡ peek w.mem a n
      bytes = λ i. peek (arm-mem w.env millis id i) (sym start i) (total i)
