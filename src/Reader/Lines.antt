-- ===== src/Reader/Lines.antt =====
-- src/StreamReader.cpp, `async_read_until_continue`, on each of its branches: what is delivered, what
-- is saved in `readBuffer_`, and what is asked for next.
use rtac_asio.Prelude.{
  ℕ, zero, suc, ◌+◌, ◌-◌, ◌^◌, ◌≤◌, ◌<◌, ◌≡◌, ◌≢◌, ◌⊎◌, refl, sym, ap, ap₂, subst, ◌∙◌, true, false,
  ◌||◌, none, some, List, [], ◌∷◌, ◌++◌, if◌then◌else◌, ◌==◌, leb, arith, length, length-append,
  ≡→==, ≢→==, append_assoc, add_size,
}
use rtac_asio.Memory.{Bytes, peek, length-peek}
use rtac_asio.Service.{ErrorCode, success, post}
use rtac_asio.Streambuf.{Streambuf}
use rtac_asio.Reader.{call, read_until_continue, Reader, finish_read, do_read_some}
use rtac_asio.Reader.Until.{find_delimiter, async_read_until_continue}
use rtac_asio.Reader.Delimiter.{Lacks, find_delimiter_first, find_delimiter-none, save_lem}

peek_behind :
    (m : Bytes) (p n : ℕ) (xs ys : List ℕ)
    → peek m p n ≡ xs ++ ys
    → peek m (p + length xs) (n - length xs) ≡ ys
peek_behind m p n [] ys e = ap₂ (peek m) (omega arith) (omega arith) ∙ e
peek_behind m p zero (x ∷ xs) ys e = cc
peek_behind m p (suc n) (x ∷ xs) ys e =
    let tail : peek m (p + 1) n ≡ xs ++ ys = cc in
    ap₂ (peek m) (omega arith) (omega arith) ∙ peek_behind m (p + 1) n xs ys tail

module _ {B : Type 0} ⦃s : Streambuf B⦄ where
  -- The stream has delivered, to a `read_until` in progress, bytes that hold the delimiter's
  -- value. The read ends, with the stream's error code: the callback is told the bytes up to the
  -- first delimiter, which stand in the caller's buffer, and those behind it go, in order and all, to
  -- the end of `readBuffer_`; memory and the stream's operations are as they were.
  pub async_read_until_continue_found :
      (r : Reader B) (d : ℕ) (err : ErrorCode) (n : ℕ) (before after : List ℕ)
      → r.read_id ≢ 0
      → Lacks d before
      → peek r.mem (r.dst + r.processed) n ≡ before ++ d ∷ after
      → r.processed + n < 2 ^ 64
      → let r' = async_read_until_continue r r.read_id d err n in
        (r'.posted
          ≡ r.posted
            ++ record {
              handler = call r.callback;
              err = err;
              count = r.processed + (length before + 1);
            }
              ∷ [])
        × (s.contents r'.read_buffer ≡ s.contents r.read_buffer ++ after)
        × (r'.read_id ≡ 0)
        × (r'.mem ≡ r.mem)
        × (r'.pending ≡ r.pending)
  unfolding async_read_until_continue finish_read post
  async_read_until_continue_found r d err n before after busy lacks got fits =
      rw (≡→== r.read_id r.read_id refl, found, ≢→== r.read_id 0 busy, counted)
        (
          refl,
          save_lem (n - i) i r.mem p r.read_buffer ∙ ap (◌++◌ (s.contents r.read_buffer)) kept,
          refl,
          refl,
          refl,
        )
    where
      p : ℕ
      p = r.dst + r.processed

      i : ℕ
      i = length before + 1

      found : find_delimiter r.mem p d n 0 ≡ some i
      found =
          find_delimiter_first r.mem p d n 0 before after lacks
            (ap (λ q. peek r.mem q n) (omega arith) ∙ got)
          ∙ ap some (omega arith)

      all : peek r.mem p n ≡ (before ++ d ∷ []) ++ after
      all = got ∙ sym (append_assoc before (d ∷ []) after)

      head : length (before ++ d ∷ []) ≡ i
      head = length-append before (d ∷ [])

      kept : peek r.mem (p + i) (n - i) ≡ after
      kept =
          ap (λ k. peek r.mem (p + k) (n - k)) (sym head)
          ∙ peek_behind r.mem p n (before ++ d ∷ []) after all

      count_le : i ≤ n
      count_le =
          omega (arith, ap length got, length-peek r.mem p n, length-append before (d ∷ after))

      counted : add_size r.processed i ≡ r.processed + i
      counted = omega (arith, count_le)

  -- The bytes hold no delimiter, there was no error, and room is left: the read goes on, asking the
  -- stream for as many bytes as are missing, just behind those that it has.
  pub async_read_until_continue_more :
      (r : Reader B) (d n : ℕ)
      → Lacks d (peek r.mem (r.dst + r.processed) n)
      → r.processed + n < r.requested_size
      → r.requested_size < 2 ^ 64
      → async_read_until_continue r r.read_id d success n
        ≡ do_read_some
            (record r { processed = r.processed + n })
            (r.requested_size - (r.processed + n))
            (r.dst + (r.processed + n))
            (read_until_continue r.read_id d)
  unfolding async_read_until_continue
  async_read_until_continue_more r d n lacks room fits =
      rw (≡→== r.read_id r.read_id refl, absent, counted, open_room) refl
    where
      absent : find_delimiter r.mem (r.dst + r.processed) d n 0 ≡ none
      absent =
          find_delimiter-none r.mem (r.dst + r.processed) d n 0
            (subst (Lacks d) (ap (λ q. peek r.mem q n) (omega arith)) lacks)

      counted : add_size r.processed n ≡ r.processed + n
      counted = omega arith

      open_room : leb r.requested_size (r.processed + n) ≡ false
      open_room = ground arith

  -- The bytes that the stream has delivered to a `read_until` in progress hold no delimiter, and the
  -- caller's buffer is full or the stream reports an error: the read ends with that code and all its
  -- bytes, and nothing is saved.
  pub async_read_until_continue_ends :
      (r : Reader B) (d : ℕ) (err : ErrorCode) (n : ℕ)
      → r.read_id ≢ 0
      → Lacks d (peek r.mem (r.dst + r.processed) n)
      → (err ≢ success) ⊎ (r.requested_size ≤ r.processed + n)
      → r.processed + n < 2 ^ 64
      → async_read_until_continue r r.read_id d err n ≡ record r {
        processed = r.processed + n;
        read_id = 0;
        env = post r.env (call r.callback) err (r.processed + n);
      }
  unfolding async_read_until_continue finish_read
  async_read_until_continue_ends r d err n busy lacks over fits =
      rw (≡→== r.read_id r.read_id refl, absent, counted, stops, ≢→== r.read_id 0 busy) refl
    where
      absent : find_delimiter r.mem (r.dst + r.processed) d n 0 ≡ none
      absent =
          find_delimiter-none r.mem (r.dst + r.processed) d n 0
            (subst (Lacks d) (ap (λ q. peek r.mem q n) (omega arith)) lacks)

      counted : add_size r.processed n ≡ r.processed + n
      counted = omega arith

      stops :
          (if err == success then false else true) || leb r.requested_size (r.processed + n) ≡ true
      stops = ground (arith, over)
