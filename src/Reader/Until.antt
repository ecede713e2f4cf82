-- ===== src/Reader/Until.antt =====
-- src/StreamReader.cpp, `async_read_until`, its continuation and `read_until`.
use rtac_asio.Prelude.{
  ℕ, zero, suc, ◌+◌, ◌-◌, ◌%◌, Bool, true, false, ◌||◌, Option, none, some, if◌then◌else◌, ◌==◌,
  ltb, leb, add_size,
}
use rtac_asio.Memory.{Bytes, poke}
use rtac_asio.Service.{ErrorCode, success}
use rtac_asio.Streambuf.{Streambuf}
use rtac_asio.Reader.{
  Callback, read_callback, read_until_continue, Reader, new_read, finish_read, readid_ok,
  do_read_some,
}

-- A delimiter is a `char`, given by its value as an `int`, modulo 2 ^ 32. Where `char` is unsigned it
-- is below 256; where it is signed it is below 128, or from 2 ^ 32 - 128 on for a negative one.
-- `data[i] == delimiter` compares two `int`: the `uint8_t` promotes to the same number.
abbrev pub equals_char : ℕ → ℕ → Bool
equals_char byte delimiter = byte == delimiter

-- The byte that a `char` is stored as. `c == delimiter` compares two `char`, which are equal when
-- their bytes are.
unfoldable pub char_byte : ℕ → ℕ
char_byte delimiter = delimiter % 256

-- `for(; i < readCount; i++)`: the count that `i++` has reached just behind the delimiter. The first
-- number is `readCount - i`.
unfoldable pub find_delimiter : Bytes → ℕ → ℕ → ℕ → ℕ → Option ℕ
find_delimiter m p delimiter zero i = none
find_delimiter m p delimiter (suc k) i =
    let rest = find_delimiter m p delimiter k (i + 1) in
    if equals_char (m (p + i)) delimiter then some (i + 1) else rest

module _ {B : Type 0} ⦃s : Streambuf B⦄ where
  -- `for(j = i; j < readCount; j++) os << data[j];`: the first number is `readCount - j`.
  unfoldable pub save : ℕ → ℕ → Bytes → ℕ → B → B
  save zero j m p b = b
  save (suc k) j m p b = save k (j + 1) m p (s.put b (m (p + j)))

  -- The loop over `readBuffer_`, `c` the byte that `get` returned last. It says whether it ended
  -- by `return true`. Fuel above the buffer's size is enough: each round but the last takes a byte.
  -- `processed_` counts bytes that the buffer held, so it cannot wrap.
  unfoldable pub scan : ℕ → Option ℕ → ℕ → Reader B → Bool × Reader B
  scan zero c delimiter r = (false, r)
  scan (suc fuel) none delimiter r = (false, r)
  scan (suc fuel) (some c) delimiter r =
      let r' : Reader B = record r {
        processed = r.processed + 1;
        env = record r.env { mem = poke r.mem (r.dst + r.processed) c };
      } in
      let (next, b) = s.get r.read_buffer in
      let rest = scan fuel next delimiter (record r' { read_buffer = b }) in
      if c == char_byte delimiter || leb r'.requested_size r'.processed
      then (true, finish_read r' success)
      else rest

  -- Both `std::istream is(&readBuffer_)` and the loop; nothing happens on an empty buffer.
  unfoldable pub scan_buffer : ℕ → Reader B → Bool × Reader B
  scan_buffer delimiter r =
      if ltb 0 (s.size r.read_buffer)
      then (let (c, b) = s.get r.read_buffer in
          scan (suc (s.size r.read_buffer)) c delimiter (record r { read_buffer = b }))
      else (false, r)

  unfoldable pub async_read_until : Reader B → ℕ → ℕ → ℕ → Callback → ℕ → Bool × Reader B
  async_read_until r max_size addr delimiter callback timeout_millis =
      let (started, r') = new_read r max_size addr callback timeout_millis in
      if started
      then (let (found, r'') = scan_buffer delimiter r' in
          if found then (true, r'') else (
            true,
            do_read_some r'' r''.requested_size (r''.dst + r''.processed)
                (read_until_continue r''.read_id delimiter),
          ))
      else (false, r')

  unfoldable pub async_read_until_continue : Reader B → ℕ → ℕ → ErrorCode → ℕ → Reader B
  unfolding readid_ok
  async_read_until_continue r read_id delimiter err read_count =
      let p = r.dst + r.processed in
      let r' : Reader B = record r { processed = add_size r.processed read_count } in
      if readid_ok r read_id
      then (elim (find_delimiter r.mem p delimiter read_count 0) [
        | some i ↦
            finish_read
              (record r {
                read_buffer = save (read_count - i) i r.mem p r.read_buffer;
                processed = add_size r.processed i;
              })
              err
        | none ↦
            if (if err == success then false else true) || leb r'.requested_size r'.processed
            then finish_read r' err
            else do_read_some r' (r'.requested_size - r'.processed) (r'.dst + r'.processed)
                (read_until_continue read_id delimiter)
      ])
      else r

  -- The synchronous `read_until`, up to the wait for `waiter_`; it goes on as `read_end`.
  unfoldable pub read_until_begin : Reader B → ℕ → ℕ → ℕ → ℕ → Bool × Reader B
  read_until_begin r max_size addr delimiter timeout_millis =
      let (started, r') = async_read_until r max_size addr delimiter read_callback timeout_millis in
      if started then (true, record r' { waiter_notified = false }) else (false, r')
