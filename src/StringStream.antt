-- ===== src/StringStream.antt =====
-- include/rtac_asio/StringStream.h: a stream over a circular buffer.
pub mod Fifo
pub mod Lawful
pub mod Refine
mod Tests
use rtac_asio.Prelude.{ℕ, zero, suc, ◌+◌, Bool, true, List, Option, some, if◌then◌else◌, ltb}
use rtac_asio.Memory.{Bytes, poke}
use rtac_asio.Service.{success, Env, post}
use rtac_asio.CircularBuffer.{CircularBuffer}
use rtac_asio.Interface.{StreamInterface}

-- The object: its `buffer_`.
pub record StringStream (B : Type 0) : Type 0 where
  pub buffer : B

-- What a loop leaves: the counter, the caller's memory and `buffer_`.
pub record Loop (B : Type 0) : Type 0 where
  pub counted : ℕ
  pub memory : Bytes
  pub rest : B

module _ {B : Type 0} ⦃k : CircularBuffer B⦄ where
  -- `for(i = 0; i < bufferSize && buffer_.size() > 0; i++)`: the first number is `bufferSize - i`, and
  -- `readCount` is always `i`.
  unfoldable pub read_loop : ℕ → ℕ → ℕ → Bytes → B → Loop B
  read_loop zero i addr m b = record { counted = i; memory = m; rest = b }
  read_loop (suc left) i addr m b =
      let next = read_loop left (i + 1) addr (poke m (addr + i) (k.front b)) (k.pop_front b) in
      if ltb 0 (k.size b) then next else record { counted = i; memory = m; rest = b }

  -- `for(i = 0; i < count && buffer_.size() < buffer_.capacity(); i++)`, in the same way.
  unfoldable pub write_loop : ℕ → ℕ → ℕ → Bytes → B → Loop B
  write_loop zero i addr m b = record { counted = i; memory = m; rest = b }
  write_loop (suc left) i addr m b =
      let next = write_loop left (i + 1) addr m (k.push_back b (m (addr + i))) in
      if ltb (k.size b) (k.capacity b) then next else record { counted = i; memory = m; rest = b }

  unfoldable pub async_read_some : {H : Type 0} → B → Env H → ℕ → ℕ → H → B × Env H
  async_read_some b e buffer_size addr callback =
      let l = read_loop buffer_size 0 addr e.mem b in
      (l.rest, post (record e { mem = l.memory }) callback success l.counted)

  unfoldable pub async_write_some : {H : Type 0} → B → Env H → ℕ → ℕ → H → B × Env H
  async_write_some b e count addr callback =
      let l = write_loop count 0 addr e.mem b in (l.rest, post e callback success l.counted)

  unfoldable pub flush : B → B
  flush b = k.clear b

  unfoldable pub reset : B → B
  reset b = k.clear b

  -- `is_open` is the one of the base class. No operation throws.
  instance abbrev pub string_stream : StreamInterface (StringStream B)
  string_stream = record {
    async_read_some = λ d e n p h.
        let (b, e') = async_read_some d.buffer e n p h in some (record { buffer = b }, e');
    async_write_some = λ d e n p h.
        let (b, e') = async_write_some d.buffer e n p h in some (record { buffer = b }, e');
    flush = λ d. some (record { buffer = flush d.buffer });
    reset = λ d. (true, record { buffer = reset d.buffer });
    is_open = λ d. true;
  }
