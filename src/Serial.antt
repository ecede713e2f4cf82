-- ===== src/Serial.antt =====
-- include/rtac_asio/SerialStream.h and src/SerialStream.cpp: the port's life. Reads and writes are the
-- port's, handed on unchanged.
pub mod Configure
pub mod Lawful
mod Tests
use rtac_asio.Prelude.{ℕ, Bool, true, false, Option, none, some, List, [], ◌∷◌, if◌then◌else◌, ◌==◌}
use rtac_asio.Service.{ErrorCode, success, Env, submit}
use mathlib.Core.Option
use rtac_asio.Interface.{StreamInterface}
use rtac_asio.SerialPort.{
  Setting, baud_rate, character_size, parity, flow_control, stop_bits, SerialPorts,
}

pub record Parameters : Type 0 where
  pub baudrate : ℕ
  pub character_size : ℕ
  pub parity : ℕ
  pub flow_control : ℕ
  pub stop_bits : ℕ

-- The constructor, with 115200 for `bauds` where none is given; the other arguments are
-- `parity::none`, `flow_control::none` and `stop_bits::one` of `boost::asio::serial_port`.
abbrev pub parameters_of : ℕ → ℕ → ℕ → ℕ → Parameters
parameters_of parity_none flow_control_none stop_bits_one bauds = record {
  baudrate = bauds;
  character_size = 8;
  parity = parity_none;
  flow_control = flow_control_none;
  stop_bits = stop_bits_one;
}

pub record Serial (S : Type 0) : Type 0 where
  pub device : ℕ
  pub parameters : Parameters
  pub serial : Option S

-- The calls of `set_option`, in their order.
abbrev pub settings : Parameters → List (Setting × ℕ)
settings p =
    (baud_rate, p.baudrate)
    ∷ (character_size, p.character_size)
    ∷ (parity, p.parity)
    ∷ (flow_control, p.flow_control)
    ∷ (stop_bits, p.stop_bits)
    ∷ []

-- TCIOFLUSH
abbrev pub flush_both : ℕ
flush_both = 2

module _ {S : Type 0} ⦃k : SerialPorts S⦄ where
  unfoldable pub is_open : Serial S → Bool
  is_open t = elim t.serial [ none ↦ false | some s ↦ k.is_open s ]

  -- Both calls may throw, which is caught; `serial_` becomes null in any case.
  unfoldable pub close_on : Serial S → S → Serial S
  close_on t s = elim (k.cancel s) [
    | none ↦ record t { serial = none }
    | some s' ↦ elim (k.close s') [
      | none ↦ record t { serial = none }
      | some _ ↦ record t { serial = none }
    ]
  ]

  unfoldable pub close : Serial S → Serial S
  close t = if is_open t then (elim t.serial [ none ↦ t | some s ↦ close_on t s ]) else t

  unfoldable pub set_options : List (Setting × ℕ) → S → S × Bool
  set_options [] s = (s, true)
  set_options (o ∷ os) s =
      let later = set_options os (k.set_option s o.0 o.1).0 in
      if (k.set_option s o.0 o.1).1 then later else ((k.set_option s o.0 o.1).0, false)

  -- The end of `reset`: an error of `tcflush` is thrown.
  unfoldable pub flush_port : Serial S → S × Bool → Bool × Serial S
  flush_port t configured =
      if configured.1
      then (let (s', err) = k.tcflush configured.0 flush_both in
          (err == success, record t { serial = some s' }))
      else (false, record t { serial = some configured.0 })

  -- `false` is a thrown exception.
  unfoldable pub reset : Serial S → Bool × Serial S
  reset t =
      let t' = close t in
      elim (k.open_device t'.device) [
        | none ↦ (false, t')
        | some s ↦ flush_port t' (set_options (settings t'.parameters) s)
      ]

  unfoldable pub reset_to : Serial S → Parameters → Bool × Serial S
  reset_to t params = reset (record t { parameters = params })

  unfoldable pub construct : ℕ → Parameters → Bool × Serial S
  construct device params = reset (record { device = device; parameters = params; serial = none })

  -- `flush(flushType)`, with what it returns; `none` is the use of a null `serial_`.
  unfoldable pub flush : Serial S → ℕ → Option (ErrorCode × Serial S)
  flush t flush_type = elim t.serial [
    | none ↦ none
    | some s ↦ let (s', err) = k.tcflush s flush_type in some (err, record t { serial = some s' })
  ]

  unfoldable pub async_read_some : {H : Type 0} → Serial S → Env H → ℕ → ℕ → H → Option (Env H)
  async_read_some t e buffer_size addr callback = elim t.serial [
    | none ↦ none
    | some _ ↦ some (submit e buffer_size addr callback)
  ]

  unfoldable pub async_write_some : {H : Type 0} → Serial S → Env H → ℕ → ℕ → H → Option (Env H)
  async_write_some t e count addr callback = elim t.serial [
    | none ↦ none
    | some _ ↦ some (submit e count addr callback)
  ]

  -- `flush()` is `flush(FlushBoth)`, whose result it drops.
  instance abbrev pub serial_stream : StreamInterface (Serial S)
  serial_stream = record {
    async_read_some = λ t e n p h. Option.map (λ e'. (t, e')) (async_read_some t e n p h);
    async_write_some = λ t e n p h. Option.map (λ e'. (t, e')) (async_write_some t e n p h);
    flush = λ t. Option.map (λ r. r.1) (flush t flush_both);
    reset = reset;
    is_open = is_open;
  }
