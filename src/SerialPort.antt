-- ===== src/SerialPort.antt =====
-- `boost::asio::serial_port` and `tcflush`, as far as SerialStream uses them, with what their
-- documentation says.
use rtac_asio.Prelude.{
  ℕ, zero, suc, ◌≡◌, ◌≢◌, refl, Bool, true, false, Option, none, some, if◌then◌else◌, ◌==◌, ≡→==,
  ≢→==, ap, sym,
}
use rtac_asio.Service.{ErrorCode, success}

-- The options of a port.
pub data Setting : Type 0 where
  baud_rate character_size parity flow_control stop_bits : Setting

abbrev pub setting_number : Setting → ℕ
setting_number baud_rate = 0
setting_number character_size = 1
setting_number parity = 2
setting_number flow_control = 3
setting_number stop_bits = 4

pub record SerialPorts (S : Type 0) : Type 0 where
  -- The constructor, on a device; `none` is a thrown exception.
  pub open_device : ℕ → Option S
  pub is_open : S → Bool
  -- The device that the port was made on.
  pub device : S → ℕ
  pub option : S → Setting → ℕ
  -- `none` is a thrown exception.
  pub cancel : S → Option S
  pub close : S → Option S
  -- `false` is a thrown exception.
  pub set_option : S → Setting → ℕ → S × Bool
  -- `tcflush` on the port's handle, and `errno` if it failed.
  pub tcflush : S → ℕ → S × ErrorCode
  pub open_device_lem : (d : ℕ) (s : S) → open_device d ≡ some s → is_open s ≡ true
  pub open_device_device : (d : ℕ) (s : S) → open_device d ≡ some s → device s ≡ d
  pub set_option_device : (s : S) (k : Setting) (v : ℕ) → device (set_option s k v).0 ≡ device s
  pub tcflush_device : (s : S) (n : ℕ) → device (tcflush s n).0 ≡ device s
  pub set_option_open : (s : S) (k : Setting) (v : ℕ) → is_open (set_option s k v).0 ≡ is_open s
  pub set_option_lem :
      (s : S) (k : Setting) (v : ℕ)
      → (set_option s k v).1 ≡ true
      → option (set_option s k v).0 k ≡ v
  pub set_option_other :
      (s : S) (k l : Setting) (v : ℕ)
      → setting_number k ≢ setting_number l
      → option (set_option s k v).0 l ≡ option s l
  pub tcflush_open : (s : S) (n : ℕ) → is_open (tcflush s n).0 ≡ is_open s
  pub tcflush_option : (s : S) (n : ℕ) (k : Setting) → option (tcflush s n).0 k ≡ option s k

-- A port is its device, whether it is open, and its options. Device 0 does not exist.
pub record Port : Type 0 where
  pub device : ℕ
  pub opened : Bool
  pub options : ℕ → ℕ

abbrev pub set_port : Port → Setting → ℕ → Port
set_port s k v = record s { options = λ l. if setting_number k == l then v else s.options l }

abbrev pub port_at : ℕ → Option Port
port_at zero = none
port_at (suc d) = some (record { device = suc d; opened = true; options = λ _. 0 })

pub port_at_lem : (d : ℕ) (s : Port) → port_at d ≡ some s → s.opened ≡ true
port_at_lem zero s e = cc
port_at_lem (suc d) s e = ap (λ o. elim o [ none ↦ true | some t ↦ t.opened ]) (sym e)

pub port_at_device : (d : ℕ) (s : Port) → port_at d ≡ some s → s.device ≡ d
port_at_device zero s e = cc
port_at_device (suc d) s e = ap (λ o. elim o [ none ↦ suc d | some t ↦ t.device ]) (sym e)

instance abbrev pub list_ports : SerialPorts Port
list_ports = record {
  open_device = port_at;
  is_open = λ s. s.opened;
  device = λ s. s.device;
  option = λ s k. s.options (setting_number k);
  cancel = λ s. some s;
  close = λ s. some (record s { opened = false });
  set_option = λ s k v. (set_port s k v, true);
  tcflush = λ s n. (s, success);
  open_device_lem = port_at_lem;
  open_device_device = port_at_device;
  set_option_device = λ s k v. refl;
  tcflush_device = λ s n. refl;
  set_option_open = λ s k v. refl;
  set_option_lem = λ s k v h.
      ap (λ b. if b then v else s.options (setting_number k))
        (≡→== (setting_number k) (setting_number k) refl);
  set_option_other = λ s k l v ne.
      ap (λ b. if b then v else s.options (setting_number l))
        (≢→== (setting_number k) (setting_number l) ne);
  tcflush_open = λ s n. refl;
  tcflush_option = λ s n k. refl;
}
