-- ===== src/Serial/Tests.antt =====
-- The stream of src/SerialStream.cpp on the ports of SerialPort.antt.
use rtac_asio.Prelude.{◌≡◌, refl, true, false, some, none}
use rtac_asio.SerialPort.{
  Port, list_ports, baud_rate, character_size, parity, flow_control, stop_bits, setting_number,
}
use rtac_asio.Serial.{Parameters, Serial, is_open, close, set_options, flush_port, reset, reset_to}
use rtac_asio.Serial.Configure.{reset_configures}

abbrev slow : Parameters
slow = record { baudrate = 9600; character_size = 8; parity = 0; flow_control = 0; stop_bits = 1 }

abbrev unopened : Serial Port
unopened = record { device = 3; parameters = record slow { baudrate = 115200 }; serial = none }

reset_runs : (reset_to unopened slow).0 ≡ true
unfolding reset_to reset set_options flush_port close is_open
reset_runs = refl

no_device : (reset (record unopened { device = 0 })).0 ≡ false
unfolding reset close is_open
no_device = refl

reset_configures_example :
    (s : Port) × ((reset_to unopened slow).1
      ≡ record { device = 3; parameters = slow; serial = some s })
    × (s.opened ≡ true)
    × (s.device ≡ 3)
    × (s.options (setting_number baud_rate) ≡ 9600)
    × (s.options (setting_number character_size) ≡ 8)
    × (s.options (setting_number parity) ≡ 0)
    × (s.options (setting_number flow_control) ≡ 0)
    × (s.options (setting_number stop_bits) ≡ 1)
reset_configures_example = reset_configures unopened slow reset_runs
