-- ===== src/Ppp/Ops.antt =====
-- Histories of modules/pico_dev_ppp.c: what the program and the stack do with a device, in any order, with
-- whatever the serial line brings.
use fd_picotcp.Prelude.{ℕ, Bool, false, List, Option, some, ◌>>=◌, ◌≡◌}
use fd_picotcp.Ppp.Types.{Ppp}
use fd_picotcp.Ppp.Wire.{pico_ppp_send}
use fd_picotcp.Ppp.Poll.{Line, pico_ppp_poll}
use fd_picotcp.Ppp.Device.{
  World, pico_ppp_create, pico_ppp_connect, pico_ppp_disconnect, pico_ppp_tick,
  pico_ppp_set_serial_read, pico_ppp_set_serial_write, pico_ppp_set_serial_set_speed,
  pico_ppp_set_apn, pico_ppp_set_username, pico_ppp_set_password,
}

-- A device, with the static variables of `pico_ppp_poll`.
pub record Driver : Type 0 where
  pub device : Ppp
  pub line : Line

pub data DriverOp : Type 0 where
  op_poll : List ℕ → ℕ → DriverOp
  op_tick : DriverOp
  op_send : List ℕ → DriverOp
  op_connect : DriverOp
  op_disconnect : DriverOp
  op_set_serial_read : Bool → DriverOp
  op_set_serial_write : Bool → DriverOp
  op_set_serial_set_speed : Bool → DriverOp
  op_set_apn : Option (List ℕ) → DriverOp
  op_set_username : Option (List ℕ) → DriverOp
  op_set_password : Option (List ℕ) → DriverOp

abbrev pub on_device : Driver → Option Ppp → Option Driver
on_device d r = r >>= λ s. some (record d { device = s })

unfoldable pub run_driver : DriverOp → Driver → Option Driver
run_driver (op_poll input score) d = pico_ppp_poll input d.device d.line score >>= λ r.
    some (record { device = r.device; line = r.line })
run_driver op_tick d = on_device d (pico_ppp_tick d.device)
run_driver (op_send buf) d =
    on_device d (some (record d.device { io = pico_ppp_send d.device buf }))
run_driver op_connect d = on_device d (some (pico_ppp_connect d.device))
run_driver op_disconnect d = on_device d (pico_ppp_disconnect d.device)
run_driver (op_set_serial_read f) d = on_device d (some (pico_ppp_set_serial_read d.device f))
run_driver (op_set_serial_write f) d = on_device d (some (pico_ppp_set_serial_write d.device f))
run_driver (op_set_serial_set_speed f) d =
    on_device d (some (pico_ppp_set_serial_set_speed d.device f))
run_driver (op_set_apn text) d = on_device d (some (pico_ppp_set_apn d.device text))
run_driver (op_set_username text) d = on_device d (some (pico_ppp_set_username d.device text))
run_driver (op_set_password text) d = on_device d (some (pico_ppp_set_password d.device text))

-- The static variables at the start.
abbrev pub first_line : Line
first_line = record { at = 0; control_escape = false; s3 = false }

-- The states that a device can come to from its creation.
pub data Lives (w : World) (rand : ℕ) : Driver → Type 0 where
  created :
      {s : Ppp} (init_ok : Bool)
      → pico_ppp_create w init_ok rand ≡ some s
      → Lives w rand (record { device = s; line = first_line })
  then_op :
      {d e : Driver} (o : DriverOp) → Lives w rand d → run_driver o d ≡ some e → Lives w rand e
