-- ===== src/Ppp/Modem.antt =====
-- modules/pico_dev_ppp.c: the commands to the modem.
use fd_picotcp.Prelude.{codes, ℕ, bit_or, List, [], ◌∷◌, ◌++◌, if◌then◌else◌, take}
use fd_picotcp.Ppp.Types.{Io, Ppp, timer_on_modem, default_timer}
use fd_picotcp.Ppp.Wire.{serial_write}

abbrev pub crlf : List ℕ
crlf = 13 ∷ 10 ∷ []

unfoldable pub ppp_modem_start_timer : Io → Io
ppp_modem_start_timer io = record io {
  timer_on = bit_or io.timer_on timer_on_modem;
  timer_val = default_timer;
}

unfoldable pub at_command : List ℕ → Ppp → Io
unfolding ppp_modem_start_timer serial_write
at_command text s = ppp_modem_start_timer (if s.serial_send then serial_write text s.io else s.io)

unfoldable pub ppp_modem_send_reset : Ppp → Io
unfolding at_command
ppp_modem_send_reset s = at_command (codes "ATZ" ++ crlf) s

unfoldable pub ppp_modem_send_echo : Ppp → Io
unfolding at_command
ppp_modem_send_echo s = at_command (codes "ATE0" ++ crlf) s

unfoldable pub ppp_modem_send_creg : Ppp → Io
unfolding at_command
ppp_modem_send_creg s = at_command (codes "AT+CREG=1" ++ crlf) s

unfoldable pub ppp_modem_send_cgreg : Ppp → Io
unfolding at_command
ppp_modem_send_cgreg s = at_command (codes "AT+CGREG=1" ++ crlf) s

-- `snprintf` into 200 bytes.
unfoldable pub ppp_modem_send_cgdcont : Ppp → Io
unfolding at_command
ppp_modem_send_cgdcont s =
    at_command
      (take 199 (
        codes "AT+CGDCONT=1,"
        ++ (34 ∷ codes "IP" ++ (34 ∷ codes "," ++ (34 ∷ s.apn ++ (34 ∷ codes ",,," ++ crlf))))))
      s

unfoldable pub ppp_modem_send_cgatt : Ppp → Io
unfolding at_command
ppp_modem_send_cgatt s = at_command (codes "AT+CGATT=1" ++ crlf) s

unfoldable pub ppp_modem_send_dial : Ppp → Io
unfolding at_command
ppp_modem_send_dial s =
    let io = at_command (codes "ATD*99***1#" ++ crlf) s in record io { timer_val = 20 }

-- The first part of `ppp_modem_disconnected`.
unfoldable pub send_hang_up : Ppp → Io
unfolding serial_write
send_hang_up s = if s.serial_send then serial_write (codes "+++ATH" ++ crlf) s.io else s.io
