-- ===== src/Ppp/Tests.antt =====
-- modules/pico_dev_ppp.c on concrete devices: runs of the definitions, and in the children the
-- theorems applied.
mod Witnesses
use fd_picotcp.Prelude.{
  codes, ℕ, ◌+◌, Bool, true, false, List, [], ◌∷◌, ◌++◌, Option, none, some, ◌>>=◌, ◌≡◌, refl, take,
  drop,
}
use fd_picotcp.Ppp.Types.{
  Control, Request, Config, Addresses, Io, Ppp, ModemState, ModemEvent, LcpState, LcpEvent,
  AuthState, AuthEvent, IpcpState, NetCall, timer_add,
}
use fd_picotcp.Ppp.Wire.{
  ppp_fcs_char, ppp_fcs_continue, ppp_fcs_start, ppp_fcs_finish, ppp_fcs_verify, needs_escape,
  escape_tail, ctl_frame, data_frame, short_be, long_be,
}
use fd_picotcp.Ppp.Modem.{crlf, ppp_modem_send_reset, ppp_modem_send_echo}
use fd_picotcp.Ppp.Engine.{evaluate, run_handlers, run_handler}
use fd_picotcp.Ppp.Poll.{Line, Polled, pico_ppp_poll, ppp_modem_recv}
use fd_picotcp.Ppp.Device.{
  pico_ppp_create, pico_ppp_tick, pico_ppp_connect, pico_ppp_set_serial_write, World,
}
use fd_picotcp.Ppp.Control.Depth.{at}

abbrev pub no_addresses : Addresses
no_addresses = record { ipcp_ip = 0; ipcp_dns1 = 0; ipcp_nbns1 = 0; ipcp_dns2 = 0; ipcp_nbns2 = 0 }

-- A device with its callbacks set, an allocator that never fails, and CHAP as the protocol.
abbrev pub config : Config
config = record {
  autoreconnect = true;
  apn = codes "net";
  password = codes "pw";
  username = codes "me";
  lcpopt_local = 0x18a;
  lcpopt_peer = 0;
  auth = 0xc223;
  serial_recv = true;
  serial_send = true;
  serial_set_speed = false;
  zalloc = λ _. true;
  md5sum = λ m.
      take 16 (m ++ (1 ∷ 2 ∷ 3 ∷ 4 ∷ 5 ∷ 6 ∷ 7 ∷ 8 ∷ 9 ∷ 10 ∷ 11 ∷ 12 ∷ 13 ∷ 14 ∷ 15 ∷ 16 ∷ []));
  stack_byte = λ _. 0;
}

abbrev pub quiet : Io
quiet = record {
  timer_on = 0;
  timer_val = 0;
  timer_count = 0;
  frame_id = 7;
  mru = 1514;
  ipcp_allowed_fields = 0;
  sent = [];
  net_calls = [];
  allocs = 0;
}

-- Behind the frame's four bytes, a configure request that asks for an MRU of 1500.
abbrev pub mru_request : List ℕ
mru_request = 0xff ∷ 0x03 ∷ 0xc0 ∷ 0x21 ∷ 1 ∷ 9 ∷ 0 ∷ 8 ∷ 1 ∷ 4 ∷ 5 ∷ 220 ∷ []

abbrev pub device : Control → Ppp
device c = record {
  control = c;
  request = record { recv_buf = mru_request; pkt = some 4; len = 8; rej = 0 };
  config = config;
  addresses = no_addresses;
  io = quiet;
  received = [];
}

abbrev pub fresh : Control
fresh = at ModemState.initial LcpState.initial AuthState.initial IpcpState.initial

abbrev pub open_link : Control
open_link = at ModemState.connected LcpState.opened AuthState.authenticated IpcpState.opened

abbrev pub line : Line
line = record { at = 0; control_escape = false; s3 = false }

fcs_of_digits : ppp_fcs_finish (ppp_fcs_start (codes "123456789")) ≡ 0x906e
unfolding ppp_fcs_finish ppp_fcs_start ppp_fcs_continue ppp_fcs_char
fcs_of_digits = refl

verify_rejects : ppp_fcs_verify (1 ∷ 2 ∷ 3 ∷ 4 ∷ []) 4 ≡ false
unfolding ppp_fcs_verify ppp_fcs_finish ppp_fcs_start ppp_fcs_continue ppp_fcs_char
verify_rejects = refl

escapes :
    escape_tail (0x11 ∷ 0x7d ∷ 0x7e ∷ 0x7e ∷ []) ≡ 0x11 ∷ 0x7d ∷ 0x5d ∷ 0x7d ∷ 0x5e ∷ 0x7e ∷ []
unfolding escape_tail needs_escape
escapes = refl

byte_orders : (short_be 0xc021 ≡ 0x21c0) × (long_be 0x0a000001 ≡ 0x0100000a)
unfolding short_be long_be
byte_orders = (refl, refl)

-- The check sequence of a data frame does not cover the address and control bytes that are sent in
-- front of it, while the receiver's test takes them in. Without them the frame is accepted.
data_frame_with_address :
    (ppp_fcs_verify (drop 1 (data_frame 0 (69 ∷ []))) 7 ≡ false)
    × (ppp_fcs_verify (drop 1 (data_frame 0x100 (69 ∷ []))) 5 ≡ true)
unfolding ppp_fcs_verify ppp_fcs_finish ppp_fcs_start ppp_fcs_continue ppp_fcs_char data_frame
data_frame_with_address = (refl, refl)

abbrev pub world : World
world = record { zalloc = λ _. true; md5sum = λ m. m; stack_byte = λ _. 0; recv_buf = mru_request }

-- The states, and what went to the line.
abbrev outcome : Option Ppp → Option (Control × List (List ℕ))
outcome none = none
outcome (some s) = some (s.control, s.sent)

-- Creation fails without memory; then the first tick of a connected device resets the modem.
started_by_tick :
    (pico_ppp_create (record world { zalloc = λ _. false }) true 5 ≡ none)
    × (outcome (
          pico_ppp_create world true 5 >>= λ s.
          pico_ppp_tick (pico_ppp_set_serial_write (pico_ppp_connect s) true))
        ≡ some (
          at ModemState.reset LcpState.starting AuthState.initial IpcpState.initial,
          (codes "ATZ" ++ crlf) ∷ [],
        ))
unfolding pico_ppp_create pico_ppp_connect pico_ppp_set_serial_write pico_ppp_tick evaluate
    run_handlers run_handler ppp_modem_send_reset
started_by_tick = (refl, refl)

abbrev device_of : Option Polled → Option Ppp
device_of none = none
device_of (some r) = some r.device

-- The modem's answer leads from one command to the next.
answered :
    outcome (
      device_of (
        pico_ppp_poll
          (codes "OK" ++ crlf)
          (device (at ModemState.reset LcpState.starting AuthState.initial IpcpState.initial))
          line
          10))
    ≡ some (
      at ModemState.echo LcpState.starting AuthState.initial IpcpState.initial,
      (codes "ATE0" ++ crlf) ∷ [],
    )
unfolding pico_ppp_poll ppp_modem_recv evaluate run_handlers run_handler ppp_modem_send_echo
answered = refl

abbrev position : Option Polled → ℕ
position none = 0
position (some r) = r.line.at

-- Where the buffer is full, the next byte is counted past its end.
past_end :
    position (pico_ppp_poll (1 ∷ []) (device open_link) (record line { at = 2048 }) 10) ≡ 2049
unfolding pico_ppp_poll
past_end = refl
