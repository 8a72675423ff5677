-- ===== src/Ppp/Device.antt =====
-- modules/pico_dev_ppp.c: timeouts, the periodic tick, and the public interface.
use fd_picotcp.Prelude.{
  ℕ, ◌+◌, ◌-◌, ◌%◌, ◌^◌, bit_and, bit_or, Bool, true, false, not, ◌&&◌, List, [], ◌∷◌, Option, none,
  some, ◌>>=◌, ◌==◌, if◌then◌else◌, take,
}
use fd_picotcp.Ppp.Types.{
  Ppp, LcpState, LcpEvent, ModemState, ModemEvent, AuthState, AuthEvent, IpcpState, IpcpEvent,
  timer_add, timer_on_modem, timer_on_lcpreq, timer_on_lcpterm, timer_on_auth, timer_on_ipcp,
  pico_ppp_mru,
}
use fd_picotcp.Ppp.Wire.{
  u8, u16, is_opened, lcpopt_mru, lcpopt_auth, lcpopt_proto_comp, lcpopt_addrctl_comp,
}
use fd_picotcp.Ppp.Engine.{modem, lcp, auth, ipcp, evaluate, depth}

abbrev pub timer_is_on : Ppp → ℕ → Bool
timer_is_on s mask = not (bit_and s.timer_on mask == 0)

unfoldable pub clear_timer : Ppp → ℕ → Ppp
clear_timer s mask = record s { io = record s.io { timer_on = bit_and s.timer_on (255 - mask) } }

unfoldable pub check_to_modem : Ppp → Option Ppp
unfolding clear_timer
check_to_modem s =
    if timer_is_on s timer_on_modem && s.timer_val == 0
    then evaluate depth (modem ModemEvent.timeout) (clear_timer s timer_on_modem)
    else some s

-- `timer_count--` on a byte.
unfoldable pub count_down : Ppp → Ppp
count_down s = record s { io = record s.io { timer_count = u8 (s.timer_count + 255) } }

unfoldable pub check_to_lcp : Ppp → Option Ppp
unfolding count_down
check_to_lcp s =
    if timer_is_on s (bit_or timer_on_lcpreq timer_on_lcpterm) && s.timer_val == 0
    then (if s.timer_count == 0
        then evaluate depth (lcp LcpEvent.to_neg) s
        else (evaluate depth (lcp LcpEvent.to_pos) s >>= λ t. some (count_down t)))
    else some s

unfoldable pub check_to_auth : Ppp → Option Ppp
unfolding clear_timer
check_to_auth s =
    if timer_is_on s timer_on_auth && s.timer_val == 0
    then evaluate depth (auth AuthEvent.to) (clear_timer s timer_on_auth)
    else some s

unfoldable pub check_to_ipcp : Ppp → Option Ppp
unfolding clear_timer
check_to_ipcp s =
    if timer_is_on s timer_on_ipcp && s.timer_val == 0
    then evaluate depth (ipcp IpcpEvent.to) (clear_timer s timer_on_ipcp)
    else some s

abbrev pub is_initial : LcpState → Bool
is_initial LcpState.initial = true
is_initial _ = false

unfoldable pub reconnect : Ppp → Option Ppp
reconnect s =
    if s.autoreconnect && is_initial s.lcp_state
    then evaluate depth (lcp LcpEvent.open_event) s
    else some s

unfoldable pub count_second : Ppp → Ppp
count_second s = record s { io = record s.io { timer_val = s.timer_val - 1 } }

unfoldable pub start_tick : Ppp → Ppp
start_tick s = record s { io = record s.io { net_calls = timer_add 1000 ∷ s.net_calls } }

-- Once a second.
unfoldable pub pico_ppp_tick : Ppp → Option Ppp
unfolding count_second start_tick check_to_modem check_to_lcp check_to_auth check_to_ipcp reconnect
pico_ppp_tick s = check_to_modem (count_second s) >>= λ s1. check_to_lcp s1 >>= λ s2.
    check_to_auth s2 >>= λ s3.
    check_to_ipcp s3 >>= λ s4. reconnect s4 >>= λ s5. some (start_tick s5)

unfoldable pub pico_ppp_link_state : Ppp → ℕ
pico_ppp_link_state s = if is_opened s.ipcp_state then 1 else 0

-- What is outside the driver: the allocator, the digest, unwritten memory and the static buffer.
pub record World : Type 0 where
  pub zalloc : ℕ → Bool
  pub md5sum : List ℕ → List ℕ
  pub stack_byte : ℕ → ℕ
  pub recv_buf : List ℕ

abbrev pub lcpopt_bit : ℕ → ℕ
lcpopt_bit opt = u16 (2 ^ opt)

-- A zeroed structure, then the assignments. `none` where the allocation or `pico_device_init`
-- (`init_ok`) fails; `rand` is what `pico_rand` returns.
unfoldable pub pico_ppp_create : World → Bool → ℕ → Option Ppp
pico_ppp_create w init_ok rand =
    let own =
      bit_or
        (bit_or (bit_or (lcpopt_bit lcpopt_mru) (lcpopt_bit lcpopt_auth))
          (lcpopt_bit lcpopt_proto_comp))
        (lcpopt_bit lcpopt_addrctl_comp) in
    let device : Ppp = record {
      control = record {
        modem_state = ModemState.initial;
        lcp_state = LcpState.initial;
        auth_state = AuthState.initial;
        ipcp_state = IpcpState.initial;
      };
      request = record { recv_buf = w.recv_buf; pkt = none; len = 0; rej = 0 };
      config = record {
        autoreconnect = false;
        apn = [];
        password = [];
        username = [];
        lcpopt_local = own;
        lcpopt_peer = 0;
        auth = 0;
        serial_recv = false;
        serial_send = false;
        serial_set_speed = false;
        zalloc = w.zalloc;
        md5sum = w.md5sum;
        stack_byte = w.stack_byte;
      };
      addresses = record {
        ipcp_ip = 0;
        ipcp_dns1 = 0;
        ipcp_nbns1 = 0;
        ipcp_dns2 = 0;
        ipcp_nbns2 = 0;
      };
      io = record {
        timer_on = 0;
        timer_val = 0;
        timer_count = 0;
        frame_id = u8 (rand % 0xff);
        mru = pico_ppp_mru;
        ipcp_allowed_fields = 0;
        sent = [];
        net_calls = timer_add 1000 ∷ [];
        allocs = 1;
      };
      received = [];
    } in
    if w.zalloc 0 && init_ok then some device else none

unfoldable pub pico_ppp_connect : Ppp → Ppp
pico_ppp_connect s = record s { config = record s.config { autoreconnect = true } }

unfoldable pub pico_ppp_disconnect : Ppp → Option Ppp
pico_ppp_disconnect s =
    evaluate depth (lcp LcpEvent.close)
      (record s { config = record s.config { autoreconnect = false } })

-- The setters of the callbacks, and those of the texts (`strncpy` of 133 bytes at most into zeroed
-- arrays of 134). A null device is the result -1, which leaves everything as it is.
unfoldable pub pico_ppp_set_serial_read : Ppp → Bool → Ppp
pico_ppp_set_serial_read s present = record s { config = record s.config { serial_recv = present } }

unfoldable pub pico_ppp_set_serial_write : Ppp → Bool → Ppp
pico_ppp_set_serial_write s present = record s {
  config = record s.config { serial_send = present };
}

unfoldable pub pico_ppp_set_serial_set_speed : Ppp → Bool → Ppp
pico_ppp_set_serial_set_speed s present = record s {
  config = record s.config { serial_set_speed = present };
}

unfoldable pub pico_ppp_set_apn : Ppp → Option (List ℕ) → Ppp
pico_ppp_set_apn s none = s
pico_ppp_set_apn s (some text) = record s { config = record s.config { apn = take 133 text } }

unfoldable pub pico_ppp_set_username : Ppp → Option (List ℕ) → Ppp
pico_ppp_set_username s none = s
pico_ppp_set_username s (some text) = record s {
  config = record s.config { username = take 133 text };
}

unfoldable pub pico_ppp_set_password : Ppp → Option (List ℕ) → Ppp
pico_ppp_set_password s none = s
pico_ppp_set_password s (some text) = record s {
  config = record s.config { password = take 133 text };
}
