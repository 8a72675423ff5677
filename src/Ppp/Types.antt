-- ===== src/Ppp/Types.antt =====
-- modules/pico_dev_ppp.c: the states and events of the four state machines, the device structure
-- and the constants of the protocol.
use fd_picotcp.Prelude.{ℕ, Bool, Option, List, get_or}

pub data ModemState : Type 0 where
  initial reset echo creg cgreg cgdcont cgatt dial connected : ModemState

pub data ModemEvent : Type 0 where
  start stop ok connect timeout : ModemEvent

pub data LcpState : Type 0 where
  initial starting closed stopped closing stopping : LcpState
  req_sent ack_rcvd ack_sent opened : LcpState

pub data LcpEvent : Type 0 where
  up down open_event close to_pos to_neg rcr_pos rcr_neg : LcpEvent
  rca rcn rtr rta ruc rxj_pos rxj_neg rxr : LcpEvent

pub data AuthState : Type 0 where
  initial starting rsp_sent req_sent authenticated : AuthState

pub data AuthEvent : Type 0 where
  up_none up_pap up_chap down rac raa ran to : AuthEvent

pub data IpcpState : Type 0 where
  initial req_sent ack_rcvd ack_sent opened : IpcpState

pub data IpcpEvent : Type 0 where
  up down rcr_pos rcr_neg rca rcn to : IpcpEvent

-- The four `..._state` fields of `struct pico_device_ppp`.
pub record Control : Type 0 where
  pub modem_state : ModemState
  pub lcp_state : LcpState
  pub auth_state : AuthState
  pub ipcp_state : IpcpState

-- The static `ppp_recv_buf`, and what the last request left in the device: `pkt` points into that
-- buffer, so it is an offset (`none` is the null pointer of a zeroed device).
pub record Request : Type 0 where
  pub recv_buf : List ℕ
  pub pkt : Option ℕ
  pub len : ℕ
  pub rej : ℕ

-- Fields that the state machines only read, and the outside world: whether the callbacks are set,
-- whether the n-th allocation succeeds, the digest function that is registered, and the bytes of
-- a local array that nothing has written. Texts are their bytes up to the final zero.
pub record Config : Type 0 where
  pub autoreconnect : Bool
  pub apn : List ℕ
  pub password : List ℕ
  pub username : List ℕ
  pub lcpopt_local : ℕ
  pub lcpopt_peer : ℕ
  pub auth : ℕ
  pub serial_recv : Bool
  pub serial_send : Bool
  pub serial_set_speed : Bool
  pub zalloc : ℕ → Bool
  pub md5sum : List ℕ → List ℕ
  pub stack_byte : ℕ → ℕ

-- The addresses that are asked for and configured.
pub record Addresses : Type 0 where
  pub ipcp_ip : ℕ
  pub ipcp_dns1 : ℕ
  pub ipcp_nbns1 : ℕ
  pub ipcp_dns2 : ℕ
  pub ipcp_nbns2 : ℕ

-- What the driver asks of the rest of the stack: the configuration of the link, and its own timer.
pub data NetCall : Type 0 where
  link_add : ℕ → ℕ → NetCall
  default_route : NetCall
  nameserver_add : ℕ → NetCall
  timer_add : ℕ → NetCall

-- Fields that the handlers write, with the calls made so far, newest first: what went to the
-- serial line and what was asked of the network layer; and the number of allocations.
pub record Io : Type 0 where
  pub timer_on : ℕ
  pub timer_val : ℕ
  pub timer_count : ℕ
  pub frame_id : ℕ
  pub mru : ℕ
  pub ipcp_allowed_fields : ℕ
  pub sent : List (List ℕ)
  pub net_calls : List NetCall
  pub allocs : ℕ

-- `struct pico_device_ppp`, with the packets handed to the stack, newest first.
pub record Ppp : Type 0 where
  pub control : Control
  pub open control use *
  pub request : Request
  pub open request use *
  pub config : Config
  pub open config use *
  pub addresses : Addresses
  pub open addresses use *
  pub io : Io
  pub open io use *
  pub received : List (List ℕ)

-- A read past the end of the buffer yields 0 here.
abbrev pub byte : List ℕ → ℕ → ℕ
byte m i = get_or m i 0

abbrev pub ppp_maxpkt : ℕ
ppp_maxpkt = 2048

abbrev pub pico_ppp_mru : ℕ
pico_ppp_mru = 1514

abbrev pub timer_on_modem : ℕ
timer_on_modem = 0x01

abbrev pub timer_on_lcpreq : ℕ
timer_on_lcpreq = 0x04

abbrev pub timer_on_lcpterm : ℕ
timer_on_lcpterm = 0x08

abbrev pub timer_on_auth : ℕ
timer_on_auth = 0x10

abbrev pub timer_on_ipcp : ℕ
timer_on_ipcp = 0x20

abbrev pub default_timer : ℕ
default_timer = 3

abbrev pub pppf_flag_seq : ℕ
pppf_flag_seq = 0x7e

abbrev pub pppf_ctrl_esc : ℕ
pppf_ctrl_esc = 0x7d

abbrev pub pppf_addr : ℕ
pppf_addr = 0xff

abbrev pub pppf_ctrl : ℕ
pppf_ctrl = 0x03
