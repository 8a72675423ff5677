-- ===== src/Ppp/Ipcp.antt =====
-- modules/pico_dev_ppp.c: the senders of the network phase, and the configuration of the link.
use fd_picotcp.Prelude.{
  ℕ, ◌+◌, ◌/◌, bit_and, bit_or, List, [], ◌∷◌, ◌++◌, Option, ◌==◌, if◌then◌else◌,
}
use fd_picotcp.Ppp.Types.{Io, Ppp, byte, timer_on_ipcp, link_add, default_route, nameserver_add}
use fd_picotcp.Ppp.Wire.{u8, short_be, long_be, pico_ppp_ctl_send}
use fd_picotcp.Ppp.Lcp.{next_frame_id, request_header, send_reply, array_read}

abbrev pub ppp_proto_ipcp : ℕ
ppp_proto_ipcp = short_be 0x8021

abbrev pub allow_ip : ℕ
allow_ip = 0x01

abbrev pub allow_dns1 : ℕ
allow_dns1 = 0x02

abbrev pub allow_dns2 : ℕ
allow_dns2 = 0x04

abbrev pub allow_nbns1 : ℕ
allow_nbns1 = 0x08

abbrev pub allow_nbns2 : ℕ
allow_nbns2 = 0x10

unfoldable pub ipcp_send_ack : Ppp → Option Io
unfolding send_reply
ipcp_send_ack s = send_reply ppp_proto_ipcp 2 s

unfoldable pub ipcp_request_options_size : Ppp → ℕ
ipcp_request_options_size s =
    18 + (if s.ipcp_nbns1 == 0 then 0 else 6) + (if s.ipcp_nbns2 == 0 then 0 else 6)

unfoldable pub ipcp_request_add_address : ℕ → ℕ → List ℕ
unfolding long_be
ipcp_request_add_address tag arg =
    let addr = long_be arg in
    tag
    ∷ 6
    ∷ u8 (bit_and addr 0xff000000 / 16777216)
    ∷ u8 (bit_and addr 0x00ff0000 / 65536)
    ∷ u8 (bit_and addr 0x0000ff00 / 256)
    ∷ u8 (bit_and addr 0x000000ff)
    ∷ []

-- An address that may be asked for.
unfoldable pub allowed_field : ℕ → ℕ → ℕ → ℕ → List ℕ
unfolding ipcp_request_add_address
allowed_field allowed allow tag val =
    if bit_and allowed allow == 0 then [] else ipcp_request_add_address tag val

-- The same for the name servers that are asked for only if they are known.
unfoldable pub known_field : ℕ → ℕ → ℕ → ℕ → List ℕ
unfolding allowed_field
known_field allowed allow tag val = if val == 0 then [] else allowed_field allowed allow tag val

unfoldable pub ipcp_request_fill : Ppp → List ℕ
unfolding known_field
ipcp_request_fill s =
    let f = s.ipcp_allowed_fields in
    allowed_field f allow_ip 0x03 s.ipcp_ip
    ++ (allowed_field f allow_dns1 0x81 s.ipcp_dns1
        ++ (allowed_field f allow_dns2 0x83 s.ipcp_dns2
            ++ (known_field f allow_nbns1 0x82 s.ipcp_nbns1
                ++ known_field f allow_nbns2 0x84 s.ipcp_nbns2)))

-- The packet has the size that was reserved, whatever was filled in.
unfoldable pub ipcp_send_req : Ppp → Io
unfolding ipcp_request_options_size ipcp_request_fill request_header next_frame_id array_read
ipcp_send_req s =
    let size = ipcp_request_options_size s in
    let packet =
      request_header 1 s.frame_id (size + 4)
      ++ array_read s.stack_byte 0 size (ipcp_request_fill s) in
    pico_ppp_ctl_send s.config ppp_proto_ipcp packet (next_frame_id s.io)

-- Two bytes from `comp_req`, and four that were not written.
unfoldable pub ipcp_reject_vj : Ppp → List ℕ → Io
unfolding request_header next_frame_id array_read
ipcp_reject_vj s comp_req =
    let opt = byte comp_req 4 ∷ byte comp_req 5 ∷ [] in
    let packet = request_header 1 s.frame_id 10 ++ array_read s.stack_byte 0 6 opt in
    pico_ppp_ctl_send s.config ppp_proto_ipcp packet (next_frame_id s.io)

unfoldable pub ppp_ipv4_conf : Ppp → Io
ppp_ipv4_conf s = record s.io {
  net_calls =
      nameserver_add s.ipcp_dns2
      ∷ nameserver_add s.ipcp_dns1
      ∷ default_route
      ∷ link_add s.ipcp_ip 0xffffff00
      ∷ s.net_calls;
}

unfoldable pub ipcp_bring_up : Ppp → Io
unfolding ppp_ipv4_conf
ipcp_bring_up s = if s.ipcp_ip == 0 then s.io else ppp_ipv4_conf s

unfoldable pub ipcp_start_timer : Io → Io
ipcp_start_timer io = record io { timer_on = bit_or io.timer_on timer_on_ipcp; timer_val = 15 }
