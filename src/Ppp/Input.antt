-- ===== src/Ppp/Input.antt =====
-- modules/pico_dev_ppp.c: received frames. A packet is an
-- offset into the receive buffer and a length; lengths are uint32_t and wrap.
use fd_picotcp.Prelude.{ℕ, ◌+◌, ◌&&◌, ◌||◌, ◌∷◌, Option, some, ◌==◌, if◌then◌else◌, take, drop}
use fd_picotcp.Ppp.Types.{Ppp, byte, pppf_addr, pppf_ctrl}
use fd_picotcp.Ppp.Wire.{u32, ppp_fcs_verify}
use fd_picotcp.Ppp.LcpInput.{lcp_process_in, pap_process_in, chap_process_in}
use fd_picotcp.Ppp.IpcpInput.{ipcp_process_in}

-- IPv4 and IPv6 data go to the stack, `pico_stack_recv`.
unfoldable pub data_in : Ppp → ℕ → ℕ → Ppp
data_in s p len =
    let m = drop p s.recv_buf in
    if byte m 0 == 0x21 || byte m 0 == 0x57
    then record s { received = take (u32 (len + 4294967295)) (drop 1 m) ∷ s.received }
    else s

-- `ipcp6_process_in` does nothing.
unfoldable pub ppp_process_packet_payload : Ppp → ℕ → ℕ → Option Ppp
unfolding data_in
ppp_process_packet_payload s p len =
    let m = drop p s.recv_buf in
    let len' = u32 (len + 4294967294) in
    if byte m 0 == 0xc0
    then (if byte m 1 == 0x21
        then lcp_process_in s (p + 2) len'
        else (if byte m 1 == 0x23 then pap_process_in s (p + 2) len' else some s))
    else (if byte m 0 == 0xc2 && byte m 1 == 0x23
        then chap_process_in s (p + 2) len'
        else (if byte m 0 == 0x80
            then (if byte m 1 == 0x21 then ipcp_process_in s (p + 2) len' else some s)
            else (if byte m 0 == 0x00
                then some (data_in s (p + 1) (u32 (len + 4294967295)))
                else some (data_in s p len))))

-- Frames with a wrong check sequence are dropped.
unfoldable pub ppp_process_packet : Ppp → ℕ → Option Ppp
unfolding ppp_process_packet_payload
ppp_process_packet s len =
    let m = s.recv_buf in
    let len' = u32 (len + 4294967294) in
    if ppp_fcs_verify m len
    then (if byte m 0 == pppf_addr && byte m 1 == pppf_ctrl
        then ppp_process_packet_payload s 2 (u32 (len' + 4294967294))
        else ppp_process_packet_payload s 0 len')
    else some s
