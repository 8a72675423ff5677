-- ===== src/Ppp/IpcpInput.antt =====
-- modules/pico_dev_ppp.c: received IP control packets. A packet is an
-- offset into the receive buffer and a length; lengths are uint32_t and wrap.
use fd_picotcp.Prelude.{
  ℕ, zero, suc, ◌+◌, ◌*◌, bit_and, bit_xor, List, Option, none, some, ◌>>=◌, ◌==◌, ltb,
  if◌then◌else◌, drop,
}
use fd_picotcp.Ppp.Types.{Ppp, Addresses, byte, IpcpEvent}
use fd_picotcp.Ppp.Wire.{u32, long_be}
use fd_picotcp.Ppp.Ipcp.{allow_ip, allow_dns1, allow_dns2, allow_nbns1, allow_nbns2, ipcp_reject_vj}
use fd_picotcp.Ppp.LcpInput.{set_request}
use fd_picotcp.Ppp.Engine.{ipcp, evaluate, depth}

-- What the loop of `ipcp_process_in` keeps.
pub record IpcpScan : Type 0 where
  pub allowed : ℕ
  pub addresses : Addresses
  pub reject : ℕ
  pub offset : ℕ

-- `ipcp_allowed_fields &= ~allow`, if the packet is a rejection.
abbrev forbid : ℕ → ℕ → ℕ → ℕ
forbid code allow allowed =
    if code == 4 then bit_and allowed (bit_xor allow 0xffffffff) else allowed

-- One option at offset `i`. A rejection clears the address and forbids asking for it.
unfoldable pub ipcp_option : ℕ → List ℕ → IpcpScan → IpcpScan
ipcp_option code m r =
    let i = r.offset in
    let tag = byte m i in
    let val =
      if code == 4
      then 0
      else long_be (
          u32 (
            byte m (i + 2) * 16777216
            + byte m (i + 3) * 65536
            + byte m (i + 4) * 256
            + byte m (i + 5))) in
    let a = r.addresses in
    let next = i + byte m (i + 1) in
    if tag == 0x02
    then record r { reject = r.reject + 1; offset = next }
    else (if tag == 0x03
        then record r {
          addresses = record a { ipcp_ip = val };
          allowed = forbid code allow_ip r.allowed;
          offset = next;
        }
        else (if tag == 0x81
            then record r {
              addresses = record a { ipcp_dns1 = val };
              allowed = forbid code allow_dns1 r.allowed;
              offset = next;
            }
            else (if tag == 0x82
                then record r {
                  addresses = record a { ipcp_nbns1 = val };
                  allowed = forbid code allow_nbns1 r.allowed;
                  offset = next;
                }
                else (if tag == 0x83
                    then record r {
                      addresses = record a { ipcp_dns2 = val };
                      allowed = forbid code allow_dns2 r.allowed;
                      offset = next;
                    }
                    else (if tag == 0x84
                        then record r {
                          addresses = record a { ipcp_nbns2 = val };
                          allowed = forbid code allow_nbns2 r.allowed;
                          offset = next;
                        }
                        else record r { offset = next })))))

-- The loop; at an option of length 0 it does not come back.
unfoldable pub ipcp_options : ℕ → ℕ → List ℕ → ℕ → IpcpScan → Option IpcpScan
unfolding ipcp_option
ipcp_options zero code m len r = none
ipcp_options (suc fuel) code m len r =
    let more = ipcp_options fuel code m len (ipcp_option code m r) in
    if ltb r.offset len then more else some r

unfoldable pub ipcp_dispatch : ℕ → Ppp → Option Ppp
ipcp_dispatch code s =
    if code == 2
    then evaluate depth (ipcp IpcpEvent.rca) s
    else (if code == 1
        then evaluate depth (ipcp IpcpEvent.rcr_pos) s
        else (if code == 3
            then evaluate depth (ipcp IpcpEvent.rcn) s
            else (if code == 4 then evaluate depth (ipcp IpcpEvent.rcn) s else some s)))

unfoldable pub take_ipcp_scan : Ppp → IpcpScan → Ppp
take_ipcp_scan s r = record s {
  addresses = r.addresses;
  io = record s.io { ipcp_allowed_fields = r.allowed };
}

-- Each round but the last moves on by a byte at least, so `len` rounds and one are enough.
unfoldable pub ipcp_process_in : Ppp → ℕ → ℕ → Option Ppp
unfolding ipcp_options ipcp_dispatch set_request take_ipcp_scan
ipcp_process_in s p len =
    let m = drop p s.recv_buf in
    let start : IpcpScan = record {
      allowed = s.ipcp_allowed_fields;
      addresses = s.addresses;
      reject = 0;
      offset = 4;
    } in
    ipcp_options (len + 1) (byte m 0) m len start >>= λ r.
    (let s' = take_ipcp_scan s r in
      if r.reject == 0
      then ipcp_dispatch (byte m 0) (set_request s' p len s'.rej)
      else some (record s' { io = ipcp_reject_vj s' (drop r.offset m) }))
