-- ===== src/Ppp/LcpInput.antt =====
-- modules/pico_dev_ppp.c: received link control and authentication packets. A packet is an
-- offset into the receive buffer and a length; lengths are uint32_t and wrap.
use fd_picotcp.Prelude.{ℕ, bit_and, bit_xor, Option, some, ◌>>=◌, ◌==◌, if◌then◌else◌, drop}
use fd_picotcp.Ppp.Types.{Ppp, byte, LcpEvent, AuthEvent}
use fd_picotcp.Ppp.Lcp.{OptScan, lcp_optflags}
use fd_picotcp.Ppp.Engine.{lcp, auth, evaluate, depth}

-- What `lcp_optflags` adjusts.
unfoldable pub adjust : Ppp → OptScan → Ppp
adjust s r = record s {
  config = record s.config { auth = r.auth };
  io = record s.io { mru = r.mru };
}

unfoldable pub set_request : Ppp → ℕ → ℕ → ℕ → Ppp
set_request s p len rej = record s {
  request = record s.request { pkt = some p; len = len; rej = rej };
}

unfoldable pub set_lcpopt : Ppp → ℕ → ℕ → Ppp
set_lcpopt s own peer = record s {
  config = record s.config { lcpopt_local = own; lcpopt_peer = peer };
}

-- A configure request: what we do not know is rejected, else the peer's options are taken.
unfoldable pub lcp_configure_request : Ppp → ℕ → ℕ → OptScan → Option Ppp
unfolding adjust set_request set_lcpopt
lcp_configure_request s p len r =
    let rejected = bit_and r.flags (bit_xor s.lcpopt_local 0xffff) in
    let s' = set_request (adjust s r) p len rejected in
    if rejected == 0
    then evaluate depth (lcp LcpEvent.rcr_pos) (set_lcpopt s' s.lcpopt_local r.flags)
    else evaluate depth (lcp LcpEvent.rcr_neg) s'

unfoldable pub lcp_process_in : Ppp → ℕ → ℕ → Option Ppp
unfolding lcp_configure_request
lcp_process_in s p len =
    let m = drop p s.recv_buf in
    let scan = lcp_optflags s.mru s.config.auth m len in
    let code = byte m 0 in
    if code == 1
    then (scan >>= λ r. lcp_configure_request s p len r)
    else (if code == 2
        then evaluate depth (lcp LcpEvent.rca) s
        else (if code == 3
            then (scan >>= λ r. evaluate depth (lcp LcpEvent.rcn) (adjust s r))
            else (if code == 4
                then (scan >>= λ r.
                    evaluate depth (lcp LcpEvent.rcn) (
                      set_lcpopt s (bit_and s.lcpopt_local (bit_xor r.flags 0xffff)) s.lcpopt_peer))
                else (if code == 9 then evaluate depth (lcp LcpEvent.rxr) s else some s))))

unfoldable pub pap_process_in : Ppp → ℕ → ℕ → Option Ppp
pap_process_in s p len =
    let code = byte (drop p s.recv_buf) 0 in
    if s.config.auth == 0xc023
    then (if code == 2
        then evaluate depth (auth AuthEvent.raa) s
        else (if code == 3 then evaluate depth (auth AuthEvent.ran) s else some s))
    else some s

unfoldable pub chap_process_in : Ppp → ℕ → ℕ → Option Ppp
unfolding set_request
chap_process_in s p len =
    let code = byte (drop p s.recv_buf) 0 in
    if s.config.auth == 0xc223
    then (if code == 1
        then evaluate depth (auth AuthEvent.rac) (set_request s p len s.rej)
        else (if code == 3
            then evaluate depth (auth AuthEvent.raa) s
            else (if code == 4 then evaluate depth (auth AuthEvent.ran) s else some s)))
    else some s
