-- ===== src/Ppp/Lcp.antt =====
-- modules/pico_dev_ppp.c: the restart timer, the senders of link control packets and the scan of a
-- packet's options.
use fd_picotcp.Prelude.{
  ℕ, zero, suc, ◌+◌, ◌-◌, ◌*◌, ◌/◌, ◌%◌, ◌^◌, bit_and, bit_or, Bool, not, ◌||◌, List, [], ◌∷◌, ◌++◌,
  Option, none, some, ◌>>=◌, ◌==◌, ltb, if◌then◌else◌, length, drop,
}
use fd_picotcp.Ppp.Types.{
  Io, Ppp, Request, byte, timer_on_lcpreq, timer_on_lcpterm, default_timer, pico_ppp_mru,
}
use fd_picotcp.Ppp.Wire.{
  u8, u16, short_be, pico_ppp_ctl_send, count_alloc, bit, lcpopt_mru, lcpopt_auth,
  lcpopt_proto_comp, lcpopt_addrctl_comp,
}

unfoldable pub lcp_timer_start : ℕ → Io → Io
lcp_timer_start timer_type io =
    let on = bit_or io.timer_on timer_type in
    let val = if io.timer_val == 0 then default_timer else io.timer_val in
    let term = if timer_type == timer_on_lcpterm then 2 else 0 in
    let count = if timer_type == timer_on_lcpreq then 10 else term in
    let on' = if timer_type == 0 then bit_or on timer_on_lcpreq else on in
    let left = if timer_type == 0 then 0 else io.timer_count in
    record io { timer_on = on'; timer_val = val; timer_count = if left == 0 then count else left }

unfoldable pub lcp_zero_restart_count : Io → Io
unfolding lcp_timer_start
lcp_zero_restart_count io = lcp_timer_start 0 io

-- `~timer_type` as a byte.
unfoldable pub lcp_timer_stop : ℕ → Io → Io
lcp_timer_stop timer_type io = record io { timer_on = bit_and io.timer_on (255 - timer_type) }

unfoldable pub next_frame_id : Io → Io
next_frame_id io = record io { frame_id = u8 (io.frame_id + 1) }

abbrev pub ppp_proto_lcp : ℕ
ppp_proto_lcp = short_be 0xc021

unfoldable pub configure_options : Ppp → List ℕ
configure_options s =
    let comp = if bit s.lcpopt_local lcpopt_proto_comp then 7 ∷ 2 ∷ [] else [] in
    let unit =
      if bit s.lcpopt_local lcpopt_mru then 1 ∷ 4 ∷ u8 (s.mru / 256) ∷ u8 s.mru ∷ [] else [] in
    let addrctl = if bit s.lcpopt_local lcpopt_addrctl_comp then 8 ∷ 2 ∷ [] else [] in
    comp ++ (unit ++ addrctl)

unfoldable pub request_header : ℕ → ℕ → ℕ → List ℕ
request_header code id len = code ∷ id ∷ len / 256 ∷ u8 len ∷ []

unfoldable pub lcp_send_configure_request : Ppp → Io
unfolding configure_options request_header next_frame_id lcp_timer_start count_alloc
lcp_send_configure_request s =
    if s.zalloc s.allocs
    then (let opts = configure_options s in
        let packet = request_header 1 s.frame_id (length opts + 4) ++ opts in
        let io = next_frame_id (count_alloc s.io) in
        let kept = if bit s.lcpopt_local lcpopt_mru then s.mru else pico_ppp_mru in
        let io' = pico_ppp_ctl_send s.config ppp_proto_lcp packet (record io { mru = kept }) in
        lcp_timer_start timer_on_lcpreq (record io' { timer_val = default_timer }))
    else count_alloc s.io

unfoldable pub lcp_send_terminate_request : Ppp → Io
unfolding request_header next_frame_id lcp_timer_start
lcp_send_terminate_request s =
    let packet = request_header 5 s.frame_id 4 in
    lcp_timer_start timer_on_lcpterm
      (pico_ppp_ctl_send s.config ppp_proto_lcp packet (next_frame_id s.io))

-- `n` bytes of a local array whose first bytes have been written.
unfoldable pub array_read : (ℕ → ℕ) → ℕ → ℕ → List ℕ → List ℕ
array_read junk i zero m = []
array_read junk i (suc n) [] = junk i ∷ array_read junk (i + 1) n []
array_read junk i (suc n) (b ∷ m) = b ∷ array_read junk (i + 1) n m

-- `memcpy` of `n` bytes of the receive buffer.
unfoldable pub read_bytes : ℕ → List ℕ → List ℕ
unfolding array_read
read_bytes n m = array_read (λ _. 0) 0 n m

-- The packet that `pkt` points at; the fault of a null pointer is `none`.
unfoldable pub pkt_bytes : Request → Option (List ℕ)
pkt_bytes r = r.pkt >>= λ p. some (drop p r.recv_buf)

-- The last request sent back under another code. Its length is what its own header says, not what
-- was received: past the received bytes the array has not been written.
unfoldable pub reply_packet : Ppp → ℕ → List ℕ → List ℕ
unfolding array_read read_bytes
reply_packet s code m =
    array_read s.stack_byte 0 (byte m 2 * 256 + byte m 3)
      (code ∷ byte m 1 ∷ byte m 2 ∷ byte m 3 ∷ drop 4 (read_bytes s.len m))

unfoldable pub send_reply : ℕ → ℕ → Ppp → Option Io
unfolding pkt_bytes reply_packet
send_reply proto code s = pkt_bytes s.request >>= λ m.
    some (pico_ppp_ctl_send s.config proto (reply_packet s code m) s.io)

unfoldable pub lcp_send_configure_ack : Ppp → Option Io
unfolding send_reply
lcp_send_configure_ack s = send_reply ppp_proto_lcp 2 s

unfoldable pub lcp_send_terminate_ack : Ppp → Option Io
unfolding send_reply
lcp_send_terminate_ack s = send_reply ppp_proto_lcp 6 s

unfoldable pub lcp_send_echo_reply : Ppp → Option Io
unfolding send_reply
lcp_send_echo_reply s = send_reply ppp_proto_lcp 10 s

-- `1u << n`, for which the processor takes `n` modulo 32.
abbrev pub shift_one : ℕ → ℕ
shift_one n = 2 ^ (n % 32)

unfoldable pub is_rejected : ℕ → ℕ → Bool
is_rejected rej opt = not (bit_and (shift_one opt) rej == 0) || ltb 8 opt

-- The loop of `lcp_send_configure_nack` from offset `i`: the options that are sent back. It does
-- not come back (`none`) at an option of length 0, nor at a rejected one of length 1: there
-- `p[1] - 2u` is about 2 ^ 32 and the inner loop's counter is a byte.
unfoldable pub nack_options : ℕ → List ℕ → ℕ → ℕ → ℕ → Option (List ℕ)
unfolding read_bytes
nack_options zero m len rej i = none
nack_options (suc fuel) m len rej i =
    let opt = byte m i in
    let size = byte m (i + 1) in
    let more = nack_options fuel m len rej (i + size) in
    let taken = read_bytes (size - 2) (drop (i + 2) m) in
    if ltb i len
    then (if is_rejected rej opt
        then (if ltb size 2 then none else (more >>= λ out. some (opt ∷ size ∷ (taken ++ out))))
        else more)
    else some []

-- Each round but the last moves on by a byte at least, so `len` rounds and one are enough.
unfoldable pub lcp_send_configure_nack : Ppp → Option Io
unfolding pkt_bytes nack_options request_header
lcp_send_configure_nack s = pkt_bytes s.request >>= λ m.
    nack_options (s.len + 1) m s.len s.rej 4 >>= λ out. some (
      pico_ppp_ctl_send s.config ppp_proto_lcp
        (request_header 4 (byte m 1) (u16 (length out + 4)) ++ out) s.io)

-- What `lcp_optflags` finds: the flags, and the values to adjust to.
pub record OptScan : Type 0 where
  pub flags : ℕ
  pub mru : ℕ
  pub auth : ℕ

unfoldable pub scan_option : List ℕ → ℕ → OptScan → OptScan
scan_option m i r =
    let val = u16 (byte m (i + 2) * 256 + byte m (i + 3)) in
    record {
      flags = bit_or (u16 (shift_one (byte m i))) r.flags;
      mru = if byte m i == lcpopt_mru then val else r.mru;
      auth = if byte m i == lcpopt_auth then val else r.auth;
    }

-- The loop of `lcp_optflags` from offset `i`. An option of length 0 ends it.
unfoldable pub optflags_from : ℕ → List ℕ → ℕ → ℕ → OptScan → Option OptScan
unfolding scan_option
optflags_from zero m len i r = none
optflags_from (suc fuel) m len i r =
    let off = byte m (i + 1) in
    let r' = scan_option m i r in
    let more = optflags_from fuel m len (i + off) r' in
    if ltb i len then (if off == 0 then some r' else more) else some r

unfoldable pub lcp_optflags : ℕ → ℕ → List ℕ → ℕ → Option OptScan
unfolding optflags_from
lcp_optflags mru auth m len =
    optflags_from (len + 1) m len 4 (record { flags = 0; mru = mru; auth = auth })
