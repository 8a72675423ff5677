-- ===== src/Ppp/Auth.antt =====
-- modules/pico_dev_ppp.c: the senders of the authentication phase.
use fd_picotcp.Prelude.{
  ℕ, ◌+◌, ◌-◌, bit_and, bit_or, ◌∷◌, ◌++◌, Option, some, ◌>>=◌, if◌then◌else◌, length, take, drop,
}
use fd_picotcp.Ppp.Types.{Io, Ppp, byte, timer_on_auth, default_timer}
use fd_picotcp.Ppp.Wire.{u8, u16, short_be, pico_ppp_ctl_send, count_alloc}
use fd_picotcp.Ppp.Lcp.{next_frame_id, request_header, pkt_bytes, read_bytes}

abbrev pub ppp_proto_pap : ℕ
ppp_proto_pap = short_be 0xc023

abbrev pub ppp_proto_chap : ℕ
ppp_proto_chap = short_be 0xc223

-- PAP: the name and the password, each behind its length.
unfoldable pub auth_req : Ppp → Io
unfolding count_alloc next_frame_id request_header
auth_req s =
    if s.zalloc s.allocs
    then (let fields =
          u8 (length s.username) ∷ (s.username ++ (u8 (length s.password) ∷ s.password)) in
        let packet =
          request_header 1 s.frame_id (u16 (length s.username + length s.password + 6)) ++ fields in
        pico_ppp_ctl_send s.config ppp_proto_pap packet (next_frame_id (count_alloc s.io)))
    else count_alloc s.io

-- CHAP: the digest of identifier, password and challenge. The digest fills 16 bytes.
unfoldable pub auth_rsp : Ppp → Option Io
unfolding pkt_bytes count_alloc request_header read_bytes
auth_rsp s = pkt_bytes s.request >>= λ m. some (
    if s.zalloc s.allocs
    then (let challenge = byte m 1 ∷ (s.password ++ read_bytes (byte m 4) (drop 5 m)) in
        let packet = request_header 2 (byte m 1) 21 ++ (16 ∷ take 16 (s.md5sum challenge)) in
        pico_ppp_ctl_send s.config ppp_proto_chap packet (count_alloc s.io))
    else count_alloc s.io)

unfoldable pub auth_start_timer : Io → Io
auth_start_timer io = record io {
  timer_on = bit_or io.timer_on timer_on_auth;
  timer_val = default_timer;
}

-- The first part of `auth_abort`.
unfoldable pub stop_auth_timer : Io → Io
stop_auth_timer io = record io { timer_on = bit_and io.timer_on (255 - timer_on_auth) }
