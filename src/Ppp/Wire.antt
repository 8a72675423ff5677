-- ===== src/Ppp/Wire.antt =====
-- modules/pico_dev_ppp.c: frame check sequence, escaping, and the two senders of frames.
use fd_picotcp.Prelude.{
  ℕ, ◌+◌, ◌*◌, ◌/◌, ◌^◌, bit_and, bit_xor, Bool, true, false, not, ◌||◌, List, [], ◌∷◌, ◌++◌, ◌==◌,
  if◌then◌else◌, take,
}
use fd_picotcp.Ppp.Types.{
  Config, Io, Ppp, IpcpState, byte, pppf_flag_seq, pppf_ctrl_esc, pppf_addr, pppf_ctrl,
}
unfoldable pub use fd_picotcp.Pico.Words.{u8, u16, u32, short_be, long_be}

-- CRC16
unfoldable pub ppp_fcs_char : ℕ → ℕ → ℕ
ppp_fcs_char old_crc dat =
    let word = bit_and (bit_xor old_crc dat) 0x00ff in
    let word' = u16 (bit_xor word (u16 (bit_and (word * 16) 0x00ff))) in
    let word'' = u16 (bit_xor (bit_xor (word' * 256) (word' * 8)) (word' / 16)) in
    bit_xor (old_crc / 256) word''

unfoldable pub ppp_fcs_continue : ℕ → List ℕ → ℕ
ppp_fcs_continue fcs [] = fcs
ppp_fcs_continue fcs (b ∷ buf) = ppp_fcs_continue (ppp_fcs_char fcs b) buf

unfoldable pub ppp_fcs_finish : ℕ → ℕ
ppp_fcs_finish fcs = bit_xor fcs 0xffff

unfoldable pub ppp_fcs_start : List ℕ → ℕ
ppp_fcs_start buf = ppp_fcs_continue 0xffff buf

-- The two bytes of a check sequence, low byte first.
abbrev pub fcs_low : ℕ → ℕ
fcs_low fcs = u8 (bit_and fcs 0xff)

abbrev pub fcs_high : ℕ → ℕ
fcs_high fcs = u8 (bit_and fcs 0xff00 / 256)

-- `len` bytes of memory from `buf` on. `len - 2` wraps below 2, and the test is then one of
-- whatever the memory holds. True for the result 0.
unfoldable pub ppp_fcs_verify : List ℕ → ℕ → Bool
ppp_fcs_verify buf len =
    let fcs = ppp_fcs_finish (ppp_fcs_start (take (u32 (len + 4294967294)) buf)) in
    not (
      not (bit_and fcs 0xff00 / 256 == byte buf (u32 (len + 4294967295)))
      || not (bit_and fcs 0xff == byte buf (u32 (len + 4294967294))))

-- `((in_buf[i] + 1u) >> 1) == 0x3Fu`
unfoldable pub needs_escape : ℕ → Bool
needs_escape b = (b + 1) / 2 == 0x3f

-- What stands behind the start byte; the last byte is the stop byte, and is not escaped.
unfoldable pub esc_char_count : List ℕ → ℕ
esc_char_count [] = 0
esc_char_count (b ∷ []) = 0
esc_char_count (b ∷ c ∷ rest) = (if needs_escape b then 1 else 0) + esc_char_count (c ∷ rest)

unfoldable pub escape_tail : List ℕ → List ℕ
escape_tail [] = []
escape_tail (b ∷ []) = b ∷ []
escape_tail (b ∷ c ∷ rest) =
    let more = escape_tail (c ∷ rest) in
    if needs_escape b then pppf_ctrl_esc ∷ bit_xor b 0x20 ∷ more else b ∷ more

-- The serial line takes what it is given. The callers ignore the result.
unfoldable pub serial_write : List ℕ → Io → Io
serial_write buf io = record io { sent = buf ∷ io.sent }

unfoldable pub count_alloc : Io → Io
count_alloc io = record io { allocs = io.allocs + 1 }

unfoldable pub escaped_send : Config → ℕ → List ℕ → Io → Io
unfolding serial_write count_alloc
escaped_send c start rest io =
    if esc_char_count rest == 0
    then serial_write (start ∷ rest) io
    else (if c.zalloc io.allocs
        then serial_write (start ∷ escape_tail rest) (count_alloc io)
        else count_alloc io)

unfoldable pub ppp_serial_send_escape : Config → List ℕ → Io → Io
unfolding escaped_send serial_write
ppp_serial_send_escape c [] io = serial_write [] io
ppp_serial_send_escape c (start ∷ rest) io = escaped_send c start rest io

-- The bytes of a control frame around its payload, from the flag to the flag.
unfoldable pub ctl_frame : ℕ → List ℕ → List ℕ
ctl_frame code payload =
    let covered =
      pppf_addr ∷ pppf_ctrl ∷ u8 (bit_and code 0xff) ∷ u8 (bit_and code 0xff00 / 256) ∷ payload in
    let fcs = ppp_fcs_finish (ppp_fcs_start covered) in
    pppf_flag_seq ∷ (covered ++ (fcs_low fcs ∷ fcs_high fcs ∷ pppf_flag_seq ∷ []))

-- `payload` is what the caller has put in place behind the header, `len - 8` bytes.
unfoldable pub pico_ppp_ctl_send : Config → ℕ → List ℕ → Io → Io
pico_ppp_ctl_send c code payload io =
    if c.serial_send then ppp_serial_send_escape c (ctl_frame code payload) io else io

abbrev pub bit : ℕ → ℕ → Bool
bit flags opt = not (bit_and flags (u16 (2 ^ opt)) == 0)

abbrev pub lcpopt_mru : ℕ
lcpopt_mru = 1

abbrev pub lcpopt_auth : ℕ
lcpopt_auth = 3

abbrev pub lcpopt_proto_comp : ℕ
lcpopt_proto_comp = 7

abbrev pub lcpopt_addrctl_comp : ℕ
lcpopt_addrctl_comp = 8

-- A frame for an IP datagram: the address and control bytes, and the first byte of the protocol,
-- are left out if the peer has agreed to that.
unfoldable pub data_frame : ℕ → List ℕ → List ℕ
data_frame peer buf =
    let head = if bit peer lcpopt_addrctl_comp then [] else pppf_addr ∷ pppf_ctrl ∷ [] in
    let proto = if bit peer lcpopt_proto_comp then [] else 0x00 ∷ [] in
    let covered = proto ++ 0x21 ∷ buf in
    let fcs = ppp_fcs_finish (ppp_fcs_start covered) in
    pppf_flag_seq ∷ (head ++ (covered ++ (fcs_low fcs ∷ fcs_high fcs ∷ pppf_flag_seq ∷ [])))

abbrev pub is_opened : IpcpState → Bool
is_opened IpcpState.opened = true
is_opened _ = false

-- Nothing is sent until IPCP is open. `buf` has at most PICO_PPP_MTU bytes.
unfoldable pub pico_ppp_send : Ppp → List ℕ → Io
pico_ppp_send s buf =
    if is_opened s.ipcp_state
    then (if s.serial_send
        then ppp_serial_send_escape s.config (data_frame s.lcpopt_peer buf) s.io
        else s.io)
    else s.io
