-- ===== src/Ppp/Framing/Frames.antt =====
-- A control frame of modules/pico_dev_ppp.c, from the sender to the receiver's packet processing.
use fd_picotcp.Prelude.{
  ℕ, suc, ◌+◌, ◌-◌, ◌/◌, ◌<◌, true, some, ◌>>=◌, List, [], ◌∷◌, ◌++◌, append_assoc, ◌≡◌, sym, ap,
  ◌∙◌, arith, length, length-append, ◌==◌, Bool-cases, inl, inr, ==_iff, bit_and, take, drop,
  take_self,
}
use fd_picotcp.Ppp.Types.{Ppp, Config, Io, pppf_addr, pppf_ctrl}
use fd_picotcp.Ppp.Wire.{
  u8, ctl_frame, pico_ppp_ctl_send, ppp_serial_send_escape, escaped_send, esc_char_count,
  escape_tail, fcs_low, fcs_high, ppp_fcs_verify,
}
use fd_picotcp.Ppp.Poll.{Line, poll_loop, modem_connected}
use fd_picotcp.Ppp.Input.{ppp_process_packet, ppp_process_packet_payload}
use fd_picotcp.Ppp.Framing.Escape.{escape_tail_none}
use fd_picotcp.Ppp.Framing.Check.{fcs_of, fcs_verify_sent}
use fd_picotcp.Ppp.Framing.Delivery.{with_buf, idle, frame_delivered}

-- What the check sequence of a control frame covers.
abbrev pub covered : ℕ → List ℕ → List ℕ
covered code payload =
    pppf_addr ∷ pppf_ctrl ∷ u8 (bit_and code 0xff) ∷ u8 (bit_and code 0xff00 / 256) ∷ payload

-- A control frame between its flags.
abbrev pub inner : ℕ → List ℕ → List ℕ
inner code payload =
    covered code payload
    ++ fcs_low (fcs_of (covered code payload)) ∷ fcs_high (fcs_of (covered code payload)) ∷ []

-- The bytes on the line.
abbrev pub on_line : ℕ → List ℕ → List ℕ
on_line code payload = 0x7e ∷ escape_tail (inner code payload ++ 0x7e ∷ [])

pub escaped_send-sent :
    (c : Config) (start : ℕ) (rest : List ℕ) (io : Io)
    → c.zalloc io.allocs ≡ true
    → (escaped_send c start rest io).sent ≡ (start ∷ escape_tail rest) ∷ io.sent
unfolding escaped_send
escaped_send-sent c start rest io h = elim (Bool-cases (esc_char_count rest == 0)) [
  | inl e ↦ rw (e, escape_tail_none rest ((==_iff (esc_char_count rest) 0).0 e))
  | inr e ↦ rw (e, h)
]

sent_assoc :
    (code : ℕ) (payload : List ℕ) (before : List (List ℕ))
    → ((0x7e
          ∷ escape_tail (
              covered code payload
              ++ fcs_low (fcs_of (covered code payload))
                ∷ fcs_high (fcs_of (covered code payload))
                ∷ 0x7e
                ∷ []))
        ∷ before)
      ≡ on_line code payload ∷ before
sent_assoc code payload before =
    ap (λ x. (0x7e ∷ escape_tail x) ∷ before)
      (sym (
        append_assoc (covered code payload)
          (fcs_low (fcs_of (covered code payload)) ∷ fcs_high (fcs_of (covered code payload)) ∷ [])
          (0x7e ∷ [])))

-- If the line is set and memory is there, a control frame goes out escaped, once.
pub ctl_send-sent :
    (c : Config) (code : ℕ) (payload : List ℕ) (io : Io)
    → c.serial_send ≡ true
    → c.zalloc io.allocs ≡ true
    → (pico_ppp_ctl_send c code payload io).sent ≡ on_line code payload ∷ io.sent
unfolding pico_ppp_ctl_send ctl_frame ppp_serial_send_escape
ctl_send-sent c code payload io h k =
    rw h (rw (escaped_send-sent c _ _ io k) (sent_assoc code payload io.sent))

length-inner :
    (code : ℕ) (payload : List ℕ) → length (inner code payload) ≡ length (covered code payload) + 2
length-inner code payload = length-append (covered code payload) (_ ∷ _ ∷ [])

verify_inner :
    (code : ℕ) (payload rest : List ℕ)
    → length payload < 2000
    → ppp_fcs_verify (inner code payload ++ rest) (length (inner code payload)) ≡ true
verify_inner code payload rest h = rw (length-inner code payload) (
    rw (append_assoc (covered code payload) (_ ∷ _ ∷ []) rest)
      (fcs_verify_sent (covered code payload) rest (omega arith)))

packet_accepted :
    (s : Ppp) (code : ℕ) (payload rest : List ℕ)
    → length payload < 2000
    → ppp_process_packet (with_buf s (inner code payload ++ rest)) (length (inner code payload))
      ≡ ppp_process_packet_payload (with_buf s (inner code payload ++ rest)) 2 (length payload + 2)
unfolding ppp_process_packet
packet_accepted s code payload rest h = rw (verify_inner code payload rest h) (
    ap (ppp_process_packet_payload (with_buf s (inner code payload ++ rest)) 2)
      (omega (arith, length-inner code payload)))

take_two :
    (n a b : ℕ) (xs ys zs : List ℕ)
    → n ≡ suc (suc (length xs))
    → take n (a ∷ b ∷ ((xs ++ ys) ++ zs)) ≡ a ∷ b ∷ xs
take_two n a b xs ys zs e =
    rw (e, append_assoc xs ys zs) (ap (λ l. a ∷ b ∷ l) (take_self xs (ys ++ zs)))

-- The protocol field and the payload stand behind the address and the control byte.
taken_back :
    (code : ℕ) (payload rest : List ℕ)
    → take (length payload + 2) (drop 2 (inner code payload ++ 0x7e ∷ rest))
      ≡ u8 (bit_and code 0xff) ∷ u8 (bit_and code 0xff00 / 256) ∷ payload
taken_back code payload rest = take_two _ _ _ payload _ (0x7e ∷ rest) (omega arith)

-- A control frame that is sent is received as it was. A sender whose line is set and whose memory is
-- there puts one frame on the line, for a payload of less than 2000 bytes. Polled byte by byte, with a
-- score left, on a connected device with an empty line and a buffer that is longer than the payload by
-- more than six bytes, that frame ends in the processing of exactly the protocol field and the payload
-- that were sent, and in an empty line.
pub control_frame_delivered :
    (sender : Config) (io : Io) (s : Ppp) (l : Line) (score code : ℕ) (payload m : List ℕ)
    → sender.serial_send ≡ true
    → sender.zalloc io.allocs ≡ true
    → modem_connected s.modem_state ≡ true
    → 0 < score
    → length payload < 2000
    → length payload + 6 < length m
    → (frame cells : List ℕ) × ((pico_ppp_ctl_send sender code payload io).sent ≡ frame ∷ io.sent)
      × (take (length payload + 2) (drop 2 cells)
          ≡ u8 (bit_and code 0xff) ∷ u8 (bit_and code 0xff00 / 256) ∷ payload)
      × (poll_loop frame (with_buf s m) (idle l 0) score ≡ (
          ppp_process_packet_payload (with_buf s cells) 2 (length payload + 2) >>= λ t.
          some (record { device = t; line = idle l 0; score = score - 1 })))
control_frame_delivered sender io s l score code payload m line memory connected open_score h room =
    let n = length-inner code payload in
    let (rest, e) =
      frame_delivered s l score connected open_score (inner code payload) m (omega (arith, n))
        (omega (arith, n)) (omega (arith, n)) in
    (
      on_line code payload,
      inner code payload ++ 0x7e ∷ rest,
      ctl_send-sent sender code payload io line memory,
      taken_back code payload rest,
      e
          ∙ ap (λ r. r >>= λ t. some (record { device = t; line = idle l 0; score = score - 1 }))
              (packet_accepted s code payload (0x7e ∷ rest) h),
    )
