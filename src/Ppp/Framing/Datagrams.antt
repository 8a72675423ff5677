-- ===== src/Ppp/Framing/Datagrams.antt =====
-- An IP datagram in a data frame of modules/pico_dev_ppp.c, from one device to the stack behind another.
use fd_picotcp.Prelude.{
  ℕ, ◌+◌, ◌-◌, ◌<◌, ◌≤◌, Bool, true, false, some, ◌>>=◌, List, [], ◌∷◌, ◌++◌, append_assoc, ◌≡◌,
  refl, sym, ap, ◌∙◌, arith, length, length-append, take, take_self,
}
use fd_picotcp.Ppp.Types.{Ppp}
use fd_picotcp.Ppp.Wire.{
  bit, lcpopt_addrctl_comp, lcpopt_proto_comp, data_frame, pico_ppp_send, ppp_serial_send_escape,
  escape_tail, fcs_low, fcs_high, ppp_fcs_verify, is_opened,
}
use fd_picotcp.Ppp.Poll.{Line, poll_loop, modem_connected}
use fd_picotcp.Ppp.Input.{data_in, ppp_process_packet, ppp_process_packet_payload}
use fd_picotcp.Ppp.Framing.Check.{fcs_of, fcs_verify_sent}
use fd_picotcp.Ppp.Framing.Delivery.{with_buf, idle, frame_delivered}
use fd_picotcp.Ppp.Framing.Frames.{escaped_send-sent}

-- What the check sequence of a data frame covers, with the protocol in one byte or in two.
abbrev labelled : Bool → List ℕ → List ℕ
labelled true buf = 0x21 ∷ buf
labelled false buf = 0x00 ∷ 0x21 ∷ buf

abbrev sequence : List ℕ → List ℕ
sequence covered = fcs_low (fcs_of covered) ∷ fcs_high (fcs_of covered) ∷ []

-- A data frame between its flags, to a peer that does without the address and control bytes.
abbrev enclosed : Bool → List ℕ → List ℕ
enclosed short buf = labelled short buf ++ sequence (labelled short buf)

send-sent :
    (short : Bool) (s : Ppp) (buf : List ℕ)
    → is_opened s.ipcp_state ≡ true
    → s.serial_send ≡ true
    → s.zalloc s.allocs ≡ true
    → bit s.lcpopt_peer lcpopt_addrctl_comp ≡ true
    → bit s.lcpopt_peer lcpopt_proto_comp ≡ short
    → (pico_ppp_send s buf).sent ≡ (0x7e ∷ escape_tail (enclosed short buf ++ 0x7e ∷ [])) ∷ s.sent
unfolding pico_ppp_send data_frame ppp_serial_send_escape
send-sent true s buf up line memory addr proto =
    rw (up, line, addr, proto)
      (escaped_send-sent s.config _ _ s.io memory
        ∙ ap (λ x. (0x7e ∷ escape_tail x) ∷ s.sent)
            (sym (append_assoc (labelled true buf) (sequence (labelled true buf)) (0x7e ∷ []))))
send-sent false s buf up line memory addr proto =
    rw (up, line, addr, proto)
      (escaped_send-sent s.config _ _ s.io memory
        ∙ ap (λ x. (0x7e ∷ escape_tail x) ∷ s.sent)
            (sym (append_assoc (labelled false buf) (sequence (labelled false buf)) (0x7e ∷ []))))

-- The device after it has handed the datagram to the stack.
abbrev pub handed : Ppp → List ℕ → List ℕ → Ppp
handed s cells buf = record (with_buf s cells) { received = buf ∷ s.received }

labelled_fits : (short : Bool) (buf : List ℕ) → length (labelled short buf) ≤ length buf + 2
labelled_fits true buf = omega arith
labelled_fits false buf = omega arith

taken : (n : ℕ) (buf xs rest : List ℕ) → n ≡ length buf → take n ((buf ++ xs) ++ rest) ≡ buf
taken n buf xs rest e = rw (e, append_assoc buf xs rest) (take_self buf (xs ++ rest))

verified :
    (short : Bool) (buf rest : List ℕ)
    → length buf < 2000
    → ppp_fcs_verify (enclosed short buf ++ rest) (length (enclosed short buf)) ≡ true
verified short buf rest h =
    rw (length-append (labelled short buf) (sequence (labelled short buf))) (
      rw (append_assoc (labelled short buf) (sequence (labelled short buf)) rest)
        (fcs_verify_sent (labelled short buf) rest (omega (arith, labelled_fits short buf))))

datagram_taken :
    (short : Bool) (s : Ppp) (buf rest : List ℕ)
    → length buf < 2000
    → ppp_process_packet (with_buf s (enclosed short buf ++ rest)) (length (enclosed short buf))
      ≡ some (handed s (enclosed short buf ++ rest) buf)
unfolding ppp_process_packet ppp_process_packet_payload data_in
datagram_taken true s buf rest h = rw (verified true buf rest h) (
    ap (λ got. some (handed s (enclosed true buf ++ rest) got))
      (taken _ buf (sequence (labelled true buf)) rest
        (omega (arith, length-append buf (sequence (labelled true buf))))))
datagram_taken false s buf rest h = rw (verified false buf rest h) (
    ap (λ got. some (handed s (enclosed false buf ++ rest) got))
      (taken _ buf (sequence (labelled false buf)) rest
        (omega (arith, length-append buf (sequence (labelled false buf))))))

-- An IP datagram gets through: a device whose IP control is open, whose line is set and whose
-- memory is there puts one frame on the line for it, if the peer has agreed to do without address
-- and control bytes, with the protocol in one byte or two. For a datagram of less than 2000 bytes,
-- polled byte by byte, with a score left, on a connected device with an empty line and a buffer
-- that is longer by more than four bytes, that frame hands exactly the datagram to the stack.
pub datagram_delivered :
    (sender s : Ppp) (l : Line) (score : ℕ) (buf m : List ℕ)
    → is_opened sender.ipcp_state ≡ true
    → sender.serial_send ≡ true
    → sender.zalloc sender.allocs ≡ true
    → bit sender.lcpopt_peer lcpopt_addrctl_comp ≡ true
    → modem_connected s.modem_state ≡ true
    → 0 < score
    → length buf < 2000
    → length buf + 4 < length m
    → (frame cells : List ℕ) × ((pico_ppp_send sender buf).sent ≡ frame ∷ sender.sent)
      × (poll_loop frame (with_buf s m) (idle l 0) score
          ≡ some (record { device = handed s cells buf; line = idle l 0; score = score - 1 }))
datagram_delivered sender s l score buf m up line memory addr connected open_score h room =
    let short = bit sender.lcpopt_peer lcpopt_proto_comp in
    let n = length-append (labelled short buf) (sequence (labelled short buf)) in
    let fits = labelled_fits short buf in
    let (rest, e) =
      frame_delivered s l score connected open_score (enclosed short buf) m (omega (arith, n))
        (omega (arith, n, fits)) (omega (arith, n, fits)) in
    (
      0x7e ∷ escape_tail (enclosed short buf ++ 0x7e ∷ []),
      enclosed short buf ++ 0x7e ∷ rest,
      send-sent short sender buf up line memory addr refl,
      e
          ∙ ap (λ r. r >>= λ t. some (record { device = t; line = idle l 0; score = score - 1 }))
              (datagram_taken short s buf (0x7e ∷ rest) h),
    )
