-- ===== src/Ppp/Framing/Delivery.antt =====
-- What `ppp_serial_send_escape` puts on the line, `pico_ppp_poll` hands on as it was
-- (modules/pico_dev_ppp.c).
use fd_picotcp.Prelude.{
  ℕ, suc, ◌+◌, ◌-◌, ◌<◌, bit_xor, true, false, some, ◌>>=◌, List, [], ◌∷◌, ◌++◌, ◌≡◌, ◌≢◌, inl, inr,
  ap, ◌∙◌, arith, length, set, drop, if◌then◌else◌, Bool-cases, Option-cases,
}
use fd_picotcp.Ppp.Types.{Ppp}
use fd_picotcp.Ppp.Wire.{needs_escape, escape_tail}
use fd_picotcp.Ppp.Poll.{Line, Polled, poll_loop, poll_byte, modem_connected}
use fd_picotcp.Ppp.Framing.Escape.{
  needs_escape_values, needs_escape_other, escape_tail-snoc, escape_tail_last,
}
use fd_picotcp.Ppp.Input.{ppp_process_packet}
use fd_picotcp.Ppp.Framing.Buffer.{
  write_all, write_all-start, set-set, drop-cons, set-append, length-set,
}

-- The device with another buffer.
abbrev pub with_buf : Ppp → List ℕ → Ppp
with_buf s m = record s { request = record s.request { recv_buf = m } }

pub poll_loop_next :
    (b : ℕ) (bs : List ℕ) (s : Ppp) (l : Line) (score : ℕ) {r : Polled}
    → poll_byte s l score b ≡ some r
    → r.line.at < 2048
    → 0 < r.score
    → poll_loop (b ∷ bs) s l score ≡ poll_loop bs r.device r.line r.score
unfolding poll_loop
poll_loop_next b bs s l score e h k = rw e (ground arith)

-- Between two bytes: no escape is pending.
abbrev pub idle : Line → ℕ → Line
idle l i = record l { at = i; control_escape = false }

-- Inside a frame, where the modem is connected.
module _ (s : Ppp) (l : Line) (score : ℕ) (connected : modem_connected s.modem_state ≡ true) where
  plain_byte :
      (b : ℕ) (m : List ℕ) (i : ℕ)
      → needs_escape b ≡ false
      → poll_byte (with_buf s m) (idle l i) score b
        ≡ some (record { device = with_buf s (set m i b); line = idle l (suc i); score = score })
  unfolding poll_byte
  plain_byte b m i h = ground (arith, needs_escape_other b h)

  escape_byte :
      (m : List ℕ) (i : ℕ)
      → poll_byte (with_buf s m) (idle l i) score 0x7d
        ≡ some (record {
          device = with_buf s (set m i 0x7d);
          line = record l { at = i; control_escape = true };
          score = score;
        })
  unfolding poll_byte
  escape_byte m i = ground arith

  flag_byte :
      (m : List ℕ)
      → poll_byte (with_buf s m) (idle l 0) score 0x7e
        ≡ some (record { device = with_buf s (set m 0 0x7e); line = idle l 0; score = score })
  unfolding poll_byte
  flag_byte m = ground arith

  escaped_byte :
      (b : ℕ) (m : List ℕ) (i : ℕ)
      → b ≢ 0x7e
      → poll_byte (with_buf s m) (record l { at = i; control_escape = true }) score b
        ≡ some (record {
          device = with_buf s (set m i (bit_xor b 0x20));
          line = idle l (suc i);
          score = score;
        })
  unfolding poll_byte
  escaped_byte b m i h = ground (arith, set-set m i b (bit_xor b 0x20))

  module _ (open_score : 0 < score) where
    escaped_pair :
        (b : ℕ) (rest : List ℕ) (m : List ℕ) (i : ℕ)
        → suc i < 2048
        → bit_xor b 0x20 ≢ 0x7e
        → poll_loop (0x7d ∷ bit_xor b 0x20 ∷ rest) (with_buf s m) (idle l i) score
          ≡ poll_loop rest
              (with_buf s (set m i (bit_xor (bit_xor b 0x20) 0x20)))
              (idle l (suc i))
              score
    escaped_pair b rest m i lt ne =
        poll_loop_next 0x7d (bit_xor b 0x20 ∷ rest) _ _ score (escape_byte m i) (omega arith)
          open_score
        ∙ (poll_loop_next (bit_xor b 0x20) rest _ _ score
              (escaped_byte (bit_xor b 0x20) (set m i 0x7d) i ne) lt open_score
            ∙ ap (λ m'. poll_loop rest (with_buf s m') (idle l (suc i)) score)
                (set-set m i 0x7d (bit_xor (bit_xor b 0x20) 0x20)))

    one_byte :
        (b : ℕ) (rest : List ℕ) (m : List ℕ) (i : ℕ)
        → suc i < 2048
        → poll_loop
            (if needs_escape b then 0x7d ∷ bit_xor b 0x20 ∷ rest else b ∷ rest)
            (with_buf s m)
            (idle l i)
            score
          ≡ poll_loop rest (with_buf s (set m i b)) (idle l (suc i)) score
    one_byte b rest m i lt = elim (Bool-cases (needs_escape b)) [
      | inl e ↦ rw e (elim (needs_escape_values b e) [
        | inl v ↦ rw v (escaped_pair 0x7d rest m i lt (λ h. omega arith))
        | inr v ↦ rw v (escaped_pair 0x7e rest m i lt (λ h. omega arith))
      ])
      | inr e ↦ rw e (poll_loop_next b rest _ _ score (plain_byte b m i e) lt open_score)
    ]

    collect :
        (bs : List ℕ) (m : List ℕ) (i : ℕ)
        → i + length bs < 2048
        → poll_loop (escape_tail (bs ++ 0x7e ∷ [])) (with_buf s m) (idle l i) score
          ≡ poll_loop (0x7e ∷ []) (with_buf s (write_all m i bs)) (idle l (i + length bs)) score
    unfolding write_all
    collect [] m i lt =
        rw (escape_tail_last 0x7e)
          (ap (λ k. poll_loop (0x7e ∷ []) (with_buf s m) (idle l k) score) (omega arith))
    collect (b ∷ bs) m i lt = rw (escape_tail-snoc b bs 0x7e) (
        one_byte b (escape_tail (bs ++ 0x7e ∷ [])) m i (omega arith)
        ∙ (collect bs (set m i b) (suc i) (omega arith)
            ∙ ap
                (λ k.
                  poll_loop (0x7e ∷ []) (with_buf s (write_all (set m i b) (suc i) bs)) (idle l k)
                    score)
                (omega arith)))

    last_flag :
        (m : List ℕ) (n : ℕ)
        → 1 < n
        → poll_loop (0x7e ∷ []) (with_buf s m) (idle l n) score ≡ (
            ppp_process_packet (with_buf s (set m n 0x7e)) n >>= λ t.
            some (record { device = t; line = idle l 0; score = score - 1 }))
    unfolding poll_loop poll_byte
    last_flag m n lt = elim (Option-cases (ppp_process_packet (with_buf s (set m n 0x7e)) n)) [
      | inl e ↦ rw e (ground (arith, e))
      | inr (t, e) ↦ rw e (ground (arith, e))
    ]

    first_flag :
        (bs : List ℕ) (m : List ℕ)
        → poll_loop (0x7e ∷ bs) (with_buf s m) (idle l 0) score
          ≡ poll_loop bs (with_buf s (set m 0 0x7e)) (idle l 0) score
    first_flag bs m = poll_loop_next 0x7e bs _ _ score (flag_byte m) (omega arith) open_score

    -- A whole frame, between its flags: where the modem is connected, the line empty and the
    -- buffer large enough, the packet that was escaped is processed, in a buffer that goes on
    -- with the last flag.
    pub frame_delivered :
        (bs : List ℕ) (m : List ℕ)
        → 1 < length bs
        → length bs < 2048
        → length bs < length m
        → (rest : List ℕ) × (poll_loop
              (0x7e ∷ escape_tail (bs ++ 0x7e ∷ []))
              (with_buf s m)
              (idle l 0)
              score
            ≡ (ppp_process_packet (with_buf s (bs ++ 0x7e ∷ rest)) (length bs) >>= λ t.
                some (record { device = t; line = idle l 0; score = score - 1 })))
    frame_delivered bs m two small room =
        let m' = set m 0 0x7e in
        let (y, left) = drop-cons m' (length bs) (rw (length-set m 0 0x7e) room) in
        let zero_sum : 0 + length bs ≡ length bs = omega arith in
        let stored : write_all m' 0 bs ≡ bs ++ drop (length bs) m' =
          write_all-start m' bs (rw (length-set m 0 0x7e) (omega arith)) in
        (
          drop (suc (length bs)) m',
          first_flag (escape_tail (bs ++ 0x7e ∷ [])) m
              ∙ (collect bs m' 0 (omega arith)
                  ∙ (last_flag (write_all m' 0 bs) (0 + length bs) (omega arith)
                      ∙ rw (
                        zero_sum,
                        stored,
                        left,
                        set-append bs y (drop (suc (length bs)) m') 0x7e,
                      ))),
        )
