-- ===== src/Ppp/Framing/Check.antt =====
-- The frame check sequence of modules/pico_dev_ppp.c: a frame that is sent passes the receiver's test.
use fd_picotcp.Prelude.{
  ℕ, suc, ◌+◌, ◌<◌, true, List, ◌∷◌, ◌++◌, ◌≡◌, arith, length, take_self, get_or-append,
  get_or-append_next,
}
use fd_picotcp.Prelude.Bits.{bit_and-le}
use fd_picotcp.Ppp.Wire.{ppp_fcs_verify, ppp_fcs_start, ppp_fcs_finish, fcs_low, fcs_high, u32}

-- The check sequence that follows some bytes in a frame.
abbrev pub fcs_of : List ℕ → ℕ
fcs_of covered = ppp_fcs_finish (ppp_fcs_start covered)

-- Bytes followed by their check sequence pass the receiver's test, whatever stands behind them.
pub fcs_verify_sent :
    (covered rest : List ℕ)
    → length covered + 2 < 4294967296
    → ppp_fcs_verify
        (covered ++ fcs_low (fcs_of covered) ∷ fcs_high (fcs_of covered) ∷ rest)
        (length covered + 2)
      ≡ true
unfolding ppp_fcs_verify
fcs_verify_sent covered rest h =
    let n : u32 (length covered + 2 + 4294967294) ≡ length covered = omega arith in
    let n' : u32 (length covered + 2 + 4294967295) ≡ suc (length covered) = omega arith in
    rw
      (
        n,
        n',
        take_self covered (fcs_low (fcs_of covered) ∷ fcs_high (fcs_of covered) ∷ rest),
        get_or-append covered (fcs_low (fcs_of covered)) (fcs_high (fcs_of covered) ∷ rest) 0,
        get_or-append_next covered (fcs_low (fcs_of covered)) (fcs_high (fcs_of covered)) rest 0,
      )
      (ground (arith, bit_and-le (fcs_of covered) 0xff, bit_and-le (fcs_of covered) 0xff00))
