-- ===== src/Ppp/Options/Loops.antt =====
-- Where the option loops of modules/pico_dev_ppp.c do not come back.
use fd_picotcp.Prelude.{ℕ, zero, suc, ◌+◌, ◌<◌, ◌≡◌, refl, ap, ◌∙◌, arith, none, List}
use fd_picotcp.Ppp.Types.{byte}
use fd_picotcp.Ppp.Lcp.{nack_options}
use fd_picotcp.Ppp.IpcpInput.{IpcpScan, ipcp_option, ipcp_options}
use fd_picotcp.Ppp.Options.Ends.{ipcp_option-offset}

nack_options_loop :
    (fuel : ℕ) (m : List ℕ) (len rej i : ℕ)
    → i < len
    → byte m (i + 1) ≡ 0
    → nack_options fuel m len rej i ≡ none
unfolding nack_options
nack_options_loop zero m len rej i h z = refl
nack_options_loop (suc fuel) m len rej i h z =
    let back : i + byte m (i + 1) ≡ i = omega arith in
    let again = nack_options_loop fuel m len rej i h z in rw (back, again, z) (ground arith)

ipcp_options_loop :
    (fuel code : ℕ) (m : List ℕ) (len : ℕ) (r : IpcpScan)
    → r.offset < len
    → byte m (r.offset + 1) ≡ 0
    → ipcp_options fuel code m len r ≡ none
unfolding ipcp_options
ipcp_options_loop zero code m len r h z = refl
ipcp_options_loop (suc fuel) code m len r h z =
    let back : (ipcp_option code m r).offset ≡ r.offset =
      omega (arith, ipcp_option-offset code m r) in
    rw
      (ipcp_options_loop fuel code m len (ipcp_option code m r) (rw back h)
        (ap (λ k. byte m (k + 1)) back ∙ z))
      (ground arith)

-- An option of length 0 inside the packet is a loop without end, for every number of rounds, both
-- in the scan for rejected link options and in that of an IP control packet.
pub empty_option_loops :
    (fuel code : ℕ) (m : List ℕ) (len rej : ℕ) (r : IpcpScan)
    → r.offset < len
    → byte m (r.offset + 1) ≡ 0
    → (nack_options fuel m len rej r.offset ≡ none) × (ipcp_options fuel code m len r ≡ none)
empty_option_loops fuel code m len rej r h z =
    (nack_options_loop fuel m len rej r.offset h z, ipcp_options_loop fuel code m len r h z)
