-- ===== src/Ppp/Options/Sizes.antt =====
-- The packets that modules/pico_dev_ppp.c builds fit the buffers that it reserves for them.
use fd_picotcp.Prelude.{
  ℕ, ◌+◌, ◌≤◌, ◌≡◌, arith, List, ◌++◌, length, length-append, ◌==◌, if◌then◌else◌, Bool-cases, inl,
  inr, bit_and,
}
use fd_picotcp.Ppp.Types.{Ppp}
use fd_picotcp.Ppp.Lcp.{configure_options}
use fd_picotcp.Ppp.Ipcp.{ipcp_request_fill, ipcp_request_options_size, allowed_field, known_field}

allowed_field-length : (f allow tag val : ℕ) → length (allowed_field f allow tag val) ≤ 6
unfolding allowed_field
allowed_field-length f allow tag val = elim (Bool-cases (bit_and f allow == 0)) [
  | inl e ↦ rw e (omega arith)
  | inr e ↦ rw e (omega arith)
]

known_field-length :
    (f allow tag val : ℕ) → length (known_field f allow tag val) ≤ (if val == 0 then 0 else 6)
unfolding known_field
known_field-length f allow tag val = elim (Bool-cases (val == 0)) [
  | inl e ↦ rw e (omega arith)
  | inr e ↦ rw e (allowed_field-length f allow tag val)
]

length_sum :
    (a b c d e : List ℕ)
    → length (a ++ (b ++ (c ++ (d ++ e)))) ≡ length a + length b + length c + length d + length e
length_sum a b c d e = omega (
  arith,
  length-append a (b ++ (c ++ (d ++ e))),
  length-append b (c ++ (d ++ e)),
  length-append c (d ++ e),
  length-append d e,
)

fill_fits : (s : Ppp) → length (ipcp_request_fill s) ≤ ipcp_request_options_size s
unfolding ipcp_request_fill ipcp_request_options_size
fill_fits s =
    let f = s.ipcp_allowed_fields in
    rw length_sum (
      omega (
        arith,
        allowed_field-length f 0x01 0x03 s.ipcp_ip,
        allowed_field-length f 0x02 0x81 s.ipcp_dns1,
        allowed_field-length f 0x04 0x83 s.ipcp_dns2,
        known_field-length f 0x08 0x82 s.ipcp_nbns1,
        known_field-length f 0x10 0x84 s.ipcp_nbns2,
      ))

-- The options of a configure request fit the eight bytes that MY_LCP_REQ_SIZE leaves for them,
-- and those of an IP control request fit the size that is computed for the array, which is the
-- size of all five addresses at most.
pub options_fit :
    (s : Ppp)
    → (length (configure_options s) ≤ 8)
      × (length (ipcp_request_fill s) ≤ ipcp_request_options_size s)
      × (ipcp_request_options_size s ≤ 30)
unfolding configure_options ipcp_request_options_size
options_fit s = (ground arith, fill_fits s, ground arith)
