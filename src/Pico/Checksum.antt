-- ===== src/Pico/Checksum.antt =====
-- stack/pico_frame.c: the checksum of the internet protocols, and its use in modules/pico_ipv4.c. The
-- host is little-endian.
pub mod Sums
pub mod Folding
pub mod Checked
use fd_picotcp.Prelude.{
  ℕ, zero, suc, ◌+◌, ◌-◌, ◌*◌, ◌/◌, ◌%◌, ◌^◌, Bool, List, [], ◌∷◌, ◌==◌, if◌then◌else◌, length,
  get_or, set,
}
use fd_picotcp.Pico.Words.{short_be}

-- The last byte of an odd number of bytes.
unfoldable pub odd_byte : ℕ → List ℕ → ℕ
odd_byte sum bytes =
    if length bytes % 2 == 1 then (sum + get_or bytes (length bytes - 1) 0) % 2 ^ 32 else sum

-- The loop over the words of two bytes.
unfoldable pub add_words : ℕ → List ℕ → ℕ
add_words sum [] = sum
add_words sum (a ∷ []) = sum
add_words sum (a ∷ b ∷ bytes) = add_words ((sum + (a + 256 * b)) % 2 ^ 32) bytes

unfoldable pub pico_checksum_adder : ℕ → List ℕ → ℕ
pico_checksum_adder sum bytes = add_words (odd_byte sum bytes) bytes

-- The loop of pico_checksum_finalize. Three rounds are enough for 32 bits.
unfoldable pub carry : ℕ → ℕ → ℕ
carry zero sum = sum
carry (suc fuel) sum =
    let rest = carry fuel (sum % 2 ^ 16 + sum / 2 ^ 16) in if sum / 2 ^ 16 == 0 then sum else rest

-- The complement of 32 bits, cut to 16.
abbrev pub complement : ℕ → ℕ
complement n = (2 ^ 32 - 1 - n) % 2 ^ 16

unfoldable pub pico_checksum_finalize : ℕ → ℕ
pico_checksum_finalize sum = short_be (complement (carry 3 sum))

unfoldable pub pico_checksum : List ℕ → ℕ
pico_checksum inbuf = pico_checksum_finalize (pico_checksum_adder 0 inbuf)

unfoldable pub pico_dualbuffer_checksum : List ℕ → List ℕ → ℕ
pico_dualbuffer_checksum inbuf1 inbuf2 =
    pico_checksum_finalize (pico_checksum_adder (pico_checksum_adder 0 inbuf1) inbuf2)

-- `hdr->crc`, the bytes 10 and 11 of the header.
abbrev pub set_crc : ℕ → List ℕ → List ℕ
set_crc v hdr = set (set hdr 10 (v % 256)) 11 (v / 256 % 256)

-- On the `net_len` bytes of a header.
unfoldable pub pico_ipv4_checksum : List ℕ → List ℕ
pico_ipv4_checksum hdr =
    let cleared = set_crc 0 hdr in set_crc (short_be (pico_checksum cleared)) cleared

-- Whether the header passes; one that does not is discarded.
unfoldable pub pico_ipv4_crc_check : List ℕ → Bool
pico_ipv4_crc_check hdr = short_be (pico_checksum hdr) == 0
