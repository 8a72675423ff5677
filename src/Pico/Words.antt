-- ===== src/Pico/Words.antt =====
-- include/pico_config.h: machine words, and the order of their bytes on a little-endian host.
use fd_picotcp.Prelude.{ℕ, ◌+◌, ◌*◌, ◌/◌, ◌%◌, ◌^◌, List, get_or}

abbrev pub u8 : ℕ → ℕ
u8 n = n % 256

abbrev pub u16 : ℕ → ℕ
u16 n = n % 65536

abbrev pub u32 : ℕ → ℕ
u32 n = n % 4294967296

abbrev pub u64 : ℕ → ℕ
u64 n = n % 2 ^ 64

unfoldable pub short_be : ℕ → ℕ
short_be le = le % 256 * 256 + le / 256 % 256

-- Byte `i` of a word in memory.
abbrev pub byte_of : ℕ → ℕ → ℕ
byte_of le i = le / 256 ^ i % 256

unfoldable pub long_be : ℕ → ℕ
long_be le = byte_of le 3 + byte_of le 2 * 2 ^ 8 + byte_of le 1 * 2 ^ 16 + byte_of le 0 * 2 ^ 24

unfoldable pub long_from : List ℕ → ℕ
long_from p = get_or p 3 0 * 2 ^ 24 + get_or p 2 0 * 2 ^ 16 + get_or p 1 0 * 2 ^ 8 + get_or p 0 0
