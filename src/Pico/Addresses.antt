-- ===== src/Pico/Addresses.antt =====
-- modules/pico_ipv4.c: IPv4 addresses, as text and by class. An address is a number whose lowest
-- byte is its first.
pub mod Text
use fd_picotcp.Prelude.{
  ℕ, zero, suc, ◌+◌, ◌-◌, ◌*◌, ◌/◌, ◌%◌, ◌^◌, bit_and, ℤ, pos, negsuc, Bool, true, false, not, ◌&&◌,
  ◌||◌, List, [], ◌∷◌, ◌++◌, Option, none, some, ltb, leb, ◌==◌, if◌then◌else◌, get_or, set, ◌>>=◌,
}
use fd_picotcp.Pico.Words.{byte_of, long_be, long_from}

unfoldable pub pico_ipv4_compare : ℕ → ℕ → ℤ
pico_ipv4_compare a b = if ltb a b then negsuc 0 else (if ltb b a then pos 1 else pos 0)

-- The digits of one byte.
unfoldable pub octet : ℕ → List ℕ
octet b =
    if ltb 99 b
    then (48 + b / 100) ∷ (48 + b % 100 / 10) ∷ (48 + b % 100 % 10) ∷ []
    else (if ltb 9 b then (48 + b / 10) ∷ (48 + b % 10) ∷ [] else (48 + b) ∷ [])

-- The text, without the zero behind it.
unfoldable pub pico_ipv4_to_string : ℕ → List ℕ
pico_ipv4_to_string ip =
    octet (byte_of ip 0)
    ++ (46 ∷ (octet (byte_of ip 1) ++ (46 ∷ (octet (byte_of ip 2) ++ (46 ∷ octet (byte_of ip 3))))))

abbrev pub pico_is_digit : ℕ → Bool
pico_is_digit c = not (ltb c 48 || ltb 57 c)

-- The loop over the text: `none` is its return of -1, and otherwise the counter and the bytes.
unfoldable pub read_octets : List ℕ → ℕ → List ℕ → Option (ℕ × List ℕ)
read_octets [] cnt buf = some (cnt, buf)
read_octets (p ∷ text) cnt buf =
    let digit = pico_is_digit p in
    let buf' = if digit then set buf cnt ((10 * get_or buf cnt 0 + p - 48) % 256) else buf in
    let rest = read_octets text (if digit then cnt else suc cnt) buf' in
    if not (p == 0) && ltb cnt 4 then (if digit || p == 46 then rest else none) else some (cnt, buf)

-- Short notations have the last number in the last byte.
unfoldable pub spread : ℕ → List ℕ → Option (List ℕ)
spread cnt buf =
    if cnt == 1
    then some (get_or buf 0 0 ∷ 0 ∷ 0 ∷ get_or buf 1 0 ∷ [])
    else (if cnt == 2
        then some (get_or buf 0 0 ∷ get_or buf 1 0 ∷ 0 ∷ get_or buf 2 0 ∷ [])
        else (if cnt == 3 then some buf else none))

unfoldable pub pico_string_to_ipv4 : List ℕ → Option ℕ
pico_string_to_ipv4 ipstr = do
  r ← read_octets ipstr 0 (0 ∷ 0 ∷ 0 ∷ 0 ∷ [])
  buf ← spread r.0 r.1
  some (long_from buf)

-- The loop of pico_ipv4_valid_netmask: `rounds` bits are left, from the highest of `mask` on.
unfoldable pub count_ones : ℕ → ℕ → Bool → ℕ → ℤ
count_ones zero mask end cnt = pos cnt
count_ones (suc rounds) mask end cnt =
    let bit = leb (2 ^ 31) mask in
    let rest =
      count_ones rounds (mask * 2 % 2 ^ 32) (end || not bit) (if bit then suc cnt else cnt) in
    if bit && end then negsuc 0 else rest

unfoldable pub pico_ipv4_valid_netmask : ℕ → ℤ
pico_ipv4_valid_netmask mask = count_ones 32 (long_be mask) false 0

unfoldable pub pico_ipv4_is_unicast : ℕ → Bool
pico_ipv4_is_unicast address = not (bit_and (byte_of address 0) 0xe0 == 0xe0)

unfoldable pub pico_ipv4_is_multicast : ℕ → Bool
pico_ipv4_is_multicast address =
    not (byte_of address 0 == 0xff) && (bit_and (byte_of address 0) 0xe0 == 0xe0)

unfoldable pub pico_ipv4_is_loopback : ℕ → Bool
pico_ipv4_is_loopback address = byte_of address 0 == 0x7f
