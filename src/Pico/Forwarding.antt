-- ===== src/Pico/Forwarding.antt =====
-- modules/pico_ipv4.c: a packet for another host is forwarded.
pub mod Header
pub mod Guards
pub mod Outcome
use fd_picotcp.Prelude.{
  ℕ, ◌+◌, ◌*◌, ◌-◌, ◌/◌, ◌%◌, Bool, true, false, ◌&&◌, List, [], ◌∷◌, Option, none, some, ltb, ◌==◌,
  if◌then◌else◌, get_or, set, drop,
}
use fd_picotcp.Pico.Words.{u32, long_from}
use fd_picotcp.Pico.Checksum.{set_crc}
use fd_picotcp.Pico.Routes.{Ipv4, Ipv4Link, Ipv4Route, route_find}

-- The fields of a header in memory.
abbrev pub ttl_of : List ℕ → ℕ
ttl_of hdr = get_or hdr 8 0

abbrev pub crc_of : List ℕ → ℕ
crc_of hdr = get_or hdr 10 0 + 256 * get_or hdr 11 0

abbrev pub src_of : List ℕ → ℕ
src_of hdr = long_from (drop 12 hdr)

abbrev pub dst_of : List ℕ → ℕ
dst_of hdr = long_from (drop 16 hdr)

-- Whether a link has the address.
unfoldable pub pico_ipv4_link_get : ℕ → List Ipv4Link → Bool
pico_ipv4_link_get address [] = false
pico_ipv4_link_get address (l ∷ links) =
    let rest = pico_ipv4_link_get address links in if l.address == address then true else rest

-- The packet that was forwarded last.
pub record LastForwarded : Type 0 where
  pub last_id : ℕ
  pub last_proto : ℕ
  pub last_src : ℕ
  pub last_dst : ℕ

-- Why the checks fail.
pub data ForwardRefusal : Type 0 where
  ttl_expired : ForwardRefusal
  local_source : ForwardRefusal
  duplicate : ForwardRefusal

-- The result of the checks, the header as they leave it, and the last packet.
pub record CheckedHeader : Type 0 where
  pub refusal : Option ForwardRefusal
  pub hdr : List ℕ
  pub last : LastForwarded

unfoldable pub decrease_ttl : List ℕ → List ℕ
decrease_ttl hdr = set hdr 8 ((ttl_of hdr + 255) % 256)

unfoldable pub increase_crc : List ℕ → List ℕ
increase_crc hdr = set_crc ((crc_of hdr + 1) % 65536) hdr

abbrev pub identity : List ℕ → LastForwarded
identity hdr = record {
  last_id = get_or hdr 4 0 + 256 * get_or hdr 5 0;
  last_proto = get_or hdr 9 0;
  last_src = src_of hdr;
  last_dst = dst_of hdr;
}

unfoldable pub is_last : LastForwarded → LastForwarded → Bool
is_last a b =
    (a.last_src == b.last_src)
    && ((a.last_id == b.last_id) && ((a.last_dst == b.last_dst) && (a.last_proto == b.last_proto)))

unfoldable pub pico_ipv4_pre_forward_checks : List Ipv4Link → List ℕ → LastForwarded → CheckedHeader
pico_ipv4_pre_forward_checks links hdr last =
    let decreased = decrease_ttl hdr in
    let compensated = increase_crc decreased in
    if ltb (ttl_of decreased) 1
    then record { refusal = some ForwardRefusal.ttl_expired; hdr = decreased; last = last }
    else (if pico_ipv4_link_get (src_of compensated) links
        then record { refusal = some ForwardRefusal.local_source; hdr = compensated; last = last }
        else (if is_last last (identity compensated)
            then record { refusal = some ForwardRefusal.duplicate; hdr = compensated; last = last }
            else record { refusal = none; hdr = compensated; last = identity compensated }))

-- What becomes of a packet. A route without a link is a null pointer that is followed.
pub data Forwarded : Type 0 where
  no_header : Forwarded
  dest_unreachable : Forwarded
  null_link : Forwarded
  refused : ForwardRefusal → Forwarded
  too_big : Forwarded
  sent : ℕ → List ℕ → Forwarded

-- Whether a device has an Ethernet address, what it can send, and what the translation of addresses
-- makes of a header that leaves by a link.
module _ (eth : ℕ → Bool) (mtu : ℕ → ℕ) (nat_outbound : ℕ → List ℕ → List ℕ) where
  -- The length that has to fit.
  abbrev pub sent_len : ℕ → ℕ → ℕ
  sent_len dev len = if eth dev then u32 (len + 4294967282) else len

  unfoldable pub send_checked : ℕ → ℕ → ℕ → List ℕ → Forwarded
  send_checked l dev len hdr =
      if ltb (mtu dev) (sent_len dev len) then too_big else sent dev (nat_outbound l hdr)

  -- From the checks on.
  unfoldable pub after_checks : ℕ → ℕ → ℕ → CheckedHeader → Forwarded
  after_checks l dev len c = elim c.refusal [
    | some why ↦ refused why
    | none ↦ send_checked l dev len c.hdr
  ]

  unfoldable pub forward_on :
      List ℕ
      → ℕ
      → Ipv4
      → List Ipv4Link
      → LastForwarded
      → Option Ipv4Route
      → Forwarded × LastForwarded
  forward_on hdr len s links last none = (dest_unreachable, last)
  forward_on hdr len s links last (some rt) = elim rt.link [
    | none ↦ (null_link, last)
    | some l ↦
        let c = pico_ipv4_pre_forward_checks links hdr last in
        (after_checks l (s.link_at l).dev len c, c.last)
  ]

  unfoldable pub pico_ipv4_forward :
      Option (List ℕ) → ℕ → Ipv4 → List Ipv4Link → LastForwarded → Forwarded × LastForwarded
  pico_ipv4_forward none len s links last = (no_header, last)
  pico_ipv4_forward (some hdr) len s links last =
      forward_on hdr len s links last (route_find s (dst_of hdr))
