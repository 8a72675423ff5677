-- ===== src/Pico/Tests/Routes.antt =====
-- Routes and forwarding on small states, and the theorems on them applied.
use fd_picotcp.Prelude.{
  negsuc, ◌⊎◌, ℕ, pos, true, false, List, [], ◌∷◌, none, some, ◌≡◌, ◌≢◌, refl, ◌==◌, if◌then◌else◌,
  arith,
}
use fd_picotcp.Pico.Words.{short_be, long_be, long_from}
use fd_picotcp.Pico.Checksum.{
  pico_checksum, pico_checksum_finalize, pico_checksum_adder, add_words, odd_byte, carry,
  pico_ipv4_crc_check,
}
use fd_picotcp.Pico.Checksum.Sums.{IsBytes}
use fd_picotcp.Pico.Routes.{
  Ipv4, Ipv4Link, pico_ipv4_source_dev_find, pico_ipv4_source_find, route_find, last_covering,
  next_covering, link_of, pico_ipv4_route_add, pico_ipv4_route_del, choose_link, insert_route,
  insert_key, find_key, ipv4_route_compare,
}
use fd_picotcp.Pico.Routes.Order.{Each}
use fd_picotcp.Pico.Routes.Longest.{Answers}
use fd_picotcp.Pico.Routes.Keeping.{Reaches, at_first, add, reached_route_find}
use fd_picotcp.Pico.Routes.Undoing.{route_del-route_add}
use fd_picotcp.Pico.Forwarding.{
  ttl_of, decrease_ttl, increase_crc, dst_of, LastForwarded, Forwarded, pico_ipv4_forward,
}
use fd_picotcp.Pico.Forwarding.Outcome.{Outcome, forward_lem}

-- Two links, of the addresses 10.0.0.1 and 10.1.0.1.
abbrev two_links : ℕ → Ipv4Link
two_links l =
    if l == 1
    then record { dev = 1; address = 16777226 }
    else record { dev = 2; address = 16777482 }

abbrev no_routes : Ipv4
no_routes = record {
  err = 0;
  routes = [];
  default_bcast_route = record {
    dest = 0xffffffff;
    netmask = 0xffffffff;
    gateway = 0;
    link = none;
    metric = 1000;
  };
  link_at = two_links;
}

-- 10.0.0.0/8 by the first link, and 10.1.0.0/16 by the second.
abbrev two_routes : Ipv4
two_routes =
    (pico_ipv4_route_add true true 266 65535 0 1 (some 2)
      (pico_ipv4_route_add true true 10 255 0 1 (some 1) no_routes).1).1

-- 10.1.2.3 and 10.2.2.3 are reached by different links, and 11.2.2.3 is not.
longest_found :
    ((pico_ipv4_source_dev_find (some 50462986) two_routes).0 ≡ some 2)
    × ((pico_ipv4_source_dev_find (some 50463242) two_routes).0 ≡ some 1)
    × ((pico_ipv4_source_dev_find (some 50463243) two_routes).0 ≡ none)
unfolding pico_ipv4_source_dev_find route_find last_covering next_covering link_of
    pico_ipv4_route_add choose_link insert_route insert_key find_key ipv4_route_compare long_be
longest_found = (refl, refl, refl)

-- Of two routes to 10.0.0.0/8, that with the greater metric is taken.
greater_metric :
    (pico_ipv4_source_find
      (some 50462986)
      (pico_ipv4_route_add true true 10 255 0 7
        (some 2)
        (pico_ipv4_route_add true true 10 255 0 1 (some 1) no_routes).1).1).0
    ≡ some 16777482
unfolding pico_ipv4_source_find route_find last_covering next_covering link_of pico_ipv4_route_add
    choose_link insert_route insert_key find_key ipv4_route_compare long_be
greater_metric = refl

-- A header of 20 bytes to 10.1.2.3, with a time to live, before its checksum is set.
abbrev header_to : ℕ → List ℕ
header_to ttl =
    69 ∷ 0 ∷ 0 ∷ 20 ∷ 0 ∷ 1 ∷ 0 ∷ 0 ∷ ttl ∷ 17 ∷ 0 ∷ 0 ∷ 10 ∷ 2 ∷ 0 ∷ 9 ∷ 10 ∷ 1 ∷ 2 ∷ 3 ∷ []

-- A time to live of 0 becomes 255.
ttl_wraps : ttl_of (decrease_ttl (header_to 0)) ≡ 255
unfolding decrease_ttl
ttl_wraps = refl

-- A header whose checksum is 0xffff passes the check, and no longer does when it is forwarded.
abbrev full_checksum : List ℕ
full_checksum = 0 ∷ 0 ∷ 0 ∷ 0 ∷ 0 ∷ 0 ∷ 0 ∷ 0 ∷ 2 ∷ 17 ∷ 255 ∷ 255 ∷ 253 ∷ 238 ∷ []

crc_overflows :
    (pico_ipv4_crc_check full_checksum ≡ true)
    × (pico_ipv4_crc_check (increase_crc (decrease_ttl full_checksum)) ≡ false)
unfolding pico_ipv4_crc_check pico_checksum pico_checksum_finalize pico_checksum_adder add_words
    odd_byte carry short_be increase_crc decrease_ttl
crc_overflows = (refl, refl)

abbrev one_route : Ipv4
one_route = (pico_ipv4_route_add true true 10 255 0 1 (some 1) no_routes).1

two_routes-Reaches : Reaches two_routes
two_routes-Reaches =
    add (add (at_first no_routes.default_bcast_route two_links) true true 10 255 0 1 (some 1)) true
      true 266 65535 0 1 (some 2)

reached_route_find_example :
    Answers 50462986 two_routes.routes (route_find two_routes 50462986)
    × Each (λ r. r.link ≢ none) two_routes.routes
reached_route_find_example =
    reached_route_find two_routes 50462986 two_routes-Reaches (λ e. omega (arith, e))

second_added : pico_ipv4_route_add true true 266 65535 0 1 (some 2) one_route ≡ (pos 0, two_routes)
unfolding pico_ipv4_route_add choose_link insert_route insert_key find_key ipv4_route_compare
    long_be
second_added = refl

route_del-route_add_example :
    (true ≡ true) × (pico_ipv4_route_del 266 65535 1 two_routes ≡ (pos 0, one_route))
    ⊎ (true ≡ false)
      × (two_routes ≡ record one_route { err = 12 })
      × (pico_ipv4_route_del 266 65535 1 two_routes ≡ (negsuc 0, record one_route { err = 22 }))
route_del-route_add_example =
    route_del-route_add true true 266 65535 0 1 (some 2) one_route two_routes second_added

-- Without memory for the node, an addition returns 0 and adds nothing.
not_inserted :
    pico_ipv4_route_add true false 266 65535 0 1 (some 2) one_route
    ≡ (pos 0, record one_route { err = 12 })
unfolding pico_ipv4_route_add choose_link insert_route insert_key find_key ipv4_route_compare
    long_be
not_inserted = refl

-- To 10.1.2.3, with a checksum that fits.
abbrev arrived : List ℕ
arrived =
    69 ∷ 0 ∷ 0 ∷ 20 ∷ 0 ∷ 1 ∷ 0 ∷ 0 ∷ 64 ∷ 17 ∷ 100 ∷ 202 ∷ 10 ∷ 2 ∷ 0 ∷ 9 ∷ 10 ∷ 1 ∷ 2 ∷ 3 ∷ []

abbrev no_last : LastForwarded
no_last = record { last_id = 0; last_proto = 0; last_src = 0; last_dst = 0 }

arrived_far : dst_of arrived ≢ 0xffffffff
unfolding long_from
arrived_far e = omega (arith, e)

arrived-IsBytes : IsBytes arrived
arrived-IsBytes = omega arith

abbrev on_its_way : Forwarded × LastForwarded
on_its_way =
    pico_ipv4_forward (λ d. true) (λ d. 1500) (λ l h. h) (some arrived) 34 two_routes [] no_last

forward_lem_example :
    Outcome
      (λ d. true)
      (λ d. 1500)
      (λ l h. h)
      two_routes
      []
      no_last
      arrived
      34
      on_its_way.0
      on_its_way.1
forward_lem_example =
    forward_lem (λ d. true) (λ d. 1500) (λ l h. h) two_routes [] no_last arrived 34
      two_routes-Reaches arrived_far arrived-IsBytes (omega arith) (omega arith) (omega arith)
      (λ e. omega (arith, e))
