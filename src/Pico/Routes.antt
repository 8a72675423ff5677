-- ===== src/Pico/Routes.antt =====
-- modules/pico_ipv4.c: the table of routes. A tree (stack/pico_tree.c) is the list of its keys from
-- the first to the last, and a link is the number of its place in memory.
pub mod Order
pub mod Search
pub mod Longest
pub mod Keeping
pub mod Cleaning
pub mod Undoing
use fd_picotcp.Prelude.{
  ℕ, zero, suc, ℤ, pos, negsuc, Bool, true, false, not, ◌&&◌, List, [], ◌∷◌, Option, none, some,
  ltb, ◌==◌, if◌then◌else◌, bit_and,
}
use fd_picotcp.Pico.Words.{long_be}
use fd_picotcp.Pico.Addresses.{pico_ipv4_compare}

pub record Ipv4Route : Type 0 where
  pub dest : ℕ
  pub netmask : ℕ
  pub gateway : ℕ
  pub link : Option ℕ
  pub metric : ℕ

pub record Ipv4Link : Type 0 where
  pub dev : ℕ
  pub address : ℕ

-- `pico_err`, the tree of routes, the route of the broadcast address, and the links in memory.
pub record Ipv4 : Type 0 where
  pub err : ℕ
  pub routes : List Ipv4Route
  pub default_bcast_route : Ipv4Route
  pub link_at : ℕ → Ipv4Link

unfoldable pub ipv4_route_compare : Ipv4Route → Ipv4Route → ℤ
ipv4_route_compare a b =
    let a_nm = long_be a.netmask in
    let b_nm = long_be b.netmask in
    if ltb a_nm b_nm
    then negsuc 0
    else (if ltb b_nm a_nm
        then pos 1
        else (if ltb a.dest b.dest
            then negsuc 0
            else (if ltb b.dest a.dest
                then pos 1
                else (if ltb a.metric b.metric
                    then negsuc 0
                    else (if ltb b.metric a.metric then pos 1 else pos 0)))))

-- What pico_tree_findKey, pico_tree_insert and pico_tree_delete do to the keys of a tree.
unfoldable pub find_key : Ipv4Route → List Ipv4Route → Option Ipv4Route
find_key test [] = none
find_key test (r ∷ rs) = elim (ipv4_route_compare test r) [
  | pos zero ↦ some r
  | pos (suc n) ↦ find_key test rs
  | negsuc n ↦ none
]

unfoldable pub insert_key : Ipv4Route → List Ipv4Route → List Ipv4Route
insert_key new [] = new ∷ []
insert_key new (r ∷ rs) = elim (ipv4_route_compare new r) [
  | pos zero ↦ r ∷ rs
  | pos (suc n) ↦ r ∷ insert_key new rs
  | negsuc n ↦ new ∷ r ∷ rs
]

unfoldable pub delete_key : Ipv4Route → List Ipv4Route → List Ipv4Route
delete_key test [] = []
delete_key test (r ∷ rs) = elim (ipv4_route_compare test r) [
  | pos zero ↦ rs
  | pos (suc n) ↦ r ∷ delete_key test rs
  | negsuc n ↦ r ∷ rs
]

abbrev pub covers : ℕ → Ipv4Route → Bool
covers addr r = bit_and addr r.netmask == r.dest

-- The round for a key, with what the rounds before it, for the keys behind it, return.
unfoldable pub next_covering : ℕ → Ipv4Route → Option Ipv4Route → Option Ipv4Route
next_covering addr r (some q) = some q
next_covering addr r none = if covers addr r then some r else none

-- The loop from the last key to the first.
unfoldable pub last_covering : ℕ → List Ipv4Route → Option Ipv4Route
last_covering addr [] = none
last_covering addr (r ∷ rs) = next_covering addr r (last_covering addr rs)

unfoldable pub route_find : Ipv4 → ℕ → Option Ipv4Route
route_find s addr =
    if addr == 0xffffffff then some s.default_bcast_route else last_covering addr s.routes

-- `none` is a null pointer.
unfoldable pub pico_ipv4_route_get_gateway : Option ℕ → Ipv4 → ℕ × Ipv4
pico_ipv4_route_get_gateway none s = (0, record s { err = 22 })
pico_ipv4_route_get_gateway (some addr) s = elim (route_find s addr) [
  | none ↦ (0, record s { err = 113 })
  | some r ↦ (r.gateway, s)
]

-- The link of the route, if there is a route and it has one.
unfoldable pub link_of : Option Ipv4Route → Option ℕ
link_of none = none
link_of (some r) = r.link

unfoldable pub pico_ipv4_source_find : Option ℕ → Ipv4 → Option ℕ × Ipv4
pico_ipv4_source_find none s = (none, record s { err = 22 })
pico_ipv4_source_find (some dst) s = elim (link_of (route_find s dst)) [
  | none ↦ (none, record s { err = 113 })
  | some l ↦ (some (s.link_at l).address, s)
]

unfoldable pub pico_ipv4_source_dev_find : Option ℕ → Ipv4 → Option ℕ × Ipv4
pico_ipv4_source_dev_find none s = (none, record s { err = 22 })
pico_ipv4_source_dev_find (some dst) s = elim (link_of (route_find s dst)) [
  | none ↦ (none, record s { err = 113 })
  | some l ↦ (some (s.link_at l).dev, s)
]

-- The key that is looked for. What is not part of the key has no value yet.
abbrev pub test_key : ℕ → ℕ → ℕ → Ipv4Route
test_key address netmask metric = record {
  dest = address;
  netmask = netmask;
  gateway = 0;
  link = none;
  metric = metric;
}

-- The last test, and the insertion. `node` says whether there is memory for the node of the tree; that
-- pico_tree_insert fails without it is not looked at, but it has set the error.
unfoldable pub insert_route : Bool → Ipv4Route → Ipv4 → ℤ × Ipv4
insert_route node new s = elim new.link [
  | none ↦ (negsuc 0, record s { err = 22 })
  | some l ↦
      (pos 0, if node then record s { routes = insert_key new s.routes } else record s { err = 12 })
]

-- The link is the given one, or that of the gateway's route, which has to have no gateway itself.
unfoldable pub choose_link : Bool → Ipv4Route → Option ℕ → Ipv4 → ℤ × Ipv4
choose_link node new l s =
    if new.gateway == 0
    then insert_route node (record new { link = l }) s
    else elim (route_find s new.gateway) [
      | none ↦ (negsuc 0, record s { err = 113 })
      | some r ↦
          if r.gateway == 0
          then insert_route node (record new { link = r.link }) s
          else (negsuc 0, record s { err = 101 })
    ]

-- `mem` says whether there is memory for the route, `node` for the node of the tree, and `metric` is the number as an unsigned word.
unfoldable pub pico_ipv4_route_add : Bool → Bool → ℕ → ℕ → ℕ → ℕ → Option ℕ → Ipv4 → ℤ × Ipv4
pico_ipv4_route_add mem node address netmask gateway metric l s =
    elim (find_key (test_key address netmask metric) s.routes) [
      | some r ↦ (negsuc 0, record s { err = 22 })
      | none ↦
          if mem
          then choose_link node (record (test_key address netmask metric) { gateway = gateway }) l s
          else (negsuc 0, record s { err = 12 })
    ]

unfoldable pub pico_ipv4_route_del : ℕ → ℕ → ℕ → Ipv4 → ℤ × Ipv4
pico_ipv4_route_del address netmask metric s =
    elim (find_key (test_key address netmask metric) s.routes) [
      | some found ↦ (pos 0, record s { routes = delete_key found s.routes })
      | none ↦ (negsuc 0, record s { err = 22 })
    ]

abbrev pub is_link : ℕ → Ipv4Route → Bool
is_link l r = elim r.link [ none ↦ false | some k ↦ k == l ]

-- The loop over the keys that were there when it began.
unfoldable pub cleanup_loop : ℕ → List Ipv4Route → Ipv4 → Ipv4
cleanup_loop l [] s = s
cleanup_loop l (r ∷ rs) s =
    cleanup_loop l rs
      (if is_link l r then (pico_ipv4_route_del r.dest r.netmask r.metric s).1 else s)

unfoldable pub pico_ipv4_cleanup_routes : ℕ → Ipv4 → Ipv4
pico_ipv4_cleanup_routes l s = cleanup_loop l s.routes s

unfoldable pub pico_ipv4_route_set_bcast_link : Option ℕ → Ipv4 → Ipv4
pico_ipv4_route_set_bcast_link none s = s
pico_ipv4_route_set_bcast_link (some l) s = record s {
  default_bcast_route = record s.default_bcast_route { link = some l };
}
