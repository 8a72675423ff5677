-- ===== src/Pico/Routes/Undoing.antt =====
-- An addition that is taken back.
use fd_picotcp.Prelude.{
  ℕ, pos, negsuc, Bool, List, [], ◌∷◌, ◌++◌, Option, none, some, ◌≡◌, refl, ap, sym, ◌∙◌, ◌⊎◌, inl,
  inr, true, false,
}
use fd_picotcp.Pico.Routes.{
  Ipv4Route, Ipv4, test_key, find_key, insert_key, pico_ipv4_route_add, pico_ipv4_route_del,
}
use fd_picotcp.Pico.Routes.Order.{Each, IsBelow, find_key_cases, insert_key_cases}
use fd_picotcp.Pico.Routes.Search.{find_key_at, not_both, not_same}
use fd_picotcp.Pico.Routes.Cleaning.{route_del_at}
use fd_picotcp.Pico.Routes.Keeping.{route_add_lem}

-- Where a new key goes.
record Split (new : Ipv4Route) (rs : List Ipv4Route) : Type 0 where
  pre : List Ipv4Route
  post : List Ipv4Route
  whole : rs ≡ pre ++ post
  below : Each (λ q. IsBelow q new) pre
  result : insert_key new rs ≡ pre ++ new ∷ post

abbrev key_of : Ipv4Route → Ipv4Route
key_of r = test_key r.dest r.netmask r.metric

-- The search goes on behind a smaller key.
search_behind :
    (test r : Ipv4Route) (rs : List Ipv4Route)
    → IsBelow r test
    → find_key test (r ∷ rs) ≡ find_key test rs
search_behind test r rs b = elim (find_key_cases test r rs) [
  | inl e ↦ absurd (not_both r test b e.0)
  | inr (inl e) ↦ absurd (not_same r test b e.0)
  | inr (inr e) ↦ e.1
]

splits : (new : Ipv4Route) (rs : List Ipv4Route) → find_key (key_of new) rs ≡ none → Split new rs
unfolding insert_key
splits new [] e = record { pre = []; post = []; whole = refl; below = tt; result = refl }
splits new (r ∷ rs) e = elim (insert_key_cases new r rs) [
  | inl f ↦ record { pre = []; post = r ∷ rs; whole = refl; below = tt; result = f.1 }
  | inr (inl f) ↦ absurd (cc (e, find_key_at (key_of new) r [] rs f.0 tt))
  | inr (inr f) ↦
      let d = splits new rs (sym (search_behind (key_of new) r rs f.0) ∙ e) in
      record {
        pre = r ∷ d.pre;
        post = d.post;
        whole = ap (◌∷◌ r) d.whole;
        below = (f.0, d.below);
        result = f.1 ∙ ap (◌∷◌ r) d.result;
      }
]

undone :
    (new : Ipv4Route) (s : Ipv4)
    → Split new s.routes
    → pico_ipv4_route_del new.dest new.netmask new.metric
        (record s { routes = insert_key new s.routes })
      ≡ (pos 0, s)
undone new s d =
    ap (λ l. pico_ipv4_route_del new.dest new.netmask new.metric (record s { routes = l })) d.result
    ∙ route_del_at s d.pre new d.post d.below
    ∙ ap (λ l. (pos 0, record s { routes = l })) (sym d.whole)

-- Without a key, a deletion fails.
not_there :
    (address netmask metric : ℕ) (s t : Ipv4)
    → find_key (test_key address netmask metric) s.routes ≡ none
    → t ≡ record s { err = 12 }
    → pico_ipv4_route_del address netmask metric t ≡ (negsuc 0, record s { err = 22 })
unfolding pico_ipv4_route_del
not_there address netmask metric s t n e =
    ap (pico_ipv4_route_del address netmask metric) e ∙ rw (pico_ipv4_route_del, n) refl

-- A route whose addition has returned 0 is deleted by its address, netmask and metric, which leaves
-- everything as it was before, if there was memory for the node of the tree. If there was none, the
-- addition has changed nothing but the error, and the deletion fails.
pub route_del-route_add :
    (mem node : Bool) (address netmask gateway metric : ℕ) (l : Option ℕ) (s t : Ipv4)
    → pico_ipv4_route_add mem node address netmask gateway metric l s ≡ (pos 0, t)
    → (node ≡ true) × (pico_ipv4_route_del address netmask metric t ≡ (pos 0, s))
      ⊎ (node ≡ false)
        × (t ≡ record s { err = 12 })
        × (pico_ipv4_route_del address netmask metric t ≡ (negsuc 0, record s { err = 22 }))
route_del-route_add mem node address netmask gateway metric l s t e =
    elim (route_add_lem mem node address netmask gateway metric l s) [
      | inl (k, f) ↦ absurd (cc (e, f))
      | inr (n, i) ↦ elim i.result [
        | inr (m, f) ↦
            let g : t ≡ record s { err = 12 } = ap (λ q. q.1) (sym e ∙ f) in
            inr (m, g, not_there address netmask metric s t n g)
        | inl (m, f) ↦
            let new : Ipv4Route = record (test_key address netmask metric) {
              gateway = gateway;
              link = some i.link;
            } in
            inl (
              m,
              ap (pico_ipv4_route_del address netmask metric) (ap (λ q. q.1) (sym e ∙ f))
                  ∙ undone new s (splits new s.routes n),
            )
      ]
    ]
