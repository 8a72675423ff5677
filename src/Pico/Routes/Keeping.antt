-- ===== src/Pico/Routes/Keeping.antt =====
-- What the operations of the table keep, and an addition that is taken back.
use fd_picotcp.Prelude.{
  ℕ, ℤ, pos, negsuc, Bool, true, false, List, [], ◌∷◌, Option, none, some, ◌≡◌, ◌≢◌, refl, ap, sym,
  subst, ◌⊎◌, inl, inr, ◌==◌, ==_iff, Bool-cases, Option-cases, if◌then◌else◌,
}
use fd_picotcp.Pico.Routes.{
  Ipv4Route, Ipv4Link, Ipv4, test_key, find_key, insert_key, route_find, insert_route, choose_link,
  pico_ipv4_route_add, is_link, pico_ipv4_route_del, pico_ipv4_cleanup_routes,
  pico_ipv4_route_set_bcast_link,
}
use fd_picotcp.Pico.Routes.Order.{
  Each, IsBelow, IsAscending, IsAscending-insert_key, IsAscending-delete_key, Each-insert_key,
  Each-delete_key,
}
use fd_picotcp.Pico.Routes.Cleaning.{without_link, cleanup_lem}
use fd_picotcp.Pico.Routes.Longest.{Answers, route_find_lem}

-- A refusal leaves everything but the error.
abbrev pub IsRefusal : Ipv4 → ℤ × Ipv4 → Type 0
IsRefusal s r = (e : ℕ) × (r ≡ (negsuc 0, record s { err = e }))

-- Where the link of a new route is from.
abbrev pub IsLinkFor : ℕ → Option ℕ → Ipv4 → Option ℕ → Type 0
IsLinkFor gateway l s chosen =
    (gateway ≡ 0) × (chosen ≡ l)
    ⊎ (r : Ipv4Route) × (route_find s gateway ≡ some r) × (r.gateway ≡ 0) × (chosen ≡ r.link)

-- A new route with a link has been put into its place, or there was no memory for the node of the
-- tree, and the table is as it was, although the result is 0.
pub record Inserted (node : Bool) (new : Ipv4Route) (l : Option ℕ) (s : Ipv4) (r : ℤ × Ipv4)
    : Type 0 where
  pub link : ℕ
  pub chosen : IsLinkFor new.gateway l s (some link)
  pub result :
      (node ≡ true)
        × (r ≡ (pos 0, record s { routes = insert_key (record new { link = some link }) s.routes }))
      ⊎ (node ≡ false) × (r ≡ (pos 0, record s { err = 12 }))

insert_route_lem :
    (node : Bool) (new : Ipv4Route) (l o : Option ℕ) (s : Ipv4)
    → IsLinkFor new.gateway l s o
    → IsRefusal s (insert_route node (record new { link = o }) s)
      ⊎ Inserted node new l s (insert_route node (record new { link = o }) s)
unfolding insert_route
insert_route_lem node new l none s c = inl (22, refl)
insert_route_lem true new l (some k) s c =
    inr (record { link = k; chosen = c; result = inl (refl, refl) })
insert_route_lem false new l (some k) s c =
    inr (record { link = k; chosen = c; result = inr (refl, refl) })

choose_link_lem :
    (node : Bool) (new : Ipv4Route) (l : Option ℕ) (s : Ipv4)
    → IsRefusal s (choose_link node new l s) ⊎ Inserted node new l s (choose_link node new l s)
unfolding choose_link
choose_link_lem node new l s = elim (Bool-cases (new.gateway == 0)) [
  | inl e ↦ rw e (insert_route_lem node new l l s (inl ((==_iff new.gateway 0).0 e, refl)))
  | inr e ↦ elim (Option-cases (route_find s new.gateway)) [
    | inl f ↦ rw (e, f) (inl (113, refl))
    | inr (r, f) ↦ elim (Bool-cases (r.gateway == 0)) [
      | inl g ↦
          rw (e, f, g)
            (insert_route_lem node new l r.link s (inr (r, f, (==_iff r.gateway 0).0 g, refl)))
      | inr g ↦ rw (e, f, g) (inl (101, refl))
    ]
  ]
]

added :
    (mem node : Bool) (new : Ipv4Route) (l : Option ℕ) (s : Ipv4)
    → IsRefusal s (if mem then choose_link node new l s else (negsuc 0, record s { err = 12 }))
      ⊎ Inserted node new l s
          (if mem then choose_link node new l s else (negsuc 0, record s { err = 12 }))
added true node new l s = choose_link_lem node new l s
added false node new l s = inl (12, refl)

-- An addition is refused and changes nothing but the error, or there was no route with its key, and
-- the new one is in its place, on the given link or on that of a neighbour, if there is memory for the
-- node of the tree.
pub route_add_lem :
    (mem node : Bool) (address netmask gateway metric : ℕ) (l : Option ℕ) (s : Ipv4)
    → IsRefusal s (pico_ipv4_route_add mem node address netmask gateway metric l s)
      ⊎ (find_key (test_key address netmask metric) s.routes ≡ none)
        × Inserted node
            (record (test_key address netmask metric) { gateway = gateway })
            l
            s
            (pico_ipv4_route_add mem node address netmask gateway metric l s)
unfolding pico_ipv4_route_add
route_add_lem mem node address netmask gateway metric l s =
    elim (Option-cases (find_key (test_key address netmask metric) s.routes)) [
      | inr (r, e) ↦ inl (22, rw (pico_ipv4_route_add, e) refl)
      | inl e ↦
          elim (added mem node (record (test_key address netmask metric) { gateway = gateway }) l
            s) [
              | inl a ↦ inl (rw (pico_ipv4_route_add, e) a)
              | inr a ↦ inr (e, rw (pico_ipv4_route_add, e) a)
            ]
    ]

-- Every way of changing the table.
pub data Reaches : Ipv4 → Type 0 where
  at_first :
      (b : Ipv4Route) (link_at : ℕ → Ipv4Link)
      → Reaches (record { err = 0; routes = []; default_bcast_route = b; link_at = link_at })
  add :
      {s : Ipv4}
      → Reaches s
      → (mem node : Bool) (address netmask gateway metric : ℕ) (l : Option ℕ)
      → Reaches (pico_ipv4_route_add mem node address netmask gateway metric l s).1
  del :
      {s : Ipv4}
      → Reaches s
      → (address netmask metric : ℕ) → Reaches (pico_ipv4_route_del address netmask metric s).1
  cleanup : {s : Ipv4} → Reaches s → (l : ℕ) → Reaches (pico_ipv4_cleanup_routes l s)
  set_bcast : {s : Ipv4} → Reaches s → (l : Option ℕ) → Reaches (pico_ipv4_route_set_bcast_link l s)

-- The table is in order, and every route has a link.
pub record IsTable (s : Ipv4) : Type 0 where
  pub ascending : IsAscending s.routes
  pub linked : Each (λ r. r.link ≢ none) s.routes

same_routes : (s t : Ipv4) → t.routes ≡ s.routes → IsTable s → IsTable t
same_routes s t e h = record {
  ascending = subst IsAscending (sym e) h.ascending;
  linked = subst (Each (λ r. r.link ≢ none)) (sym e) h.linked;
}

IsTable-Inserted :
    (node : Bool) (new : Ipv4Route) (l : Option ℕ) (s : Ipv4) (r : ℤ × Ipv4)
    → IsTable s
    → Inserted node new l s r
    → IsTable r.1
IsTable-Inserted node new l s r h i = elim i.result [
  | inr (n, e) ↦ same_routes s _ (ap (λ q. q.1.routes) e) h
  | inl (n, e) ↦
      subst (λ q. IsTable q.1) (sym e)
        (record {
          ascending =
              IsAscending-insert_key (record new { link = some i.link }) s.routes h.ascending;
          linked =
              Each-insert_key (λ r. r.link ≢ none) (record new { link = some i.link }) s.routes
                (λ e. cc e) h.linked;
        })
]

IsTable-route_add :
    (mem node : Bool) (address netmask gateway metric : ℕ) (l : Option ℕ) (s : Ipv4)
    → IsTable s
    → IsTable (pico_ipv4_route_add mem node address netmask gateway metric l s).1
IsTable-route_add mem node address netmask gateway metric l s h =
    elim (route_add_lem mem node address netmask gateway metric l s) [
      | inl (e, f) ↦ same_routes s _ (ap (λ q. q.1.routes) f) h
      | inr (n, i) ↦ IsTable-Inserted node _ l s _ h i
    ]

IsTable-route_del :
    (address netmask metric : ℕ) (s : Ipv4)
    → IsTable s
    → IsTable (pico_ipv4_route_del address netmask metric s).1
unfolding pico_ipv4_route_del
IsTable-route_del address netmask metric s h =
    elim (Option-cases (find_key (test_key address netmask metric) s.routes)) [
      | inl e ↦ rw (pico_ipv4_route_del, e) (same_routes s (record s { err = 22 }) refl h)
      | inr (r, e) ↦
          rw (pico_ipv4_route_del, e)
            (record {
              ascending = IsAscending-delete_key r s.routes h.ascending;
              linked = Each-delete_key (λ q. q.link ≢ none) r s.routes h.linked;
            })
    ]

Each-without_link :
    (P : Ipv4Route → Type 0) (l : ℕ) (rs : List Ipv4Route) → Each P rs → Each P (without_link l rs)
Each-without_link P l [] h = tt
Each-without_link P l (r ∷ rs) h = elim (Bool-cases (is_link l r)) [
  | inl e ↦ rw e (Each-without_link P l rs h.1)
  | inr e ↦ rw e (h.0, Each-without_link P l rs h.1)
]

IsAscending-without_link :
    (l : ℕ) (rs : List Ipv4Route) → IsAscending rs → IsAscending (without_link l rs)
IsAscending-without_link l [] h = tt
IsAscending-without_link l (r ∷ rs) h = elim (Bool-cases (is_link l r)) [
  | inl e ↦ rw e (IsAscending-without_link l rs h.1)
  | inr e ↦ rw e (Each-without_link (IsBelow r) l rs h.0, IsAscending-without_link l rs h.1)
]

IsTable-cleanup_routes : (l : ℕ) (s : Ipv4) → IsTable s → IsTable (pico_ipv4_cleanup_routes l s)
IsTable-cleanup_routes l s h = subst IsTable (sym (cleanup_lem l s h.ascending)) (record {
  ascending = IsAscending-without_link l s.routes h.ascending;
  linked = Each-without_link (λ r. r.link ≢ none) l s.routes h.linked;
})

IsTable-set_bcast :
    (l : Option ℕ) (s : Ipv4) → IsTable s → IsTable (pico_ipv4_route_set_bcast_link l s)
unfolding pico_ipv4_route_set_bcast_link
IsTable-set_bcast none s h = h
IsTable-set_bcast (some l) s h = same_routes s _ refl h

pub Reaches-IsTable : (s : Ipv4) → Reaches s → IsTable s
Reaches-IsTable _ (at_first b link_at) = record { ascending = tt; linked = tt }
Reaches-IsTable _ (add {s} h mem node address netmask gateway metric l) =
    IsTable-route_add mem node address netmask gateway metric l s (Reaches-IsTable s h)
Reaches-IsTable _ (del {s} h address netmask metric) =
    IsTable-route_del address netmask metric s (Reaches-IsTable s h)
Reaches-IsTable _ (cleanup {s} h l) = IsTable-cleanup_routes l s (Reaches-IsTable s h)
Reaches-IsTable _ (set_bcast {s} h l) = IsTable-set_bcast l s (Reaches-IsTable s h)

-- Whatever has been done to the table, an address other than that of all hosts gets a route that
-- covers it with the longest netmask, and of those with the same netmask the one with the greatest
-- metric; that route has a link. It gets none only where no route covers it.
pub reached_route_find :
    (s : Ipv4) (addr : ℕ)
    → Reaches s
    → addr ≢ 0xffffffff
    → Answers addr s.routes (route_find s addr) × Each (λ r. r.link ≢ none) s.routes
reached_route_find s addr h n =
    let t = Reaches-IsTable s h in (route_find_lem s addr t.ascending n, t.linked)
