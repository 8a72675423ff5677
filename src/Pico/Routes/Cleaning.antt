-- ===== src/Pico/Routes/Cleaning.antt =====
-- What is left of the table when a link goes.
use fd_picotcp.Prelude.{
  ℕ, List, [], ◌∷◌, ◌++◌, append_assoc, ◌≡◌, refl, ap, sym, subst, ◌∙◌, inl, inr, pos, Bool-cases,
  if◌then◌else◌,
}
use fd_picotcp.Pico.Routes.{
  Ipv4Route, Ipv4, is_link, test_key, pico_ipv4_route_del, cleanup_loop, pico_ipv4_cleanup_routes,
}
use fd_picotcp.Pico.Routes.Order.{Each, IsBelow, IsAscending}
use fd_picotcp.Pico.Routes.Search.{IsAscending-apart, find_key_at, delete_key_at}

-- The routes that do not use the link, in their order.
abbrev pub without_link : ℕ → List Ipv4Route → List Ipv4Route
without_link l [] = []
without_link l (r ∷ rs) = if is_link l r then without_link l rs else r ∷ without_link l rs

-- A route of a table in order is deleted by its key.
pub route_del_at :
    (s : Ipv4) (pre : List Ipv4Route) (r : Ipv4Route) (rs : List Ipv4Route)
    → Each (λ q. IsBelow q r) pre
    → pico_ipv4_route_del r.dest r.netmask r.metric (record s { routes = pre ++ r ∷ rs })
      ≡ (pos 0, record s { routes = pre ++ rs })
unfolding pico_ipv4_route_del
route_del_at s pre r rs b =
    rw
      (
        pico_ipv4_route_del,
        find_key_at (test_key r.dest r.netmask r.metric) r pre rs (refl, (refl, refl)) b,
      )
      (ap (λ l. (pos 0, record s { routes = l })) (delete_key_at r r pre rs (refl, (refl, refl)) b))

-- A route that stays joins those before it.
kept :
    (l : ℕ) (s : Ipv4) (pre : List Ipv4Route) (r : Ipv4Route) (rs : List Ipv4Route)
    → cleanup_loop l rs (record s { routes = (pre ++ r ∷ []) ++ rs })
      ≡ record s { routes = (pre ++ r ∷ []) ++ without_link l rs }
    → cleanup_loop l rs (record s { routes = pre ++ r ∷ rs })
      ≡ record s { routes = pre ++ r ∷ without_link l rs }
kept l s pre r rs e =
    ap (λ k. cleanup_loop l rs (record s { routes = k })) (sym (append_assoc pre (r ∷ []) rs))
    ∙ e
    ∙ ap (λ k. record s { routes = k }) (append_assoc pre (r ∷ []) (without_link l rs))

cleanup_loop_lem :
    (l : ℕ) (s : Ipv4) (pre todo : List Ipv4Route)
    → IsAscending (pre ++ todo)
    → cleanup_loop l todo (record s { routes = pre ++ todo })
      ≡ record s { routes = pre ++ without_link l todo }
unfolding cleanup_loop
cleanup_loop_lem l s pre [] h = refl
cleanup_loop_lem l s pre (r ∷ rs) h =
    let (b, a) = IsAscending-apart pre r rs h in
    elim (Bool-cases (is_link l r)) [
      | inl e ↦ rw (e, route_del_at s pre r rs b) (cleanup_loop_lem l s pre rs a)
      | inr e ↦ rw e (
          kept l s pre r rs (
            cleanup_loop_lem l s (pre ++ r ∷ []) rs
              (subst IsAscending (sym (append_assoc pre (r ∷ []) rs)) h)))
    ]

-- In a table in order, exactly the routes that use the link go, and the others stay in their order.
pub cleanup_lem :
    (l : ℕ) (s : Ipv4)
    → IsAscending s.routes
    → pico_ipv4_cleanup_routes l s ≡ record s { routes = without_link l s.routes }
unfolding pico_ipv4_cleanup_routes
cleanup_lem l s h = cleanup_loop_lem l s [] s.routes h
