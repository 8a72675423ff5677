-- ===== src/Pico/Routes/Longest.antt =====
-- Which route is found.
use fd_picotcp.Prelude.{
  ℕ, zero, suc, ◌≤◌, true, false, List, [], ◌∷◌, Option, none, some, ◌≡◌, ◌≢◌, refl, subst, ap, inl,
  inr, arith, ◌==◌, ==_iff, Bool-cases, get_elem?, bit_and,
}
use fd_picotcp.Pico.Words.{long_be}
use fd_picotcp.Pico.Routes.{Ipv4Route, Ipv4, covers, next_covering, last_covering, route_find}
use fd_picotcp.Pico.Routes.Order.{mask_of, IsBelow, Each, Each-map, IsAscending}

-- A route that is at most as good as another: its netmask is not greater, and with the same netmask
-- its metric is not greater.
abbrev pub IsNoBetter : Ipv4Route → Ipv4Route → Type 0
IsNoBetter best q = (mask_of q ≤ mask_of best) × (q.netmask ≡ best.netmask → q.metric ≤ best.metric)

-- The route is one of the table that covers the address, and no other one that does is better.
pub record IsBest (addr : ℕ) (rs : List Ipv4Route) (best : Ipv4Route) : Type 0 where
  pub place : ℕ
  pub there : get_elem? rs place ≡ some best
  pub covering : covers addr best ≡ true
  pub longest : Each (λ q. covers addr q ≡ true → IsNoBetter best q) rs

-- Without a result, no route covers the address.
abbrev pub Answers : ℕ → List Ipv4Route → Option Ipv4Route → Type 0
Answers addr rs none = Each (λ q. covers addr q ≡ false) rs
Answers addr rs (some best) = IsBest addr rs best

no_better :
    (addr : ℕ) (r best : Ipv4Route)
    → IsBelow r best
    → covers addr r ≡ true
    → covers addr best ≡ true
    → IsNoBetter best r
no_better addr r best (inl l) c d = (omega arith, λ e. absurd (omega (arith, l, ap long_be e)))
no_better addr r best (inr (m, inl l)) c d = (
  omega (arith, m),
  λ e. absurd (
      omega (
        arith,
        l,
        (==_iff (bit_and addr r.netmask) r.dest).0 c,
        (==_iff (bit_and addr best.netmask) best.dest).0 d,
        ap (bit_and addr) e,
      )),
)
no_better addr r best (inr (m, inr l)) c d = (omega (arith, m), λ e. omega (arith, l.1))

pub at :
    (P : Ipv4Route → Type 0) (rs : List Ipv4Route) (i : ℕ) (r : Ipv4Route)
    → Each P rs
    → get_elem? rs i ≡ some r
    → P r
at P [] i r h e = absurd (cc e)
at P (q ∷ rs) zero r h e = subst P (cc e) h.0
at P (q ∷ rs) (suc i) r h e = at P rs i r h.1 e

Answers-next_covering :
    (addr : ℕ) (r : Ipv4Route) (rs : List Ipv4Route) (o : Option Ipv4Route)
    → Each (IsBelow r) rs
    → Answers addr rs o
    → Answers addr (r ∷ rs) (next_covering addr r o)
unfolding next_covering
Answers-next_covering addr r rs (some q) b h = record {
  place = suc h.place;
  there = h.there;
  covering = h.covering;
  longest =
      (λ c. no_better addr r q (at (IsBelow r) rs h.place q b h.there) c h.covering, h.longest);
}
Answers-next_covering addr r rs none b h = elim (Bool-cases (covers addr r)) [
  | inl e ↦ rw e (record {
    place = 0;
    there = refl;
    covering = e;
    longest = (λ c. (omega arith, λ d. omega arith), Each-map (λ q f c. absurd (cc (f, c))) rs h);
  })
  | inr e ↦ rw e (e, h)
]

Answers-last_covering :
    (addr : ℕ) (rs : List Ipv4Route) → IsAscending rs → Answers addr rs (last_covering addr rs)
unfolding last_covering
Answers-last_covering addr [] h = tt
Answers-last_covering addr (r ∷ rs) h =
    Answers-next_covering addr r rs (last_covering addr rs) h.0 (Answers-last_covering addr rs h.1)

-- In a table in order, an address other than that of all hosts gets a route that covers it with the
-- longest netmask, and of those with the same netmask the one with the greatest metric. It gets none
-- only where no route covers it.
pub route_find_lem :
    (s : Ipv4) (addr : ℕ)
    → IsAscending s.routes
    → addr ≢ 0xffffffff
    → Answers addr s.routes (route_find s addr)
unfolding route_find
route_find_lem s addr h n = elim (Bool-cases (addr == 0xffffffff)) [
  | inl e ↦ absurd (n ((==_iff addr 0xffffffff).0 e))
  | inr e ↦ rw e (Answers-last_covering addr s.routes h)
]
