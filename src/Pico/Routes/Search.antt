-- ===== src/Pico/Routes/Search.antt =====
-- A key behind smaller ones is found and deleted.
use fd_picotcp.Prelude.{List, [], ◌∷◌, ◌++◌, ap, ◌∙◌, some, ◌≡◌, sym, inl, inr, arith}
use fd_picotcp.Pico.Routes.{Ipv4Route, find_key, delete_key}
use fd_picotcp.Pico.Routes.Order.{
  Each, IsBelow, IsBelow-trans, IsSameKey, IsAscending, find_key_cases, delete_key_cases,
}

pub not_both : (a b : Ipv4Route) → IsBelow a b → IsBelow b a → ⊥
not_both a b p q = elim (IsBelow-trans a b a p q) [
  | inl l ↦ omega (arith, l)
  | inr (e, inl l) ↦ omega (arith, l)
  | inr (e, inr l) ↦ omega (arith, l.1)
]

pub not_same : (a b : Ipv4Route) → IsBelow a b → IsSameKey b a → ⊥
not_same a b (inl l) s = omega (arith, l, s.0)
not_same a b (inr (e, inl l)) s = omega (arith, l, s.1.0)
not_same a b (inr (e, inr l)) s = omega (arith, l.1, s.1.1)

same_sym : (a b : Ipv4Route) → IsSameKey a b → IsSameKey b a
same_sym a b (m, (d, k)) = (sym m, (sym d, sym k))

-- A key behind smaller ones is found and deleted.
pub find_key_at :
    (test r : Ipv4Route) (pre rs : List Ipv4Route)
    → IsSameKey test r
    → Each (λ q. IsBelow q test) pre
    → find_key test (pre ++ r ∷ rs) ≡ some r
find_key_at test r [] rs k h = elim (find_key_cases test r rs) [
  | inl e ↦ absurd (not_same test r e.0 (same_sym test r k))
  | inr (inl e) ↦ e.1
  | inr (inr e) ↦ absurd (not_same r test e.0 k)
]
find_key_at test r (q ∷ pre) rs k h = elim (find_key_cases test q (pre ++ r ∷ rs)) [
  | inl e ↦ absurd (not_both test q e.0 h.0)
  | inr (inl e) ↦ absurd (not_same q test h.0 e.0)
  | inr (inr e) ↦ e.1 ∙ find_key_at test r pre rs k h.1
]

pub delete_key_at :
    (test r : Ipv4Route) (pre rs : List Ipv4Route)
    → IsSameKey test r
    → Each (λ q. IsBelow q test) pre
    → delete_key test (pre ++ r ∷ rs) ≡ pre ++ rs
delete_key_at test r [] rs k h = elim (delete_key_cases test r rs) [
  | inl e ↦ absurd (not_same test r e.0 (same_sym test r k))
  | inr (inl e) ↦ e.1
  | inr (inr e) ↦ absurd (not_same r test e.0 k)
]
delete_key_at test r (q ∷ pre) rs k h = elim (delete_key_cases test q (pre ++ r ∷ rs)) [
  | inl e ↦ absurd (not_both test q e.0 h.0)
  | inr (inl e) ↦ absurd (not_same q test h.0 e.0)
  | inr (inr e) ↦ e.1 ∙ ap (◌∷◌ q) (delete_key_at test r pre rs k h.1)
]

Each-apart :
    (P : Ipv4Route → Type 0) (pre : List Ipv4Route) (r : Ipv4Route) (rs : List Ipv4Route)
    → Each P (pre ++ r ∷ rs)
    → P r × Each P (pre ++ rs)
Each-apart P [] r rs h = h
Each-apart P (q ∷ pre) r rs h = let (p, e) = Each-apart P pre r rs h.1 in (p, (h.0, e))

-- What is before a key of a table in order is below it, and without it the table is in order.
pub IsAscending-apart :
    (pre : List Ipv4Route) (r : Ipv4Route) (rs : List Ipv4Route)
    → IsAscending (pre ++ r ∷ rs)
    → Each (λ q. IsBelow q r) pre × IsAscending (pre ++ rs)
IsAscending-apart [] r rs h = (tt, h.1)
IsAscending-apart (q ∷ pre) r rs h =
    let (b, a) = IsAscending-apart pre r rs h.1 in
    let (l, e) = Each-apart (IsBelow q) pre r rs h.0 in ((l, b), (e, a))
