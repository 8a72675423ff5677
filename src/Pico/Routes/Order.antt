-- ===== src/Pico/Routes/Order.antt =====
-- The order of the routes, and what the operations of the tree keep of it.
use fd_picotcp.Prelude.{
  ℕ, ◌<◌, pos, negsuc, List, [], ◌∷◌, none, some, ◌≡◌, refl, sym, subst, ◌⊎◌, inl, inr, arith, ltb,
  ltb→lt, ltb→le, Bool-cases,
}
use fd_picotcp.Pico.Words.{long_be}
use fd_picotcp.Pico.Routes.{Ipv4Route, ipv4_route_compare, find_key, insert_key, delete_key}

abbrev pub mask_of : Ipv4Route → ℕ
mask_of r = long_be r.netmask

-- By netmask as the host reads it, then by destination, then by metric.
abbrev pub IsBelow : Ipv4Route → Ipv4Route → Type 0
IsBelow a b =
    (mask_of a < mask_of b)
    ⊎ ((mask_of a ≡ mask_of b) × ((a.dest < b.dest) ⊎ ((a.dest ≡ b.dest) × (a.metric < b.metric))))

abbrev pub IsSameKey : Ipv4Route → Ipv4Route → Type 0
IsSameKey a b = (mask_of a ≡ mask_of b) × ((a.dest ≡ b.dest) × (a.metric ≡ b.metric))

abbrev pub Each : (Ipv4Route → Type 0) → List Ipv4Route → Type 0
Each P [] = Unit {0}
Each P (r ∷ rs) = P r × Each P rs

abbrev pub IsAscending : List Ipv4Route → Type 0
IsAscending [] = Unit {0}
IsAscending (r ∷ rs) = Each (IsBelow r) rs × IsAscending rs

pub Each-map :
    {P Q : Ipv4Route → Type 0}
    → ((r : Ipv4Route) → P r → Q r)
    → (rs : List Ipv4Route) → Each P rs
    → Each Q rs
Each-map f [] h = tt
Each-map f (r ∷ rs) h = (f r h.0, Each-map f rs h.1)

pub IsBelow-trans : (a b c : Ipv4Route) → IsBelow a b → IsBelow b c → IsBelow a c
IsBelow-trans a b c (inl p) (inl q) = inl (omega arith)
IsBelow-trans a b c (inl p) (inr q) = inl (omega (arith, q.0))
IsBelow-trans a b c (inr p) (inl q) = inl (omega (arith, p.0))
IsBelow-trans a b c (inr (e, inl p)) (inr (f, inl q)) = inr (omega arith, inl (omega arith))
IsBelow-trans a b c (inr (e, inl p)) (inr (f, inr q)) = inr (omega arith, inl (omega (arith, q.0)))
IsBelow-trans a b c (inr (e, inr p)) (inr (f, inl q)) = inr (omega arith, inl (omega (arith, p.0)))
IsBelow-trans a b c (inr (e, inr p)) (inr (f, inr q)) =
    inr (omega arith, inr (omega (arith, p.0, q.0), omega (arith, p.1, q.1)))

-- The comparison is of three kinds.
pub compare_cases :
    (a b : Ipv4Route)
    → (ipv4_route_compare a b ≡ negsuc 0) × IsBelow a b
      ⊎ ((ipv4_route_compare a b ≡ pos 0) × IsSameKey a b
          ⊎ (ipv4_route_compare a b ≡ pos 1) × IsBelow b a)
unfolding ipv4_route_compare
compare_cases a b = elim (Bool-cases (ltb (mask_of a) (mask_of b))) [
  | inl e ↦ inl (rw e refl, inl (ltb→lt (mask_of a) (mask_of b) e))
  | inr e ↦ elim (Bool-cases (ltb (mask_of b) (mask_of a))) [
    | inl f ↦ inr (inr (rw (e, f) refl, inl (ltb→lt (mask_of b) (mask_of a) f)))
    | inr f ↦
        let same : mask_of a ≡ mask_of b =
          omega (arith, ltb→le (mask_of a) (mask_of b) e, ltb→le (mask_of b) (mask_of a) f) in
        elim (Bool-cases (ltb a.dest b.dest)) [
          | inl g ↦ inl (rw (e, f, g) refl, inr (same, inl (ltb→lt a.dest b.dest g)))
          | inr g ↦ elim (Bool-cases (ltb b.dest a.dest)) [
            | inl h ↦ inr (inr (rw (e, f, g, h) refl, inr (sym same, inl (ltb→lt b.dest a.dest h))))
            | inr h ↦
                let there : a.dest ≡ b.dest =
                  omega (arith, ltb→le a.dest b.dest g, ltb→le b.dest a.dest h) in
                elim (Bool-cases (ltb a.metric b.metric)) [
                  | inl i ↦
                      inl (
                        rw (e, f, g, h, i) refl,
                        inr (same, inr (there, ltb→lt a.metric b.metric i)),
                      )
                  | inr i ↦ elim (Bool-cases (ltb b.metric a.metric)) [
                    | inl j ↦ inr (
                        inr (
                          rw (e, f, g, h, i, j) refl,
                          inr (sym same, inr (sym there, ltb→lt b.metric a.metric j)),
                        ))
                    | inr j ↦ inr (
                        inl (
                          rw (e, f, g, h, i, j) refl,
                          (
                            same,
                            (
                              there,
                              omega (arith, ltb→le a.metric b.metric i, ltb→le b.metric a.metric j),
                            ),
                          ),
                        ))
                  ]
                ]
          ]
        ]
  ]
]

-- What an insertion and a deletion do at the first key.
pub insert_key_cases :
    (new r : Ipv4Route) (rs : List Ipv4Route)
    → IsBelow new r × (insert_key new (r ∷ rs) ≡ new ∷ r ∷ rs)
      ⊎ (IsSameKey new r × (insert_key new (r ∷ rs) ≡ r ∷ rs)
          ⊎ IsBelow r new × (insert_key new (r ∷ rs) ≡ r ∷ insert_key new rs))
unfolding insert_key
insert_key_cases new r rs = elim (compare_cases new r) [
  | inl e ↦ inl (e.1, rw (insert_key, e.0) refl)
  | inr (inl e) ↦ inr (inl (e.1, rw (insert_key, e.0) refl))
  | inr (inr e) ↦ inr (inr (e.1, rw (insert_key, e.0) refl))
]

pub delete_key_cases :
    (test r : Ipv4Route) (rs : List Ipv4Route)
    → IsBelow test r × (delete_key test (r ∷ rs) ≡ r ∷ rs)
      ⊎ (IsSameKey test r × (delete_key test (r ∷ rs) ≡ rs)
          ⊎ IsBelow r test × (delete_key test (r ∷ rs) ≡ r ∷ delete_key test rs))
unfolding delete_key
delete_key_cases test r rs = elim (compare_cases test r) [
  | inl e ↦ inl (e.1, rw (delete_key, e.0) refl)
  | inr (inl e) ↦ inr (inl (e.1, rw (delete_key, e.0) refl))
  | inr (inr e) ↦ inr (inr (e.1, rw (delete_key, e.0) refl))
]

pub find_key_cases :
    (test r : Ipv4Route) (rs : List Ipv4Route)
    → IsBelow test r × (find_key test (r ∷ rs) ≡ none)
      ⊎ (IsSameKey test r × (find_key test (r ∷ rs) ≡ some r)
          ⊎ IsBelow r test × (find_key test (r ∷ rs) ≡ find_key test rs))
unfolding find_key
find_key_cases test r rs = elim (compare_cases test r) [
  | inl e ↦ inl (e.1, rw (find_key, e.0) refl)
  | inr (inl e) ↦ inr (inl (e.1, rw (find_key, e.0) refl))
  | inr (inr e) ↦ inr (inr (e.1, rw (find_key, e.0) refl))
]

-- What holds of each key and of the new one holds of each after the insertion.
pub Each-insert_key :
    (P : Ipv4Route → Type 0) (new : Ipv4Route) (rs : List Ipv4Route)
    → P new
    → Each P rs
    → Each P (insert_key new rs)
unfolding insert_key
Each-insert_key P new [] p h = (p, tt)
Each-insert_key P new (r ∷ rs) p h = elim (insert_key_cases new r rs) [
  | inl e ↦ subst (Each P) (sym e.1) (p, h)
  | inr (inl e) ↦ subst (Each P) (sym e.1) h
  | inr (inr e) ↦ subst (Each P) (sym e.1) (h.0, Each-insert_key P new rs p h.1)
]

pub IsAscending-insert_key :
    (new : Ipv4Route) (rs : List Ipv4Route) → IsAscending rs → IsAscending (insert_key new rs)
unfolding insert_key
IsAscending-insert_key new [] h = (tt, tt)
IsAscending-insert_key new (r ∷ rs) h = elim (insert_key_cases new r rs) [
  | inl e ↦
      subst IsAscending (sym e.1) ((e.0, Each-map (λ q b. IsBelow-trans new r q e.0 b) rs h.0), h)
  | inr (inl e) ↦ subst IsAscending (sym e.1) h
  | inr (inr e) ↦
      subst IsAscending (sym e.1)
        (Each-insert_key (IsBelow r) new rs e.0 h.0, IsAscending-insert_key new rs h.1)
]

pub Each-delete_key :
    (P : Ipv4Route → Type 0) (test : Ipv4Route) (rs : List Ipv4Route)
    → Each P rs
    → Each P (delete_key test rs)
unfolding delete_key
Each-delete_key P test [] h = h
Each-delete_key P test (r ∷ rs) h = elim (delete_key_cases test r rs) [
  | inl e ↦ subst (Each P) (sym e.1) h
  | inr (inl e) ↦ subst (Each P) (sym e.1) h.1
  | inr (inr e) ↦ subst (Each P) (sym e.1) (h.0, Each-delete_key P test rs h.1)
]

pub IsAscending-delete_key :
    (test : Ipv4Route) (rs : List Ipv4Route) → IsAscending rs → IsAscending (delete_key test rs)
unfolding delete_key
IsAscending-delete_key test [] h = h
IsAscending-delete_key test (r ∷ rs) h = elim (delete_key_cases test r rs) [
  | inl e ↦ subst IsAscending (sym e.1) h
  | inr (inl e) ↦ subst IsAscending (sym e.1) h.1
  | inr (inr e) ↦
      subst IsAscending (sym e.1)
        (Each-delete_key (IsBelow r) test rs h.0, IsAscending-delete_key test rs h.1)
]
