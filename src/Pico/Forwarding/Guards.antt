-- ===== src/Pico/Forwarding/Guards.antt =====
-- What the checks before a packet is forwarded look at: fields that the compensation leaves, the
-- addresses of the links, and the packet before.
use fd_picotcp.Prelude.{
  ℕ, zero, suc, ◌+◌, ◌/◌, ◌%◌, ◌<◌, ◌≢◌, true, false, List, [], ◌∷◌, ◌≡◌, refl, ap, ◌∙◌, ◌⊎◌, inl,
  inr, arith, get_or, set, drop, ◌==◌, ==_iff, Bool-cases,
}
use fd_picotcp.Pico.Words.{long_from}
use fd_picotcp.Pico.Routes.{Ipv4Link}
use fd_picotcp.Pico.Forwarding.{
  ttl_of, crc_of, src_of, pico_ipv4_link_get, LastForwarded, decrease_ttl, increase_crc, identity,
  is_last,
}

get_or-set_other : (xs : List ℕ) (i j v : ℕ) → j ≢ i → get_or (set xs i v) j 0 ≡ get_or xs j 0
get_or-set_other [] i j v n = refl
get_or-set_other (x ∷ xs) zero zero v n = absurd (n refl)
get_or-set_other (x ∷ xs) zero (suc j) v n = refl
get_or-set_other (x ∷ xs) (suc i) zero v n = refl
get_or-set_other (x ∷ xs) (suc i) (suc j) v n = get_or-set_other xs i j v (λ e. n (ap suc e))

drop-set : (xs : List ℕ) (i n v : ℕ) → i < n → drop n (set xs i v) ≡ drop n xs
drop-set xs i zero v l = absurd (omega arith)
drop-set [] i (suc n) v l = refl
drop-set (x ∷ xs) zero (suc n) v l = refl
drop-set (x ∷ xs) (suc i) (suc n) v l = drop-set xs i n v (omega arith)

-- Without the sums: what the two steps leave of the other fields.
get_kept :
    (hdr : List ℕ) (j : ℕ)
    → j ≢ 8
    → j ≢ 10
    → j ≢ 11
    → get_or (increase_crc (decrease_ttl hdr)) j 0 ≡ get_or hdr j 0
unfolding increase_crc decrease_ttl
get_kept hdr j a b c =
    get_or-set_other _ 11 j _ c ∙ get_or-set_other _ 10 j _ b ∙ get_or-set_other hdr 8 j _ a

drop_kept : (hdr : List ℕ) (n : ℕ) → 11 < n → drop n (increase_crc (decrease_ttl hdr)) ≡ drop n hdr
unfolding increase_crc decrease_ttl
drop_kept hdr n l =
    drop-set _ 11 n _ l ∙ drop-set _ 10 n _ (omega arith) ∙ drop-set hdr 8 n _ (omega arith)

pub src_kept : (hdr : List ℕ) → src_of (increase_crc (decrease_ttl hdr)) ≡ src_of hdr
src_kept hdr = ap long_from (drop_kept hdr 12 (omega arith))

pub identity_kept : (hdr : List ℕ) → identity (increase_crc (decrease_ttl hdr)) ≡ identity hdr
identity_kept hdr =
    rw
      (
        get_kept hdr 4 (λ e. omega (arith, e)) (λ e. omega (arith, e)) (λ e. omega (arith, e)),
        get_kept hdr 5 (λ e. omega (arith, e)) (λ e. omega (arith, e)) (λ e. omega (arith, e)),
        get_kept hdr 9 (λ e. omega (arith, e)) (λ e. omega (arith, e)) (λ e. omega (arith, e)),
        drop_kept hdr 12 (omega arith),
        drop_kept hdr 16 (omega arith),
      )
      refl

pub ttl_kept : (hdr : List ℕ) → ttl_of (increase_crc hdr) ≡ ttl_of hdr
unfolding increase_crc
ttl_kept hdr =
    let v = (crc_of hdr + 1) % 65536 in
    get_or-set_other (set hdr 10 (v % 256)) 11 8 (v / 256 % 256) (λ e. omega (arith, e))
    ∙ get_or-set_other hdr 10 8 (v % 256) (λ e. omega (arith, e))

-- One of the links has the address.
abbrev pub HasAddress : ℕ → List Ipv4Link → Type 0
HasAddress a [] = ⊥
HasAddress a (l ∷ links) = (l.address ≡ a) ⊎ HasAddress a links

not-HasAddress :
    (a : ℕ) (l : Ipv4Link) (links : List Ipv4Link)
    → (l.address == a) ≡ false
    → ¬ HasAddress a links
    → ¬ HasAddress a (l ∷ links)
not-HasAddress a l links e n (inl q) = cc (e, (==_iff l.address a).1 q)
not-HasAddress a l links e n (inr h) = n h

pub link_get_cases :
    (a : ℕ) (links : List Ipv4Link)
    → (pico_ipv4_link_get a links ≡ true) × HasAddress a links
      ⊎ (pico_ipv4_link_get a links ≡ false) × ¬ HasAddress a links
unfolding pico_ipv4_link_get
link_get_cases a [] = inr (refl, λ h. h)
link_get_cases a (l ∷ links) = elim (Bool-cases (l.address == a)) [
  | inl e ↦ inl (rw e refl, inl ((==_iff l.address a).0 e))
  | inr e ↦ elim (link_get_cases a links) [
    | inl (f, h) ↦ inl (rw (e, f) refl, inr h)
    | inr (f, h) ↦ inr (rw (e, f) refl, not-HasAddress a l links e h)
  ]
]

same_packet :
    (a b : LastForwarded)
    → a.last_id ≡ b.last_id
    → a.last_proto ≡ b.last_proto
    → a.last_src ≡ b.last_src
    → a.last_dst ≡ b.last_dst
    → a ≡ b
same_packet a b i p s d = rw (i, p, s, d) refl

differ : (f : LastForwarded → ℕ) (a b : LastForwarded) → (f a == f b) ≡ false → a ≢ b
differ f a b e q = cc (e, (==_iff (f a) (f b)).1 (ap f q))

pub is_last_cases :
    (a b : LastForwarded) → (is_last a b ≡ true) × (a ≡ b) ⊎ (is_last a b ≡ false) × (a ≢ b)
unfolding is_last
is_last_cases a b = elim (Bool-cases (a.last_src == b.last_src)) [
  | inr e ↦ inr (rw e refl, differ (λ x. x.last_src) a b e)
  | inl e ↦ elim (Bool-cases (a.last_id == b.last_id)) [
    | inr f ↦ inr (rw (e, f) refl, differ (λ x. x.last_id) a b f)
    | inl f ↦ elim (Bool-cases (a.last_dst == b.last_dst)) [
      | inr g ↦ inr (rw (e, f, g) refl, differ (λ x. x.last_dst) a b g)
      | inl g ↦ elim (Bool-cases (a.last_proto == b.last_proto)) [
        | inr h ↦ inr (rw (e, f, g, h) refl, differ (λ x. x.last_proto) a b h)
        | inl h ↦ inl (
          rw (e, f, g, h) refl,
          same_packet a b ((==_iff a.last_id b.last_id).0 f)
              ((==_iff a.last_proto b.last_proto).0 h) ((==_iff a.last_src b.last_src).0 e)
              ((==_iff a.last_dst b.last_dst).0 g),
        )
      ]
    ]
  ]
]
