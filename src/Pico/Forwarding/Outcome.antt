-- ===== src/Pico/Forwarding/Outcome.antt =====
-- What becomes of a packet that is forwarded.
use fd_picotcp.Prelude.{
  ℕ, ◌≤◌, ◌<◌, ◌≢◌, Bool, false, List, Option, none, some, ◌≡◌, refl, sym, subst, ◌∙◌, inl, inr,
  arith, length, ltb, ltb→lt, ltb→le, Bool-cases, Option-cases,
}
use fd_picotcp.Pico.Checksum.Sums.{IsBytes}
use fd_picotcp.Pico.Routes.{Ipv4, Ipv4Link, Ipv4Route, covers, route_find}
use fd_picotcp.Pico.Routes.Order.{Each}
use fd_picotcp.Pico.Routes.Longest.{IsBest, Answers, at}
use fd_picotcp.Pico.Routes.Keeping.{Reaches, reached_route_find}
use fd_picotcp.Pico.Forwarding.{
  ttl_of, crc_of, src_of, dst_of, LastForwarded, ForwardRefusal, decrease_ttl, increase_crc,
  identity, pico_ipv4_pre_forward_checks, Forwarded, sent_len, send_checked, after_checks,
  forward_on, pico_ipv4_forward,
}
use fd_picotcp.Pico.Forwarding.Guards.{
  src_kept, identity_kept, ttl_kept, HasAddress, link_get_cases, is_last_cases,
}
use fd_picotcp.Pico.Forwarding.Header.{IsCompensated, compensated}

module _ (eth : ℕ → Bool) (mtu : ℕ → ℕ) (nat_outbound : ℕ → List ℕ → List ℕ) (s : Ipv4)
    (links : List Ipv4Link) (last : LastForwarded) (hdr : List ℕ) (len : ℕ) where
  -- The route is the best one, and the packet goes through its link.
  pub record IsWay (rt : Ipv4Route) (l : ℕ) : Type 0 where
    pub best : IsBest (dst_of hdr) s.routes rt
    pub link : rt.link ≡ some l

  -- What is sent is what the translation of addresses makes of the compensated header.
  pub record IsSent (dev : ℕ) (bytes : List ℕ) : Type 0 where
    pub rt : Ipv4Route
    pub l : ℕ
    pub way : IsWay rt l
    pub device : dev ≡ (s.link_at l).dev
    pub new : List ℕ
    pub compensated : IsCompensated hdr new
    pub translated : bytes ≡ nat_outbound l new
    pub fits : sent_len eth mtu nat_outbound dev len ≤ mtu dev

  pub record IsTooBig : Type 0 where
    pub rt : Ipv4Route
    pub l : ℕ
    pub way : IsWay rt l
    pub exceeds : mtu (s.link_at l).dev < sent_len eth mtu nat_outbound (s.link_at l).dev len

  abbrev pub HasWay : Type 0
  HasWay = (rt : Ipv4Route) × (l : ℕ) × IsWay rt l

  -- None of the three reasons to refuse a packet that has a route.
  pub record IsPassed : Type 0 where
    pub alive : 2 ≤ ttl_of hdr
    pub foreign : ¬ HasAddress (src_of hdr) links
    pub fresh : last ≢ identity hdr

  -- Each result with its reason, and the packet that is taken as the last.
  abbrev pub Outcome : Forwarded → LastForwarded → Type 0
  Outcome Forwarded.no_header t = ⊥
  Outcome Forwarded.dest_unreachable t =
      Each (λ q. covers (dst_of hdr) q ≡ false) s.routes × (t ≡ last)
  Outcome Forwarded.null_link t = ⊥
  Outcome (Forwarded.refused ForwardRefusal.ttl_expired) t = HasWay × (ttl_of hdr ≡ 1) × (t ≡ last)
  Outcome (Forwarded.refused ForwardRefusal.local_source) t =
      HasWay × (2 ≤ ttl_of hdr) × HasAddress (src_of hdr) links × (t ≡ last)
  Outcome (Forwarded.refused ForwardRefusal.duplicate) t =
      HasWay
      × (2 ≤ ttl_of hdr)
      × ¬ HasAddress (src_of hdr) links
      × (last ≡ identity hdr)
      × (t ≡ last)
  Outcome Forwarded.too_big t = IsPassed × IsTooBig × (t ≡ identity hdr)
  Outcome (Forwarded.sent dev bytes) t = IsPassed × IsSent dev bytes × (t ≡ identity hdr)

  sent_lem :
      (rt : Ipv4Route) (l : ℕ) (new : List ℕ)
      → IsWay rt l
      → IsPassed
      → IsCompensated hdr new
      → Outcome (send_checked eth mtu nat_outbound l (s.link_at l).dev len new) (identity hdr)
  unfolding send_checked
  sent_lem rt l new w p c =
      let dev = (s.link_at l).dev in
      elim (Bool-cases (ltb (mtu dev) (sent_len eth mtu nat_outbound dev len))) [
        | inl e ↦
            rw (send_checked, e)
              (
                p,
                record {
                  rt = rt;
                  l = l;
                  way = w;
                  exceeds = ltb→lt (mtu dev) (sent_len eth mtu nat_outbound dev len) e;
                },
                refl,
              )
        | inr e ↦
            rw (send_checked, e)
              (
                p,
                record {
                  rt = rt;
                  l = l;
                  way = w;
                  device = refl;
                  new = new;
                  compensated = c;
                  translated = refl;
                  fits = ltb→le (mtu dev) (sent_len eth mtu nat_outbound dev len) e;
                },
                refl,
              )
      ]

  checks_lem :
      (rt : Ipv4Route) (l : ℕ)
      → IsWay rt l
      → IsCompensated hdr (increase_crc (decrease_ttl hdr))
      → Outcome
          (after_checks eth mtu nat_outbound l
            (s.link_at l).dev
            len
            (pico_ipv4_pre_forward_checks links hdr last))
          (pico_ipv4_pre_forward_checks links hdr last).last
  unfolding pico_ipv4_pre_forward_checks after_checks
  checks_lem rt l w c =
      let new = increase_crc (decrease_ttl hdr) in
      elim (Bool-cases (ltb (ttl_of (decrease_ttl hdr)) 1)) [
        | inl e ↦
            rw (pico_ipv4_pre_forward_checks, e)
              (
                (rt, l, w),
                omega (
                  arith,
                  ltb→lt (ttl_of (decrease_ttl hdr)) 1 e,
                  ttl_kept (decrease_ttl hdr),
                  c.ttl,
                ),
                refl,
              )
        | inr e ↦
            let alive : 2 ≤ ttl_of hdr =
              omega (
                arith,
                ltb→le (ttl_of (decrease_ttl hdr)) 1 e,
                ttl_kept (decrease_ttl hdr),
                c.ttl,
              ) in
            elim (link_get_cases (src_of new) links) [
              | inl (f, a) ↦
                  rw (pico_ipv4_pre_forward_checks, e, f)
                    ((rt, l, w), alive, subst (λ x. HasAddress x links) (src_kept hdr) a, refl)
              | inr (f, a) ↦
                  let foreign = subst (λ x. ¬ HasAddress x links) (src_kept hdr) a in
                  elim (is_last_cases last (identity new)) [
                    | inl (g, b) ↦
                        rw (pico_ipv4_pre_forward_checks, e, f, g)
                          ((rt, l, w), alive, foreign, b ∙ identity_kept hdr, refl)
                    | inr (g, b) ↦
                        let p : IsPassed = record {
                          alive = alive;
                          foreign = foreign;
                          fresh = subst (λ x. last ≢ x) (identity_kept hdr) b;
                        } in
                        rw (pico_ipv4_pre_forward_checks, e, f, g)
                          (subst
                            (Outcome
                              (send_checked eth mtu nat_outbound l (s.link_at l).dev len new))
                            (sym (identity_kept hdr)) (sent_lem rt l new w p c))
                  ]
            ]
      ]

  forward_on_lem :
      (o : Option Ipv4Route)
      → Answers (dst_of hdr) s.routes o
      → Each (λ r. r.link ≢ none) s.routes
      → IsCompensated hdr (increase_crc (decrease_ttl hdr))
      → Outcome
          (forward_on eth mtu nat_outbound hdr len s links last o).0
          (forward_on eth mtu nat_outbound hdr len s links last o).1
  unfolding forward_on
  forward_on_lem none h a c = (h, refl)
  forward_on_lem (some rt) h a c = elim (Option-cases rt.link) [
    | inl e ↦ absurd (at (λ r. r.link ≢ none) s.routes h.place rt a h.there e)
    | inr (l, e) ↦ rw e (checks_lem rt l (record { best = h; link = e }) c)
  ]

  -- A packet with a header of 12 to 65535 bytes, for a host other than that of all, with a time to
  -- live and a checksum that is not 0xffff, is forwarded as follows, whatever has been done to the
  -- table before. If no route covers its destination, it is unreachable. If its time to live is 1,
  -- or its source is an address of this host, or it is the packet before once more, it is refused
  -- for the first of these reasons, and only then. Otherwise it goes to the device of the best
  -- route's link, or is too big for it. The header that the translation of addresses is given has
  -- its time to live less by one and passes the check exactly if the one that came in does; what is
  -- sent is what the translation makes of it. The packet is noted as the last where nothing was
  -- refused.
  pub forward_lem :
      Reaches s
      → dst_of hdr ≢ 0xffffffff
      → IsBytes hdr
      → 12 ≤ length hdr
      → length hdr ≤ 65535
      → 1 ≤ ttl_of hdr
      → crc_of hdr ≢ 65535
      → Outcome
          (pico_ipv4_forward eth mtu nat_outbound (some hdr) len s links last).0
          (pico_ipv4_forward eth mtu nat_outbound (some hdr) len s links last).1
  unfolding pico_ipv4_forward
  forward_lem h n b m l k c =
      let (a, j) = reached_route_find s (dst_of hdr) h n in
      forward_on_lem (route_find s (dst_of hdr)) a j (compensated hdr b m l k c)
