-- ===== src/Pico/Forwarding/Header.antt =====
-- The header after the checks: the checksum still fits.
use fd_picotcp.Prelude.{
  ℕ, zero, suc, ◌+◌, ◌*◌, ◌/◌, ◌%◌, ◌≤◌, ◌<◌, ◌^◌, ◌≢◌, List, [], ◌∷◌, ◌++◌, ◌≡◌, refl, ap, sym,
  subst, ◌∙◌, arith, length, length-append, get_or, set,
}
use fd_picotcp.Pico.Checksum.{pico_ipv4_crc_check}
use fd_picotcp.Pico.Checksum.Sums.{IsBytes, words, words-append, words_bound}
use fd_picotcp.Pico.Checksum.Checked.{checksum_lem, split_at, IsBytes-parts}
use fd_picotcp.Pico.Forwarding.{ttl_of, crc_of, decrease_ttl, increase_crc}

-- Bytes with the same sum pass alike.
same_check :
    (a b : List ℕ)
    → words b ≡ words a
    → words a < 2 ^ 32
    → pico_ipv4_crc_check b ≡ pico_ipv4_crc_check a
unfolding pico_ipv4_crc_check
same_check a b e l = rw (checksum_lem a (words a) refl l, checksum_lem b (words a) e l) refl

-- Four bytes behind the first eight.
four_around :
    (pre post : List ℕ) (t p c d : ℕ)
    → length pre ≡ 8
    → words (pre ++ t ∷ p ∷ c ∷ d ∷ post) ≡ words pre + (t + 256 * p + (c + 256 * d + words post))
unfolding words
four_around pre post t p c d e = words-append pre (t ∷ p ∷ c ∷ d ∷ post) (omega (arith, e))

module _ (post : List ℕ) (a b c d : ℕ) where
  get_at :
      (pre : List ℕ) (n : ℕ)
      → length pre ≡ n
      → (get_or (pre ++ a ∷ b ∷ c ∷ d ∷ post) n 0 ≡ a)
        × (get_or (pre ++ a ∷ b ∷ c ∷ d ∷ post) (suc (suc n)) 0 ≡ c)
        × (get_or (pre ++ a ∷ b ∷ c ∷ d ∷ post) (suc (suc (suc n))) 0 ≡ d)
  get_at [] zero e = (refl, refl, refl)
  get_at [] (suc n) e = absurd (omega arith)
  get_at (x ∷ pre) zero e = absurd (omega arith)
  get_at (x ∷ pre) (suc n) e = get_at pre n (omega (arith, e))

  set_first :
      (pre : List ℕ) (n v : ℕ)
      → length pre ≡ n
      → set (pre ++ a ∷ b ∷ c ∷ d ∷ post) n v ≡ pre ++ v ∷ b ∷ c ∷ d ∷ post
  set_first [] zero v e = refl
  set_first [] (suc n) v e = absurd (omega arith)
  set_first (x ∷ pre) zero v e = absurd (omega arith)
  set_first (x ∷ pre) (suc n) v e = ap (◌∷◌ x) (set_first pre n v (omega (arith, e)))

  set_last :
      (pre : List ℕ) (n v w : ℕ)
      → length pre ≡ n
      → set (set (pre ++ a ∷ b ∷ c ∷ d ∷ post) (suc (suc n)) v) (suc (suc (suc n))) w
        ≡ pre ++ a ∷ b ∷ v ∷ w ∷ post
  set_last [] zero v w e = refl
  set_last [] (suc n) v w e = absurd (omega arith)
  set_last (x ∷ pre) zero v w e = absurd (omega arith)
  set_last (x ∷ pre) (suc n) v w e = ap (◌∷◌ x) (set_last pre n v w (omega (arith, e)))

  decrease_ttl_at :
      (pre : List ℕ)
      → length pre ≡ 8
      → decrease_ttl (pre ++ a ∷ b ∷ c ∷ d ∷ post) ≡ pre ++ (a + 255) % 256 ∷ b ∷ c ∷ d ∷ post
  unfolding decrease_ttl
  decrease_ttl_at pre e = rw (get_at pre 8 e).0 (set_first pre 8 ((a + 255) % 256) e)

  increase_crc_at :
      (pre : List ℕ)
      → length pre ≡ 8
      → increase_crc (pre ++ a ∷ b ∷ c ∷ d ∷ post)
        ≡ pre
          ++ a ∷ b ∷ (c + 256 * d + 1) % 65536 % 256 ∷ (c + 256 * d + 1) % 65536 / 256 % 256 ∷ post
  unfolding increase_crc
  increase_crc_at pre e =
      rw ((get_at pre 8 e).1, (get_at pre 8 e).2)
        (set_last pre 8 ((c + 256 * d + 1) % 65536 % 256) ((c + 256 * d + 1) % 65536 / 256 % 256) e)

-- The header that goes on has its time to live less by one, and passes the check as it did before.
pub record IsCompensated (hdr new : List ℕ) : Type 0 where
  pub ttl : suc (ttl_of new) ≡ ttl_of hdr
  pub check : pico_ipv4_crc_check new ≡ pico_ipv4_crc_check hdr

IsCompensated-at :
    (pre post : List ℕ) (t p c d : ℕ)
    → length pre ≡ 8
    → IsBytes (pre ++ t ∷ p ∷ c ∷ d ∷ post)
    → length (pre ++ t ∷ p ∷ c ∷ d ∷ post) ≤ 65535
    → 1 ≤ t
    → c + 256 * d ≢ 65535
    → IsCompensated
        (pre ++ t ∷ p ∷ c ∷ d ∷ post)
        (increase_crc (decrease_ttl (pre ++ t ∷ p ∷ c ∷ d ∷ post)))
IsCompensated-at pre post t p c d e h l k n =
    let (hp, (ht, (hb, (hc, (hd, hs))))) = IsBytes-parts pre (t ∷ p ∷ c ∷ d ∷ post) h in
    let old = pre ++ t ∷ p ∷ c ∷ d ∷ post in
    let v = (c + 256 * d + 1) % 65536 in
    let t' = (t + 255) % 256 in
    let c' = v % 256 in
    let d' = v / 256 % 256 in
    let f =
      ap increase_crc (decrease_ttl_at post t p c d pre e) ∙ increase_crc_at post t' p c d pre e in
    subst (IsCompensated old) (sym f) (record {
      ttl = omega (arith, (get_at post t' p c' d' pre 8 e).0, (get_at post t p c d pre 8 e).0);
      check =
          same_check old (pre ++ t' ∷ p ∷ c' ∷ d' ∷ post)
            (omega (arith, four_around pre post t p c d e, four_around pre post t' p c' d' e))
            (omega (arith, words_bound old h));
    })

IsCompensated-split :
    (pre rest : List ℕ)
    → length pre ≡ 8
    → IsBytes (pre ++ rest)
    → 12 ≤ length (pre ++ rest)
    → length (pre ++ rest) ≤ 65535
    → 1 ≤ ttl_of (pre ++ rest)
    → crc_of (pre ++ rest) ≢ 65535
    → IsCompensated (pre ++ rest) (increase_crc (decrease_ttl (pre ++ rest)))
IsCompensated-split pre [] e h m l k n = absurd (omega (arith, length-append pre []))
IsCompensated-split pre (t ∷ []) e h m l k n = absurd (omega (arith, length-append pre (t ∷ [])))
IsCompensated-split pre (t ∷ p ∷ []) e h m l k n =
    absurd (omega (arith, length-append pre (t ∷ p ∷ [])))
IsCompensated-split pre (t ∷ p ∷ c ∷ []) e h m l k n =
    absurd (omega (arith, length-append pre (t ∷ p ∷ c ∷ [])))
IsCompensated-split pre (t ∷ p ∷ c ∷ d ∷ post) e h m l k n =
    let g = get_at post t p c d pre 8 e in
    IsCompensated-at pre post t p c d e h l (omega (arith, g.0))
      (λ q. n (omega (arith, g.1, g.2, q)))

pub compensated :
    (hdr : List ℕ)
    → IsBytes hdr
    → 12 ≤ length hdr
    → length hdr ≤ 65535
    → 1 ≤ ttl_of hdr
    → crc_of hdr ≢ 65535
    → IsCompensated hdr (increase_crc (decrease_ttl hdr))
compensated hdr h m l k n =
    let (pre, rest, e, f) = split_at 8 hdr (omega arith) in
    subst (λ b. IsCompensated b (increase_crc (decrease_ttl b))) (sym f)
      (IsCompensated-split pre rest e (subst IsBytes f h) (subst (λ b. 12 ≤ length b) f m)
        (subst (λ b. length b ≤ 65535) f l) (subst (λ b. 1 ≤ ttl_of b) f k)
        (subst (λ b. crc_of b ≢ 65535) f n))
