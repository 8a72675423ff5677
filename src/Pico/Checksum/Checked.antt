-- ===== src/Pico/Checksum/Checked.antt =====
-- A header with its checksum passes, and two buffers are checked as one.
use fd_picotcp.Prelude.{
  ℕ, zero, suc, ◌+◌, ◌*◌, ◌/◌, ◌%◌, ◌^◌, ◌<◌, ◌≤◌, true, List, [], ◌∷◌, ◌++◌, ◌≡◌, refl, ap, sym,
  subst, ◌∙◌, arith, ◌==◌, length, length-append, set,
}
use fd_picotcp.Pico.Words.{short_be}
use fd_picotcp.Pico.Checksum.{
  carry, complement, pico_checksum_finalize, pico_checksum, pico_dualbuffer_checksum, set_crc,
  pico_ipv4_checksum, pico_ipv4_crc_check,
}
use fd_picotcp.Pico.Checksum.Sums.{IsBytes, words, adder_lem, words_bound, words-append}
use fd_picotcp.Pico.Checksum.Folding.{filled}

short_be_twice : (v : ℕ) → v < 2 ^ 16 → short_be (short_be v) ≡ v
unfolding short_be
short_be_twice v l = omega arith

-- The checksum of bytes whose sum is known.
pub checksum_lem :
    (bytes : List ℕ) (n : ℕ)
    → words bytes ≡ n
    → n < 2 ^ 32
    → pico_checksum bytes ≡ pico_checksum_finalize n
unfolding pico_checksum
checksum_lem bytes n e l =
    ap pico_checksum_finalize (adder_lem 0 bytes (omega (arith, e)) ∙ omega (arith, e))

words_around :
    (pre post : List ℕ) (a b : ℕ)
    → length pre % 2 ≡ 0
    → words (pre ++ (a ∷ b ∷ post)) ≡ words pre + (a + 256 * b + words post)
unfolding words
words_around pre post a b e = words-append pre (a ∷ b ∷ post) e

sum_bound :
    (pre post : List ℕ)
    → IsBytes pre
    → IsBytes post
    → length pre + length post ≤ 65535
    → words pre + words post < 2 ^ 31
sum_bound pre post h k l = omega (arith, words_bound pre h, words_bound post k)

set_two :
    (pre post : List ℕ) (x y a b : ℕ)
    → set (set (pre ++ (x ∷ y ∷ post)) (length pre) a) (suc (length pre)) b ≡ pre ++ (a ∷ b ∷ post)
set_two [] post x y a b = refl
set_two (c ∷ pre) post x y a b = ap (◌∷◌ c) (set_two pre post x y a b)

set_crc_lem :
    (pre post : List ℕ) (x y v : ℕ)
    → length pre ≡ 10
    → set_crc v (pre ++ (x ∷ y ∷ post)) ≡ pre ++ (v % 256 ∷ v / 256 % 256 ∷ post)
set_crc_lem pre post x y v e =
    subst
      (λ n.
        set (set (pre ++ (x ∷ y ∷ post)) n (v % 256)) (suc n) (v / 256 % 256)
        ≡ pre ++ (v % 256 ∷ v / 256 % 256 ∷ post))
      e (set_two pre post x y (v % 256) (v / 256 % 256))

-- The checksum that is stored.
stored :
    (pre post : List ℕ) (x y : ℕ)
    → length pre ≡ 10
    → IsBytes pre
    → IsBytes post
    → length pre + length post ≤ 65535
    → (v : ℕ) × (v ≡ complement (carry 3 (words pre + words post)))
      × (pico_ipv4_checksum (pre ++ (x ∷ y ∷ post)) ≡ pre ++ (v % 256 ∷ v / 256 % 256 ∷ post))
unfolding pico_ipv4_checksum pico_checksum_finalize
stored pre post x y e h k l =
    let s = words pre + words post in
    let cleared = pre ++ (0 ∷ 0 ∷ post) in
    let c : pico_checksum cleared ≡ short_be (complement (carry 3 s)) =
      checksum_lem cleared s (words_around pre post 0 0 (omega (arith, e)) ∙ omega arith)
        (omega (arith, sum_bound pre post h k l)) in
    (
      complement (carry 3 s),
      refl,
      rw (set_crc_lem pre post x y 0 e, c, short_be_twice (complement (carry 3 s)) (omega arith))
          (set_crc_lem pre post 0 0 (complement (carry 3 s)) e),
    )

short_zero : (short_be 0 == 0) ≡ true
unfolding short_be
short_zero = refl

passes :
    (pre post : List ℕ) (v : ℕ)
    → length pre ≡ 10
    → IsBytes pre
    → IsBytes post
    → length pre + length post ≤ 65535
    → v ≡ complement (carry 3 (words pre + words post))
    → pico_ipv4_crc_check (pre ++ (v % 256 ∷ v / 256 % 256 ∷ post)) ≡ true
unfolding pico_ipv4_crc_check
passes pre post v e h k l w =
    let s = words pre + words post in
    let b = sum_bound pre post h k l in
    let c : pico_checksum (pre ++ (v % 256 ∷ v / 256 % 256 ∷ post)) ≡ 0 =
      checksum_lem _ (s + complement (carry 3 s))
        (words_around pre post (v % 256) (v / 256 % 256) (omega (arith, e)) ∙ omega (arith, w))
        (omega (arith, b))
      ∙ filled s (omega (arith, b)) in
    rw c short_zero

pub IsBytes-parts : (pre bytes : List ℕ) → IsBytes (pre ++ bytes) → IsBytes pre × IsBytes bytes
IsBytes-parts [] bytes h = (tt, h)
IsBytes-parts (a ∷ pre) bytes h = let r = IsBytes-parts pre bytes h.1 in ((h.0, r.0), r.1)

pub split_at :
    (n : ℕ) (bytes : List ℕ)
    → n ≤ length bytes
    → (pre : List ℕ) × (rest : List ℕ) × (length pre ≡ n) × (bytes ≡ pre ++ rest)
split_at zero bytes l = ([], bytes, refl, refl)
split_at (suc n) [] l = absurd (omega arith)
split_at (suc n) (a ∷ bytes) l =
    let (pre, rest, e, f) = split_at n bytes (omega arith) in
    (a ∷ pre, rest, ap suc e, ap (◌∷◌ a) f)

around :
    (pre rest : List ℕ)
    → length pre ≡ 10
    → IsBytes (pre ++ rest)
    → 12 ≤ length (pre ++ rest)
    → length (pre ++ rest) ≤ 65535
    → pico_ipv4_crc_check (pico_ipv4_checksum (pre ++ rest)) ≡ true
around pre [] e h k l = absurd (omega (arith, e, length-append pre []))
around pre (x ∷ []) e h k l = absurd (omega (arith, e, length-append pre (x ∷ [])))
around pre (x ∷ y ∷ post) e h k l =
    let (p, q) = IsBytes-parts pre (x ∷ y ∷ post) h in
    let m : length pre + length post ≤ 65535 = omega (arith, length-append pre (x ∷ y ∷ post)) in
    let (v, w, f) = stored pre post x y e p q.1.1 m in rw f (passes pre post v e p q.1.1 m w)

-- A header of bytes that is long enough to have a checksum passes the check after its checksum has
-- been set, whatever stood there.
pub ipv4_checksum_lem :
    (hdr : List ℕ)
    → IsBytes hdr
    → 12 ≤ length hdr
    → length hdr ≤ 65535
    → pico_ipv4_crc_check (pico_ipv4_checksum hdr) ≡ true
ipv4_checksum_lem hdr h k l =
    let (pre, rest, e, f) = split_at 10 hdr (omega arith) in
    subst (λ b. pico_ipv4_crc_check (pico_ipv4_checksum b) ≡ true) (sym f)
      (around pre rest e (subst IsBytes f h) (subst (λ b. 12 ≤ length b) f k)
        (subst (λ b. length b ≤ 65535) f l))

-- Two buffers, of which the first has an even number of bytes, have the checksum of the one after the
-- other.
pub dualbuffer_lem :
    (inbuf1 inbuf2 : List ℕ)
    → IsBytes inbuf1
    → IsBytes inbuf2
    → length inbuf1 % 2 ≡ 0
    → length inbuf1 + length inbuf2 ≤ 2 ^ 16
    → pico_dualbuffer_checksum inbuf1 inbuf2 ≡ pico_checksum (inbuf1 ++ inbuf2)
unfolding pico_dualbuffer_checksum
dualbuffer_lem a b h k e l =
    let p = words_bound a h in
    let q = words_bound b k in
    let w = words-append a b e in
    rw (adder_lem 0 a (omega (arith, p))) (
      ap pico_checksum_finalize (adder_lem (0 + words a) b (omega (arith, p, q)))
      ∙ sym
          (checksum_lem (a ++ b) (0 + words a + words b) (omega (arith, w)) (omega (arith, p, q))))
