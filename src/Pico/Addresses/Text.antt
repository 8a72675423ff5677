-- ===== src/Pico/Addresses/Text.antt =====
-- The text of an address is read as the address.
use fd_picotcp.Prelude.{
  ℕ, zero, suc, ◌+◌, ◌-◌, ◌*◌, ◌/◌, ◌%◌, ◌^◌, ◌<◌, true, List, [], ◌∷◌, ◌++◌, some, ltb, ltb→lt,
  ltb→le, Bool-cases, ◌≡◌, refl, ap, sym, ◌∙◌, inl, inr, arith, get_or, set, append-nil, length,
  ◌&&◌, not, ◌==◌,
}
use fd_picotcp.Pico.Heap.Slots.{slot-set}
use fd_picotcp.Pico.Words.{byte_of, long_from}
use fd_picotcp.Pico.Addresses.{
  octet, pico_ipv4_to_string, pico_is_digit, read_octets, spread, pico_string_to_ipv4,
}

abbrev digit_step : ℕ → ℕ → ℕ
digit_step v p = (10 * v + p - 48) % 256

digit_true : (d : ℕ) → d < 10 → pico_is_digit (48 + d) ≡ true
digit_true d l = ground arith

live_true : (d cnt : ℕ) → cnt < 4 → (not (48 + d == 0) && ltb cnt 4) ≡ true
live_true d cnt l = ground arith

read_digit :
    (d cnt : ℕ) (text buf : List ℕ)
    → d < 10
    → cnt < 4
    → read_octets ((48 + d) ∷ text) cnt buf
      ≡ read_octets text cnt (set buf cnt (digit_step (get_or buf cnt 0) (48 + d)))
unfolding read_octets
read_digit d cnt text buf l m = rw (live_true d cnt m, digit_true d l) refl

digit_value : (v d : ℕ) → digit_step v (48 + d) ≡ (10 * v + d) % 256
digit_value v d = omega arith

set-set : (buf : List ℕ) (i x y : ℕ) → set (set buf i x) i y ≡ set buf i y
set-set [] i x y = refl
set-set (b ∷ buf) zero x y = refl
set-set (b ∷ buf) (suc i) x y = ap (◌∷◌ b) (set-set buf i x y)

-- One digit more of the number in `buf`.
read_more :
    (d v cnt : ℕ) (text buf : List ℕ)
    → d < 10
    → cnt < 4
    → cnt < length buf
    → read_octets ((48 + d) ∷ text) cnt (set buf cnt v)
      ≡ read_octets text cnt (set buf cnt ((10 * v + d) % 256))
read_more d v cnt text buf l m k =
    read_digit d cnt text (set buf cnt v) l m
    ∙ rw (slot-set 0 buf cnt v k, set-set buf cnt v (digit_step v (48 + d)), digit_value v d) refl

read_dot :
    (cnt : ℕ) (text buf : List ℕ)
    → cnt < 4
    → read_octets (46 ∷ text) cnt buf ≡ read_octets text (suc cnt) buf
unfolding read_octets
read_dot cnt text buf l = elim (Bool-cases (ltb cnt 4)) [
  | inl e ↦ rw e refl
  | inr e ↦ absurd (omega (arith, ltb→le cnt 4 e))
]

read_octet :
    (b cnt : ℕ) (text buf : List ℕ)
    → b < 256
    → cnt < 4
    → cnt < length buf
    → read_octets (octet b ++ text) cnt (set buf cnt 0) ≡ read_octets text cnt (set buf cnt b)
unfolding octet
read_octet b cnt text buf l m k =
    let one = λ (d v : ℕ) (t : List ℕ) (h : d < 10). read_more d v cnt t buf h m k in
    elim (Bool-cases (ltb 99 b)) [
      | inl e ↦ rw e (
          one (b / 100) 0 _ (omega arith)
          ∙ one (b % 100 / 10) _ _ (omega arith)
          ∙ one (b % 100 % 10) _ text (omega arith)
          ∙ ap (λ x. read_octets text cnt (set buf cnt x)) (omega (arith, ltb→lt 99 b e)))
      | inr e ↦ elim (Bool-cases (ltb 9 b)) [
        | inl f ↦
            rw (e, f)
              (one (b / 10) 0 _ (omega (arith, ltb→le 99 b e))
                ∙ one (b % 10) _ text (omega arith)
                ∙ ap (λ x. read_octets text cnt (set buf cnt x)) (omega (arith, ltb→le 99 b e)))
        | inr f ↦
            rw (e, f)
              (one b 0 text (omega (arith, ltb→le 9 b f))
                ∙ ap (λ x. read_octets text cnt (set buf cnt x)) (omega arith))
      ]
    ]

read_end : (cnt : ℕ) (buf : List ℕ) → read_octets [] cnt buf ≡ some (cnt, buf)
unfolding read_octets
read_end cnt buf = refl

octets_lem :
    (a b c d : ℕ)
    → a < 256
    → b < 256
    → c < 256
    → d < 256
    → read_octets
        (octet a ++ (46 ∷ (octet b ++ (46 ∷ (octet c ++ (46 ∷ octet d))))))
        0
        (0 ∷ 0 ∷ 0 ∷ 0 ∷ [])
      ≡ some (3, a ∷ b ∷ c ∷ d ∷ [])
octets_lem a b c d h i j k =
    read_octet a 0 _ (0 ∷ 0 ∷ 0 ∷ 0 ∷ []) h (omega arith) (omega arith)
    ∙ read_dot 0 _ (a ∷ 0 ∷ 0 ∷ 0 ∷ []) (omega arith)
    ∙ read_octet b 1 _ (a ∷ 0 ∷ 0 ∷ 0 ∷ []) i (omega arith) (omega arith)
    ∙ read_dot 1 _ (a ∷ b ∷ 0 ∷ 0 ∷ []) (omega arith)
    ∙ read_octet c 2 _ (a ∷ b ∷ 0 ∷ 0 ∷ []) j (omega arith) (omega arith)
    ∙ read_dot 2 _ (a ∷ b ∷ c ∷ 0 ∷ []) (omega arith)
    ∙ ap (λ x. read_octets x 3 (a ∷ b ∷ c ∷ 0 ∷ [])) (sym (append-nil (octet d)))
    ∙ read_octet d 3 [] (a ∷ b ∷ c ∷ 0 ∷ []) k (omega arith) (omega arith)
    ∙ read_end 3 (a ∷ b ∷ c ∷ d ∷ [])

bytes_lem :
    (ip : ℕ)
    → ip < 2 ^ 32
    → long_from (byte_of ip 0 ∷ byte_of ip 1 ∷ byte_of ip 2 ∷ byte_of ip 3 ∷ []) ≡ ip
unfolding long_from
bytes_lem ip l = omega arith

-- The text of an address is read as that address.
pub ipv4_text_lem : (ip : ℕ) → ip < 2 ^ 32 → pico_string_to_ipv4 (pico_ipv4_to_string ip) ≡ some ip
unfolding pico_string_to_ipv4 pico_ipv4_to_string spread
ipv4_text_lem ip l =
    rw
      (octets_lem (byte_of ip 0) (byte_of ip 1) (byte_of ip 2) (byte_of ip 3) (omega arith)
        (omega arith) (omega arith) (omega arith))
      (ap some (bytes_lem ip l))
