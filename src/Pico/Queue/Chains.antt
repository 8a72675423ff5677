-- ===== src/Pico/Queue/Chains.antt =====
-- The list of frames that a queue stands for.
use fd_picotcp.Prelude.{
  ℕ, ◌≡◌, ◌≢◌, refl, ap, sym, ◌∙◌, inl, inr, List, [], ◌∷◌, ◌++◌, Option, none, some, ◌==◌, ==_iff,
  ==_refl, Bool-cases,
}
use fd_picotcp.Pico.Queue.{Next, set_next}

-- From `first` on, the frames are those of the list, and no more.
abbrev pub IsChain : Next → Option ℕ → List ℕ → Type 0
IsChain next first [] = first ≡ none
IsChain next first (p ∷ l) = (first ≡ some p) × IsChain next (next p) l

abbrev pub IsFresh : ℕ → List ℕ → Type 0
IsFresh p [] = Unit {0}
IsFresh p (q ∷ l) = (q ≢ p) × IsFresh p l

abbrev pub IsDistinct : List ℕ → Type 0
IsDistinct [] = Unit {0}
IsDistinct (p ∷ l) = IsFresh p l × IsDistinct l

abbrev pub last_of : List ℕ → Option ℕ
last_of [] = none
last_of (p ∷ []) = some p
last_of (p ∷ q ∷ l) = last_of (q ∷ l)

pub set_next_at : (next : Next) (p : ℕ) (v : Option ℕ) → set_next next p v p ≡ v
set_next_at next p v = rw (==_refl p) refl

pub set_next_other : (next : Next) (p q : ℕ) (v : Option ℕ) → q ≢ p → set_next next p v q ≡ next q
set_next_other next p q v n = elim (Bool-cases (q == p)) [
  | inl e ↦ absurd (n ((==_iff q p).0 e))
  | inr e ↦ rw e refl
]

-- A write to a frame that is not in the chain does not change it.
pub IsChain-set_next :
    (next : Next) (p : ℕ) (v first : Option ℕ) (l : List ℕ)
    → IsFresh p l
    → IsChain next first l
    → IsChain (set_next next p v) first l
IsChain-set_next next p v first [] f c = c
IsChain-set_next next p v first (q ∷ l) f c =
    (c.0, rw (set_next_other next p q v f.0) (IsChain-set_next next p v (next q) l f.1 c.1))

some-injective : {x y : ℕ} → some x ≡ some y → x ≡ y
some-injective h = cc

fresh_last : (a t : ℕ) (l : List ℕ) → IsFresh a l → last_of l ≡ some t → a ≢ t
fresh_last a t [] f e = cc
fresh_last a t (b ∷ []) f e = λ q. f.0 (some-injective (e ∙ ap some (sym q)))
fresh_last a t (b ∷ c ∷ l) f e = fresh_last a t (c ∷ l) f.1 e

-- The frame after the last.
pub IsChain-append :
    (next : Next) (p t : ℕ) (first : Option ℕ) (l : List ℕ)
    → next p ≡ none
    → IsFresh p l
    → IsDistinct l
    → last_of l ≡ some t
    → IsChain next first l
    → IsChain (set_next next t (some p)) first (l ++ (p ∷ []))
IsChain-append next p t first [] n f d e c = cc
IsChain-append next p t first (a ∷ []) n f d e c = (
  c.0,
  rw (some-injective e) (
    set_next_at next t (some p),
    set_next_other next t p (some p) (λ q. f.0 (some-injective e ∙ sym q)) ∙ n,
  ),
)
IsChain-append next p t first (a ∷ b ∷ l) n f d e c = (
  c.0,
  rw (set_next_other next t a (some p) (fresh_last a t (b ∷ l) d.0 e))
      (IsChain-append next p t (next a) (b ∷ l) n f.1 d.1 e c.1),
)
