-- ===== src/Pico/Frames/Tally.antt =====
-- How many frames use a block.
use fd_picotcp.Prelude.{
  ℕ, ◌+◌, ◌<◌, ◌≤◌, ◌≡◌, ◌≢◌, refl, subst, ap, sym, ◌∙◌, ◌⊎◌, inl, inr, arith, Bool, true, false,
  List, [], ◌∷◌, some, ◌==◌, ==_iff, ==_refl, Bool-cases, if◌then◌else◌, length,
}
use fd_picotcp.Pico.Frames.{Frame, Memory, find, remove_frame, write, free, release}

abbrev pub one : ℕ → Frame → ℕ
one u f = if f.usage_count == u then 1 else 0

abbrev pub tally : ℕ → List Frame → ℕ
tally u [] = 0
tally u (f ∷ l) = one u f + tally u l

abbrev pub Each : (Frame → Type 0) → List Frame → Type 0
Each P [] = Unit {0}
Each P (f ∷ l) = P f × Each P l

-- Either the counter lies in the frame's own block, or it is apart, and the buffer is another's or
-- null. All addresses are below `n`.
pub data IsShaped (n : ℕ) (f : Frame) : Type 0 where
  own_block :
      f.ext_usage_counter ≡ false
      → f.ext_buffer ≡ false
      → f.buffer ≡ f.usage_count
      → 1 ≤ f.usage_count
      → f.usage_count < n
      → IsShaped n f
  apart_block :
      f.ext_usage_counter ≡ true
      → (f.ext_buffer ≡ true) ⊎ (f.buffer ≡ 0)
      → 1 ≤ f.usage_count
      → f.usage_count < n
      → IsShaped n f

pub usage_pos : (n : ℕ) (f : Frame) → IsShaped n f → 1 ≤ f.usage_count
usage_pos n f (own_block a b c d e) = d
usage_pos n f (apart_block a b d e) = d

pub usage_below : (n : ℕ) (f : Frame) → IsShaped n f → f.usage_count < n
usage_below n f (own_block a b c d e) = e
usage_below n f (apart_block a b d e) = e

pub IsShaped-suc : (n m : ℕ) (f : Frame) → n ≤ m → IsShaped n f → IsShaped m f
IsShaped-suc n m f l (own_block a b c d e) = own_block a b c d (omega arith)
IsShaped-suc n m f l (apart_block a b d e) = apart_block a b d (omega arith)

pub Each-suc : (n m : ℕ) (l : List Frame) → n ≤ m → Each (IsShaped n) l → Each (IsShaped m) l
Each-suc n m [] k h = tt
Each-suc n m (f ∷ l) k h = (IsShaped-suc n m f k h.0, Each-suc n m l k h.1)

if_true : {A : Type 0} {b : Bool} (x y : A) → b ≡ true → (if b then x else y) ≡ x
if_true x y e = rw e refl

pub if_false : {A : Type 0} {b : Bool} (x y : A) → b ≡ false → (if b then x else y) ≡ y
if_false x y e = rw e refl

pub some-frame : {f g : Frame} → some f ≡ some g → f ≡ g
some-frame h = cc

module _ (P : Frame → Type 0) (id : ℕ) where
  pub Each-find : (l : List Frame) (f : Frame) → Each P l → find id l ≡ some f → P f
  Each-find [] f h e = cc
  Each-find (g ∷ l) f h e = elim (Bool-cases (g.id == id)) [
    | inl d ↦ subst P (some-frame (sym (if_true (some g) (find id l) d) ∙ e)) h.0
    | inr d ↦ Each-find l f h.1 (sym (if_false (some g) (find id l) d) ∙ e)
  ]

  pub Each-remove_frame : (l : List Frame) → Each P l → Each P (remove_frame id l)
  Each-remove_frame [] h = tt
  Each-remove_frame (g ∷ l) h = elim (Bool-cases (g.id == id)) [
    | inl d ↦ rw d h.1
    | inr d ↦ rw d (h.0, Each-remove_frame l h.1)
  ]

pub found_id : (id : ℕ) (l : List Frame) (f : Frame) → find id l ≡ some f → f.id ≡ id
found_id id [] f e = cc
found_id id (g ∷ l) f e = elim (Bool-cases (g.id == id)) [
  | inl d ↦
      ap Frame.id (sym (some-frame (sym (if_true (some g) (find id l) d) ∙ e)))
      ∙ (==_iff g.id id).0 d
  | inr d ↦ found_id id l f (sym (if_false (some g) (find id l) d) ∙ e)
]

-- The frame that is found is the one that is removed.
pub tally-remove_frame :
    (u id : ℕ) (l : List Frame) (f : Frame)
    → find id l ≡ some f
    → tally u l ≡ one u f + tally u (remove_frame id l)
tally-remove_frame u id [] f e = cc
tally-remove_frame u id (g ∷ l) f e = elim (Bool-cases (g.id == id)) [
  | inl d ↦
      rw d (ap (λ x. one u x + tally u l) (some-frame (sym (if_true (some g) (find id l) d) ∙ e)))
  | inr d ↦
      rw d (omega (arith, tally-remove_frame u id l f (sym (if_false (some g) (find id l) d) ∙ e)))
]

pub tally-length : (u : ℕ) (l : List Frame) → tally u l ≤ length l
tally-length u [] = omega arith
tally-length u (f ∷ l) = elim (Bool-cases (f.usage_count == u)) [
  | inl e ↦ rw e (omega (arith, tally-length u l))
  | inr e ↦ rw e (omega (arith, tally-length u l))
]

-- Nothing uses an address that is not in use yet.
pub tally_fresh : (n u : ℕ) (l : List Frame) → Each (IsShaped n) l → n ≤ u → tally u l ≡ 0
tally_fresh n u [] h k = refl
tally_fresh n u (f ∷ l) h k = elim (Bool-cases (f.usage_count == u)) [
  | inl e ↦ absurd (omega (arith, (==_iff f.usage_count u).0 e, usage_below n f h.0))
  | inr e ↦ rw e (omega (arith, tally_fresh n u l h.1 k))
]

pub one_at : (u : ℕ) (f : Frame) → f.usage_count ≡ u → one u f ≡ 1
one_at u f e = rw (e, ==_refl u) refl

pub one_other : (u : ℕ) (f : Frame) → f.usage_count ≢ u → one u f ≡ 0
one_other u f n = elim (Bool-cases (f.usage_count == u)) [
  | inl e ↦ absurd (n ((==_iff f.usage_count u).0 e))
  | inr e ↦ rw e refl
]

-- What is freed with a frame: its block, and nothing else changes but the notices.
pub record IsFreed (u : ℕ) (s t : Memory) : Type 0 where
  pub frames : t.frames ≡ s.frames
  pub count : t.count ≡ s.count
  pub fresh : t.fresh ≡ s.fresh
  pub live : (v : ℕ) → t.live v ≡ write s.live u false v

free-IsFreed : (u : ℕ) (s : Memory) → 1 ≤ u → IsFreed u s (free u s)
free-IsFreed u s p = elim (Bool-cases (u == 0)) [
  | inl e ↦ absurd (omega (arith, (==_iff u 0).0 e))
  | inr e ↦ rw e (record { frames = refl; count = refl; fresh = refl; live = λ v. refl })
]

pub release-IsFreed :
    (n : ℕ) (f : Frame) (s : Memory) → IsShaped n f → IsFreed f.usage_count s (release f s)
unfolding release
release-IsFreed n f s (own_block a b c d e) = rw (a, b, c) (free-IsFreed f.usage_count s d)
release-IsFreed n f s (apart_block a (inl b) d e) =
    let r = free-IsFreed f.usage_count s d in
    rw (a, b) (record { frames = r.frames; count = r.count; fresh = r.fresh; live = r.live })
release-IsFreed n f s (apart_block a (inr b) d e) =
    let r = free-IsFreed f.usage_count s d in
    elim (Bool-cases f.ext_buffer) [
      | inl c ↦
          rw (a, c) (record { frames = r.frames; count = r.count; fresh = r.fresh; live = r.live })
      | inr c ↦ rw (a, c, b) r
    ]
