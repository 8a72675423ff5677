-- ===== src/Pico/Frames/Counting.antt =====
-- The counters count the frames, and a block is allocated exactly while a frame uses it.
use fd_picotcp.Prelude.{
  ℕ, suc, ◌+◌, ◌^◌, ◌<◌, ◌≤◌, ◌≡◌, ◌≢◌, refl, subst, ap, sym, ◌∙◌, inl, inr, arith, true, List,
  some, ltb, ◌==◌, ==_iff, ==_refl, Bool-cases, length,
}
use fd_picotcp.Pico.Words.{u32}
use fd_picotcp.Pico.Heap.Slots.{decide}
use fd_picotcp.Pico.Frames.{Frame, Memory, find, write, copy_found, with_block}
use fd_picotcp.Pico.Frames.Tally.{
  one, tally, Each, IsShaped, own_block, apart_block, Each-suc, IsShaped-suc, Each-find,
  tally-remove_frame, tally-length, tally_fresh, one_at, one_other,
}

pub record IsCounted (s : Memory) : Type 0 where
  pub shapes : Each (IsShaped s.fresh) s.frames
  pub used : (u : ℕ) → s.live u ≡ ltb 0 (tally u s.frames)
  pub counted : (u : ℕ) → 1 ≤ tally u s.frames → s.count u ≡ tally u s.frames
  pub few : length s.frames < 2 ^ 32

pub ltb_pos : (n : ℕ) → 1 ≤ n → ltb 0 n ≡ true
ltb_pos n p = ground arith

pub write_at {ℓ} : {A : Type ℓ} (f : ℕ → A) (a : ℕ) (v : A) → write f a v a ≡ v
write_at f a v = rw (==_refl a) refl

pub write_other {ℓ} : {A : Type ℓ} (f : ℕ → A) (a b : ℕ) (v : A) → b ≢ a → write f a v b ≡ f b
write_other f a b v n = elim (Bool-cases (b == a)) [
  | inl e ↦ absurd (n ((==_iff b a).0 e))
  | inr e ↦ rw e refl
]

-- A statement about every address, by one address and the others.
pub at_or_other : (u : ℕ) (P : ℕ → Type 0) → P u → ((v : ℕ) → v ≢ u → P v) → (v : ℕ) → P v
at_or_other u P h k v = elim (decide v u) [ inl q ↦ subst P (sym q) h | inr q ↦ k v q ]

-- A frame with a block of its own is there, and the block is its alone.
pub with_block-IsCounted :
    (f : Frame) (zeros : List ℕ) (s : Memory)
    → IsCounted s
    → IsShaped (suc (suc s.fresh)) f
    → f.usage_count ≡ suc s.fresh
    → suc (length s.frames) < 2 ^ 32
    → IsCounted (with_block f zeros s)
with_block-IsCounted f zeros s i p e few =
    let b = suc s.fresh in
    let unused = tally_fresh s.fresh b s.frames i.shapes (omega arith) in
    let here = one_at b f e in
    let other = λ (u : ℕ) (q : u ≢ b). one_other u f (λ z. q (sym z ∙ e)) in
    record {
      shapes = (p, Each-suc s.fresh (suc b) s.frames (omega arith) i.shapes);
      used =
          at_or_other b _
            (rw (write_at s.live b true)
              (sym (ltb_pos (one b f + tally b s.frames) (omega (arith, here)))))
            (λ u q.
              rw (write_other s.live b u true q)
                (i.used u ∙ ap (ltb 0) (omega (arith, other u q))));
      counted =
          at_or_other b _ (λ h. rw (write_at s.count b 1) (omega (arith, here, unused)))
            (λ u q h.
              rw (write_other s.count b u 1 q)
                (omega (arith, other u q, i.counted u (omega (arith, h, other u q)))));
      few = few;
    }

-- The shape does not depend on where the structure lies.
copied : (n id : ℕ) (f : Frame) → IsShaped n f → IsShaped n (record f { id = id })
copied n id f (own_block a b c d e) = own_block a b c d e
copied n id f (apart_block a b d e) = apart_block a b d e

pub copy_found-IsCounted :
    (id : ℕ) (f : Frame) (s : Memory)
    → IsCounted s
    → find id s.frames ≡ some f
    → suc (length s.frames) < 2 ^ 32
    → IsCounted (copy_found f s)
copy_found-IsCounted id f s i e few =
    let u = f.usage_count in
    let t = tally-remove_frame u id s.frames f e in
    let here = one_at u f refl in
    let n = i.counted u (omega (arith, t, here)) in
    let small = tally-length u s.frames in
    let other = λ (v : ℕ) (q : v ≢ u). one_other v f (λ z. q (sym z)) in
    let shape = Each-find (IsShaped s.fresh) id s.frames f i.shapes e in
    record {
      shapes = (
        copied (suc s.fresh) s.fresh f (IsShaped-suc s.fresh (suc s.fresh) f (omega arith) shape),
        Each-suc s.fresh (suc s.fresh) s.frames (omega arith) i.shapes,
      );
      used =
          at_or_other u _
            (i.used u
              ∙ ltb_pos (tally u s.frames) (omega (arith, t, here))
              ∙ sym (ltb_pos (one u f + tally u s.frames) (omega (arith, here))))
            (λ v q. i.used v ∙ ap (ltb 0) (omega (arith, other v q)));
      counted =
          at_or_other u _
            (λ h. rw (write_at s.count u (u32 (suc (s.count u)))) (omega (arith, n, here, small)))
            (λ v q h.
              rw (write_other s.count u v (u32 (suc (s.count u))) q)
                (omega (arith, other v q, i.counted v (omega (arith, h, other v q)))));
      few = few;
    }
