-- ===== src/Pico/Frames/Releasing.antt =====
-- Frames that go, and frames that get a larger block.
use fd_picotcp.Prelude.{
  ℕ, suc, ◌+◌, ◌-◌, ◌^◌, ◌<◌, ◌≤◌, ◌≡◌, ◌≢◌, refl, ap, sym, ◌∙◌, inl, inr, arith, true, false, List,
  [], ◌∷◌, ◌++◌, some, ltb, ◌==◌, ==_iff, Bool-cases, length,
}
use fd_picotcp.Pico.Words.{u32}
use fd_picotcp.Pico.Heap.{replicate}
use fd_picotcp.Pico.Frames.{
  Frame, Memory, find, remove_frame, write, release, discard_found, grown_frame, grow_found,
}
use fd_picotcp.Pico.Frames.Tally.{
  one, tally, Each, IsShaped, own_block, usage_pos, usage_below, Each-suc, Each-find,
  Each-remove_frame, tally-remove_frame, tally-length, tally_fresh, one_at, one_other, IsFreed,
  release-IsFreed, if_false,
}
use fd_picotcp.Pico.Frames.Counting.{IsCounted, ltb_pos, write_at, write_other, at_or_other}

length-remove_frame : (id : ℕ) (l : List Frame) → length (remove_frame id l) ≤ length l
length-remove_frame id [] = omega arith
length-remove_frame id (g ∷ l) = elim (Bool-cases (g.id == id)) [
  | inl d ↦ rw d (omega arith)
  | inr d ↦ rw d (omega (arith, length-remove_frame id l))
]

not_zero : (n : ℕ) → (n == 0) ≡ false → 1 ≤ n
not_zero n e = ground arith

ltb_none : (n : ℕ) → n ≡ 0 → false ≡ ltb 0 n
ltb_none n e = rw e refl

length_found :
    (id : ℕ) (l : List Frame) (f : Frame)
    → find id l ≡ some f
    → suc (length (remove_frame id l)) ≡ length l
length_found id [] f e = cc
length_found id (g ∷ l) f e = elim (Bool-cases (g.id == id)) [
  | inl d ↦ rw d refl
  | inr d ↦ rw d (ap suc (length_found id l f (sym (if_false (some g) (find id l) d) ∙ e)))
]

freed-IsCounted :
    (u : ℕ) (s t : Memory)
    → IsFreed u s t
    → Each (IsShaped s.fresh) s.frames
    → ((v : ℕ) → write s.live u false v ≡ ltb 0 (tally v s.frames))
    → ((v : ℕ) → 1 ≤ tally v s.frames → s.count v ≡ tally v s.frames)
    → length s.frames < 2 ^ 32
    → IsCounted t
freed-IsCounted u s t r p q c n = record {
  shapes = rw (r.frames, r.fresh) p;
  used = λ v. r.live v ∙ rw r.frames (q v);
  counted = rw (r.frames, r.count) c;
  few = rw r.frames n;
}

-- The state after the frame has been taken out, with the counter at `n`.
abbrev taken : Frame → ℕ → Memory → Memory
taken f n s = record s {
  frames = remove_frame f.id s.frames;
  count = write s.count f.usage_count n;
}

pub discard_found-IsCounted :
    (f : Frame) (s : Memory)
    → IsCounted s
    → find f.id s.frames ≡ some f
    → IsCounted (discard_found f s)
discard_found-IsCounted f s i e =
    let u = f.usage_count in
    let rest = remove_frame f.id s.frames in
    let split = λ (v : ℕ). tally-remove_frame v f.id s.frames f e in
    let here = one_at u f refl in
    let other = λ (v : ℕ) (q : v ≢ u). one_other v f (λ z. q (sym z)) in
    let shape = Each-find (IsShaped s.fresh) f.id s.frames f i.shapes e in
    let shapes = Each-remove_frame (IsShaped s.fresh) f.id s.frames i.shapes in
    let few : length rest < 2 ^ 32 = omega (arith, length-remove_frame f.id s.frames, i.few) in
    let n = u32 (2 ^ 32 + s.count u - 1) in
    let left : n ≡ tally u rest = omega (
      arith,
      i.counted u (omega (arith, split u, here)),
      split u,
      here,
      tally-length u s.frames,
      i.few,
    ) in
    let counts : (v : ℕ) → 1 ≤ tally v rest → write s.count u n v ≡ tally v rest =
      at_or_other u _ (λ h. write_at s.count u n ∙ left)
        (λ v q h.
          write_other s.count u v n q
          ∙ omega (arith, split v, other v q, i.counted v (omega (arith, split v, h)))) in
    elim (Bool-cases (n == 0)) [
      | inl z ↦ rw z (
          freed-IsCounted u (taken f n s) (release f (taken f n s))
            (release-IsFreed s.fresh f (taken f n s) shape) shapes
            (at_or_other u _
              (write_at s.live u false
                ∙ ltb_none (tally u rest) (omega (arith, left, (==_iff n 0).0 z)))
              (λ v q.
                write_other s.live u v false q
                ∙ i.used v
                ∙ ap (ltb 0) (omega (arith, split v, other v q))))
            counts few)
      | inr z ↦ rw z (record {
        shapes = shapes;
        used =
            at_or_other u _
              (i.used u
                ∙ ltb_pos (tally u s.frames) (omega (arith, split u, here))
                ∙ sym (ltb_pos (tally u rest) (omega (arith, left, not_zero n z))))
              (λ v q. i.used v ∙ ap (ltb 0) (omega (arith, split v, other v q)));
        counted = counts;
        few = few;
      })
    ]

-- The state before the old block goes.
abbrev with_grown : Frame → ℕ → Memory → Memory
with_grown f size s = record s {
  frames = grown_frame f size s.fresh ∷ remove_frame f.id s.frames;
  live = write s.live s.fresh true;
  count = write s.count s.fresh (s.count f.usage_count);
  bytes = write s.bytes s.fresh (s.bytes f.buffer ++ replicate (size - f.buffer_len) 0);
  fresh = suc s.fresh;
}

-- A frame that is alone on its block gets a larger one.
pub grow_found-IsCounted :
    (f : Frame) (size : ℕ) (s : Memory)
    → IsCounted s
    → find f.id s.frames ≡ some f
    → s.count f.usage_count ≡ 1
    → IsCounted (grow_found f size s)
grow_found-IsCounted f size s i e alone =
    let u = f.usage_count in
    let b = s.fresh in
    let rest = remove_frame f.id s.frames in
    let g = grown_frame f size b in
    let split = λ (v : ℕ). tally-remove_frame v f.id s.frames f e in
    let here = one_at u f refl in
    let other = λ (v : ℕ) (q : v ≢ u). one_other v f (λ z. q (sym z)) in
    let shape = Each-find (IsShaped b) f.id s.frames f i.shapes e in
    let below = usage_below b f shape in
    let p : 1 ≤ b = omega (arith, usage_pos b f shape, below) in
    let new = one_at b g refl in
    let not_new = λ (v : ℕ) (q : v ≢ b). one_other v g (λ z. q (sym z)) in
    let apart : u ≢ b = λ z. omega (arith, below, z) in
    let last : tally u rest ≡ 0 =
      omega (arith, split u, here, alone, i.counted u (omega (arith, split u, here))) in
    let none_yet : tally b rest ≡ 0 =
      omega (arith, split b, tally_fresh b b s.frames i.shapes (omega arith)) in
    freed-IsCounted u (with_grown f size s) (grow_found f size s)
      (release-IsFreed b f (with_grown f size s) shape)
      (
        own_block refl refl refl p (omega arith),
        Each-suc b (suc b) rest (omega arith)
            (Each-remove_frame (IsShaped b) f.id s.frames i.shapes),
      )
      (at_or_other u _
        (write_at (write s.live b true) u false
          ∙ ltb_none (one u g + tally u rest) (omega (arith, not_new u apart, last)))
        (λ v q.
          write_other (write s.live b true) u v false q
          ∙ at_or_other b (λ x. x ≢ u → write s.live b true x ≡ ltb 0 (one x g + tally x rest))
              (λ r.
                write_at s.live b true
                ∙ sym (ltb_pos (one b g + tally b rest) (omega (arith, new))))
              (λ x r k.
                write_other s.live b x true r
                ∙ i.used x
                ∙ ap (ltb 0) (omega (arith, split x, other x k, not_new x r)))
              v q))
      (at_or_other b _ (λ h. write_at s.count b (s.count u) ∙ omega (arith, alone, new, none_yet))
        (λ v r h.
          write_other s.count b v (s.count u) r
          ∙ at_or_other u
              (λ x. x ≢ b → 1 ≤ one x g + tally x rest → s.count x ≡ one x g + tally x rest)
              (λ k m. absurd (omega (arith, m, not_new u apart, last)))
              (λ x k l m. omega (
                arith,
                not_new x l,
                split x,
                other x k,
                i.counted x (omega (arith, m, not_new x l, split x)),
              ))
              v r h))
      (omega (arith, length_found f.id s.frames f e, i.few))
