-- ===== src/Pico/Frames/Histories.antt =====
-- Whatever is done with frames, in any order.
use fd_picotcp.Prelude.{
  ℤ, none, Option, ◌==◌, ◌&&◌, not, ℕ, suc, ◌^◌, ◌<◌, ◌≡◌, refl, subst, sym, inl, inr, arith, Bool,
  true, false, [], some, ltb, Bool-cases, Option-cases, length,
}
use fd_picotcp.Pico.Heap.{replicate}
use fd_picotcp.Pico.Frames.{
  Frame, Memory, find, copy_found, new_frame, deep, grow_found, copy_if, deepcopy_if, grow_if,
  pico_frame_discard, pico_frame_copy, pico_frame_do_alloc, pico_frame_alloc,
  pico_frame_alloc_skeleton, pico_frame_deepcopy, pico_frame_grow, no_memory,
}
use fd_picotcp.Pico.Frames.Tally.{IsShaped, own_block, apart_block, Each-find, found_id}
use fd_picotcp.Pico.Frames.Counting.{IsCounted, with_block-IsCounted, copy_found-IsCounted}
use fd_picotcp.Pico.Frames.Releasing.{discard_found-IsCounted, grow_found-IsCounted}

abbrev pub HasRoom : Memory → Type 0
HasRoom s = suc (length s.frames) < 2 ^ 32

-- A deep copy keeps the flags, so that it is for frames with a block of their own.
abbrev pub IsOwner : ℕ → Memory → Type 0
IsOwner id s = (f : Frame) → find id s.frames ≡ some f → f.ext_usage_counter ≡ false

-- Growing frees the old buffer, whoever else uses it.
abbrev pub IsAlone : ℕ → Memory → Type 0
IsAlone id s = (f : Frame) → find id s.frames ≡ some f → s.count f.usage_count ≡ 1

-- The states that calls lead to.
pub data Leads : Memory → Type 0 where
  at_first : Leads no_memory
  allocated :
      {s : Memory}
      → Leads s
      → (memory : Bool × Bool) (size : ℕ) → HasRoom s
      → Leads (pico_frame_alloc memory size s).1
  skeleton_allocated :
      {s : Memory}
      → Leads s
      → (memory : Bool × Bool) (size : ℕ) (ext_buffer : Bool) → HasRoom s
      → Leads (pico_frame_alloc_skeleton memory size ext_buffer s).1
  copied_one :
      {s : Memory}
      → Leads s
      → (memory : Bool) (id : ℕ) → HasRoom s
      → Leads (pico_frame_copy memory id s).1
  deepcopied :
      {s : Memory}
      → Leads s
      → (memory : Bool × Bool) (id : ℕ) → HasRoom s
      → IsOwner id s
      → Leads (pico_frame_deepcopy memory id s).1
  discarded : {s : Memory} → Leads s → (id : ℕ) → Leads (pico_frame_discard id s)
  grown_one :
      {s : Memory}
      → Leads s
      → (memory : Bool) (id size : ℕ) → IsAlone id s
      → (r : ℤ × Memory) → pico_frame_grow memory id size s ≡ some r
      → Leads r.1

new_frame-IsShaped :
    (size n : ℕ) (zerocopy ext_buffer : Bool)
    → (ext_buffer ≡ true → zerocopy ≡ true)
    → IsShaped (suc (suc n)) (new_frame size zerocopy ext_buffer n)
new_frame-IsShaped size n true ext_buffer h =
    apart_block refl (inr refl) (omega arith) (omega arith)
new_frame-IsShaped size n false true h = cc (h refl)
new_frame-IsShaped size n false false h = own_block refl refl refl (omega arith) (omega arith)

alloc-IsCounted :
    (memory : Bool × Bool) (size : ℕ) (s : Memory)
    → IsCounted s
    → HasRoom s
    → IsCounted (pico_frame_alloc memory size s).1
unfolding pico_frame_alloc pico_frame_do_alloc
alloc-IsCounted (false, n) size s i r = i
alloc-IsCounted (true, false) size s i r = i
alloc-IsCounted (true, true) size s i r =
    with_block-IsCounted _ (replicate size 0) s i
      (new_frame-IsShaped size s.fresh false false (λ e. cc (e))) refl r

skeleton-IsCounted :
    (memory : Bool × Bool) (size : ℕ) (ext_buffer : Bool) (s : Memory)
    → IsCounted s
    → HasRoom s
    → IsCounted (pico_frame_alloc_skeleton memory size ext_buffer s).1
unfolding pico_frame_alloc_skeleton pico_frame_do_alloc
skeleton-IsCounted (false, n) size ext_buffer s i r = i
skeleton-IsCounted (true, false) size false s i r = i
skeleton-IsCounted (true, false) size true s i r = i
skeleton-IsCounted (true, true) size false s i r =
    with_block-IsCounted _ [] s i (new_frame-IsShaped size s.fresh true false (λ e. refl)) refl r
skeleton-IsCounted (true, true) size true s i r =
    with_block-IsCounted _ [] s i (new_frame-IsShaped size s.fresh true true (λ e. refl)) refl r

copied :
    (memory : Bool) (f : Frame) (s : Memory)
    → IsCounted s
    → IsCounted (copy_found f s)
    → IsCounted (copy_if memory f s).1
copied true f s i c = c
copied false f s i c = i

copy-IsCounted :
    (memory : Bool) (id : ℕ) (s : Memory)
    → IsCounted s
    → HasRoom s
    → IsCounted (pico_frame_copy memory id s).1
unfolding pico_frame_copy
copy-IsCounted memory id s i r = elim (Option-cases (find id s.frames)) [
  | inl e ↦ rw (e, pico_frame_copy) i
  | inr (f, e) ↦ rw (e, pico_frame_copy) (copied memory f s i (copy_found-IsCounted id f s i e r))
]

deep-IsShaped :
    (n : ℕ) (f : Frame)
    → IsShaped n f
    → f.ext_usage_counter ≡ false
    → IsShaped (suc (suc n)) (deep f n)
deep-IsShaped n f (own_block a b c d e) h = own_block a b refl (omega arith) (omega arith)
deep-IsShaped n f (apart_block a b d e) h = cc (a, h)

deepcopy_found :
    (memory : Bool × Bool) (id : ℕ) (f : Frame) (s : Memory)
    → IsCounted s
    → HasRoom s
    → find id s.frames ≡ some f
    → f.ext_usage_counter ≡ false
    → IsCounted (deepcopy_if memory f s).1
deepcopy_found (false, n) id f s i r e o = i
deepcopy_found (true, false) id f s i r e o = i
deepcopy_found (true, true) id f s i r e o =
    with_block-IsCounted (deep f s.fresh) (replicate f.buffer_len 0) s i
      (deep-IsShaped s.fresh f (Each-find (IsShaped s.fresh) id s.frames f i.shapes e) o) refl r

deepcopy-IsCounted :
    (memory : Bool × Bool) (id : ℕ) (s : Memory)
    → IsCounted s
    → HasRoom s
    → IsOwner id s
    → IsCounted (pico_frame_deepcopy memory id s).1
unfolding pico_frame_deepcopy
deepcopy-IsCounted memory id s i r o = elim (Option-cases (find id s.frames)) [
  | inl e ↦ rw (e, pico_frame_deepcopy) i
  | inr (f, e) ↦ rw (e, pico_frame_deepcopy) (deepcopy_found memory id f s i r e (o f e))
]

by_own_id :
    (id : ℕ) (f : Frame) (s : Memory) → find id s.frames ≡ some f → find f.id s.frames ≡ some f
by_own_id id f s e = subst (λ x. find x s.frames ≡ some f) (sym (found_id id s.frames f e)) e

discard-IsCounted : (id : ℕ) (s : Memory) → IsCounted s → IsCounted (pico_frame_discard id s)
unfolding pico_frame_discard
discard-IsCounted id s i = elim (Option-cases (find id s.frames)) [
  | inl e ↦ rw (e, pico_frame_discard) i
  | inr (f, e) ↦ rw (e, pico_frame_discard) (discard_found-IsCounted f s i (by_own_id id f s e))
]

abbrev Counted? : Option (ℤ × Memory) → Type 0
Counted? none = Unit {0}
Counted? (some r) = IsCounted r.1

grown :
    (memory : Bool) (f : Frame) (size : ℕ) (s : Memory)
    → IsCounted s
    → IsCounted (grow_found f size s)
    → Counted? (grow_if memory f size s)
grown true f size s i c = elim (Bool-cases (ltb size f.buffer_len)) [
  | inl e ↦ rw e i
  | inr e ↦ elim (Bool-cases ((f.buffer == 0) && not (f.buffer_len == 0))) [
    | inl d ↦ rw (e, d) tt
    | inr d ↦ rw (e, d) c
  ]
]
grown false f size s i c = i

grow-IsCounted :
    (memory : Bool) (id size : ℕ) (s : Memory)
    → IsCounted s
    → IsAlone id s
    → Counted? (pico_frame_grow memory id size s)
unfolding pico_frame_grow
grow-IsCounted memory id size s i a = elim (Option-cases (find id s.frames)) [
  | inl e ↦ rw (e, pico_frame_grow) i
  | inr (f, e) ↦
      rw (e, pico_frame_grow)
        (grown memory f size s i (grow_found-IsCounted f size s i (by_own_id id f s e) (a f e)))
]

-- Whatever calls are made on frames, in any order, where only frames that are alone on their block
-- grow and only frames with a block of their own are copied deep: each counter is the number of
-- frames that use its block, and a block is allocated exactly while a frame uses it. None is used
-- after it is freed, and none is lost.
pub Leads-IsCounted : (s : Memory) → Leads s → IsCounted s
Leads-IsCounted s at_first = record {
  shapes = tt;
  used = λ u. refl;
  counted = λ u h. absurd (omega arith);
  few = omega arith;
}
Leads-IsCounted s (allocated {s = t} l memory size r) =
    alloc-IsCounted memory size t (Leads-IsCounted t l) r
Leads-IsCounted s (skeleton_allocated {s = t} l memory size ext_buffer r) =
    skeleton-IsCounted memory size ext_buffer t (Leads-IsCounted t l) r
Leads-IsCounted s (copied_one {s = t} l memory id r) =
    copy-IsCounted memory id t (Leads-IsCounted t l) r
Leads-IsCounted s (deepcopied {s = t} l memory id r o) =
    deepcopy-IsCounted memory id t (Leads-IsCounted t l) r o
Leads-IsCounted s (discarded {s = t} l id) = discard-IsCounted id t (Leads-IsCounted t l)
Leads-IsCounted s (grown_one {s = t} l memory id size a r e) =
    subst Counted? e (grow-IsCounted memory id size t (Leads-IsCounted t l) a)
