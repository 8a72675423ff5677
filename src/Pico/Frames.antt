-- ===== src/Pico/Frames.antt =====
-- stack/pico_frame.c: frames, which share buffers and count how many of them do. A block of memory is
-- its address, and 0 is the null pointer. Where the usage counter lies behind the buffer, in the same
-- block, its address is that of the block.
pub mod Tally
pub mod Counting
pub mod Releasing
pub mod Histories
use fd_picotcp.Prelude.{
  ℕ, zero, suc, ◌+◌, ◌-◌, ◌^◌, ℤ, pos, negsuc, Bool, true, false, not, ◌&&◌, List, [], ◌∷◌, ◌++◌,
  Option, none, some, ltb, ◌==◌, if◌then◌else◌,
}
use fd_picotcp.Pico.Words.{u32}
use fd_picotcp.Pico.Heap.{replicate}

-- `struct pico_frame`: what allocation and sharing look at. The last two fields are the flags
-- EXT_BUFFER and EXT_USAGE_COUNTER.
pub record Frame : Type 0 where
  pub id : ℕ
  pub buffer : ℕ
  pub buffer_len : ℕ
  pub usage_count : ℕ
  pub ext_buffer : Bool
  pub ext_usage_counter : Bool

-- The frames there are, and the blocks: which are allocated, their counters and their bytes; the
-- addresses from `fresh` on are unused. `notified` are the buffers that were given back to their
-- owners.
pub record Memory : Type 0 where
  pub frames : List Frame
  pub live : ℕ → Bool
  pub count : ℕ → ℕ
  pub bytes : ℕ → List ℕ
  pub notified : List ℕ
  pub fresh : ℕ

abbrev pub write {ℓ} : {A : Type ℓ} → (ℕ → A) → ℕ → A → ℕ → A
write f a v b = if b == a then v else f b

abbrev pub find : ℕ → List Frame → Option Frame
find id [] = none
find id (f ∷ l) = let rest = find id l in if f.id == id then some f else rest

abbrev pub remove_frame : ℕ → List Frame → List Frame
remove_frame id [] = []
remove_frame id (f ∷ l) = let rest = remove_frame id l in if f.id == id then l else f ∷ rest

abbrev pub free : ℕ → Memory → Memory
free a s = if a == 0 then s else record s { live = write s.live a false }

-- The counter is gone with the last frame, and so is the buffer.
unfoldable pub release : Frame → Memory → Memory
release f s =
    let s2 = if f.ext_usage_counter then free f.usage_count s else s in
    if f.ext_buffer then record s2 { notified = f.buffer ∷ s2.notified } else free f.buffer s2

abbrev pub discard_found : Frame → Memory → Memory
discard_found f s =
    let n = u32 (2 ^ 32 + s.count f.usage_count - 1) in
    let s2 : Memory = record s {
      frames = remove_frame f.id s.frames;
      count = write s.count f.usage_count n;
    } in
    if n == 0 then release f s2 else s2

-- Nothing for a frame that there is not, as for the null pointer.
unfoldable pub pico_frame_discard : ℕ → Memory → Memory
pico_frame_discard id s = elim (find id s.frames) [ none ↦ s | some f ↦ discard_found f s ]

abbrev pub copy_found : Frame → Memory → Memory
copy_found f s = record s {
  frames = record f { id = s.fresh } ∷ s.frames;
  count = write s.count f.usage_count (u32 (suc (s.count f.usage_count)));
  fresh = suc s.fresh;
}

-- `memory` is whether the allocator has a block. The result is the new frame.
abbrev pub copy_if : Bool → Frame → Memory → Option ℕ × Memory
copy_if true f s = (some s.fresh, copy_found f s)
copy_if false f s = (none, s)

unfoldable pub pico_frame_copy : Bool → ℕ → Memory → Option ℕ × Memory
pico_frame_copy memory id s = elim (find id s.frames) [
  | none ↦ (none, s)
  | some f ↦ copy_if memory f s
]

-- The new frame has its structure at `fresh`, and its block, whose counter is 1, behind that.
abbrev pub with_block : Frame → List ℕ → Memory → Memory
with_block f zeros s = record s {
  frames = f ∷ s.frames;
  live = write s.live (suc s.fresh) true;
  count = write s.count (suc s.fresh) 1;
  bytes = write s.bytes (suc s.fresh) zeros;
  fresh = suc (suc s.fresh);
}

abbrev pub new_frame : ℕ → Bool → Bool → ℕ → Frame
new_frame size zerocopy ext_buffer fresh = record {
  id = fresh;
  buffer = if zerocopy then 0 else suc fresh;
  buffer_len = size;
  usage_count = suc fresh;
  ext_buffer = ext_buffer;
  ext_usage_counter = zerocopy;
}

-- `memory` is whether the allocator has a frame, and a block for it.
unfoldable pub pico_frame_do_alloc : Bool × Bool → ℕ → Bool → Bool → Memory → Option ℕ × Memory
pico_frame_do_alloc memory size zerocopy ext_buffer s =
    if not memory.0
    then (none, s)
    else (if ext_buffer && not zerocopy
        then (none, s)
        else (if memory.1
            then (
              some s.fresh,
              with_block (new_frame size zerocopy ext_buffer s.fresh)
                  (if zerocopy then [] else replicate size 0) s,
            )
            else (none, s)))

unfoldable pub pico_frame_alloc : Bool × Bool → ℕ → Memory → Option ℕ × Memory
pico_frame_alloc memory size s = pico_frame_do_alloc memory size false false s

unfoldable pub pico_frame_alloc_skeleton : Bool × Bool → ℕ → Bool → Memory → Option ℕ × Memory
pico_frame_alloc_skeleton memory size ext_buffer s =
    pico_frame_do_alloc memory size true ext_buffer s

-- The new frame gets every field of the old but the buffer and the counter; the bytes of the new
-- buffer are left zero.
abbrev pub deep : Frame → ℕ → Frame
deep f fresh = record f { id = fresh; buffer = suc fresh; usage_count = suc fresh }

abbrev pub deepcopy_if : Bool × Bool → Frame → Memory → Option ℕ × Memory
deepcopy_if (true, true) f s =
    (some s.fresh, with_block (deep f s.fresh) (replicate f.buffer_len 0) s)
deepcopy_if (true, false) f s = (none, s)
deepcopy_if (false, n) f s = (none, s)

unfoldable pub pico_frame_deepcopy : Bool × Bool → ℕ → Memory → Option ℕ × Memory
pico_frame_deepcopy memory id s = elim (find id s.frames) [
  | none ↦ (none, s)
  | some f ↦ deepcopy_if memory f s
]

-- The frame with a block of its own at `fresh`, whose counter has the value of the old one.
abbrev pub grown_frame : Frame → ℕ → ℕ → Frame
grown_frame f size fresh = record f {
  buffer = fresh;
  buffer_len = size;
  usage_count = fresh;
  ext_buffer = false;
  ext_usage_counter = false;
}

abbrev pub grow_found : Frame → ℕ → Memory → Memory
grow_found f size s = release f (record s {
  frames = grown_frame f size s.fresh ∷ remove_frame f.id s.frames;
  live = write s.live s.fresh true;
  count = write s.count s.fresh (s.count f.usage_count);
  bytes = write s.bytes s.fresh (s.bytes f.buffer ++ replicate (size - f.buffer_len) 0);
  fresh = suc s.fresh;
})

-- `none` is a copy from a null pointer: a frame that has no buffer yet, but a length.
abbrev pub grow_if : Bool → Frame → ℕ → Memory → Option (ℤ × Memory)
grow_if true f size s =
    if ltb size f.buffer_len
    then some (negsuc 0, s)
    else (if (f.buffer == 0) && not (f.buffer_len == 0)
        then none
        else some (pos 0, grow_found f size s))
grow_if false f size s = some (negsuc 0, s)

unfoldable pub pico_frame_grow : Bool → ℕ → ℕ → Memory → Option (ℤ × Memory)
pico_frame_grow memory id size s = elim (find id s.frames) [
  | none ↦ some (negsuc 0, s)
  | some f ↦ grow_if memory f size s
]

-- Before the first allocation.
abbrev pub no_memory : Memory
no_memory = record {
  frames = [];
  live = λ a. false;
  count = λ a. 0;
  bytes = λ a. [];
  notified = [];
  fresh = 1;
}
