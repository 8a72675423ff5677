-- ===== src/Pico/Heap.antt =====
-- include/heap.h: the binary heap that DECLARE_HEAP declares for a type and the field that orders
-- it. Slots are counted from 1, and an insertion into a full array allocates one slot more.
pub mod Slots
pub mod Open
pub mod Up
pub mod Down
pub mod Inserting
pub mod First
pub mod Removing
use fd_picotcp.Prelude.{
  ℕ, zero, suc, ◌+◌, ◌-◌, ◌*◌, ◌/◌, ℤ, pos, negsuc, Bool, List, [], ◌∷◌, ◌++◌, Option, none, some,
  not, ◌&&◌, ltb, leb, ◌==◌, if◌then◌else◌, length, get_or, take, set,
}

pub record Heap (A : Type 0) : Type 0 where
  pub size : ℕ
  pub n : ℕ
  pub top : List A

abbrev pub heap_init : {A : Type 0} → Heap A
heap_init = record { size = 0; n = 0; top = [] }

abbrev pub replicate {ℓ} : {A : Type ℓ} → ℕ → A → List A
replicate zero x = []
replicate (suc k) x = x ∷ replicate k x

-- `zeroed` is an element as the allocator returns it.
module _ {A : Type 0} (zeroed : A) where
  abbrev pub slot : List A → ℕ → A
  slot t i = get_or t i zeroed

  -- The new array: `n + 1` zeroed slots, of which the first `n` get the old contents.
  unfoldable pub grow : List A → ℕ → List A
  grow top n = take n top ++ replicate (suc n - length (take n top)) zeroed

  unfoldable pub heap_first : Heap A → Option A
  heap_first h = if h.n == 0 then none else some (slot h.top 1)

module _ {A : Type 0} (orderby : A → ℕ) (zeroed : A) where
  -- The loop of heap_insert: parents that are greater move down. The last position gets `el`.
  unfoldable pub sift_up : ℕ → A → ℕ → List A → List A
  sift_up zero el i t = set t i el
  sift_up (suc fuel) el i t =
      let rest = sift_up fuel el (i / 2) (set t i (slot zeroed t (i / 2))) in
      if ltb 1 i && ltb (orderby el) (orderby (slot zeroed t (i / 2))) then rest else set t i el

  unfoldable pub place : A → Heap A → Heap A
  place el h =
      if h.n == 1
      then record h { top = set h.top 1 el }
      else record h { top = sift_up h.n el h.n h.top }

  -- `memory` is whether the allocator has an array.
  unfoldable pub heap_insert : Bool → A → Heap A → ℤ × Heap A
  heap_insert memory el h =
      if leb h.size (suc h.n)
      then (if memory
          then (
            pos 0,
            place el (record { size = suc h.size; n = suc h.n; top = grow zeroed h.top (suc h.n) }),
          )
          else (negsuc 0, h))
      else (pos 0, place el (record h { n = suc h.n }))

  -- The smaller child of `i`.
  unfoldable pub smaller : ℕ → List A → ℕ → ℕ
  smaller n t i =
      if not (2 * i == n)
        && ltb (orderby (slot zeroed t (2 * i + 1))) (orderby (slot zeroed t (2 * i)))
      then 2 * i + 1
      else 2 * i

  -- The loop of heap_peek: smaller children move up. The last position gets `last`.
  unfoldable pub sift_down : ℕ → A → ℕ → ℕ → List A → List A
  sift_down zero last n i t = set t i last
  sift_down (suc fuel) last n i t =
      let c = smaller n t i in
      let rest = sift_down fuel last n c (set t i (slot zeroed t c)) in
      if leb (i * 2) n && ltb (orderby (slot zeroed t c)) (orderby last) then rest else set t i last

  unfoldable pub remove : ℕ → Heap A → Option A × Heap A
  remove zero h = (none, h)
  remove (suc m) h = (
    some (slot zeroed h.top 1),
    record h { n = m; top = sift_down (suc m) (slot zeroed h.top (suc m)) m 1 h.top },
  )

  -- Removes the first element; `none` is the result -1.
  unfoldable pub heap_peek : Heap A → Option A × Heap A
  heap_peek h = remove h.n h
