-- ===== src/Pico/Queue.antt =====
-- include/pico_queue.h: queues of frames, which are chained through the frames themselves. The memory
-- of the frames is what the field `next` of each holds.
pub mod Chains
pub mod Fifo
use fd_picotcp.Prelude.{
  ℕ, zero, suc, ◌+◌, ◌-◌, ◌%◌, ◌^◌, ℤ, pos, negsuc, Bool, Option, none, some, ltb, leb, not, ◌&&◌,
  ◌==◌, if◌then◌else◌,
}
use fd_picotcp.Pico.Words.{u32}
use fd_picotcp.Pico.Sequence.{i32}

pub record PicoQueue : Type 0 where
  pub frames : ℕ
  pub size : ℕ
  pub max_frames : ℕ
  pub max_size : ℕ
  pub head : Option ℕ
  pub tail : Option ℕ
  pub overhead : ℕ

-- The field `next` of every frame.
abbrev pub Next : Type 0
Next = ℕ → Option ℕ

abbrev pub set_next : Next → ℕ → Option ℕ → Next
set_next next p v q = if q == p then v else next q

-- A limit of 0 is none.
abbrev pub over : ℕ → Bool → Bool
over max test = not (max == 0) && test

-- The queue and the memory after the frame has been put behind the tail; `none` is a read through a
-- null tail.
unfoldable pub link : ℕ → PicoQueue → Next → Option (PicoQueue × Next)
link p q next = elim q.head [
  | none ↦ some (record q { head = some p; tail = some p; size = 0; frames = 0 }, next)
  | some h ↦ elim q.tail [
    | none ↦ none
    | some t ↦ some (record q { tail = some p }, set_next next t (some p))
  ]
]

abbrev pub count_in : ℕ → PicoQueue → PicoQueue
count_in len q = record q {
  size = u32 (q.size + u32 (len + q.overhead));
  frames = u32 (suc q.frames);
}

abbrev pub enqueued : ℕ → Option (PicoQueue × Next) → Option (ℤ × (PicoQueue × Next))
enqueued len none = none
enqueued len (some r) = some (i32 (count_in len r.0).size, (count_in len r.0, r.1))

-- The frames have the lengths `buffer_len`.
module _ (buffer_len : ℕ → ℕ) where
  unfoldable pub pico_enqueue : PicoQueue → ℕ → Next → Option (ℤ × (PicoQueue × Next))
  pico_enqueue q p next =
      if over q.max_frames (leb q.max_frames q.frames)
      then some (negsuc 0, (q, next))
      else (if over q.max_size (ltb q.max_size (u32 (buffer_len p + q.size)))
          then some (negsuc 0, (q, next))
          else enqueued (buffer_len p) (link p q (set_next next p none)))

  -- The first frame leaves. Its length is taken off without the overhead that was added.
  unfoldable pub unlink : ℕ → PicoQueue → Next → Option ℕ × (PicoQueue × Next)
  unlink p q next = (
    some p,
    (
      record q {
        head = next p;
        tail = elim (next p) [ none ↦ none | some h ↦ q.tail ];
        frames = q.frames - 1;
        size = u32 (2 ^ 32 + q.size - u32 (2 ^ 32 + buffer_len p - q.overhead));
      },
      set_next next p none,
    ),
  )

  unfoldable pub pico_dequeue : PicoQueue → Next → Option ℕ × (PicoQueue × Next)
  pico_dequeue q next = elim q.head [
    | none ↦ (none, (q, next))
    | some p ↦ if q.frames == 0 then (none, (q, next)) else unlink p q next
  ]

unfoldable pub pico_queue_peek : PicoQueue → Option ℕ
pico_queue_peek q = if q.frames == 0 then none else q.head
