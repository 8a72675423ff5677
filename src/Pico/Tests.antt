-- ===== src/Pico/Tests.antt =====
-- The parts of the stack on small states: runs of the definitions, and in the children the theorems
-- applied.
mod Witnesses
mod Routes
use fd_picotcp.Prelude.{
  codes, get_or, ℕ, zero, suc, ◌+◌, ℤ, pos, negsuc, true, false, List, [], ◌∷◌, Option, none, some,
  ◌≡◌, refl, ltb, ◌==◌, if◌then◌else◌,
}
use fd_picotcp.Pico.Words.{short_be, long_be, long_from}
use fd_picotcp.Pico.Heap.{
  Heap, heap_init, heap_insert, heap_peek, heap_first, sift_up, sift_down, smaller, grow, place,
  remove,
}
use fd_picotcp.Pico.Timers.{
  Timer, Action, done, add, cancel, Host, Stack, pico_timer_add, add_ref, pico_timer_cancel,
  cancel_loop, run_action, call_timer, fire, expire_first, check_round, check_loop,
  pico_check_timers,
}
use fd_picotcp.Pico.Frames.{
  Memory, pico_frame_alloc, pico_frame_do_alloc, pico_frame_copy, pico_frame_grow,
  pico_frame_deepcopy, release, write, no_memory,
}
use fd_picotcp.Pico.Frames.Tally.{tally}
use fd_picotcp.Pico.Sequence.{pico_seq_compare}
use fd_picotcp.Pico.Addresses.{
  pico_ipv4_to_string, pico_string_to_ipv4, octet, read_octets, spread, count_ones,
  pico_ipv4_valid_netmask, pico_ipv4_is_multicast, pico_ipv4_is_unicast, pico_ipv4_is_loopback,
  pico_ipv4_compare,
}
use fd_picotcp.Pico.Checksum.{
  pico_checksum, pico_checksum_finalize, pico_checksum_adder, add_words, odd_byte, carry,
  pico_ipv4_crc_check, pico_ipv4_checksum,
}
use fd_picotcp.Pico.Queue.{PicoQueue, Next, pico_enqueue, link, pico_dequeue, unlink}

-- Numbers, ordered as they are.
abbrev pub put : ℕ → Heap ℕ → Heap ℕ
put x h = (heap_insert (λ y. y) 0 true x h).1

abbrev pub three : Heap ℕ
three = put 4 (put 3 (put 5 heap_init))

three_slots : three ≡ record { size = 3; n = 3; top = 0 ∷ 3 ∷ 5 ∷ 4 ∷ [] }
unfolding heap_insert place sift_up grow
three_slots = refl

three_peeked :
    heap_peek (λ y. y) 0 three ≡ (some 3, record { size = 3; n = 2; top = 0 ∷ 4 ∷ 5 ∷ 4 ∷ [] })
unfolding heap_insert place sift_up grow heap_peek remove sift_down smaller
three_peeked = refl

-- A clock that stops at 1000, and memory without end. The function 0 sets its timer again, the
-- function 1 cancels the timer 2.
abbrev pub clock_at : ℕ → ℕ
clock_at w = if ltb w 1000 then w else 1000

abbrev pub timer : ℕ → Timer
timer f = record { timer = some f; arg = 7 }

abbrev pub act : ℕ → Action
act zero = add 10 (timer 0) (λ id. done)
act _ = cancel 2 done

abbrev pub host : Host ℕ
host = record {
  time = λ w. (clock_at w, suc w);
  zalloc = λ w. (true, w);
  call = λ f tick a w. (act f, w);
}

abbrev pub nothing : Stack ℕ
nothing = record { pico_tick = 0; tmr_id = 0; timers = heap_init; world = 0 }

abbrev pub two_timers : Stack ℕ
two_timers =
    record (pico_timer_add host 30 (timer 0) (pico_timer_add host 20 (timer 1) nothing).1).1 {
      world = 40;
    }

-- The first cancels the second, which is removed without a call.
abbrev checked : Option (Stack ℕ) → List ℕ
checked none = []
checked (some t) = t.timers.n ∷ t.tmr_id ∷ t.pico_tick ∷ []

two_timers_run : checked (pico_check_timers host 3 two_timers) ≡ 0 ∷ 3 ∷ 40 ∷ []
unfolding pico_timer_add add_ref heap_insert place sift_up grow heap_peek remove sift_down smaller
    pico_check_timers check_loop check_round expire_first fire call_timer run_action
    pico_timer_cancel cancel_loop heap_first
two_timers_run = refl

compared :
    (pico_seq_compare 5 3 ≡ pos 2)
    × (pico_seq_compare 3 5 ≡ negsuc 1)
    × (pico_seq_compare 2 4294967294 ≡ pos 4)
    × (pico_seq_compare 4294967294 2 ≡ negsuc 3)
    × (pico_seq_compare 2147483648 0 ≡ pico_seq_compare 0 2147483648)
unfolding pico_seq_compare
compared = (refl, refl, refl, refl, refl)

addresses :
    (pico_ipv4_to_string 16820416 ≡ codes "192.168.0.1")
    × (pico_string_to_ipv4 (codes "192.168.0.1") ≡ some 16820416)
    × (pico_string_to_ipv4 (codes "10.1") ≡ some 16777226)
    × (pico_string_to_ipv4 (codes "10.0.0.x") ≡ none)
    × (pico_string_to_ipv4 (codes "1.2.3.4.5") ≡ none)
    × (pico_string_to_ipv4 (codes "256.0.0.1") ≡ some 16777216)
unfolding pico_ipv4_to_string pico_string_to_ipv4 octet read_octets spread long_from
addresses = (refl, refl, refl, refl, refl, refl)

masks :
    (pico_ipv4_valid_netmask 0x00ffffff ≡ pos 24)
    × (pico_ipv4_valid_netmask 0xffffff00 ≡ negsuc 0)
    × (pico_ipv4_valid_netmask 0 ≡ pos 0)
unfolding pico_ipv4_valid_netmask count_ones long_be
masks = (refl, refl, refl)

classes :
    (pico_ipv4_is_multicast 0xe0 ≡ true)
    × (pico_ipv4_is_multicast 0xffffffff ≡ false)
    × (pico_ipv4_is_unicast 0xe0 ≡ false)
    × (pico_ipv4_is_loopback 0x0100007f ≡ true)
    × (pico_ipv4_compare 3 5 ≡ negsuc 0)
unfolding pico_ipv4_is_multicast pico_ipv4_is_unicast pico_ipv4_is_loopback pico_ipv4_compare
classes = (refl, refl, refl, refl, refl)

-- A header of 20 bytes whose checksum is 0xb861.
abbrev pub header : List ℕ
header =
    0x45 ∷ 0 ∷ 0 ∷ 0x73 ∷ 0 ∷ 0 ∷ 0x40 ∷ 0 ∷ 0x40 ∷ 0x11 ∷ 0 ∷ 0 ∷ 0xc0 ∷ 0xa8 ∷ 0 ∷ 1 ∷ 0xc0 ∷ 0xa8
    ∷ 0 ∷ 0xc7 ∷ []

header_sum :
    (pico_checksum header ≡ 0xb861)
    × (pico_ipv4_crc_check header ≡ false)
    × (get_or (pico_ipv4_checksum header) 10 0 ≡ 0xb8)
unfolding pico_checksum pico_checksum_finalize pico_checksum_adder add_words odd_byte carry short_be
    pico_ipv4_crc_check pico_ipv4_checksum
header_sum = (refl, refl, refl)

-- Frames of 100 bytes each.
abbrev pub no_frames : PicoQueue
no_frames = record {
  frames = 0;
  size = 0;
  max_frames = 0;
  max_size = 0;
  head = none;
  tail = none;
  overhead = 0;
}

abbrev size_of : Option (ℤ × (PicoQueue × Next)) → ℕ
size_of none = 0
size_of (some r) = r.1.0.size

abbrev then_dequeue : Option (ℤ × (PicoQueue × Next)) → ℕ
then_dequeue none = 0
then_dequeue (some r) = (pico_dequeue (λ p. 100) r.1.0 r.1.1).1.0.size

-- With an overhead of 4 and one frame waiting, a frame that comes and one that goes leave 8 bytes
-- more.
abbrev waiting : PicoQueue
waiting = record no_frames { frames = 1; size = 104; head = some 7; tail = some 7; overhead = 4 }

drift :
    (size_of (pico_enqueue (λ p. 100) waiting 9 (λ p. none)) ≡ 208)
    × (then_dequeue (pico_enqueue (λ p. 100) waiting 9 (λ p. none)) ≡ 112)
unfolding pico_enqueue link pico_dequeue unlink
drift = (refl, refl)

-- The frame 1 and its copy 3, on the block 2.
abbrev pub shared : Memory
shared = (pico_frame_copy true 1 (pico_frame_alloc (true, true) 100 no_memory).1).1

shared_block : (shared.count 2 ≡ 2) × (shared.live 2 ≡ true)
unfolding pico_frame_alloc pico_frame_do_alloc pico_frame_copy
shared_block = (refl, refl)

-- When one of them grows, the block of the other is freed.
abbrev pub after_grow : Option (ℤ × Memory) → Memory
after_grow none = no_memory
after_grow (some r) = r.1

abbrev grown : Memory
grown = after_grow (pico_frame_grow true 1 200 shared)

grown_shared : (tally 2 grown.frames ≡ 1) × (grown.live 2 ≡ false)
unfolding pico_frame_alloc pico_frame_do_alloc pico_frame_copy pico_frame_grow release
grown_shared = (refl, refl)

-- A deep copy has zeros for the bytes of the frame.
abbrev filled : Memory
filled =
    let s = (pico_frame_alloc (true, true) 3 no_memory).1 in
    record s { bytes = write s.bytes 2 (1 ∷ 2 ∷ 3 ∷ []) }

deep_copied : (pico_frame_deepcopy (true, true) 1 filled).1.bytes 4 ≡ 0 ∷ 0 ∷ 0 ∷ []
unfolding pico_frame_alloc pico_frame_do_alloc pico_frame_deepcopy
deep_copied = refl
