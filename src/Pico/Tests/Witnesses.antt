-- ===== src/Pico/Tests/Witnesses.antt =====
-- The theorems on heaps, timers and sequence numbers on small states.
use fd_picotcp.Prelude.{
  subst, none, ltb, ltb→lt, ◌&&◌, Bool, Bool-cases, inl, inr, [], ◌∷◌, List, false, negsuc, ◌==◌,
  if◌then◌else◌, ℕ, zero, suc, ◌+◌, ◌-◌, ◌≤◌, pos, true, some, ◌≡◌, ◌≢◌, ◌⊎◌, refl, ◌∙◌, sym, ◌^◌,
  arith,
}
use fd_picotcp.Pico.Heap.{Heap, slot, heap_init, heap_insert, heap_peek, sift_up, place, grow}
use fd_picotcp.Pico.Heap.Inserting.{IsHeap, weight, heap_init-IsHeap, heap_insert_lem}
use fd_picotcp.Pico.Heap.Removing.{heap_peek_lem}
use fd_picotcp.Pico.Words.{u32}
use fd_picotcp.Pico.Timers.{
  TimerRef, no_ref, Stack, pico_timer_add, add_ref, pico_timer_cancel, pico_check_timers, fire,
}
use fd_picotcp.Pico.Timers.Keeping.{IsTimers}
use fd_picotcp.Pico.Timers.Acting.{Within, no_more, soon, any, Clock}
use fd_picotcp.Pico.Timers.Ending.{Checked, check_timers_lem}
use fd_picotcp.Pico.Timers.Cancelling.{cancel_lem}
use fd_picotcp.Pico.Sequence.{pico_seq_compare, i32, seq_compare_lem}
use fd_picotcp.Pico.Addresses.{pico_ipv4_to_string, pico_string_to_ipv4}
use fd_picotcp.Pico.Addresses.Text.{ipv4_text_lem}
use fd_picotcp.Pico.Checksum.{pico_ipv4_checksum, pico_ipv4_crc_check}
use fd_picotcp.Pico.Checksum.Sums.{IsBytes}
use fd_picotcp.Pico.Checksum.Checked.{ipv4_checksum_lem}
use fd_picotcp.Pico.Routes.Keeping.{at_first}
use fd_picotcp.Pico.Queue.{PicoQueue, Next, pico_enqueue, pico_dequeue}
use fd_picotcp.Pico.Queue.Fifo.{IsQueue, IsLonger, IsShorter, IsFull, enqueue_lem, dequeue_lem}
use fd_picotcp.Pico.Frames.{
  pico_frame_alloc, pico_frame_do_alloc, pico_frame_copy, pico_frame_discard, pico_frame_grow,
  release, no_memory, Memory,
}
use fd_picotcp.Pico.Frames.Tally.{some-frame}
use fd_picotcp.Pico.Frames.Counting.{IsCounted}
use fd_picotcp.Pico.Frames.Histories.{
  Leads, at_first, allocated, copied_one, discarded, grown_one, HasRoom, Leads-IsCounted,
}
use fd_picotcp.Pico.Tests.{
  after_grow, shared, header, no_frames, put, three, clock_at, host, two_timers, act, timer,
}

put-IsHeap : (x : ℕ) (h : Heap ℕ) → IsHeap (λ y. y) 0 h → IsHeap (λ y. y) 0 (put x h)
put-IsHeap x h i = (heap_insert_lem (λ y. y) 0 x h i).1

three-IsHeap : IsHeap (λ y. y) 0 three
three-IsHeap =
    put-IsHeap 4 (put 3 (put 5 heap_init))
      (put-IsHeap 3 (put 5 heap_init) (put-IsHeap 5 heap_init (heap_init-IsHeap (λ y. y) 0)))

heap_insert_lem_example :
    ((heap_insert (λ y. y) 0 true 2 three).0 ≡ pos 0)
    × IsHeap (λ y. y) 0 (heap_insert (λ y. y) 0 true 2 three).1
    × ((heap_insert (λ y. y) 0 true 2 three).1.n ≡ suc three.n)
    × ((w : ℕ → ℕ) → weight 0 w (heap_insert (λ y. y) 0 true 2 three).1 ≡ w 2 + weight 0 w three)
heap_insert_lem_example = heap_insert_lem (λ y. y) 0 2 three three-IsHeap

heap_peek_lem_example :
    ((heap_peek (λ y. y) 0 three).0 ≡ some (slot 0 three.top 1))
    × ((j : ℕ) → 1 ≤ j → j ≤ three.n → slot 0 three.top 1 ≤ slot 0 three.top j)
    × IsHeap (λ y. y) 0 (heap_peek (λ y. y) 0 three).1
    × ((heap_peek (λ y. y) 0 three).1.n ≡ 2)
    × ((w : ℕ → ℕ)
        → weight 0 w three ≡ w (slot 0 three.top 1) + weight 0 w (heap_peek (λ y. y) 0 three).1)
unfolding heap_insert place
heap_peek_lem_example = heap_peek_lem (λ y. y) 0 2 three three-IsHeap refl

act-Within : (f : ℕ) → Within 10 (act f)
act-Within zero = soon (omega arith) (λ id. no_more)
act-Within (suc f) = any no_more

clock : Clock host 10
clock = record {
  now = clock_at;
  reads = λ w. refl;
  time_on = λ w. ground arith;
  zalloc_on = λ w. omega arith;
  call_on = λ f tick a w. omega arith;
  far = λ w. ground arith;
  within = λ f tick a w. act-Within f;
}

abbrev ref : ℕ → ℕ → ℕ → TimerRef
ref e id f = record { expire = e; id = id; tmr = some (timer f) }

put_ref-IsTimers :
    (r : TimerRef) (h : Heap TimerRef)
    → IsTimers h
    → IsTimers (heap_insert TimerRef.expire no_ref true r h).1
put_ref-IsTimers r h i = (heap_insert_lem TimerRef.expire no_ref r h i).1

two_timers-IsTimers : IsTimers two_timers.timers
unfolding pico_timer_add add_ref heap_insert place
two_timers-IsTimers =
    put_ref-IsTimers (ref 31 2 0) (heap_insert TimerRef.expire no_ref true (ref 20 1 1) heap_init).1
      (put_ref-IsTimers (ref 20 1 1) heap_init (heap_init-IsHeap TimerRef.expire no_ref))

check_timers_lem_example :
    (t : Stack ℕ) × (pico_check_timers host 3 two_timers ≡ some t) × Checked 40 two_timers t
unfolding pico_timer_add add_ref heap_insert place clock
check_timers_lem_example =
    check_timers_lem host 10 clock 3 two_timers two_timers-IsTimers (omega arith)

second :
    (i : ℕ) → 1 ≤ i → i ≤ two_timers.timers.n → (slot no_ref two_timers.timers.top i).id ≡ 2 → i ≡ 2
unfolding pico_timer_add add_ref heap_insert place sift_up grow
second zero a b e = absurd (omega arith)
second (suc zero) a b e = absurd (omega (arith, e))
second (suc (suc zero)) a b e = refl
second (suc (suc (suc i))) a b e = absurd (omega arith)

cancel_lem_example :
    ((slot no_ref two_timers.timers.top 2).id ≢ 2)
      × (slot no_ref (pico_timer_cancel host 2 two_timers).timers.top 2
          ≡ slot no_ref two_timers.timers.top 2)
    ⊎ ((slot no_ref two_timers.timers.top 2).id ≡ 2)
      × (fire host 40
            (slot no_ref (pico_timer_cancel host 2 two_timers).timers.top 2).tmr
            two_timers
          ≡ two_timers)
unfolding pico_timer_add add_ref heap_insert place
cancel_lem_example =
    cancel_lem host 2 40 2 two_timers (λ e. omega (arith, e)) two_timers-IsTimers
      (λ i j a b c d e f. second i a b e ∙ sym (second j c d f)) (omega arith) (omega arith)

seq_compare_lem_example : pico_seq_compare 2 4294967294 ≡ i32 (u32 (2 ^ 32 + 2 - 4294967294))
seq_compare_lem_example = seq_compare_lem 2 4294967294 (omega arith) (omega arith)

ipv4_text_lem_example : pico_string_to_ipv4 (pico_ipv4_to_string 16820416) ≡ some 16820416
ipv4_text_lem_example = ipv4_text_lem 16820416 (omega arith)

and_right : (a b : Bool) → (a && b) ≡ true → b ≡ true
and_right true b h = h
and_right false b h = cc

and_false : (a b : Bool) → a ≡ false → (a && b) ≡ false
and_false true b h = cc
and_false false b h = refl

abbrev are_bytes : List ℕ → Bool
are_bytes [] = true
are_bytes (b ∷ l) = ltb b 256 && are_bytes l

of_test : (l : List ℕ) → are_bytes l ≡ true → IsBytes l
of_test [] h = tt
of_test (b ∷ l) h = elim (Bool-cases (ltb b 256)) [
  | inl e ↦ (ltb→lt b 256 e, of_test l (and_right (ltb b 256) _ h))
  | inr e ↦ absurd (cc (h, and_false (ltb b 256) (are_bytes l) e))
]

header-IsBytes : IsBytes header
header-IsBytes = of_test header refl

ipv4_checksum_lem_example : pico_ipv4_crc_check (pico_ipv4_checksum header) ≡ true
ipv4_checksum_lem_example = ipv4_checksum_lem header header-IsBytes (omega arith) (omega arith)

-- The frames 7 and 8 wait.
abbrev chained : Next
chained p = if p == 7 then some 8 else none

abbrev two_frames : PicoQueue
two_frames = record no_frames { frames = 2; size = 200; head = some 7; tail = some 8 }

two_frames-IsQueue : IsQueue (λ p. 100) two_frames chained (7 ∷ 8 ∷ [])
two_frames-IsQueue = record {
  chain = (refl, (refl, refl));
  tail = refl;
  distinct = ((λ e. omega (arith, e), tt), (tt, tt));
  frames = refl;
  sized = λ e. refl;
}

enqueue_lem_example :
    IsFull (λ p. 100) two_frames 9
      × (pico_enqueue (λ p. 100) two_frames 9 chained ≡ some (negsuc 0, (two_frames, chained)))
    ⊎ ¬ IsFull (λ p. 100) two_frames 9
      × IsLonger (λ p. 100) 9 (7 ∷ 8 ∷ []) (pico_enqueue (λ p. 100) two_frames 9 chained)
enqueue_lem_example =
    enqueue_lem (λ p. 100) two_frames chained 9 (7 ∷ 8 ∷ []) two_frames-IsQueue
      (λ e. omega (arith, e), (λ e. omega (arith, e), tt)) (omega arith)

dequeue_lem_example : IsShorter (λ p. 100) 7 (8 ∷ []) (pico_dequeue (λ p. 100) two_frames chained)
dequeue_lem_example = dequeue_lem (λ p. 100) two_frames chained 7 (8 ∷ []) two_frames-IsQueue

few : HasRoom (pico_frame_alloc (true, true) 100 no_memory).1
unfolding pico_frame_alloc pico_frame_do_alloc
few = omega arith

shared-Leads : Leads shared
shared-Leads = copied_one (allocated at_first (true, true) 100 (omega arith)) true 1 few

-- The first frame goes, and the second, which is then alone, grows.
abbrev grown : Memory
grown = after_grow (pico_frame_grow true 3 200 (pico_frame_discard 1 shared))

grows : pico_frame_grow true 3 200 (pico_frame_discard 1 shared) ≡ some (pos 0, grown)
unfolding pico_frame_alloc pico_frame_do_alloc pico_frame_copy pico_frame_discard pico_frame_grow
    release
grows = refl

Leads-IsCounted_example : IsCounted grown
unfolding pico_frame_alloc pico_frame_do_alloc pico_frame_copy pico_frame_discard release
Leads-IsCounted_example = Leads-IsCounted grown (
    grown_one (discarded shared-Leads 1) true 3 200
      (λ f e.
        subst (λ x. (pico_frame_discard 1 shared).count x.usage_count ≡ 1) (some-frame e) refl)
      (pos 0, grown) grows)
