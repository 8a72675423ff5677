-- ===== src/Pico/Queue/Fifo.antt =====
-- A queue of frames is a list that grows at its end and gives up its first.
use fd_picotcp.Prelude.{
  ℕ, suc, ◌+◌, ◌^◌, ◌<◌, ◌≤◌, ◌≡◌, ◌≢◌, refl, sym, ◌∙◌, ◌⊎◌, inl, inr, arith, ℤ, negsuc, Bool, true,
  false, List, [], ◌∷◌, ◌++◌, Option, none, some, ◌==◌, ==_iff, Bool-cases, length, length-append,
  leb, ltb, leb→le, leb→lt, ltb→le, ltb→lt,
}
use fd_picotcp.Pico.Words.{u32}
use fd_picotcp.Pico.Sequence.{i32}
use fd_picotcp.Pico.Queue.{
  PicoQueue, Next, set_next, over, link, count_in, enqueued, pico_enqueue, unlink, pico_dequeue,
}
use fd_picotcp.Pico.Queue.Chains.{
  IsChain, IsFresh, IsDistinct, last_of, set_next_at, IsChain-set_next, IsChain-append,
}

IsFresh-append : (a : ℕ) (l : List ℕ) (p : ℕ) → p ≢ a → IsFresh a l → IsFresh a (l ++ (p ∷ []))
IsFresh-append a [] p n f = (n, tt)
IsFresh-append a (b ∷ l) p n f = (f.0, IsFresh-append a l p n f.1)

IsDistinct-append : (l : List ℕ) (p : ℕ) → IsFresh p l → IsDistinct l → IsDistinct (l ++ (p ∷ []))
IsDistinct-append [] p f d = (tt, tt)
IsDistinct-append (a ∷ l) p f d =
    (IsFresh-append a l p (λ e. f.0 (sym e)) d.0, IsDistinct-append l p f.1 d.1)

last_longer : (l : List ℕ) (p : ℕ) → last_of (l ++ (p ∷ [])) ≡ some p
last_longer [] p = refl
last_longer (a ∷ []) p = refl
last_longer (a ∷ b ∷ l) p = last_longer (b ∷ l) p

last_some : (a : ℕ) (l : List ℕ) → (t : ℕ) × (last_of (a ∷ l) ≡ some t)
last_some a [] = (a, refl)
last_some a (b ∷ l) = last_some b l

module _ (buffer_len : ℕ → ℕ) where
  abbrev pub bytes : List ℕ → ℕ
  bytes [] = 0
  bytes (p ∷ l) = buffer_len p + bytes l

  bytes_longer : (l : List ℕ) (p : ℕ) → bytes (l ++ (p ∷ [])) ≡ bytes l + buffer_len p
  bytes_longer [] p = omega arith
  bytes_longer (a ∷ l) p = omega (arith, bytes_longer l p)

  -- The queue stands for the list: its frames are chained from head to tail, and counted; without
  -- overhead, so are their bytes.
  pub record IsQueue (q : PicoQueue) (next : Next) (l : List ℕ) : Type 0 where
    pub chain : IsChain next q.head l
    pub tail : q.tail ≡ last_of l
    pub distinct : IsDistinct l
    pub frames : q.frames ≡ length l
    pub sized : q.overhead ≡ 0 → q.size ≡ u32 (bytes l)

  -- A limit that is set says that the frame is one too many, or too long.
  abbrev pub IsFull : PicoQueue → ℕ → Type 0
  IsFull q p =
      (1 ≤ q.max_frames) × (q.max_frames ≤ q.frames)
      ⊎ (1 ≤ q.max_size) × (q.max_size < u32 (buffer_len p + q.size))

  pub record IsLonger (p : ℕ) (l : List ℕ) (r : Option (ℤ × (PicoQueue × Next))) : Type 0 where
    pub queue : PicoQueue
    pub next : Next
    pub done : r ≡ some (i32 queue.size, (queue, next))
    pub longer : IsQueue queue next (l ++ (p ∷ []))

  link_empty :
      (q : PicoQueue) (next : Next) (p : ℕ)
      → IsQueue q next []
      → IsLonger p [] (enqueued (buffer_len p) (link p q (set_next next p none)))
  unfolding link
  link_empty q next p i = rw i.chain (record {
    queue =
        count_in (buffer_len p) (record q { head = some p; tail = some p; size = 0; frames = 0 });
    next = set_next next p none;
    done = refl;
    longer = record {
      chain = (refl, set_next_at next p none);
      tail = refl;
      distinct = (tt, tt);
      frames = omega arith;
      sized = λ e. omega (arith, e);
    };
  })

  link_more :
      (q : PicoQueue) (next : Next) (p a t : ℕ) (l : List ℕ)
      → IsQueue q next (a ∷ l)
      → IsFresh p (a ∷ l)
      → suc (length (a ∷ l)) < 2 ^ 32
      → last_of (a ∷ l) ≡ some t
      → IsLonger p (a ∷ l) (enqueued (buffer_len p) (link p q (set_next next p none)))
  unfolding link
  link_more q next p a t l i f b e =
      rw (i.chain.0, i.tail ∙ e)
        (record {
          queue = count_in (buffer_len p) (record q { head = some a; tail = some p });
          next = set_next (set_next next p none) t (some p);
          done = refl;
          longer = record {
            chain =
                IsChain-append (set_next next p none) p t (some a) (a ∷ l) (set_next_at next p none)
                  f i.distinct e
                  (refl, (IsChain-set_next next p none (some a) (a ∷ l) f (refl, i.chain.1)).1);
            tail = sym (last_longer (a ∷ l) p);
            distinct = IsDistinct-append (a ∷ l) p f i.distinct;
            frames = omega (arith, i.frames, length-append (a ∷ l) (p ∷ []));
            sized = λ z. omega (arith, z, i.sized z, bytes_longer (a ∷ l) p);
          };
        })

  linked :
      (q : PicoQueue) (next : Next) (p : ℕ) (l : List ℕ)
      → IsQueue q next l
      → IsFresh p l
      → suc (length l) < 2 ^ 32
      → IsLonger p l (enqueued (buffer_len p) (link p q (set_next next p none)))
  linked q next p [] i f b = link_empty q next p i
  linked q next p (a ∷ l) i f b = let (t, e) = last_some a l in link_more q next p a t l i f b e

  over_cases :
      (max : ℕ) (test : Bool)
      → (over max test ≡ true) × (1 ≤ max) × (test ≡ true)
        ⊎ (over max test ≡ false) × ((max ≡ 0) ⊎ (test ≡ false))
  over_cases max test = elim (Bool-cases (max == 0)) [
    | inl e ↦ inr (rw e refl, inl ((==_iff max 0).0 e))
    | inr e ↦ elim (Bool-cases test) [
      | inl f ↦ inl (rw (e, f) refl, ground arith, f)
      | inr f ↦ inr (rw (e, f) refl, inr f)
    ]
  ]

  not-IsFull :
      (q : PicoQueue) (p : ℕ)
      → (q.max_frames ≡ 0) ⊎ (leb q.max_frames q.frames ≡ false)
      → (q.max_size ≡ 0) ⊎ (ltb q.max_size (u32 (buffer_len p + q.size)) ≡ false)
      → IsFull q p
      → ⊥
  not-IsFull q p (inl e) d (inl h) = omega (arith, h.0)
  not-IsFull q p (inr e) d (inl h) = omega (arith, h.1, leb→lt q.max_frames q.frames e)
  not-IsFull q p c (inl e) (inr h) = omega (arith, h.0)
  not-IsFull q p c (inr e) (inr h) =
      omega (arith, h.1, ltb→le q.max_size (u32 (buffer_len p + q.size)) e)

  -- A frame that is not in the queue goes behind its list of fewer than 2^32 - 1 frames, and the
  -- size is returned, unless a limit other than 0 is in its way: as many frames as allowed are
  -- there, or its bytes and the size together, as a word of 32 bits, are more than the greatest
  -- size. Then, and only then, it is refused and nothing changes.
  pub enqueue_lem :
      (q : PicoQueue) (next : Next) (p : ℕ) (l : List ℕ)
      → IsQueue q next l
      → IsFresh p l
      → suc (length l) < 2 ^ 32
      → IsFull q p × (pico_enqueue buffer_len q p next ≡ some (negsuc 0, (q, next)))
        ⊎ ¬ IsFull q p × IsLonger p l (pico_enqueue buffer_len q p next)
  unfolding pico_enqueue
  enqueue_lem q next p l i f b = elim (over_cases q.max_frames (leb q.max_frames q.frames)) [
    | inl (e, m, t) ↦ inl (inl (m, leb→le q.max_frames q.frames t), rw e refl)
    | inr (e, n) ↦ elim (over_cases q.max_size (ltb q.max_size (u32 (buffer_len p + q.size)))) [
      | inl (d, m, t) ↦
          inl (inr (m, ltb→lt q.max_size (u32 (buffer_len p + q.size)) t), rw (e, d) refl)
      | inr (d, k) ↦ inr (not-IsFull q p n k, rw (e, d) (linked q next p l i f b))
    ]
  ]

  -- The rest of the list, after its first frame has left.
  rest_tail :
      (next : Next) (first : Option ℕ) (tail : Option ℕ) (p : ℕ) (l : List ℕ)
      → IsChain next first l
      → tail ≡ last_of (p ∷ l)
      → elim first [ none ↦ none | some h ↦ tail ] ≡ last_of l
  rest_tail next first tail p [] c e = rw c refl
  rest_tail next first tail p (a ∷ l) c e = rw c.0 e

  pub record IsShorter (p : ℕ) (l : List ℕ) (r : Option ℕ × (PicoQueue × Next)) : Type 0 where
    pub queue : PicoQueue
    pub next : Next
    pub done : r ≡ (some p, (queue, next))
    pub shorter : IsQueue queue next l
    pub unlinked : next p ≡ none

  unlink-IsShorter :
      (q : PicoQueue) (next : Next) (p : ℕ) (l : List ℕ)
      → IsQueue q next (p ∷ l)
      → IsShorter p l (unlink buffer_len p q next)
  unfolding unlink
  unlink-IsShorter q next p l i = record {
    queue = (unlink buffer_len p q next).1.0;
    next = set_next next p none;
    done = refl;
    shorter = record {
      chain = IsChain-set_next next p none (next p) l i.distinct.0 i.chain.1;
      tail = rest_tail next (next p) q.tail p l i.chain.1 i.tail;
      distinct = i.distinct.1;
      frames = omega (arith, i.frames);
      sized = λ z. omega (arith, z, i.sized z);
    };
    unlinked = set_next_at next p none;
  }

  -- The first frame of the list leaves the queue, which then stands for the others.
  pub dequeue_lem :
      (q : PicoQueue) (next : Next) (p : ℕ) (l : List ℕ)
      → IsQueue q next (p ∷ l)
      → IsShorter p l (pico_dequeue buffer_len q next)
  unfolding pico_dequeue unlink
  dequeue_lem q next p l i = elim (Bool-cases (q.frames == 0)) [
    | inl e ↦ absurd (omega (arith, (==_iff q.frames 0).0 e, i.frames))
    | inr e ↦ rw (i.chain.0, e) (unlink-IsShorter q next p l i)
  ]
