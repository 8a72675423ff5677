-- ===== src/Ppp/Options/Ends.antt =====
-- The option loops of modules/pico_dev_ppp.c on packets whose options have proper lengths.
use fd_picotcp.Prelude.{
  ℕ, zero, suc, ◌+◌, ◌<◌, ◌≤◌, ◌≡◌, refl, arith, Option, some, ◌>>=◌, List, [], ◌∷◌, ◌++◌, ltb,
  ◌==◌, true, false, Bool-cases, inl, inr, ltb→lt,
}
use fd_picotcp.Ppp.Types.{byte}
use fd_picotcp.Ppp.Lcp.{
  OptScan, optflags_from, lcp_optflags, nack_options, is_rejected, scan_option,
}
use fd_picotcp.Ppp.IpcpInput.{IpcpScan, ipcp_option, ipcp_options}

-- From offset `i` on, options of at least two bytes each, up to `len` or past it.
pub data Proper (m : List ℕ) (len : ℕ) : ℕ → Type 0 where
  over : {i : ℕ} → len ≤ i → Proper m len i
  option :
      {i : ℕ} → i < len → 2 ≤ byte m (i + 1) → Proper m len (i + byte m (i + 1)) → Proper m len i

optflags_from_ends :
    (fuel : ℕ) (m : List ℕ) (len i : ℕ) (r : OptScan)
    → 0 < fuel
    → len < fuel + i
    → (q : OptScan) × (optflags_from fuel m len i r ≡ some q)
unfolding optflags_from
optflags_from_ends zero m len i r p h = absurd (omega arith)
optflags_from_ends (suc fuel) m len i r p h = elim (Bool-cases (ltb i len)) [
  | inr e ↦ rw e (r, refl)
  | inl e ↦ rw e (elim (Bool-cases (byte m (i + 1) == 0)) [
    | inl z ↦ rw z (scan_option m i r, refl)
    | inr z ↦ rw z (
        optflags_from_ends fuel m len (i + byte m (i + 1)) (scan_option m i r)
          (omega (arith, ltb→lt i len e)) (ground (arith, ltb→lt i len e)))
  ])
]

-- The scan for flags comes to an end on every memory, whatever lengths the options have.
pub lcp_optflags_ends :
    (mru auth : ℕ) (m : List ℕ) (len : ℕ) → (q : OptScan) × (lcp_optflags mru auth m len ≡ some q)
unfolding lcp_optflags
lcp_optflags_ends mru auth m len =
    optflags_from_ends (len + 1) m len 4 _ (omega arith) (omega arith)

nack_cons :
    (opt size : ℕ) (taken : List ℕ) (o : Option (List ℕ))
    → (q : List ℕ) × (o ≡ some q)
    → (q : List ℕ) × ((o >>= λ out. some (opt ∷ size ∷ (taken ++ out))) ≡ some q)
nack_cons opt size taken o (q, e) = (opt ∷ size ∷ (taken ++ q), rw e)

nack_options_ends :
    (fuel : ℕ) (m : List ℕ) (len rej i : ℕ)
    → 0 < fuel
    → len < fuel + i
    → Proper m len i
    → (q : List ℕ) × (nack_options fuel m len rej i ≡ some q)
unfolding nack_options
nack_options_ends zero m len rej i p h w = absurd (omega arith)
nack_options_ends (suc fuel) m len rej i p h (over le) = ([], ground arith)
nack_options_ends (suc fuel) m len rej i p h (option lt two w) =
    let more =
      nack_options_ends fuel m len rej (i + byte m (i + 1)) (omega arith) (omega arith) w in
    let e : ltb i len ≡ true = ground arith in
    let e' : ltb (byte m (i + 1)) 2 ≡ false = ground arith in
    rw e (elim (Bool-cases (is_rejected rej (byte m i))) [
      | inl y ↦ rw (y, e') (nack_cons _ _ _ _ more)
      | inr n ↦ rw n more
    ])

pub ipcp_option-offset :
    (code : ℕ) (m : List ℕ) (r : IpcpScan)
    → (ipcp_option code m r).offset ≡ r.offset + byte m (r.offset + 1)
unfolding ipcp_option
ipcp_option-offset code m r = ground arith

ipcp_options_ends :
    (fuel code : ℕ) (m : List ℕ) (len i : ℕ) (r : IpcpScan)
    → 0 < fuel
    → len < fuel + i
    → r.offset ≡ i
    → Proper m len i
    → (q : IpcpScan) × (ipcp_options fuel code m len r ≡ some q)
unfolding ipcp_options
ipcp_options_ends zero code m len i r p h o w = absurd (omega arith)
ipcp_options_ends (suc fuel) code m len i r p h o (over le) = (r, ground arith)
ipcp_options_ends (suc fuel) code m len i r p h o (option lt two w) =
    let e : ltb r.offset len ≡ true = ground arith in
    rw e (
      ipcp_options_ends fuel code m len (i + byte m (i + 1)) (ipcp_option code m r) (omega arith)
        (omega arith) (ground (arith, ipcp_option-offset code m r)) w)

-- Both loops that look for what to send back come to an end on a packet of proper options: the
-- scan for rejected link options, and that of an IP control packet.
pub option_loops_end :
    (m : List ℕ) (len rej code : ℕ) (r : IpcpScan)
    → Proper m len 4
    → r.offset ≡ 4
    → ((q : List ℕ) × (nack_options (len + 1) m len rej 4 ≡ some q))
      × ((q : IpcpScan) × (ipcp_options (len + 1) code m len r ≡ some q))
option_loops_end m len rej code r w o = (
  nack_options_ends (len + 1) m len rej 4 (omega arith) (omega arith) w,
  ipcp_options_ends (len + 1) code m len 4 r (omega arith) (omega arith) o w,
)
