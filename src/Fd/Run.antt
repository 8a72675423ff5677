-- ===== src/Fd/Run.antt =====
-- How the wrapper's functions run: on its variables, with a result, or waiting for a semaphore, or
-- with a fault.
use fd_picotcp.Prelude.{Option, none, some}
use fd_picotcp.Fd.Types.{Fds, FdError}

-- `blocks`: the call waits for a semaphore, and has done nothing yet. `faults`: memory outside an
-- object is used, or the call does not come back.
pub data Run {ℓ} (W : Type 0) (A : Type ℓ) : Type ℓ where
  returns : A → Fds W → Run W A
  blocks faults : Run W A

abbrev pub M {ℓ} : Type 0 → Type ℓ → Type ℓ
M W A = Fds W → Run W A

module _ {ℓ κ} {W : Type 0} {A : Type ℓ} {B : Type κ} where
  abbrev pub and_then : Run W A → (A → M W B) → Run W B
  and_then (returns a s) f = f a s
  and_then blocks f = blocks
  and_then faults f = faults

  infixl 5 ◌>>=◌
  abbrev pub ◌>>=◌ : M W A → (A → M W B) → M W B
  (p >>= f) s = and_then (p s) f

  infixl 5 ◌>>◌
  abbrev pub ◌>>◌ : M W A → M W B → M W B
  (p >> q) s = and_then (p s) (λ _. q)

module _ {W : Type 0} where
  abbrev pub return : {A : Type 0} → A → M W A
  return a s = returns a s

  abbrev pub fault : {A : Type 0} → M W A
  fault s = faults

  abbrev pub block : {A : Type 0} → M W A
  block s = blocks

  abbrev pub fail : {A : Type 0} → FdError → A → M W A
  fail e a s = returns a (record s { fd_err = e })

  -- A call of the stack or the kernel.
  abbrev pub outside : {A : Type 0} → (W → A × W) → M W A
  outside f s = let (a, w) = f s.world in returns a (record s { world = w })

  abbrev pub gets : {A : Type 0} → (Fds W → A) → M W A
  gets f s = returns (f s) s

  abbrev pub modify : (Fds W → Fds W) → M W (Unit {0})
  modify f s = returns tt (f s)

module _ {W A B : Type 0} where
  -- What to do without a value, and with one.
  abbrev pub maybe : Option A → M W B → (A → M W B) → M W B
  maybe none p f = p
  maybe (some a) p f = f a
