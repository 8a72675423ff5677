-- ===== src/Fd/Keeping.antt =====
-- Predicates that the wrapper's functions keep, with a rule for each way to build a function.
pub mod Index
pub mod Functions
pub mod Histories
use fd_picotcp.Prelude.{Option, none, some, ◌≡◌, refl, Bool, true, false, if◌then◌else◌}
use fd_picotcp.Fd.Types.{Fds, FdError}
use fd_picotcp.Fd.Run.{
  maybe, Run, M, returns, blocks, faults, and_then, ◌>>=◌, ◌>>◌, return, fault, block, fail,
  outside, gets, modify,
}

-- After a call that returns.
abbrev pub After : {W A : Type 0} → (Fds W → Type 0) → Run W A → Type 0
After P (returns a s) = P s
After P blocks = Unit {0}
After P faults = Unit {0}

-- Whenever `p` returns, `P` holds again.
pub record Keeps {W A : Type 0} (P : Fds W → Type 0) (p : M W A) : Type 0 where
  pub at : (s : Fds W) → P s → After P (p s)

module _ {W A : Type 0} {P : Fds W → Type 0} where
  pub Keeps-return : (a : A) → Keeps {A = A} P (return a)
  Keeps-return a = record { at = λ s h. h }

  pub Keeps-fault : Keeps {A = A} P fault
  Keeps-fault = record { at = λ s h. tt }

  pub Keeps-block : Keeps {A = A} P block
  Keeps-block = record { at = λ s h. tt }

  pub Keeps-gets : (f : Fds W → A) → Keeps {A = A} P (gets f)
  Keeps-gets f = record { at = λ s h. h }

  pub Keeps-if : (b : Bool) (p q : M W A) → Keeps P p → Keeps P q → Keeps P (if b then p else q)
  Keeps-if true p q kp kq = kp
  Keeps-if false p q kp kq = kq

  pub Keeps-choice :
      (b : Bool) (p q : M W A) → Keeps P p → Keeps P q → Keeps P (λ s. if b then p s else q s)
  Keeps-choice true p q kp kq = kp
  Keeps-choice false p q kp kq = kq

module _ {W A B : Type 0} {P : Fds W → Type 0} where
  After-and_then :
      (r : Run W A) (f : A → M W B) → After P r → ((a : A) → Keeps P (f a)) → After P (and_then r f)
  After-and_then (returns a s) f h k = (k a).at s h
  After-and_then blocks f h k = tt
  After-and_then faults f h k = tt

  pub Keeps->>= :
      (p : M W A) (f : A → M W B) → Keeps P p → ((a : A) → Keeps P (f a)) → Keeps P (p >>= f)
  Keeps->>= p f kp kf = record { at = λ s h. After-and_then (p s) f (kp.at s h) kf }

  pub Keeps->> : (p : M W A) (q : M W B) → Keeps P p → Keeps P q → Keeps P (p >> q)
  Keeps->> p q kp kq = record { at = λ s h. After-and_then (p s) (λ _. q) (kp.at s h) (λ _. kq) }

  pub Keeps-maybe :
      (o : Option A) (p : M W B) (f : A → M W B)
      → Keeps P p
      → ((a : A) → Keeps P (f a))
      → Keeps P (maybe o p f)
  Keeps-maybe none p f kp kf = kp
  Keeps-maybe (some a) p f kp kf = kf a
