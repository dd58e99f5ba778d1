-- ===== src/Exec/Reads.antt =====
-- Steps that read the state and leave it as it is.
use agent_v.Prelude.{Bool, true, false, ◌≡◌, refl, ◌∙◌}
use agent_v.Exec.{Result, ok, raised, Error, Exec, require, resume, ◌>>◌}

abbrev pub KeepsState {ℓ} : {S A : Type ℓ} → Exec S A → Type ℓ
KeepsState m = (s : _) → (m s).1 ≡ s

pub require-KeepsState :
    {S : Type 0} (test : Bool) (e : Error) → KeepsState {S = S} (require test e)
require-KeepsState true e s = refl
require-KeepsState false e s = refl

module _ {ℓ} {S A B : Type ℓ} where
  resume-keeps : (r : Result A) (s : S) (n : Exec S B) → KeepsState n → (resume r s (λ x. n)).1 ≡ s
  resume-keeps (ok a) s n keeps = keeps s
  resume-keeps (raised e) s n keeps = refl

  pub then-KeepsState :
      (m : Exec S A) (n : Exec S B) → KeepsState m → KeepsState n → KeepsState (m >> n)
  then-KeepsState m n first second s = resume-keeps (m s).0 (m s).1 n second ∙ first s

  -- What holds if the check raises, and after the step, holds of the check and then the step.
  pub check_then :
      (P : Result B × S → Type ℓ) (check : Exec S A) (step : Exec S B) (s : S)
      → KeepsState check
      → ((e : Error) → P (raised e, s))
      → P (step s)
      → P ((check >> step) s)
  check_then P check step s keeps refused done = go (check s).0 (check s).1 (keeps s)
    where
      go : (r : Result A) (after : S) → after ≡ s → P (resume r after (λ x. step))
      go (ok a) after same = rw same done
      go (raised e) after same = rw same (refused e)

  -- A step and the rest return, so the step returns, and the rest where it leaves the state.
  pub then-ok :
      (m : Exec S A) (n : Exec S B) (s t : S) (b : B)
      → (m >> n) s ≡ (ok b, t)
      → (a : A) × (m s ≡ (ok a, (m s).1)) × (n (m s).1 ≡ (ok b, t))
  then-ok m n s t b done = go (m s).0 (m s).1 done
    where
      go :
          (r : Result A) (u : S)
          → resume r u (λ x. n) ≡ (ok b, t)
          → (a : A) × (◌≡◌ {A = Result A × S} (r, u) (ok a, u)) × (n u ≡ (ok b, t))
      go (ok a) u done = (a, refl, done)
      go (raised e) u done = absurd cc
