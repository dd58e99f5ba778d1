-- ===== src/Exec.antt =====
-- Service methods: they read and change the shared state, and return or raise. What was written
-- before a raise stays written, so the state comes back in both cases.
pub mod Reads
use agent_v.Prelude.{ℕ, String, Bool, true, false}

-- the `code` of a `FileChangeError` (file_changes/file_change_service.py)
pub data FileChangeCode : Type 0 where
  generic not_found conflict forbidden validation secret_requires_force : FileChangeCode
  not_revertible already_reverted hash_mismatch : FileChangeCode

-- the exceptions that the modelled services raise
pub data Error : Type 0 where
  key_error value_error runtime_error : Error
  queue_disabled_error job_claim_error queue_job_state_error : Error
  permission_state_error permission_resume_security_error : Error
  human_input_state_error human_input_validation_error human_input_resume_security_error : Error
  os_error permission_error file_not_found_error is_a_directory_error : Error
  file_change_error : FileChangeCode → Error
  -- FastAPI's `HTTPException`: the status and `detail["error"]`
  http_exception : ℕ → String → Error

pub data Result {ℓ} (A : Type ℓ) : Type ℓ where
  ok : A → Result A
  raised : Error → Result A

abbrev pub Exec {ℓ} : Type ℓ → Type ℓ → Type ℓ
Exec S A = S → Result A × S

module _ {ℓ} {S A : Type ℓ} where
  abbrev pub return : A → Exec S A
  return a s = (ok a, s)

  abbrev pub raise : Error → Exec S A
  raise e s = (raised e, s)

  abbrev pub read : (S → A) → Exec S A
  read f s = (ok (f s), s)

abbrev pub modify : {S : Type 0} → (S → S) → Exec S Unit
modify f s = (ok tt, f s)

module _ {ℓ} {S A B : Type ℓ} where
  abbrev pub resume : Result A → S → (A → Exec S B) → Result B × S
  resume (ok a) s k = k a s
  resume (raised e) s k = (raised e, s)

  infixl 10 ◌>>=◌ ◌>>◌
  abbrev pub ◌>>=◌ : Exec S A → (A → Exec S B) → Exec S B
  ◌>>=◌ m k s = resume (m s).0 (m s).1 k

  abbrev pub ◌>>◌ : Exec S A → Exec S B → Exec S B
  m >> n = m >>= λ _. n

-- `if not test: raise e`
abbrev pub require : {S : Type 0} → Bool → Error → Exec S Unit
require true e = return tt
require false e = raise e
