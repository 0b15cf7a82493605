-- ===== src/Base/Exec.antt =====
-- Python code that changes a state and may raise. What was done before a raise stays done, so the
-- state comes back beside the exception.
use mathlib.Core.Option.{Option, none, some}

-- The exceptions by their class; messages are not modelled.
pub data Exc : Type 0 where
  value_error key_error index_error type_error runtime_error attribute_error os_error db_error : Exc

pub data Result {ℓ} (A : Type ℓ) : Type ℓ where
  ok : A → Result A
  raised : Exc → Result A

abbrev pub Exec {ℓ} : Type ℓ → Type ℓ → Type ℓ
Exec S A = S → Result A × S

module _ {ℓ} {S A : Type ℓ} where
  unfoldable pub return : A → Exec S A
  return a s = (ok a, s)

  unfoldable pub raise : Exc → Exec S A
  raise e s = (raised e, s)

  -- A value that is missing raises `e`.
  unfoldable pub require : Exc → Option A → Exec S A
  require e none s = (raised e, s)
  require e (some a) s = (ok a, s)

  unfoldable pub lift : Result A → Exec S A
  lift r s = (r, s)

  -- `try: m  except Exception: h`
  unfoldable pub try_except : Exec S A → (Exc → Exec S A) → Exec S A
  try_except m h s = let (r, t) = m s in elim r [ ok a ↦ (ok a, t) | raised e ↦ h e t ]

module _ {ℓ} {S A B : Type ℓ} where
  abbrev pub proceed : (A → Exec S B) → Result A → S → Result B × S
  proceed f (ok a) t = f a t
  proceed f (raised e) t = (raised e, t)

  infixl 10 ◌>>=◌ ◌>>◌
  unfoldable pub ◌>>=◌ : Exec S A → (A → Exec S B) → Exec S B
  ◌>>=◌ m f s = let (r, t) = m s in proceed f r t

  abbrev pub ◌>>◌ : Exec S A → Exec S B → Exec S B
  m >> n = m >>= λ _. n

module _ {S : Type 0} where
  unfoldable pub read : Exec S S
  read s = (ok s, s)

  unfoldable pub modify : (S → S) → Exec S (Unit {0})
  modify f s = (ok tt, f s)

  unfoldable pub gets : {A : Type 0} → (S → A) → Exec S A
  gets f s = (ok (f s), s)
