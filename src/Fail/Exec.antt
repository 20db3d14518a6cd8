-- ===== src/Fail/Exec.antt =====
-- Go functions that change what a pointer leads to and return an error: a function of the state
-- whose changes stay when it ends with an error.
pub mod Keeps
pub mod Yields
pub mod Ensures
use kubeone.Prelude.{Option, none, some, List, [], ◌∷◌}
use kubeone.Fail.Types.{Error}
use kubeone.Fail.Outcome.{Outcome, ok, err, fault}

abbrev pub Exec {ℓ} : Type ℓ → Type ℓ → Type ℓ
Exec S A = S → Outcome A × S

module _ {ℓ} {S A : Type ℓ} where
  abbrev pub pure : A → Exec S A
  pure a s = (ok a, s)

  abbrev pub lift : Outcome A → Exec S A
  lift r s = (r, s)

module _ {ℓ} {S A B : Type ℓ} where
  abbrev pub resume : Outcome A × S → (A → Exec S B) → Outcome B × S
  resume (ok a, s) f = f a s
  resume (err e, s) f = (err e, s)
  resume (fault, s) f = (fault, s)

  infixl 10 ◌>>=◌ ◌>>◌
  unfoldable pub ◌>>=◌ : Exec S A → (A → Exec S B) → Exec S B
  ◌>>=◌ m f s = resume (m s) f

  abbrev pub ◌>>◌ : Exec S A → Exec S B → Exec S B
  m >> n = m >>= λ _. n

-- A change of the state.
abbrev pub modify : {S : Type 0} → (S → S) → Exec S Unit
modify f s = (ok tt, f s)

-- `if err != nil { return wrap(err) }`
abbrev pub check : {S : Type 0} → Option Error → Exec S Unit
check none s = (ok tt, s)
check (some e) s = (err e, s)

-- A loop that ends at the first error.
unfoldable pub each : {S A : Type 0} → (A → Exec S Unit) → List A → Exec S Unit
each f [] = pure tt
each f (x ∷ xs) = f x >> each f xs
