-- ===== src/Fail/Exec/Yields.antt =====
-- What an action keeps and what it returns.
use kubeone.Prelude.{Option, none, some, Bool, true, false, ◌≡◌, refl, if◌then◌else◌}
use kubeone.Fail.Types.{Error}
use kubeone.Fail.Outcome.{Outcome, ok, err, fault}
use kubeone.Fail.Exec.{Exec, pure, check, resume, ◌>>=◌}

-- A property of the value of a success.
abbrev pub Returned : {A : Type 0} → (A → Type 0) → Outcome A → Type 0
Returned R (ok a) = R a
Returned R (err e) = Unit
Returned R fault = Unit

-- The action keeps `P`, and a value that it returns has `R`.
pub record Yields {S A : Type 0} (P : S → Type 0) (R : A → Type 0) (m : Exec S A) : Type 0 where
  pub from : (s : S) → P s → P (m s).1 × Returned R (m s).0

module _ {S : Type 0} (P : S → Type 0) where
  pub Yields-pure : {A : Type 0} {R : A → Type 0} (a : A) → R a → Yields P R (pure a)
  Yields-pure a r = record { from = λ s p. (p, r) }

  pub Yields-check : (e : Option Error) → Yields P (λ _. Unit) (check e)
  Yields-check none = record { from = λ s p. (p, tt) }
  Yields-check (some e) = record { from = λ s p. (p, tt) }

resume-Yields :
    {S A B : Type 0} (P : S → Type 0) (R : A → Type 0) (Q : B → Type 0) (step : Outcome A × S)
    (next : A → Exec S B)
    → P step.1 × Returned R step.0
    → ((a : A) → R a → Yields P Q (next a))
    → P (resume step next).1 × Returned Q (resume step next).0
resume-Yields P R Q (ok a, s) next (p, r) k = (k a r).from s p
resume-Yields P R Q (err e, s) next (p, r) k = (p, tt)
resume-Yields P R Q (fault, s) next (p, r) k = (p, tt)

pub Yields-bind :
    {S A B : Type 0} {P : S → Type 0} {Q : B → Type 0} (R : A → Type 0) (first : Exec S A)
    (next : A → Exec S B)
    → Yields P R first
    → ((a : A) → R a → Yields P Q (next a))
    → Yields P Q (first >>= next)
unfolding ◌>>=◌
Yields-bind {P = P} {Q = Q} R first next y k = record {
  from = λ s p. resume-Yields P R Q (first s) next (y.from s p) k;
}

pub Yields-if :
    {S A : Type 0} {P : S → Type 0} {R : A → Type 0} (b : Bool) (m n : Exec S A)
    → (b ≡ true → Yields P R m)
    → (b ≡ false → Yields P R n)
    → Yields P R (if b then m else n)
Yields-if true m n k l = k refl
Yields-if false m n k l = l refl

pub Returned-map :
    {A : Type 0} {R Q : A → Type 0}
    → ((a : A) → R a → Q a)
    → (r : Outcome A) → Returned R r
    → Returned Q r
Returned-map f (ok a) h = f a h
Returned-map f (err e) h = h
Returned-map f fault h = h
