-- ===== src/Fail/Exec/Ensures.antt =====
-- What holds of the value and the state when an action succeeds.
use kubeone.Prelude.{Bool, true, false, ◌≡◌, refl, if◌then◌else◌}
use kubeone.Fail.Outcome.{Outcome, ok, err, fault}
use kubeone.Fail.Exec.{Exec, pure, lift, resume, ◌>>=◌}

abbrev pub Ended : {S A : Type 0} → (A → S → Type 0) → Outcome A × S → Type 0
Ended Q (ok a, s) = Q a s
Ended Q (err e, s) = Unit
Ended Q (fault, s) = Unit

-- From a state with `P`, a success ends with `Q`.
pub record Ensures {S A : Type 0} (P : S → Type 0) (Q : A → S → Type 0) (m : Exec S A)
    : Type 0 where
  pub from : (s : S) → P s → Ended Q (m s)

Ended-map :
    {S A : Type 0} {Q R : A → S → Type 0} (step : Outcome A × S)
    → ((a : A) (s : S) → Q a s → R a s)
    → Ended Q step
    → Ended R step
Ended-map (ok a, s) h q = h a s q
Ended-map (err e, s) h q = tt
Ended-map (fault, s) h q = tt

-- More is known before, or less is wanted after.
pub Ensures-weaken :
    {S A : Type 0} {P P' : S → Type 0} {Q Q' : A → S → Type 0} (m : Exec S A)
    → ((s : S) → P' s → P s)
    → ((a : A) (s : S) → Q a s → Q' a s)
    → Ensures P Q m
    → Ensures P' Q' m
Ensures-weaken m before after e = record {
  from = λ s p. Ended-map (m s) after (e.from s (before s p));
}

resume-Ended :
    {S A B : Type 0} (R : A → S → Type 0) (Q : B → S → Type 0) (step : Outcome A × S)
    (next : A → Exec S B)
    → Ended R step
    → ((a : A) → Ensures (R a) Q (next a))
    → Ended Q (resume step next)
resume-Ended R Q (ok a, s) next r k = (k a).from s r
resume-Ended R Q (err e, s) next r k = tt
resume-Ended R Q (fault, s) next r k = tt

pub Ensures-bind :
    {S A B : Type 0} {P : S → Type 0} {Q : B → S → Type 0} (R : A → S → Type 0) (first : Exec S A)
    (next : A → Exec S B)
    → Ensures P R first
    → ((a : A) → Ensures (R a) Q (next a))
    → Ensures P Q (first >>= next)
unfolding ◌>>=◌
Ensures-bind {Q = Q} R first next y k = record {
  from = λ s p. resume-Ended R Q (first s) next (y.from s p) k;
}

pub Ensures-pure :
    {S A : Type 0} {P : S → Type 0} {Q : A → S → Type 0} (a : A)
    → ((s : S) → P s → Q a s)
    → Ensures P Q (pure a)
Ensures-pure a h = record { from = h }

-- A result that does not touch the state.
pub Ensures-lift :
    {S A : Type 0} {P : S → Type 0} (R : A → Type 0) (r : Outcome A)
    → ((a : A) → r ≡ ok a → R a)
    → Ensures P (λ a s. P s × R a) (lift r)
Ensures-lift R (ok a) h = record { from = λ s p. (p, h a refl) }
Ensures-lift R (err e) h = record { from = λ s p. tt }
Ensures-lift R fault h = record { from = λ s p. tt }

pub Ensures-if :
    {S A : Type 0} {P : S → Type 0} {Q : A → S → Type 0} (b : Bool) (m n : Exec S A)
    → (b ≡ true → Ensures P Q m)
    → (b ≡ false → Ensures P Q n)
    → Ensures P Q (if b then m else n)
Ensures-if true m n k l = k refl
Ensures-if false m n k l = l refl

-- A fact that does not depend on the state is taken out of what is known before.
pub Ensures-given :
    {S A : Type 0} {P : S → Type 0} {Q : A → S → Type 0} (F : Type 0) (m : Exec S A)
    → (F → Ensures P Q m)
    → Ensures (λ s. P s × F) Q m
Ensures-given F m h = record { from = λ s p. (h p.1).from s p.0 }
