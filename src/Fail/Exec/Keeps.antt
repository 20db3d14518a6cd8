-- ===== src/Fail/Exec/Keeps.antt =====
-- What an action makes of a property of the state, whether it succeeds or fails.
use kubeone.Prelude.{
  Option, none, some, List, [], ◌∷◌, All, Bool, true, false, ◌≡◌, refl, if◌then◌else◌,
}
use kubeone.Fail.Types.{Error}
use kubeone.Fail.Outcome.{Outcome, ok, err, fault}
use kubeone.Fail.Exec.{Exec, lift, check, resume, ◌>>=◌, each}

-- A state with `P` is led to one with `Q`.
pub record Leads {S A : Type 0} (P Q : S → Type 0) (action : Exec S A) : Type 0 where
  pub from : (s : S) → P s → Q (action s).1

abbrev pub Keeps : {S A : Type 0} → (S → Type 0) → Exec S A → Type 0
Keeps P action = Leads P P action

module _ {S : Type 0} (P : S → Type 0) where
  pub Keeps-check : (e : Option Error) → Keeps P (check e)
  Keeps-check (some e) = record { from = λ _ p. p }
  Keeps-check none = record { from = λ _ p. p }

  pub Keeps-done : {A : Type 0} (r : Outcome A) → Keeps P (lift r)
  Keeps-done r = record { from = λ _ p. p }

  pub Keeps-choice :
      {A : Type 0} (test : Bool) (first second : Exec S A)
      → (test ≡ true → Keeps P first)
      → (test ≡ false → Keeps P second)
      → Keeps P (if test then first else second)
  Keeps-choice false first second k l = l refl
  Keeps-choice true first second k l = k refl

-- The second step is taken when the first succeeds; else what the first led to is weakened.
resume-Leads :
    {S A B : Type 0} {R Q : S → Type 0} (step : Outcome A × S) (next : A → Exec S B)
    → (R step.1 → Q step.1)
    → ((a : A) → Leads R Q (next a))
    → R step.1
    → Q (resume step next).1
resume-Leads (fault, s) next weaken l = weaken
resume-Leads (err e, s) next weaken l = weaken
resume-Leads (ok a, s) next weaken l = (l a).from s

module _ {S A B : Type 0} {P Q : S → Type 0} where
  -- The first step keeps `P`, which entails `Q`; the rest leads to `Q`.
  pub Leads-after :
      (first : Exec S A) (next : A → Exec S B)
      → ((s : S) → P s → Q s)
      → Keeps P first
      → ((a : A) → Leads P Q (next a))
      → Leads P Q (first >>= next)
  unfolding ◌>>=◌
  Leads-after first next weaken k l = record {
    from = λ s p. resume-Leads {R = P} {Q = Q} (first s) next (weaken (first s).1) l (k.from s p);
  }

  -- The last step keeps what was reached.
  pub Leads-before :
      (first : Exec S A) (next : A → Exec S B)
      → Leads P Q first
      → ((a : A) → Keeps Q (next a))
      → Leads P Q (first >>= next)
  unfolding ◌>>=◌
  Leads-before first next l k = record {
    from = λ s p. resume-Leads {R = Q} {Q = Q} (first s) next (λ q. q) k (l.from s p);
  }

-- A loop over elements that are known to satisfy `R`.
pub Keeps-each :
    {S A : Type 0} {P : S → Type 0} (R : A → Type 0) (turn : A → Exec S Unit)
    → ((a : A) → R a → Keeps P (turn a))
    → (xs : List A) → All R xs
    → Keeps P (each turn xs)
unfolding each
Keeps-each R turn k [] known = record { from = λ _ p. p }
Keeps-each R turn k (a ∷ xs) (r, known) =
    Leads-before (turn a) (λ _. each turn xs) (k a r) λ _. Keeps-each R turn k xs known
