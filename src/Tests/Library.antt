-- ===== src/Tests/Library.antt =====
-- Concrete functions for the libraries that the program calls: versions as numbers, the retries of
-- k8s.io/apimachinery as recursion.
use kubeone.Prelude.{
  ℕ, zero, suc, String, Bool, Option, none, some, Ordering, ◌≡◌, ◌≢◌, refl, arith, ltb, str_eq,
  ◌==◌, if◌then◌else◌,
}
use kubeone.Fail.{Error}
use kubeone.Semver.{SemverLib, swap}
use kubeone.Tasks.Task.{Wait, Waited, finished, failed, interrupted}

abbrev pub cmp_minor : ℕ → ℕ → Ordering
cmp_minor a b = if ltb a b then Ordering.lt else if ltb b a then Ordering.gt else Ordering.eq

pub cmp_minor-swap : (a b : ℕ) → cmp_minor b a ≡ swap (cmp_minor a b)
cmp_minor-swap a b = ground arith

pub cmp_minor_le_trans :
    (a b c : ℕ)
    → cmp_minor a b ≢ Ordering.gt
    → cmp_minor b c ≢ Ordering.gt
    → cmp_minor a c ≢ Ordering.gt
cmp_minor_le_trans a b c h k = ground arith

-- Two versions, 1.33.0 and 1.34.0, by their minor numbers.
abbrev pub parse : String → Option ℕ
parse t = if str_eq t "1.33.0" then some 33 else if str_eq t "1.34.0" then some 34 else none

abbrev pub minors : SemverLib
minors = record {
  Version = ℕ;
  new_version = parse;
  cmp = cmp_minor;
  major = λ _. 1;
  minor = λ v. v;
  patch = λ _. 0;
  text = λ v. if v == 33 then "1.33.0" else "1.34.0";
  constraint_holds = λ _. some (λ v. ltb v 32);
  cmp_swap = cmp_minor-swap;
  cmp_le_trans = cmp_minor_le_trans;
}

module _ {T : Type 0} where
  abbrev pub back_off : ℕ → (T → (Bool × Option Error) × T) → T → Waited × T
  back_off zero c t = (interrupted, t)
  back_off (suc n) c t =
      let rest = back_off n c (c t).1 in
      elim (c t).0.1 [
        | some e ↦ (failed e, (c t).1)
        | none ↦ if (c t).0.0 then (finished, (c t).1) else rest
      ]

abbrev pub retrying : {T : Type 0} → Wait T
retrying = record {
  exponential_backoff = back_off;
  no_steps = λ c t. refl;
  one_check = λ n c t. refl;
}
