-- ===== src/Fail/Codes.antt =====
-- What the exit code of the program tells: pkg/fail/exitcodes.go.
use kubeone.Prelude.{String, Option, none, some, ◌≡◌, ◌⊎◌, ◌≤◌, arith, refl, inl, inr}
use kubeone.Fail.Types.{Error, plain, runtime, exit_code}

-- The program exits with 0 exactly without an error, and with the default code 1 exactly for an
-- error of another package that no struct type of the program wraps. Every other error gives a
-- code from 10 to 18.
exit_code_classes :
    (r : Option Error)
    → ((r ≡ none) × (exit_code r ≡ 0))
      ⊎ (((t : String) × (r ≡ some (plain t))) × (exit_code r ≡ 1))
      ⊎ ((10 ≤ exit_code r) × (exit_code r ≤ 18))
unfolding exit_code
exit_code_classes none = inl (refl, refl)
exit_code_classes (some (plain t)) = inr (inl ((t, refl), refl))
exit_code_classes (some (runtime _ _)) = inr (inr (omega arith))
exit_code_classes (some _) = inr (inr (omega arith))
