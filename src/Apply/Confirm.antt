-- ===== src/Apply/Confirm.antt =====
-- The approval of a plan: pkg/confirmation/confirm.go.
use kubeone.Prelude.{String, Bool, true, false, not, Option, none, some, str_eq, if◌then◌else◌}
use kubeone.Fail.{Error, plain, runtime}

-- What the terminal offers at one question: whether both streams are one, and the line that is
-- read without its end, or a failed read.
pub record Terminal : Type 0 where
  pub is_terminal : Bool
  pub line : Option String

unfoldable pub approved : Bool → Terminal → Bool × Option Error
approved auto_approve t =
    if auto_approve
    then (true, none)
    else if not t.is_terminal
    then (false, some (runtime (plain "not running in the terminal") "terminal detecting"))
    else elim t.line [
      | none ↦ (false, some (runtime (plain "read") "reading confirmation"))
      | some answer ↦ (str_eq answer "yes", none)
    ]
