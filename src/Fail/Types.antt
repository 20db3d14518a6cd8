-- ===== src/Fail/Types.antt =====
-- Errors and exit codes: pkg/fail/errors.go, pkg/fail/helpers.go and pkg/fail/exitcodes.go.
-- An error is a value with the operation that failed and the error that it wraps. The texts of
-- messages are dropped, since no code branches on them; an operation's name is kept.
use kubeone.Prelude.{ℕ, String, Option, none, some}

-- The struct types of errors.go, and `plain` for an error of another package.
pub data Error : Type 0 where
  plain : String → Error
  runtime : Error → String → Error
  etcd : Error → String → Error
  kube_client : Error → String → Error
  ssh : Error → String → Error
  exec : Error → String → Error
  connection : Error → String → Error
  config : Error → String → Error
  credentials : Error → String → Error
  machine_controller : Error → String → Error
  cloud : Error → String → Error

-- The helpers `fail.Config`, `fail.Runtime` and the like return nil for a nil error.
abbrev pub fail_with : (Error → String → Error) → Option Error → String → Option Error
fail_with kind none op = none
fail_with kind (some e) op = some (kind e op)

abbrev pub config_validation : Option Error → Option Error
config_validation e = fail_with config e "validation"

abbrev pub new_config_error : String → String → Error
new_config_error op message = config (plain message) op

-- `Unwrap` of each type.
abbrev pub unwrap : Error → Option Error
unwrap (plain _) = none
unwrap (runtime e _) = some e
unwrap (etcd e _) = some e
unwrap (kube_client e _) = some e
unwrap (ssh e _) = some e
unwrap (exec e _) = some e
unwrap (connection e _) = some e
unwrap (config e _) = some e
unwrap (credentials e _) = some e
unwrap (machine_controller e _) = some e
unwrap (cloud e _) = some e

-- The `exitCode` methods; `none` for an error without one.
unfoldable pub own_code : Error → Option ℕ
own_code (plain _) = none
own_code (runtime _ _) = some 10
own_code (etcd _ _) = some 11
own_code (kube_client _ _) = some 12
own_code (ssh _ _) = some 13
own_code (exec _ _) = some 16
own_code (connection _ _) = some 14
own_code (config _ _) = some 15
own_code (credentials _ _) = some 15
own_code (machine_controller _ _) = some 17
own_code (cloud _ _) = some 18

-- `errors.AsType` takes the outermost error of the chain that has an exit code. Every struct type
-- has one, so only a `plain` error is passed over, and it wraps nothing.
unfoldable pub exit_code : Option Error → ℕ
unfolding own_code
exit_code none = 0
exit_code (some e) = elim (own_code e) [ some code ↦ code | none ↦ 1 ]
