-- ===== src/Validation/Field.antt =====
-- Errors of fields: the part of k8s.io/apimachinery/pkg/util/validation/field that
-- pkg/apis/kubeone/validation/validation.go builds its lists of.
use kubeone.Prelude.{String, Bool, true, false, List, [], ◌∷◌}

pub data ErrorType : Type 0 where
  required invalid forbidden : ErrorType

-- The path is its last name; indices, values and details are dropped, since nothing reads them.
pub record FieldError : Type 0 where
  pub type : ErrorType
  pub field : String

abbrev pub one : ErrorType → String → List FieldError
one type field = record { type = type; field = field } ∷ []

-- `if test { allErrs = append(allErrs, ...) }`
abbrev pub error_if : Bool → ErrorType → String → List FieldError
error_if true type field = one type field
error_if false type field = []
