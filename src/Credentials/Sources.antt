-- ===== src/Credentials/Sources.antt =====
-- The order in which a credential is looked for: pkg/credentials/credentials.go.
use kubeone.Prelude.{String, true, List, [], ◌∷◌, ◌++◌, is_empty, eq_iff, ◌≡◌, arith, if◌then◌else◌}
use kubeone.Credentials.Finder.{value, CredentialsFinder, typed_key, fetch, find}

-- The first text that is not empty.
abbrev pub first_set : List String → String
first_set [] = ""
first_set (v ∷ vs) = let rest = first_set vs in if is_empty v then rest else v

-- The places under one name: the file, then the environment.
abbrev pub places : CredentialsFinder → String → List String
places cf name = value name cf.static ∷ cf.dynamic name ∷ []

empty-eq : (v : String) → is_empty v ≡ true → v ≡ ""
empty-eq v h = (eq_iff v "").0 h

-- A credential is the first text that is not empty, in this order: in the file under the name with
-- the type, in the environment under that name, in the file and in the environment under the plain
-- name. Without a type only the plain name is looked for.
pub find-first_set :
    (cf : CredentialsFinder) (name : String)
    → find cf name
      ≡ first_set
          ((if is_empty cf.typ then [] else places cf (typed_key cf name)) ++ places cf name)
unfolding find fetch
find-first_set cf name =
    let e = empty-eq (cf.dynamic name) in
    let e' = empty-eq (cf.dynamic (typed_key cf name)) in ground arith
