-- ===== src/Credentials/Finder.antt =====
-- Where a credential is looked up, and how the variables of a provider are read:
-- pkg/credentials/credentials.go.
use kubeone.Prelude.{
  String, not, Option, none, some, List, [], ◌∷◌, is_empty, str_eq, join, ◌&&◌, if◌then◌else◌,
}
use kubeone.Fail.{Error, plain, credentials}
use kubeone.Fail.Outcome.{Outcome, ok, err}

-- `map[string]string`: reads take the first entry of a key, writes replace it.
abbrev pub Values : Type 0
Values = List (String × String)

-- `m[key]`, the empty text for a missing key. No code tells the two apart.
unfoldable pub value : String → Values → String
value k [] = ""
value k ((k', v) ∷ m) = let rest = value k m in if str_eq k k' then v else rest

unfoldable pub put_value : String → String → Values → Values
put_value k v [] = (k, v) ∷ []
put_value k v ((k', w) ∷ m) =
    let rest = put_value k v m in if str_eq k k' then (k, v) ∷ m else (k', w) ∷ rest

-- The credentials file, the environment, and the type of credentials that is asked for.
pub record CredentialsFinder : Type 0 where
  pub static : Values
  pub dynamic : String → String
  pub typ : String

unfoldable pub typed_key : CredentialsFinder → String → String
typed_key cf name = join (join cf.typ "_") name

unfoldable pub fetch : CredentialsFinder → String → String
unfolding value
fetch cf name = let v = value name cf.static in if not (is_empty v) then v else cf.dynamic name

unfoldable pub find : CredentialsFinder → String → String
unfolding fetch typed_key
find cf name =
    let typed = fetch cf (typed_key cf name) in
    if not (is_empty cf.typ) && not (is_empty typed) then typed else fetch cf name

pub record ProviderEnvironmentVariable : Type 0 where
  pub name : String
  pub machine_controller_name : String

abbrev pub credentials_error : String → String → Error
credentials_error op message = credentials (plain message) op

-- `strings.TrimSpace` is the parameter `trim`.
module _ (trim : String → String) (lookup : String → String) where
  -- The values under the names of KubeOne.
  unfoldable pub read_variables : List ProviderEnvironmentVariable → Values → Values
  unfolding put_value
  read_variables [] creds = creds
  read_variables (v ∷ vs) creds = read_variables vs (put_value v.name (trim (lookup v.name)) creds)

  -- The values under the names of machine-controller.
  unfoldable pub rename_variables : List ProviderEnvironmentVariable → Values → Values → Values
  unfolding put_value value
  rename_variables [] creds mc_creds = mc_creds
  rename_variables (v ∷ vs) creds mc_creds =
      let name = if is_empty v.machine_controller_name then v.name else v.machine_controller_name in
      rename_variables vs creds (put_value name (value v.name creds) mc_creds)

  unfoldable pub parse_credential_variables :
      List ProviderEnvironmentVariable → (Values → Option Error) → Outcome Values
  unfolding read_variables rename_variables
  parse_credential_variables vs validation =
      let creds = read_variables vs [] in
      elim (validation creds) [ some e ↦ err e | none ↦ ok (rename_variables vs creds []) ]
