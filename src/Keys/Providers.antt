-- ===== src/Keys/Providers.antt =====
-- The edits of an encryption configuration:
-- pkg/templates/encryptionproviders/encryption_providers.go.
use kubeone.Prelude.{String, Option, none, some, List, [], ◌∷◌}
use kubeone.Fail.{plain, config}
use kubeone.Fail.Outcome.{Outcome, ok, err, ◌>>=◌, deref}

pub record Key : Type 0 where
  pub name : String
  pub secret : String

-- A provider of k8s.io/apiserver's configuration: the two that KubeOne writes, and any other.
pub data Provider : Type 0 where
  aescbc : List Key → Provider
  identity : Provider
  other : String → Provider

-- The providers of each entry of `Resources`. The names of the resources are never changed.
abbrev pub EncryptionConfig : Type 0
EncryptionConfig = List (List Provider)

abbrev pub first {ℓ} : {A : Type ℓ} → List A → Option A
first [] = none
first (x ∷ xs) = some x

-- `keys[len(keys)-1]`
abbrev pub last : List Key → Option Key
last [] = none
last (k ∷ ks) = elim (last ks) [ none ↦ some k | some l ↦ some l ]

-- `Providers[0].AESCBC`, a pointer that is nil for another provider.
abbrev pub aescbc_keys : Provider → Option (List Key)
aescbc_keys (aescbc ks) = some ks
aescbc_keys _ = none

unfoldable pub first_provider : EncryptionConfig → Outcome Provider
first_provider c = do providers ← deref (first c); deref (first providers)

-- `config.Resources[0].Providers = ...`
unfoldable pub set_providers : EncryptionConfig → List Provider → EncryptionConfig
set_providers [] ps = []
set_providers (r ∷ rs) ps = ps ∷ rs

unfoldable pub update_decrypt_only : EncryptionConfig → Outcome EncryptionConfig
update_decrypt_only c = do
  p ← first_provider c
  elim (aescbc_keys p) [
    | none ↦ err (config (plain "empty AESCBC key configuration") "sanity check")
    | some ks ↦ ok (set_providers c (identity ∷ aescbc ks ∷ []))
  ]

-- The new key, if the random secret can be read.
unfoldable pub update_with_new_key : Outcome Key → EncryptionConfig → Outcome EncryptionConfig
update_with_new_key generated c = do
  new ← generated
  p ← first_provider c
  ks ← deref (aescbc_keys p)
  old ← deref (last ks)
  ok (set_providers c (aescbc (new ∷ old ∷ []) ∷ identity ∷ []))

unfoldable pub update_remove_old_key : EncryptionConfig → Outcome EncryptionConfig
update_remove_old_key c = do
  p ← first_provider c
  ks ← deref (aescbc_keys p)
  kept ← deref (first ks)
  ok (set_providers c (aescbc (kept ∷ []) ∷ identity ∷ []))
