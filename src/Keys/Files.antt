-- ===== src/Keys/Files.antt =====
-- Changing the file with the keys on the hosts and rewriting the secrets:
-- pkg/tasks/encryption_providers.go.
use kubeone.Prelude.{String, Bool, Option, none, some, List, [], if◌then◌else◌, ◌⊎◌, inl, inr}
use kubeone.Fail.{Error, plain, runtime, kube_client, fail_with}
use kubeone.Fail.Outcome.{Outcome, ok, err}
use kubeone.Fail.Exec.{Exec, lift, check, modify, each, ◌>>=◌, ◌>>◌}
use kubeone.Keys.Providers.{
  Key, EncryptionConfig, update_decrypt_only, update_with_new_key, update_remove_old_key,
}

pub record SecretName : Type 0 where
  pub namespace : String
  pub name : String

-- What the functions use of the hosts, the API server and the libraries, over a state `W`.
pub record KeyServices (W : Type 0) : Type 1 where
  pub Secret : Type 0
  -- The leader's file, by its name, and `UnmarshalStrict`.
  pub read_leader_file : String → W → Outcome String × W
  pub unmarshal : String → Outcome EncryptionConfig
  -- `KubernetesToYAML`.
  pub marshal : EncryptionConfig → Outcome String
  -- The parallel runs of `pushEncryptionConfigurationOnNode` and of the removal on the hosts.
  pub push : String → String → W → Option Error × W
  pub delete_files : W → Option Error × W
  pub random_key : W → Outcome Key × W
  pub list_secrets : W → Option Error × (W × List SecretName)
  pub get_secret : SecretName → W → (Error ⊎ Secret) × W
  pub update_secret : Secret → W → Option Error × W
  -- `retry.RetryOnConflict`
  pub retry_on_conflict : (W → Option Error × W) → W → Option Error × W

-- The live configuration, which all tasks share, and the file that is to be uploaded.
pub record Files (W : Type 0) : Type 0 where
  pub world : W
  pub live : Option EncryptionConfig
  pub custom : Bool
  pub upload : String

module _ {W : Type 0} (services : KeyServices W) (file_name : String) where
  abbrev on_hosts : {A : Type 0} → (W → Outcome A × W) → Exec (Files W) A
  on_hosts m s = let (r, w) = m s.world in (r, record s { world = w })

  abbrev run : (W → Option Error × W) → Exec (Files W) Unit
  run m = on_hosts (λ w. let (r, w') = m w in check r w')

  unfoldable pub fetch_encryption_providers_file : Exec (Files W) Unit
  fetch_encryption_providers_file = do
    text ← on_hosts (services.read_leader_file file_name)
    -- The configuration is emptied before the text is decoded; what a failed decoding has already
    -- stored is dropped here.
    modify (λ s. record s { live = some [] })
    c ← lift (services.unmarshal text)
    modify (λ s. record s { live = some c })

  -- `ec == nil || ec.Config == nil`
  abbrev pub live_config : Exec (Files W) EncryptionConfig
  live_config s = elim s.live [
    | none ↦ (
      err (
          runtime (plain "failed to read")
            "validating live cluster encryption providers configuration"),
      s,
    )
    | some c ↦ (ok c, s)
  ]

  -- The configuration as a file, and the push to all control plane hosts.
  abbrev pub push_config : EncryptionConfig → Exec (Files W) Unit
  push_config c = do
    text ← lift (services.marshal c)
    modify (λ s. record s { upload = text })
    run (services.push file_name text)

  abbrev pub refuse_custom : Exec (Files W) Unit
  refuse_custom s = (
    if s.custom
        then err (
            runtime (plain "overriding is not supported")
              "validating custom encryption providers configuration")
        else ok tt,
    s,
  )

  -- This one changes a copy.
  unfoldable pub upload_identity_first_encryption_configuration : Exec (Files W) Unit
  unfolding update_decrypt_only
  upload_identity_first_encryption_configuration = do
    c ← live_config
    refuse_custom
    c' ← lift (update_decrypt_only c)
    push_config c'

  -- These two change the live configuration itself, before they push it.
  unfoldable pub upload_encryption_configuration_with_new_key : Exec (Files W) Unit
  unfolding update_with_new_key
  upload_encryption_configuration_with_new_key = do
    c ← live_config
    key ← on_hosts (λ w. let (r, w') = services.random_key w in (ok r, w'))
    c' ← lift (update_with_new_key key c)
    modify (λ s. record s { live = some c' })
    push_config c'

  unfoldable pub upload_encryption_configuration_without_old_key : Exec (Files W) Unit
  unfolding update_remove_old_key
  upload_encryption_configuration_without_old_key = do
    c ← live_config
    c' ← lift (update_remove_old_key c)
    modify (λ s. record s { live = some c' })
    push_config c'

  unfoldable pub remove_encryption_provider_file : Exec (Files W) Unit
  remove_encryption_provider_file = run services.delete_files

  unfoldable pub rewrite_secret : SecretName → W → Option Error × W
  rewrite_secret n w =
      let (r, w') = services.get_secret n w in
      elim r [ inl e ↦ (some e, w') | inr secret ↦ services.update_secret secret w' ]

  abbrev rewrite_retried : SecretName → Exec (Files W) Unit
  rewrite_retried n = run (λ w.
      let (r, w') = services.retry_on_conflict (rewrite_secret n) w in
      (fail_with kube_client r "updating secret", w'))

  unfoldable pub rewrite_cluster_secrets : Exec (Files W) Unit
  unfolding rewrite_secret
  rewrite_cluster_secrets s =
      let (r, (w, names)) = services.list_secrets s.world in
      (check (fail_with kube_client r "getting secrets") >> each rewrite_retried names)
        (record s { world = w })
