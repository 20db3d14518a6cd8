-- ===== src/Tasks/Encryption.antt =====
-- The lists of tasks that change encryption at rest and authentication: pkg/tasks/tasks.go.
use kubeone.Prelude.{String, Bool, List, [], ◌∷◌, ◌++◌, if◌then◌else◌}
use kubeone.Tasks.Action
use kubeone.Tasks.Common.{StateTask, described, with_hostname_os_and_probes}

module _ {V : Type 0} where
  abbrev pub remove_file : StateTask V
  remove_file =
      described Action.remove_encryption_provider_file "removing encryption providers configuration"
        "remove old Encryption Providers configuration file"

  abbrev pub restart_api : String → StateTask V
  restart_api operation =
      described Action.restart_kube_api_server operation "restart KubeAPI containers"

  abbrev pub rewrite_secrets : StateTask V
  rewrite_secrets =
      described Action.rewrite_cluster_secrets "rewriting cluster secrets"
        "rewrite all cluster secrets"

  abbrev pub fetch_file : StateTask V
  fetch_file =
      described Action.fetch_encryption_providers_file "fetching EncryptionProviders config"
        "fetch current Encryption Providers configuration file "

  abbrev pub upload_file : Action.Action → StateTask V
  upload_file fn =
      described fn "uploading encryption providers configuration"
        "upload updated Encryption Providers configuration file"

  unfoldable pub with_disable_encryption_providers : List (StateTask V) → Bool → List (StateTask V)
  with_disable_encryption_providers t custom_config =
      if custom_config
      then with_hostname_os_and_probes t
        ++ (remove_file ∷ restart_api "restarting KubeAPI" ∷ rewrite_secrets ∷ [])
      else with_hostname_os_and_probes t
        ++ (fetch_file
            ∷ upload_file Action.upload_identity_first_encryption_configuration
            ∷ restart_api "restarting kube-apiserver pods"
            ∷ rewrite_secrets
            ∷ remove_file
            ∷ [])

  unfoldable pub with_rewrite_secrets : List (StateTask V) → List (StateTask V)
  with_rewrite_secrets t = t ++ (rewrite_secrets ∷ [])

  unfoldable pub with_custom_encryption_config_updated : List (StateTask V) → List (StateTask V)
  with_custom_encryption_config_updated t =
      t ++ (restart_api "restarting KubeAPI" ∷ rewrite_secrets ∷ [])

  unfoldable pub with_authentication_config_updated : List (StateTask V) → List (StateTask V)
  with_authentication_config_updated t =
      t
      ++ (described Action.update_authentication_config "updating authentication configuration"
            "upload changed AuthenticationConfiguration to control plane nodes"
          ∷ [])

  unfoldable pub with_rotate_key : List (StateTask V) → List (StateTask V)
  with_rotate_key t =
      with_hostname_os_and_probes t
      ++ (fetch_file
          ∷ upload_file Action.upload_encryption_configuration_with_new_key
          ∷ restart_api "restarting KubeAPI"
          ∷ rewrite_secrets
          ∷ upload_file Action.upload_encryption_configuration_without_old_key
          ∷ restart_api "restarting kube-apiserver pods"
          ∷ [])
