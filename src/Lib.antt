-- ===== src/Lib.antt =====
-- A model of KubeOne, which installs, upgrades and repairs highly available Kubernetes clusters
-- over SSH. A run of the program reads a configuration, probes the hosts of the cluster into a
-- live state, decides what to do and runs a list of tasks on the shared state.
--
-- The parts, with the files of the repository that they model:
--
-- - Fail: pkg/fail. Errors as values that wrap errors, and the exit code that the program ends
--   with. `Outcome` is a Go function's value and error, with the fault of a nil pointer.
-- - Semver: the interface of github.com/Masterminds/semver/v3, a parameter with the laws of a total
--   preorder. Its child modules are pkg/semverutil: the loops of GetMinorRange and GetPatchRange
--   run on fuel, none is a loop that has not ended, and the fuel that is enough is a hypothesis of
--   the theorem on them.
-- - Api: pkg/apis/kubeone/types.go and helpers.go. The configuration as records. The fields that
--   only templates print are left out. `nth_service_subnet_ip` is NthServiceSubnetIP, with the
--   functions of the package net as a parameter.
-- - State: pkg/state/cluster.go and context.go. Status words as masks of bits (`Status`), a host
--   and its checks (`Host`), the live cluster with BrokenHosts, SafeToDeleteHosts and
--   EtcdToleranceRemain (`Cluster`), UpgradeNeeded and SafeToRepair (`Versions`), and the state
--   that the tasks share (`Context`). `Nodes` is pkg/state/task.go: a run over hosts one after
--   another as a function, a parallel run as a relation of steps in any order. A goroutine goes
--   through the phases of its function, with the lock of the errors and the wait group as parts of
--   the state; a task is one step. `Parallel` and `Completed` are what such runs guarantee.
-- - Tasks: pkg/tasks/task.go, tasks.go and cloud_resources_provision.go. A task names its function
--   by an `Action`; what an action does to the state is the parameter `perform`, since the
--   functions run commands on hosts. `run_task` is Task.Run over a parameter for
--   wait.ExponentialBackoff, whose documented behaviour is a field of `Wait`; it makes at most
--   `default_retries` attempts, so no fuel is needed. `run_tasks` is Tasks.Run. `Plans`,
--   `Resources` and `Encryption` are the lists that WithFullInstall, WithUpgrade, WithResources,
--   WithRotateKey and the like build; `Machines` is WithEnsureControlPlane.
--   `Etcd` is repairClusterIfNeeded of pkg/tasks/etcd.go over its clients as parameters, `Removals`
--   what it removes. `Stages` has the rules by which a run of tasks leads from one property of the
--   cluster to the next.
-- - Apply: pkg/cmd/apply.go. `reconcile` is the decision of runApply, `upgrade_plan` the plan of
--   runApplyUpgradeIfNeeded, `run_apply` the whole function with its two questions.
--   `World` holds what the run meets: credentials, providers, answers.
-- - Probes: pkg/tasks/probes.go. `investigate_cluster` elects the leader, finds the healthy etcd
--   members and joins the nodes; what the cluster answers is the record `Answers`. A live host
--   points to its configured host, so `with_control_plane` writes both.
-- - Keys: pkg/templates/encryptionproviders/encryption_providers.go. The edits of the list of keys.
--   Keys/Files is pkg/tasks/encryption_providers.go over the parameter `KeyServices`; its state holds
--   the live configuration, which the uploads change themselves.
--   `Reads` and `Writes` are the documented behaviour of the API server: it reads with every key
--   and writes with the first.
-- - Validation: pkg/apis/kubeone/validation/validation.go. Lists of field errors for hosts, the
--   control plane, the API endpoint, the network plugins, the features and the cloud provider.
--   `branches` are the `if` of each provider in their order, and `validate_branches` carries
--   providerFound through them. The decoders of machine-controller and ParseCIDR are parameters;
--   texts are code points, of which `byte_len` counts the bytes (Prelude/Runes).
-- - Credentials: pkg/credentials/credentials.go. `find` is the lookup in the credentials file and the
--   environment, `parse_credential_variables` and the checks are those of each provider, and
--   `provider_credentials` is the switch over the providers. Reading the file, the shared AWS
--   configuration and base64 are the parameter `Environment`.
-- - Manifests: pkg/nativeclient. `apply_manifest` is Apply with its phases, the prune and the
--   inventory, `delete_manifest` is Delete. The Kubernetes client is the parameter `Client`; `Server`
--   states what the inventory relies on. The state is kept beside an error (`Exec`, Fail/Exec),
--   since what was sent before an error stays sent.
-- - Yaml: pkg/yamled. Documents as trees, and Get, Set, Append, Remove and Fill. A path is read from
--   its last step, as Parent and Tail do, so that Set is recursion on the path.
-- - DigitalOcean: pkg/cloudprovider/digitalocean/loadbalancer.go and the tags of provider.go.
--   `ensure_load_balancer`, `lookup_load_balancer`, `cleanup_load_balancer` and `release_load_balancer`
--   over the parameter `Client`, for a state `W` of the cloud; `Faithful` is the documented behaviour
--   of the API and `Poll` that of the wait. `fuel` bounds the pages of a listing, and any number of
--   them is enough fuel for a listing with as many. `token` is the outcome of apiToken.
-- - V1beta3: pkg/apis/kubeone/v1beta3/defaults.go, with the fields of types.go that it touches.
--   `set_defaults_kubeone_cluster` applies all functions in their order; the names of cipher suites are
--   a parameter.
-- - Tests: sample clusters and the theorems at them.
--
-- A read through a pointer that may be nil is an `Option`, and its fault is a result of the model
-- (`nil_version`, `nil_fault`, `fault`). Loops are structural recursion over the list that the
-- program ranges over. Maps are association lists. Times are nanoseconds on one scale.
--
-- Not modelled: what the task functions do on hosts and in clouds, the printing of plans and logs,
-- loading of configuration files and their dynamic defaults, addons and templates, the SDKs of the
-- clouds other than DigitalOcean, the decoding of manifests, and the walk over a YAML document with a
-- callback that changes it.
pub mod Prelude
pub mod Credentials
pub mod DigitalOcean
pub mod Fail
pub mod Semver
pub mod Api
pub mod State
pub mod Tasks
pub mod Apply
pub mod Tests
pub mod Probes
pub mod Validation
pub mod Yaml
pub mod V1beta3
pub mod Keys
pub mod Manifests
