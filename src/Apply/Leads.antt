-- ===== src/Apply/Leads.antt =====
-- Whether a list of tasks upgrades the leader: `runApplyUpgradeIfNeeded` of pkg/cmd/apply.go and
-- the lists of pkg/tasks/tasks.go.
use kubeone.Prelude.{
  ℕ, Bool, true, false, ◌&&◌, ◌||◌, List, [], ◌∷◌, ◌++◌, any, ◌≡◌, refl, ◌∙◌, inl, inr, arith,
  Bool-cases, Option-cases,
}
use kubeone.Fail.Outcome.{ok, Outcome-cases}
use kubeone.State.Context.{State, custom_configured}
use kubeone.State.Cluster.{custom_encryption_enabled}
use kubeone.Tasks.Action.{Action}
use kubeone.Tasks.Common.{
  StateTask, with_hostname_os, with_probes_and_safeguard, with_hostname_os_and_probes,
}
use kubeone.Tasks.Resources.{resources, with_resources}
use kubeone.Tasks.Encryption.{
  with_disable_encryption_providers, with_rewrite_secrets, with_custom_encryption_config_updated,
  with_authentication_config_updated,
}
use kubeone.Apply.Upgrade.{
  Readings, with_authentication_config_if_changed, with_changed_custom_config,
}

-- The task function that upgrades the leader's control plane.
abbrev pub is_upgrade_leader : Action → Bool
is_upgrade_leader Action.upgrade_leader = true
is_upgrade_leader _ = false

pub any-append :
    {A : Type 0} (p : A → Bool) (xs ys : List A) → any p (xs ++ ys) ≡ (any p xs || any p ys)
any-append p [] ys = refl
any-append p (x ∷ xs) ys = ground (arith, any-append p xs ys)

pub or_true : (b : Bool) → (b || true) ≡ true
or_true b = ground arith

module _ {V : Type 0} where
  -- Whether a plan upgrades the leader.
  abbrev pub upgrades_leader : List (StateTask V) → Bool
  upgrades_leader = any (λ t. is_upgrade_leader t.fn)

  -- More tasks without the leader's upgrade change nothing.
  pub append-quiet :
      (t us : List (StateTask V))
      → upgrades_leader us ≡ false
      → upgrades_leader (t ++ us) ≡ upgrades_leader t
  append-quiet t us h = ground (arith, any-append (λ t. is_upgrade_leader t.fn) t us)

  pub resources-quiet :
      (now : ℕ) (t : List (StateTask V))
      → upgrades_leader (with_resources now t) ≡ upgrades_leader t
  unfolding with_resources resources
  resources-quiet now t = append-quiet t (resources now) refl

  pub custom-task :
      (t : List (StateTask V))
      → upgrades_leader (with_custom_encryption_config_updated t) ≡ upgrades_leader t
  unfolding with_custom_encryption_config_updated
  custom-task t = append-quiet t _ refl

  pub auth-task :
      (t : List (StateTask V))
      → upgrades_leader (with_authentication_config_updated t) ≡ upgrades_leader t
  unfolding with_authentication_config_updated
  auth-task t = append-quiet t _ refl

  pub rewrite-task :
      (t : List (StateTask V)) → upgrades_leader (with_rewrite_secrets t) ≡ upgrades_leader t
  unfolding with_rewrite_secrets
  rewrite-task t = append-quiet t _ refl

  pub checks-quiet :
      (t : List (StateTask V)) → upgrades_leader (with_hostname_os_and_probes t) ≡ upgrades_leader t
  unfolding with_hostname_os_and_probes with_hostname_os with_probes_and_safeguard
  checks-quiet t = append-quiet (with_hostname_os t) _ refl

  pub disable-quiet :
      (t : List (StateTask V)) (custom : Bool)
      → upgrades_leader (with_disable_encryption_providers t custom) ≡ upgrades_leader t
  unfolding with_disable_encryption_providers
  disable-quiet t true = append-quiet (with_hostname_os_and_probes t) _ refl ∙ checks-quiet t
  disable-quiet t false = append-quiet (with_hostname_os_and_probes t) _ refl ∙ checks-quiet t

  pub custom-same :
      (w : Readings V) (s : State V) (t plan : List (StateTask V))
      → with_changed_custom_config w s t ≡ ok plan
      → upgrades_leader plan ≡ upgrades_leader t
  unfolding with_changed_custom_config
  custom-same w s t plan h = elim (Option-cases s.cluster.features.encryption_providers) [
    | inl absent ↦ ground arith
    | inr (e, present) ↦
        elim (Bool-cases (custom_encryption_enabled s.live_cluster && custom_configured s)) [
          | inr off ↦ ground arith
          | inl on ↦
              elim (Outcome-cases
                (w.unmarshal_encryption_config e.custom_encryption_configuration)) [
                  | inr (inl (er, broken)) ↦ ground arith
                  | inr (inr crashed) ↦ ground arith
                  | inl (text, read) ↦ elim (Option-cases s.live_cluster.encryption_configuration) [
                    | inl unset ↦ ground arith
                    | inr (live, set) ↦ elim (Option-cases live.config) [
                      | inl unread ↦ ground arith
                      | inr (running, known) ↦ ground (arith, custom-task t)
                    ]
                  ]
                ]
        ]
  ]

  pub auth-same :
      (w : Readings V) (s : State V) (t plan : List (StateTask V))
      → with_authentication_config_if_changed w s t ≡ ok plan
      → upgrades_leader plan ≡ upgrades_leader t
  unfolding with_authentication_config_if_changed
  auth-same w s t plan h = elim (Outcome-cases (w.load_authentication_configuration s)) [
    | inr (inl (er, broken)) ↦ ground arith
    | inr (inr crashed) ↦ ground arith
    | inl (text, read) ↦ ground (arith, auth-task t)
  ]
