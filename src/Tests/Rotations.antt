-- ===== src/Tests/Rotations.antt =====
-- The theorems on encryption keys at concrete keys.
use kubeone.Prelude.{
  ℕ, ◌+◌, ◌==◌, false, none, some, List, [], ◌∷◌, ◌≡◌, ◌↔◌, ◌⊎◌, inr, refl, if◌then◌else◌,
}
use kubeone.Fail.Outcome.{ok}
use kubeone.Fail.{plain}
use kubeone.Fail.Exec.{◌>>=◌}
use kubeone.Keys.Files.{KeyServices, Files, upload_encryption_configuration_with_new_key}
use kubeone.Keys.Retried.{with_live, upload_with_new_key-retried}
use kubeone.Keys.Providers.{
  first_provider, set_providers, Key, Provider, aescbc, identity, update_with_new_key,
  update_remove_old_key,
}
use kubeone.Keys.Rotation.{
  plain_form, under, Reads, Writes, update_with_new_key_iff, rotation-Reads,
}

abbrev oldest : Key
oldest = record { name = "kubeone-1"; secret = "a" }

abbrev old : Key
old = record { name = "kubeone-2"; secret = "b" }

abbrev new : Key
new = record { name = "kubeone-3"; secret = "c" }

-- A rotation that was cut off has left two keys.
update_with_new_key_iff_example :
    (qs : List Provider) × (update_with_new_key
        (ok new)
        ((aescbc (oldest ∷ old ∷ []) ∷ identity ∷ []) ∷ [])
      ≡ ok (qs ∷ []))
    × Writes (under new) qs
    × Reads plain_form qs
    × ((k : Key) → Reads (under k) qs ↔ ((new ≡ k) ⊎ (old ≡ k)))
update_with_new_key_iff_example = update_with_new_key_iff new old (oldest ∷ []) (identity ∷ []) []

rotation-Reads_example :
    (c d : List Provider) × (update_with_new_key (ok new) ((aescbc (old ∷ []) ∷ identity ∷ []) ∷ [])
      ≡ ok (c ∷ []))
    × (update_remove_old_key (c ∷ []) ≡ ok (d ∷ []))
    × (Reads (under old) c × Reads (under new) c × Reads plain_form c × Writes (under new) c)
    × (Reads plain_form d × Writes (under new) d)
    × ((k : Key) → Reads (under k) d ↔ (new ≡ k))
rotation-Reads_example = rotation-Reads new old []

-- Each random key is another one, and the first push fails.
abbrev services : KeyServices ℕ
services = record {
  Secret = Unit;
  read_leader_file = λ name w. (ok "", w);
  unmarshal = λ text. ok [];
  marshal = λ c. ok "";
  push = λ name text w. (if w == 1 then some (plain "no connection") else none, w);
  delete_files = λ w. (none, w);
  random_key = λ w. (ok (if w == 0 then old else new), w + 1);
  list_secrets = λ w. (none, (w, []));
  get_secret = λ n w. (inr tt, w);
  update_secret = λ s w. (none, w);
  retry_on_conflict = λ fn w. fn w;
}

abbrev files : Files ℕ
files = record { world = 0; live = none; custom = false; upload = "" }

first_upload_made :
    (services.random_key
      (upload_encryption_configuration_with_new_key services "encryption-providers.yaml"
        (with_live files ((aescbc (oldest ∷ []) ∷ identity ∷ []) ∷ []))).1.world).0
    ≡ ok new
unfolding upload_encryption_configuration_with_new_key ◌>>=◌ first_provider set_providers
first_upload_made = refl

upload_with_new_key-retried_example :
    (qs : List Provider) × ((upload_encryption_configuration_with_new_key services
        "encryption-providers.yaml"
        (upload_encryption_configuration_with_new_key services "encryption-providers.yaml"
          (with_live files ((aescbc (oldest ∷ []) ∷ identity ∷ []) ∷ []))).1).1.live
      ≡ some (qs ∷ []))
    × ((k : Key) → Reads (under k) qs ↔ ((new ≡ k) ⊎ (oldest ≡ k)))
upload_with_new_key-retried_example =
    upload_with_new_key-retried services "encryption-providers.yaml" files old new oldest []
      (identity ∷ []) [] refl first_upload_made
