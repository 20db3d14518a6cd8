-- ===== src/Keys/Retried.antt =====
-- An upload of a new key that is tried again: pkg/tasks/encryption_providers.go.
use kubeone.Prelude.{
  String, Option, some, List, [], ◌∷◌, ◌++◌, ◌↔◌, ◌⊎◌, ◌≡◌, refl, sym, ap, ◌∙◌, subst,
}
use kubeone.Fail.Outcome.{Outcome, ok}
use kubeone.Fail.Exec.{resume, ◌>>=◌}
use kubeone.Fail.Exec.Keeps.{Keeps, Keeps-done, Leads-before}
use kubeone.Keys.Providers.{Key, Provider, aescbc, identity, EncryptionConfig, update_with_new_key}
use kubeone.Keys.Rotation.{under, Reads, update_with_new_key_last, update_with_new_key_iff}
use kubeone.Keys.Files.{
  KeyServices, Files, push_config, upload_encryption_configuration_with_new_key,
}

-- The state with a live configuration.
abbrev pub with_live : {W : Type 0} → Files W → EncryptionConfig → Files W
with_live s c = record s { live = some c }

module _ {W : Type 0} (services : KeyServices W) (file_name : String) where
  -- A push leaves the live configuration as it is.
  push_config-live :
      (c : EncryptionConfig) (live : Option EncryptionConfig)
      → Keeps (λ s. s.live ≡ live) (push_config services file_name c)
  push_config-live c live =
      Leads-before _ _ (Keeps-done _ (services.marshal c))
        λ text. Leads-before _ _ (record { from = λ s h. h }) λ _. record { from = λ s h. h }

  upload_with_new_key-live :
      (s : Files W) (new old : Key) (ks : List Key) (ps : List Provider) (rest : EncryptionConfig)
      → (services.random_key s.world).0 ≡ ok new
      → (upload_encryption_configuration_with_new_key services file_name
          (with_live s ((aescbc (ks ++ (old ∷ [])) ∷ ps) ∷ rest))).1.live
        ≡ some ((aescbc (new ∷ old ∷ []) ∷ identity ∷ []) ∷ rest)
  unfolding upload_encryption_configuration_with_new_key ◌>>=◌
  upload_with_new_key-live s new old ks ps rest r =
      let c = (aescbc (ks ++ (old ∷ [])) ∷ ps) ∷ rest in
      let c' = (aescbc (new ∷ old ∷ []) ∷ identity ∷ []) ∷ rest in
      let t = record (with_live s c) { world = (services.random_key s.world).1 } in
      let e = ap (λ k. update_with_new_key k c) r ∙ update_with_new_key_last new old ks ps rest in
      subst
        (λ (o : Outcome EncryptionConfig).
          (resume (o, t)
            (λ x u. push_config services file_name x (record u { live = some x }))).1.live
          ≡ some c')
        (sym e) ((push_config-live c' (some c')).from (with_live t c') refl)

live_same : {W : Type 0} (s : Files W) (c : EncryptionConfig) → s.live ≡ some c → s ≡ with_live s c
live_same s c e = λ i. record s { live = e i }

joined_live :
    (a b : EncryptionConfig) (l : Option EncryptionConfig) (o : Outcome EncryptionConfig)
    → l ≡ some a
    → o ≡ ok a
    → o ≡ ok b
    → l ≡ some b
joined_live a b l o h k k' = cc (h, k, k')

-- The upload of a new key, run again in the state that a first run leaves, as a retry of the task
-- does, whatever the pushes of both runs return: where the runs make the keys `made` and `again`, the
-- live configuration then reads exactly with `again` and the key that was last before, so not with
-- `made`, unless it equals one of them.
pub upload_with_new_key-retried :
    {W : Type 0} (services : KeyServices W) (file_name : String) (s : Files W)
    (made again old : Key) (ks : List Key) (ps : List Provider) (rest : EncryptionConfig)
    → (services.random_key s.world).0 ≡ ok made
    → (services.random_key
        (upload_encryption_configuration_with_new_key services file_name
          (with_live s ((aescbc (ks ++ (old ∷ [])) ∷ ps) ∷ rest))).1.world).0
      ≡ ok again
    → (qs : List Provider) × ((upload_encryption_configuration_with_new_key services file_name
          (upload_encryption_configuration_with_new_key services file_name
            (with_live s ((aescbc (ks ++ (old ∷ [])) ∷ ps) ∷ rest))).1).1.live
        ≡ some (qs ∷ rest))
      × ((k : Key) → Reads (under k) qs ↔ ((again ≡ k) ⊎ (old ≡ k)))
upload_with_new_key-retried services file_name s made again old ks ps rest r r' =
    let upload = upload_encryption_configuration_with_new_key services file_name in
    let s1 = (upload (with_live s ((aescbc (ks ++ (old ∷ [])) ∷ ps) ∷ rest))).1 in
    let c = (aescbc (made ∷ old ∷ []) ∷ identity ∷ []) ∷ rest in
    let same =
      live_same s1 c (upload_with_new_key-live services file_name s made old ks ps rest r) in
    let second =
      upload_with_new_key-live services file_name s1 again old (made ∷ []) (identity ∷ []) rest
        r' in
    let (qs, e, _, _, reads) = update_with_new_key_iff again old (made ∷ []) (identity ∷ []) rest in
    let live = ap (λ x. (upload x).1.live) same ∙ second in
    (
      qs,
      joined_live _ (qs ∷ rest) _ _ live
          (update_with_new_key_last again old (made ∷ []) (identity ∷ []) rest) e,
      reads,
    )
