-- ===== src/Keys/Rotation.antt =====
-- Which secrets stay readable while keys are rotated:
-- pkg/templates/encryptionproviders/encryption_providers.go.
use kubeone.Prelude.{
  some, List, [], ◌∷◌, ◌++◌, Any, here, there, ◌≡◌, ◌↔◌, ◌⊎◌, inl, inr, refl, arith,
}
use kubeone.Fail.Outcome.{ok}
use kubeone.Keys.Providers.{
  Key, Provider, aescbc, identity, EncryptionConfig, first, last, first_provider, set_providers,
  update_decrypt_only, update_with_new_key, update_remove_old_key,
}

-- How a secret is stored: in plain form, or with a key.
pub data Form : Type 0 where
  plain_form : Form
  under : Key → Form

-- The API server reads a secret if some provider of the resource reads it.
pub data Reads : Form → List Provider → Type 0 where
  by_identity : {ps : List Provider} → Reads plain_form (identity ∷ ps)
  by_key :
      {k : Key} {ks : List Key} {ps : List Provider}
      → Any (λ x. x ≡ k) ks
      → Reads (under k) (aescbc ks ∷ ps)
  by_next : {f : Form} {p : Provider} {ps : List Provider} → Reads f ps → Reads f (p ∷ ps)

-- It writes with the first key of the first provider.
abbrev pub Writes : Form → List Provider → Type 0
Writes plain_form ps = first ps ≡ some identity
Writes (under k) ps = (ks : List Key) × (first ps ≡ some (aescbc ks)) × (first ks ≡ some k)

-- A key is read exactly if it is one of the keys of the first provider.
read_key :
    (k : Key) (ks : List Key) → Reads (under k) (aescbc ks ∷ identity ∷ []) → Any (λ x. x ≡ k) ks
read_key k ks (by_key a) = a
read_key k ks (by_next (by_next r)) = elim r [ ]

one_of_two : (a b k : Key) → Any (λ x. x ≡ k) (a ∷ b ∷ []) → (a ≡ k) ⊎ (b ≡ k)
one_of_two a b k (here e) = inl e
one_of_two a b k (there (here e)) = inr e
one_of_two a b k (there (there r)) = elim r [ ]

only : (a k : Key) → Any (λ x. x ≡ k) (a ∷ []) → a ≡ k
only a k (here e) = e
only a k (there r) = elim r [ ]

last-append : (ks : List Key) (k : Key) → last (ks ++ (k ∷ [])) ≡ some k
last-append [] k = refl
last-append (x ∷ ks) k = ground (arith, last-append ks k)

pub update_with_new_key_last :
    (new old : Key) (ks : List Key) (ps : List Provider) (rest : EncryptionConfig)
    → update_with_new_key (ok new) ((aescbc (ks ++ (old ∷ [])) ∷ ps) ∷ rest)
      ≡ ok ((aescbc (new ∷ old ∷ []) ∷ identity ∷ []) ∷ rest)
unfolding update_with_new_key first_provider set_providers
update_with_new_key_last new old ks ps rest = rw (last-append ks old) refl

-- Adding a key succeeds on a configuration whose first provider has keys. Then secrets are written
-- with the new key; those in plain form, those with the new key and those with the last key of
-- before are read, and no others: an older key than the last is lost.
pub update_with_new_key_iff :
    (new old : Key) (ks : List Key) (ps : List Provider) (rest : EncryptionConfig)
    → (qs : List Provider) × (update_with_new_key (ok new) ((aescbc (ks ++ (old ∷ [])) ∷ ps) ∷ rest)
        ≡ ok (qs ∷ rest))
      × Writes (under new) qs
      × Reads plain_form qs
      × ((k : Key) → Reads (under k) qs ↔ ((new ≡ k) ⊎ (old ≡ k)))
unfolding update_with_new_key first_provider set_providers
update_with_new_key_iff new old ks ps rest =
    let qs = aescbc (new ∷ old ∷ []) ∷ identity ∷ [] in
    (
      qs,
      update_with_new_key_last new old ks ps rest,
      (new ∷ old ∷ [], refl, refl),
      by_next by_identity,
      λ k. (
        (λ r. one_of_two new old k (read_key k (new ∷ old ∷ []) r)),
        λ e. elim e [ inl a ↦ by_key (here a) | inr b ↦ by_key (there (here b)) ],
      ),
    )

-- A rotation that starts from one key and completes: in between, both keys are read and secrets are
-- written with the new one; at the end the new key alone is read. Secrets in plain form are read
-- throughout.
pub rotation-Reads :
    (new old : Key) (rest : EncryptionConfig)
    → (c d : List Provider) × (update_with_new_key
          (ok new)
          ((aescbc (old ∷ []) ∷ identity ∷ []) ∷ rest)
        ≡ ok (c ∷ rest))
      × (update_remove_old_key (c ∷ rest) ≡ ok (d ∷ rest))
      × (Reads (under old) c × Reads (under new) c × Reads plain_form c × Writes (under new) c)
      × (Reads plain_form d × Writes (under new) d)
      × ((k : Key) → Reads (under k) d ↔ (new ≡ k))
unfolding update_with_new_key update_remove_old_key first_provider set_providers
rotation-Reads new old rest = (
  aescbc (new ∷ old ∷ []) ∷ identity ∷ [],
  aescbc (new ∷ []) ∷ identity ∷ [],
  refl,
  refl,
  (
    by_key (there (here refl)),
    by_key (here refl),
    by_next by_identity,
    (new ∷ old ∷ [], refl, refl),
  ),
  (by_next by_identity, (new ∷ [], refl, refl)),
  λ k. ((λ r. only new k (read_key k (new ∷ []) r)), λ e. by_key (here e)),
)

-- Disabling an encryption keeps every key of the first provider readable, and secrets in plain
-- form; from then on secrets are written in plain form.
update_decrypt_only-Reads :
    (ks : List Key) (ps : List Provider) (rest : EncryptionConfig)
    → (qs : List Provider) × (update_decrypt_only ((aescbc ks ∷ ps) ∷ rest) ≡ ok (qs ∷ rest))
      × Writes plain_form qs
      × Reads plain_form qs
      × ((k : Key) → Any (λ x. x ≡ k) ks → Reads (under k) qs)
unfolding update_decrypt_only first_provider set_providers
update_decrypt_only-Reads ks ps rest =
    (identity ∷ aescbc ks ∷ [], refl, refl, by_identity, λ k a. by_next (by_key a))
