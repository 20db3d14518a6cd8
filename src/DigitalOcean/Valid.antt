-- ===== src/DigitalOcean/Valid.antt =====
-- Tags that DigitalOcean accepts: `sanitizeTag` of pkg/cloudprovider/digitalocean/provider.go.
use kubeone.Prelude.{
  ℕ, zero, suc, ◌≤◌, String, true, All, ◌≡◌, refl, ap, ◌∙◌, arith, length, Bool-cases, inl, inr,
}
use kubeone.Prelude.Runes.{runes}
use kubeone.DigitalOcean.Tags.{allowed, replace_invalid, truncate, sanitize_tag}
use Prim.Native.Char.{code}

-- Letters, digits, colons, underscores and dashes, at most 255 of them.
abbrev pub IsTag : String → Type 0
IsTag s = All (λ c. allowed c ≡ true) (runes s) × (length (runes s) ≤ 255)

Clean : String → Type 0
Clean s = All (λ c. allowed c ≡ true) (runes s)

replace_invalid-Clean : (s : String) → Clean (replace_invalid s)
unfolding replace_invalid Clean
replace_invalid-Clean String.[] = tt
replace_invalid-Clean (String.◌∷◌ c s) = (
  elim (Bool-cases (allowed (code c))) [ inl fine ↦ rw (fine) fine | inr bad ↦ rw (bad) refl ],
  replace_invalid-Clean s,
)

truncate-Clean : (n : ℕ) (s : String) → Clean s → Clean (truncate n s)
unfolding truncate Clean
truncate-Clean zero s clean = tt
truncate-Clean (suc n) String.[] clean = tt
truncate-Clean (suc n) (String.◌∷◌ c s) (fine, clean) = (fine, truncate-Clean n s clean)

length-truncate : (n : ℕ) (s : String) → length (runes (truncate n s)) ≤ n
unfolding truncate
length-truncate zero s = omega arith
length-truncate (suc n) String.[] = omega arith
length-truncate (suc n) (String.◌∷◌ c s) = omega (arith, length-truncate n s)

replace_invalid-same : (s : String) → Clean s → replace_invalid s ≡ s
unfolding replace_invalid Clean
replace_invalid-same String.[] clean = refl
replace_invalid-same (String.◌∷◌ c s) (fine, clean) =
    rw fine (ap (String.◌∷◌ c) (replace_invalid-same s clean))

truncate-same : (n : ℕ) (s : String) → length (runes s) ≤ n → truncate n s ≡ s
unfolding truncate
truncate-same zero String.[] short = refl
truncate-same zero (String.◌∷◌ c s) short = absurd (omega (arith, short))
truncate-same (suc n) String.[] short = refl
truncate-same (suc n) (String.◌∷◌ c s) short =
    ap (String.◌∷◌ c) (truncate-same n s (omega (arith, short)))

-- A sanitized text is a valid tag, and a valid tag is left as it is.
pub sanitize_tag-IsTag : (s : String) → IsTag (sanitize_tag s) × (IsTag s → sanitize_tag s ≡ s)
unfolding sanitize_tag Clean
sanitize_tag-IsTag s = (
  (
    truncate-Clean 255 (replace_invalid s) (replace_invalid-Clean s),
    length-truncate 255 (replace_invalid s),
  ),
  λ tag. ap (truncate 255) (replace_invalid-same s tag.0) ∙ truncate-same 255 s tag.1,
)
