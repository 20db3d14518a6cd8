-- ===== src/DigitalOcean/Tags.antt =====
-- The tags of a cluster: `sanitizeTag`, `ClusterTag` and `OwnedTag` of
-- pkg/cloudprovider/digitalocean/provider.go.
use kubeone.Prelude.{
  ℕ, zero, suc, String, Bool, ◌&&◌, ◌||◌, leb, ◌==◌, if◌then◌else◌, join, ◌≡◌, refl,
}
use Prim.Native.Char.{code}

-- A character that `invalidTagChars` does not match.
abbrev pub allowed : ℕ → Bool
allowed c =
    (leb b'a' c && leb c b'z')
    || (leb b'A' c && leb c b'Z')
    || (leb b'0' c && leb c b'9')
    || c == b':'
    || c == b'_'
    || c == b'-'

unfoldable pub replace_invalid : String → String
replace_invalid String.[] = String.[]
replace_invalid (String.◌∷◌ c s) =
    String.◌∷◌ (if allowed (code c) then c else "_") (replace_invalid s)

-- `tag[:n]`, where every character is one byte.
unfoldable pub truncate : ℕ → String → String
truncate zero s = String.[]
truncate (suc n) String.[] = String.[]
truncate (suc n) (String.◌∷◌ c s) = String.◌∷◌ c (truncate n s)

unfoldable pub sanitize_tag : String → String
unfolding replace_invalid truncate
sanitize_tag tag = truncate 255 (replace_invalid tag)

unfoldable pub cluster_tag : String → String
unfolding sanitize_tag
cluster_tag cluster_name = sanitize_tag (join "kubeone-cluster:" cluster_name)

unfoldable pub owned_tag : String → String
unfolding sanitize_tag
owned_tag cluster_name = sanitize_tag (join "kubeone-owned:" cluster_name)

tag_of_dots : cluster_tag "a.b" ≡ "kubeone-cluster:a_b"
unfolding cluster_tag
tag_of_dots = refl
