-- ===== src/Semver.antt =====
-- The semantic versions of github.com/Masterminds/semver/v3, which the program imports: a
-- parameter of the modules that compare versions, with what its documentation says of `Compare`.
pub mod Ranges
pub mod Minors
use kubeone.Prelude.{ℕ, String, Option, Bool, true, false, ◌≡◌, ◌≢◌, Ordering}

abbrev pub swap : Ordering → Ordering
swap Ordering.lt = Ordering.gt
swap Ordering.eq = Ordering.eq
swap Ordering.gt = Ordering.lt

pub record SemverLib : Type 1 where
  pub Version : Type 0
  -- `semver.NewVersion`; none is its error.
  pub new_version : String → Option Version
  -- `v.Compare(o)`, which is -1, 0 or 1.
  pub cmp : Version → Version → Ordering
  pub major : Version → ℕ
  pub minor : Version → ℕ
  pub patch : Version → ℕ
  -- `v.String()`
  pub text : Version → String
  -- `semver.NewConstraint` and `Check` of the result.
  pub constraint_holds : String → Option (Version → Bool)
  -- Versions are compared by precedence, a total preorder.
  pub cmp_swap : (a b : Version) → cmp b a ≡ swap (cmp a b)
  pub cmp_le_trans :
      (a b c : Version) → cmp a b ≢ Ordering.gt → cmp b c ≢ Ordering.gt → cmp a c ≢ Ordering.gt

abbrev pub is_gt : Ordering → Bool
is_gt Ordering.gt = true
is_gt _ = false

abbrev pub is_lt : Ordering → Bool
is_lt Ordering.lt = true
is_lt _ = false
