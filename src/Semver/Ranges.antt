-- ===== src/Semver/Ranges.antt =====
-- Lists of versions: pkg/semverutil/helper.go. A loop that has not ended when the fuel is used up
-- gives none.
use kubeone.Prelude.{ℕ, zero, suc, ◌+◌, String, Option, none, some, List, [], ◌∷◌, if◌then◌else◌}
use kubeone.Fail.{plain}
use kubeone.Fail.Outcome.{Outcome, ok, err, fault}
use kubeone.Semver.{SemverLib, is_gt}

-- `fmt.Sprintf` with the format of two and of three numbers.
pub record Formats : Type 0 where
  pub two : ℕ → ℕ → String
  pub three : ℕ → ℕ → ℕ → String

abbrev pub parsed : {A : Type 0} → Option A → Outcome A
parsed none = err (plain "failed to parse version")
parsed (some v) = ok v

-- The version ahead of the result of the rest of the loop.
abbrev pub ahead : String → Option (Outcome (List String)) → Option (Outcome (List String))
ahead v none = none
ahead v (some (ok vs)) = some (ok (v ∷ vs))
ahead v (some (err e)) = some (err e)
ahead v (some fault) = some fault

module _ (lib : SemverLib) (formats : Formats) where
  unfoldable pub increment_minor : lib.Version → Outcome lib.Version
  increment_minor v = parsed (lib.new_version (formats.three (lib.major v) (lib.minor v + 1) 0))

  unfoldable pub increment_patch : lib.Version → Outcome lib.Version
  increment_patch v =
      parsed (lib.new_version (formats.three (lib.major v) (lib.minor v) (lib.patch v + 1)))

  unfoldable pub get_version_without_patch : lib.Version → String
  get_version_without_patch v = formats.two (lib.major v) (lib.minor v)

  -- The loop of both functions, from a version to the last one.
  abbrev pub next_turn :
      (lib.Version → Option (Outcome (List String)))
      → String
      → Outcome lib.Version
      → Option (Outcome (List String))
  next_turn rest v (ok next) = ahead v (rest next)
  next_turn rest v (err e) = some (err e)
  next_turn rest v fault = some fault

  unfoldable pub minor_loop : ℕ → lib.Version → lib.Version → Option (Outcome (List String))
  unfolding increment_minor get_version_without_patch
  minor_loop zero current last = none
  minor_loop (suc fuel) current last =
      if is_gt (lib.cmp current last)
      then some (ok [])
      else next_turn (λ next. minor_loop fuel next last) (get_version_without_patch current)
          (increment_minor current)

  unfoldable pub patch_loop : ℕ → lib.Version → lib.Version → Option (Outcome (List String))
  unfolding increment_patch
  patch_loop zero current last = none
  patch_loop (suc fuel) current last =
      if is_gt (lib.cmp current last)
      then some (ok [])
      else next_turn (λ next. patch_loop fuel next last) (lib.text current)
          (increment_patch current)

  abbrev pub from_texts :
      (lib.Version → lib.Version → Option (Outcome (List String)))
      → Outcome lib.Version
      → Outcome lib.Version
      → Option (Outcome (List String))
  from_texts loop (ok first) (ok last) = loop first last
  from_texts loop (ok first) (err e) = some (err e)
  from_texts loop (ok first) fault = some fault
  from_texts loop (err e) last = some (err e)
  from_texts loop fault last = some fault

  unfoldable pub get_minor_range : ℕ → String → String → Option (Outcome (List String))
  unfolding minor_loop
  get_minor_range fuel first last =
      from_texts (minor_loop fuel) (parsed (lib.new_version first)) (parsed (lib.new_version last))

  unfoldable pub get_patch_range : ℕ → String → String → Option (Outcome (List String))
  unfolding patch_loop
  get_patch_range fuel first last =
      from_texts (patch_loop fuel) (parsed (lib.new_version first)) (parsed (lib.new_version last))
