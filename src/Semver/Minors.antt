-- ===== src/Semver/Minors.antt =====
-- Which lists the loops give, and when they end: pkg/semverutil/helper.go.
use kubeone.Prelude.{
  ℕ, zero, suc, ◌+◌, ◌-◌, ◌≤◌, ◌<◌, String, Bool, true, false, none, some, List, [], ◌∷◌, map, ltb,
  ◌≡◌, refl, sym, ap, ◌∙◌, subst, arith, if◌then◌else◌,
}
use kubeone.Fail.Outcome.{ok}
use kubeone.Semver.{SemverLib, is_gt}
use kubeone.Semver.Ranges.{
  Formats, parsed, ahead, next_turn, increment_minor, get_version_without_patch, minor_loop,
  from_texts, get_minor_range,
}

-- Which of two releases is greater, by their numbers.
abbrev pub exceeds : ℕ → ℕ → ℕ → ℕ → ℕ → ℕ → Bool
exceeds a b c a' b' c' =
    if ltb a' a
    then true
    else if ltb a a'
    then false
    else if ltb b' b
    then true
    else if ltb b b'
    then false
    else ltb c' c

-- What the package says of versions without a pre-release: three numbers are read as they were
-- written, and such versions are compared by their numbers.
pub record Releases (lib : SemverLib) (formats : Formats) : Type 1 where
  pub Release : lib.Version → Type 0
  pub release : ℕ → ℕ → ℕ → lib.Version
  -- A number that fits into the 64 bits of the package.
  pub IsNumber : ℕ → Type 0
  pub reads :
      (a b c : ℕ)
      → IsNumber a
      → IsNumber b
      → IsNumber c
      → lib.new_version (formats.three a b c) ≡ some (release a b c)
  pub is_release : (a b c : ℕ) → Release (release a b c)
  pub major_release : (a b c : ℕ) → lib.major (release a b c) ≡ a
  pub minor_release : (a b c : ℕ) → lib.minor (release a b c) ≡ b
  pub patch_release : (a b c : ℕ) → lib.patch (release a b c) ≡ c
  pub by_numbers :
      (v w : lib.Version)
      → Release v
      → Release w
      → is_gt (lib.cmp v w)
        ≡ exceeds
            (lib.major v)
            (lib.minor v)
            (lib.patch v)
            (lib.major w)
            (lib.minor w)
            (lib.patch w)

-- `n` numbers from `m` on.
abbrev pub from_to : ℕ → ℕ → List ℕ
from_to m zero = []
from_to m (suc n) = m ∷ from_to (m + 1) n

minus_suc : (a b : ℕ) → a ≤ b → b + 1 - a ≡ suc (b - a)
minus_suc a b h = omega arith

module _ (lib : SemverLib) (formats : Formats) (releases : Releases lib formats) where
  minor_loop-turn :
      (fuel : ℕ) (v last : lib.Version)
      → is_gt (lib.cmp v last) ≡ false
      → releases.IsNumber 0
      → releases.IsNumber (lib.major v)
      → releases.IsNumber (lib.minor v + 1)
      → minor_loop lib formats (suc fuel) v last
        ≡ ahead
            (formats.two (lib.major v) (lib.minor v))
            (minor_loop lib formats fuel (releases.release (lib.major v) (lib.minor v + 1) 0) last)
  unfolding minor_loop increment_minor get_version_without_patch
  minor_loop-turn fuel v last e z a b =
      ap
        (λ b.
          if b
          then some (ok [])
          else next_turn lib formats (λ next. minor_loop lib formats fuel next last)
              (get_version_without_patch lib formats v) (increment_minor lib formats v))
        e
      ∙ ap
          (λ o.
            next_turn lib formats (λ next. minor_loop lib formats fuel next last)
              (get_version_without_patch lib formats v) (parsed o))
          (releases.reads (lib.major v) (lib.minor v + 1) 0 a b z)

  minor_loop-release :
      (fuel a b : ℕ) (last : lib.Version)
      → is_gt (lib.cmp (releases.release a b 0) last) ≡ false
      → releases.IsNumber 0
      → releases.IsNumber a
      → releases.IsNumber (b + 1)
      → minor_loop lib formats (suc fuel) (releases.release a b 0) last
        ≡ ahead (formats.two a b) (minor_loop lib formats fuel (releases.release a (b + 1) 0) last)
  minor_loop-release fuel a b last e z n n' =
      let v = releases.release a b 0 in
      subst
        (λ n.
          minor_loop lib formats (suc fuel) v last
          ≡ ahead (formats.two a n)
              (minor_loop lib formats fuel (releases.release a (n + 1) 0) last))
        (releases.minor_release a b 0)
        (subst
          (λ m.
            minor_loop lib formats (suc fuel) v last
            ≡ ahead (formats.two m (lib.minor v))
                (minor_loop lib formats fuel (releases.release m (lib.minor v + 1) 0) last))
          (releases.major_release a b 0)
          (minor_loop-turn fuel v last e z
            (subst releases.IsNumber (sym (releases.major_release a b 0)) n)
            (subst (λ m. releases.IsNumber (m + 1)) (sym (releases.minor_release a b 0)) n')))

  release-exceeds :
      (a b : ℕ) (last : lib.Version)
      → releases.Release last
      → is_gt (lib.cmp (releases.release a b 0) last)
        ≡ exceeds a b 0 (lib.major last) (lib.minor last) (lib.patch last)
  release-exceeds a b last r =
      let v = releases.release a b 0 in
      let e = releases.by_numbers v last (releases.is_release a b 0) r in
      let m = releases.major_release a b 0 in
      let n = releases.minor_release a b 0 in
      let p = releases.patch_release a b 0 in cc (e, m, n, p)

  minor_loop-stops :
      (fuel : ℕ) (v last : lib.Version)
      → is_gt (lib.cmp v last) ≡ true
      → minor_loop lib formats (suc fuel) v last ≡ some (ok [])
  unfolding minor_loop
  minor_loop-stops fuel v last e = ground arith

  -- The numbers that the loop writes up to the last version.
  abbrev pub Numbers : lib.Version → Type 0
  Numbers last =
      releases.IsNumber (lib.major last) × ((n : ℕ) → n ≤ lib.minor last + 1 → releases.IsNumber n)

  -- From a release without a patch the loop lists the minor numbers up to the last one.
  minor_loop-lists :
      (k m fuel : ℕ) (last : lib.Version)
      → releases.Release last
      → Numbers last
      → m + k ≡ lib.minor last + 1
      → k < fuel
      → minor_loop lib formats fuel (releases.release (lib.major last) m 0) last
        ≡ some (ok (map (λ n. formats.two (lib.major last) n) (from_to m k)))
  minor_loop-lists k m zero last r ns e lt = absurd (omega arith)
  minor_loop-lists zero m (suc fuel) last r ns e lt =
      minor_loop-stops fuel _ last (release-exceeds (lib.major last) m last r ∙ ground arith)
  minor_loop-lists (suc k) m (suc fuel) last r ns e lt =
      let rest = minor_loop-lists k (m + 1) fuel last r ns (omega arith) (omega arith) in
      minor_loop-release fuel (lib.major last) m last
        (release-exceeds (lib.major last) m last r ∙ ground arith) (ns.1 0 (omega arith)) ns.0
        (ns.1 (m + 1) (omega arith))
      ∙ ap (λ o. ahead (formats.two (lib.major last) m) o) rest

  -- Below the major number of the last version the loop goes on as long as the numbers last.
  minor_loop-endless :
      (fuel a b : ℕ) (last : lib.Version)
      → releases.Release last
      → releases.IsNumber a
      → ((n : ℕ) → n ≤ b + fuel → releases.IsNumber n)
      → a < lib.major last
      → minor_loop lib formats fuel (releases.release a b 0) last ≡ none
  unfolding minor_loop
  minor_loop-endless zero a b last r n ns lt = refl
  minor_loop-endless (suc fuel) a b last r n ns lt =
      minor_loop-release fuel a b last (release-exceeds a b last r ∙ ground arith)
        (ns 0 (omega arith)) n (ns (b + 1) (omega arith))
      ∙ ap (ahead (formats.two a b))
          (minor_loop-endless fuel a (b + 1) last r n (λ k le. ns k (omega arith)) lt)

  not_later :
      (first last : lib.Version)
      → releases.Release first
      → releases.Release last
      → lib.major first ≡ lib.major last
      → is_gt (lib.cmp first last) ≡ false
      → lib.minor first ≤ lib.minor last
  not_later first last r r' same e = let order = releases.by_numbers first last r r' in ground arith

  minor_loop-from_to :
      (fuel : ℕ) (first last : lib.Version)
      → releases.Release first
      → releases.Release last
      → lib.major first ≡ lib.major last
      → is_gt (lib.cmp first last) ≡ false
      → Numbers last
      → lib.minor last + 2 ≤ lib.minor first + fuel
      → minor_loop lib formats fuel first last
        ≡ some (
            ok (
              map
                (λ n. formats.two (lib.major last) n)
                (from_to (lib.minor first) (lib.minor last + 1 - lib.minor first))))
  minor_loop-from_to zero first last r r' same e ns enough =
      let ordered = not_later first last r r' same e in absurd (omega arith)
  minor_loop-from_to (suc fuel) first last r r' same e ns enough =
      let b = lib.minor first in
      let k = lib.minor last - b in
      let ordered = not_later first last r r' same e in
      let rest = minor_loop-lists k (b + 1) fuel last r' ns (omega arith) (omega arith) in
      let count = minus_suc b (lib.minor last) ordered in
      minor_loop-turn fuel first last e (ns.1 0 (omega arith))
        (subst releases.IsNumber (sym same) ns.0) (ns.1 (b + 1) (omega arith))
      ∙ ap
          (λ a.
            ahead (formats.two a b)
              (minor_loop lib formats fuel (releases.release a (b + 1) 0) last))
          same
      ∙ ap (ahead (formats.two (lib.major last) b)) rest
      ∙ ap (λ d. some (ok (map (λ n. formats.two (lib.major last) n) (from_to b d)))) (sym count)

  -- GetMinorRange ends on two releases with the same major number, the first no later than the
  -- last, and gives the minor numbers from the one to the other, each once and in order. It makes
  -- one turn for each and one more; the numbers that it writes fit into the package's.
  pub get_minor_range-from_to :
      (fuel : ℕ) (a b : String) (first last : lib.Version)
      → lib.new_version a ≡ some first
      → lib.new_version b ≡ some last
      → releases.Release first
      → releases.Release last
      → lib.major first ≡ lib.major last
      → is_gt (lib.cmp first last) ≡ false
      → Numbers last
      → lib.minor last + 2 ≤ lib.minor first + fuel
      → get_minor_range lib formats fuel a b
        ≡ some (
            ok (
              map
                (λ n. formats.two (lib.major last) n)
                (from_to (lib.minor first) (lib.minor last + 1 - lib.minor first))))
  unfolding get_minor_range
  get_minor_range-from_to fuel a b first last read read' r r' same e ns enough =
      ap
        (λ o.
          from_texts lib formats (minor_loop lib formats fuel) (parsed o)
            (parsed (lib.new_version b)))
        read
      ∙ ap (λ o. from_texts lib formats (minor_loop lib formats fuel) (ok first) (parsed o)) read'
      ∙ minor_loop-from_to fuel first last r r' same e ns enough
