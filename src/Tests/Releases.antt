-- ===== src/Tests/Releases.antt =====
-- A list of minor versions with a small concrete version package.
use kubeone.Prelude.{
  ℕ, zero, suc, ◌+◌, ◌-◌, ◌≤◌, String, Option, none, some, List, [], ◌∷◌, map, Ordering, ltb,
  str_eq, join, ◌≡◌, ◌≢◌, refl, arith, if◌then◌else◌,
}
use kubeone.Fail.Outcome.{ok}
use kubeone.Semver.{SemverLib, swap, is_gt}
use kubeone.Semver.Ranges.{Formats, get_minor_range}
use kubeone.Semver.Minors.{Releases, from_to, exceeds, get_minor_range-from_to}

-- The digits that this package reads.
data Small : ℕ → Type 0 where
  d0 : Small 0
  d1 : Small 1
  d2 : Small 2

abbrev digit : ℕ → String
digit zero = "0"
digit (suc zero) = "1"
digit (suc (suc n)) = "2"

abbrev dotted : ℕ → ℕ → ℕ → String
dotted a b c = join (digit a) (join "." (join (digit b) (join "." (digit c))))

abbrev Triple : Type 0
Triple = ℕ × ℕ × ℕ

abbrev candidates : List Triple
candidates =
    (0, 0, 0)
    ∷ (0, 0, 1)
    ∷ (0, 0, 2)
    ∷ (0, 1, 0)
    ∷ (0, 1, 1)
    ∷ (0, 1, 2)
    ∷ (0, 2, 0)
    ∷ (0, 2, 1)
    ∷ (0, 2, 2)
    ∷ (1, 0, 0)
    ∷ (1, 0, 1)
    ∷ (1, 0, 2)
    ∷ (1, 1, 0)
    ∷ (1, 1, 1)
    ∷ (1, 1, 2)
    ∷ (1, 2, 0)
    ∷ (1, 2, 1)
    ∷ (1, 2, 2)
    ∷ (2, 0, 0)
    ∷ (2, 0, 1)
    ∷ (2, 0, 2)
    ∷ (2, 1, 0)
    ∷ (2, 1, 1)
    ∷ (2, 1, 2)
    ∷ (2, 2, 0)
    ∷ (2, 2, 1)
    ∷ (2, 2, 2)
    ∷ []

abbrev search_triple : String → List Triple → Option Triple
search_triple s [] = none
search_triple s ((a, b, c) ∷ ts) =
    let rest = search_triple s ts in if str_eq (dotted a b c) s then some (a, b, c) else rest

abbrev cmp_triple : Triple → Triple → Ordering
cmp_triple (a, b, c) (a', b', c') =
    if ltb a a'
    then Ordering.lt
    else if ltb a' a
    then Ordering.gt
    else if ltb b b'
    then Ordering.lt
    else if ltb b' b
    then Ordering.gt
    else if ltb c c'
    then Ordering.lt
    else if ltb c' c
    then Ordering.gt
    else Ordering.eq

swap_triple : (v w : Triple) → cmp_triple w v ≡ swap (cmp_triple v w)
swap_triple (a, b, c) (a', b', c') = ground arith

trans_triple :
    (u v w : Triple)
    → cmp_triple u v ≢ Ordering.gt
    → cmp_triple v w ≢ Ordering.gt
    → cmp_triple u w ≢ Ordering.gt
trans_triple (a, b, c) (a', b', c') (a'', b'', c'') h k = ground arith

abbrev triples : SemverLib
triples = record {
  Version = Triple;
  new_version = λ s. search_triple s candidates;
  cmp = cmp_triple;
  major = λ v. v.0;
  minor = λ v. v.1;
  patch = λ v. v.2;
  text = λ (a, b, c). dotted a b c;
  constraint_holds = λ _. none;
  cmp_swap = swap_triple;
  cmp_le_trans = trans_triple;
}

abbrev printed : Formats
printed = record { two = λ a b. join (digit a) (join "." (digit b)); three = dotted }

search_dotted :
    (a b c : ℕ)
    → Small a
    → Small b
    → Small c
    → search_triple (dotted a b c) candidates ≡ some (a, b, c)
search_dotted _ _ _ d0 d0 d0 = refl
search_dotted _ _ _ d0 d0 d1 = refl
search_dotted _ _ _ d0 d0 d2 = refl
search_dotted _ _ _ d0 d1 d0 = refl
search_dotted _ _ _ d0 d1 d1 = refl
search_dotted _ _ _ d0 d1 d2 = refl
search_dotted _ _ _ d0 d2 d0 = refl
search_dotted _ _ _ d0 d2 d1 = refl
search_dotted _ _ _ d0 d2 d2 = refl
search_dotted _ _ _ d1 d0 d0 = refl
search_dotted _ _ _ d1 d0 d1 = refl
search_dotted _ _ _ d1 d0 d2 = refl
search_dotted _ _ _ d1 d1 d0 = refl
search_dotted _ _ _ d1 d1 d1 = refl
search_dotted _ _ _ d1 d1 d2 = refl
search_dotted _ _ _ d1 d2 d0 = refl
search_dotted _ _ _ d1 d2 d1 = refl
search_dotted _ _ _ d1 d2 d2 = refl
search_dotted _ _ _ d2 d0 d0 = refl
search_dotted _ _ _ d2 d0 d1 = refl
search_dotted _ _ _ d2 d0 d2 = refl
search_dotted _ _ _ d2 d1 d0 = refl
search_dotted _ _ _ d2 d1 d1 = refl
search_dotted _ _ _ d2 d1 d2 = refl
search_dotted _ _ _ d2 d2 d0 = refl
search_dotted _ _ _ d2 d2 d1 = refl
search_dotted _ _ _ d2 d2 d2 = refl

numbered : (v w : Triple) → is_gt (cmp_triple v w) ≡ exceeds v.0 v.1 v.2 w.0 w.1 w.2
numbered (a, b, c) (a', b', c') = ground arith

abbrev small_releases : Releases triples printed
small_releases = record {
  Release = λ v. Unit;
  release = λ a b c. (a, b, c);
  IsNumber = Small;
  reads = search_dotted;
  is_release = λ a b c. tt;
  major_release = λ a b c. refl;
  minor_release = λ a b c. refl;
  patch_release = λ a b c. refl;
  by_numbers = λ v w _ _. numbered v w;
}

up_to_two : (n : ℕ) → n ≤ 2 → Small n
up_to_two zero h = d0
up_to_two (suc zero) h = d1
up_to_two (suc (suc zero)) h = d2
up_to_two (suc (suc (suc n))) h = absurd (omega arith)

lists_two : get_minor_range triples printed 3 "1.0.2" "1.1.0" ≡ some (ok ("1.0" ∷ "1.1" ∷ []))
unfolding get_minor_range
lists_two = refl

get_minor_range-from_to_example :
    get_minor_range triples printed 3 "1.0.2" "1.1.0"
    ≡ some (ok (map (λ n. printed.two 1 n) (from_to 0 (1 + 1 - 0))))
get_minor_range-from_to_example =
    get_minor_range-from_to triples printed small_releases 3 "1.0.2" "1.1.0" (1, 0, 2) (1, 1, 0)
      refl refl tt tt refl refl (d1, up_to_two) (omega arith)
