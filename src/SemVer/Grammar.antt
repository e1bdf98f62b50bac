-- ===== src/SemVer/Grammar.antt =====
-- `SemVer.parse` and `SemVer.__str__` of src/quota_monitor/semver.py. The pattern `_SEMVER` is read
-- from left to right: a run of decimal digits ends before the first other character, a
-- pre-release before the first "+", so that no branch of the pattern is tried twice.
use mathlib.Core.Option
use openai_free_credit_track.Base.{
  ℕ, suc, zero, ◌+◌, ◌/◌, ◌%◌, Bool, true, false, List, [], ◌∷◌, ◌++◌, ◌&&◌, ◌||◌, not, leb, ltb,
  ◌==◌, if◌then◌else◌, Option, none, some, all, is_empty,
}
use openai_free_credit_track.Base.Text.{Text}
use openai_free_credit_track.SemVer.{Unicode, SemVer, int}

abbrev pub dot : ℕ
dot = b'.'

abbrev pub plus : ℕ
plus = b'+'

abbrev pub minus : ℕ
minus = b'-'

-- The longest prefix whose characters pass the test, and the rest.
unfoldable pub span : (ℕ → Bool) → Text → Text × Text
span p [] = ([], [])
span p (c ∷ s) = let (a, b) = span p s in if p c then (c ∷ a, b) else ([], c ∷ s)

cons_head : ℕ → List Text → List Text
cons_head c [] = (c ∷ []) ∷ []
cons_head c (x ∷ xs) = (c ∷ x) ∷ xs

-- `text.split(".")`
unfoldable pub split_dots : Text → List Text
unfolding cons_head
split_dots [] = [] ∷ []
split_dots (c ∷ s) = let rest = split_dots s in if c == dot then [] ∷ rest else cons_head c rest

-- `".".join(texts)`
unfoldable pub join_dots : List Text → Text
join_dots [] = []
join_dots (x ∷ []) = x
join_dots (x ∷ y ∷ xs) = x ++ (dot ∷ join_dots (y ∷ xs))

-- `[A-Za-z-]` and `[0-9A-Za-z-]`
abbrev pub is_alpha : ℕ → Bool
is_alpha c = (c == minus) || (leb b'A' c && leb c b'Z') || (leb b'a' c && leb c b'z')

abbrev pub is_alphanumeric : ℕ → Bool
is_alphanumeric c = (leb b'0' c && leb c b'9') || is_alpha c

abbrev pub then_alphanumeric : Text → Bool
then_alphanumeric [] = false
then_alphanumeric (c ∷ s) = is_alpha c && all is_alphanumeric s

module _ (u : Unicode) where
  -- `0|[1-9]\d*`
  unfoldable pub is_number : Text → Bool
  is_number [] = false
  is_number (c ∷ s) =
      ((c == b'0') && is_empty s) || (leb b'1' c && leb c b'9' && all u.is_decimal s)

  -- `0|[1-9]\d*|\d*[A-Za-z-][0-9A-Za-z-]*`
  unfoldable pub is_pre_identifier : Text → Bool
  unfolding is_number span
  is_pre_identifier s = is_number s || then_alphanumeric (span u.is_decimal s).1

-- `[0-9A-Za-z-]+`
unfoldable pub is_build_identifier : Text → Bool
is_build_identifier s = not (is_empty s) && all is_alphanumeric s

infixl 5 ◌>>=◌
abbrev pub ◌>>=◌ {ℓ κ} : {A : Type ℓ} {B : Type κ} → Option A → (A → Option B) → Option B
none >>= k = none
some a >>= k = k a

abbrev when {ℓ} : {A : Type ℓ} → Bool → A → Option A
when true a = some a
when false a = none

-- What the pattern's groups match.
pub record Groups : Type 0 where
  pub major : Text
  pub minor : Text
  pub patch : Text
  pub prerelease : Option Text
  pub build : Option Text

-- The literal dot between two numbers.
unfoldable pub after_dot : Text → Option Text
after_dot [] = none
after_dot (c ∷ s) = when (c == dot) s

-- `(?:\+(?P<build>…))?$`
unfoldable pub match_build : Text → Option (Option Text)
match_build [] = some none
match_build (c ∷ s) = when ((c == plus) && all is_build_identifier (split_dots s)) (some s)

module _ (u : Unicode) where
  -- A number of the core, with the text behind it.
  unfoldable pub match_number : Text → Option (Text × Text)
  match_number s = let (a, b) = span u.is_decimal s in when (is_number u a) (a, b)

  match_suffix_from : Text → Option (Option Text × Option Text)
  match_suffix_from s =
      let (p, q) = span (λ c. not (c == plus)) s in
      if all (is_pre_identifier u) (split_dots p)
      then Option.map (λ b. (some p, b)) (match_build q)
      else none

  -- `(?:-(?P<prerelease>…))?(?:\+(?P<build>…))?$`
  unfoldable pub match_suffix : Text → Option (Option Text × Option Text)
  unfolding match_suffix_from
  match_suffix [] = some (none, none)
  match_suffix (c ∷ s) =
      if c == minus then match_suffix_from s else Option.map (λ b. (none, b)) (match_build (c ∷ s))

  -- `_SEMVER.fullmatch(text)`
  unfoldable pub full_match : Text → Option Groups
  full_match s = do
    (major, s1) ← match_number s
    s2 ← after_dot s1
    (minor, s3) ← match_number s2
    s4 ← after_dot s3
    (patch, s5) ← match_number s4
    (pre, build) ← match_suffix s5
    some (record { major = major; minor = minor; patch = patch; prerelease = pre; build = build })

-- `tuple(identifier for identifier in texts if identifier)`
unfoldable pub nonempty : List Text → List Text
nonempty [] = []
nonempty (x ∷ xs) = let rest = nonempty xs in if is_empty x then rest else x ∷ rest

unfoldable pub identifiers : Option Text → List Text
identifiers none = nonempty (split_dots [])
identifiers (some s) = nonempty (split_dots s)

abbrev version_of : Unicode → Groups → SemVer
version_of u g = record {
  major = int u g.major;
  minor = int u g.minor;
  patch = int u g.patch;
  prerelease = identifiers g.prerelease;
  build = identifiers g.build;
}

-- `SemVer.parse`; `none` is the `SemVerError`.
unfoldable pub parse : Unicode → Text → Option SemVer
parse u s = Option.map (version_of u) (full_match u s)

-- The decimal digits of a number. Each round divides by ten, so that `n + 1` rounds suffice.
unfoldable pub decimal_from : ℕ → ℕ → Text
decimal_from zero n = []
decimal_from (suc fuel) n =
    let front = decimal_from fuel (n / 10) in
    if ltb n 10 then (b'0' + n) ∷ [] else front ++ ((b'0' + n % 10) ∷ [])

unfoldable pub decimal : ℕ → Text
unfolding decimal_from
decimal n = decimal_from (suc n) n

-- `if texts: value += mark + ".".join(texts)`
unfoldable pub suffix : ℕ → List Text → Text
unfolding join_dots
suffix mark [] = []
suffix mark (x ∷ xs) = mark ∷ join_dots (x ∷ xs)

-- `SemVer.__str__`
unfoldable pub str : SemVer → Text
unfolding decimal suffix
str v =
    decimal v.major
    ++ (dot ∷ decimal v.minor
        ++ (dot ∷ decimal v.patch ++ (suffix minus v.prerelease ++ suffix plus v.build)))
