-- ===== src/SemVer.antt =====
-- src/quota_monitor/semver.py: the version type, its comparison, its parser and its printer.
-- A text is the list of its code points. What Python knows of the digits of Unicode (`\d` of `re`,
-- `str.isdigit`, `int`) is the parameter `Unicode`; only its ASCII part is assumed.
pub mod Identifier
pub mod Order
pub mod Grammar
pub mod Decimal
pub mod RoundTrip
pub mod Digits
pub mod SampleDigits
mod Tests
use openai_free_credit_track.Base.{
  ℕ, ◌≤◌, ◌<◌, ◌-◌, ◌⊎◌, ◌≡◌, Bool, true, false, List, [], ◌∷◌, ◌&&◌, ◌||◌, not, Ordering, ltb, leb,
  ◌==◌, if◌then◌else◌, Option, none, some, all, is_empty, length, ◌+◌, ◌*◌,
}
use openai_free_credit_track.Base.Text.{Text, text_eq, text_lt}

pub record Unicode : Type 0 where
  pub is_decimal : ℕ → Bool
  pub is_digit : ℕ → Bool
  pub digit_value : ℕ → ℕ
  pub ascii_decimal : (c : ℕ) → 48 ≤ c → c ≤ 57 → is_decimal c ≡ true
  pub ascii_digit : (c : ℕ) → 48 ≤ c → c ≤ 57 → is_digit c ≡ true
  pub ascii_value : (c : ℕ) → 48 ≤ c → c ≤ 57 → digit_value c ≡ c - 48
  pub ascii_other : (c : ℕ) → c < 128 → (c < 48) ⊎ (57 < c) → is_decimal c ≡ false
  pub ascii_other_digit : (c : ℕ) → c < 128 → (c < 48) ⊎ (57 < c) → is_digit c ≡ false

pub record SemVer : Type 0 where
  pub major : ℕ
  pub minor : ℕ
  pub patch : ℕ
  pub prerelease : List Text
  pub build : List Text

pub is_prerelease : SemVer → Bool
is_prerelease v = not (is_empty v.prerelease)

module _ (u : Unicode) where
  -- `int(text)` for a text of decimal digits, from the digits read so far.
  unfoldable pub int_from : ℕ → Text → ℕ
  int_from acc [] = acc
  int_from acc (c ∷ s) = int_from (acc * 10 + u.digit_value c) s

  abbrev pub int : Text → ℕ
  int s = int_from 0 s

  -- `text.isdigit()`
  unfoldable pub is_digit_text : Text → Bool
  is_digit_text s = not (is_empty s) && all u.is_digit s

  -- The verdict of the loop's body on two identifiers that differ.
  unfoldable pub identifier_order : Text → Text → Ordering
  unfolding text_lt is_digit_text
  identifier_order left right =
      let left_numeric = is_digit_text left in
      let right_numeric = is_digit_text right in
      if left_numeric && right_numeric
      then if ltb (int left) (int right) then Ordering.lt else Ordering.gt
      else if left_numeric || right_numeric
      then if left_numeric then Ordering.lt else Ordering.gt
      else if text_lt left right
      then Ordering.lt
      else Ordering.gt

  -- The loop over `zip(left, right)`.
  unfoldable pub first_difference : List Text → List Text → Option Ordering
  unfolding text_eq
  first_difference (x ∷ xs) (y ∷ ys) =
      let rest = first_difference xs ys in if text_eq x y then rest else some (identifier_order x y)
  first_difference _ _ = none

  unfoldable pub length_order : List Text → List Text → Ordering
  length_order left right =
      if length left == length right
      then Ordering.eq
      else if ltb (length left) (length right)
      then Ordering.lt
      else Ordering.gt

  unfoldable pub pre_order : List Text → List Text → Ordering
  unfolding first_difference length_order
  pre_order left right = elim (first_difference left right) [
    | some o ↦ o
    | none ↦ length_order left right
  ]

  -- `Ordering.lt`, `eq` and `gt` stand for -1, 0 and 1.
  unfoldable pub compare_prerelease : List Text → List Text → Ordering
  unfolding pre_order
  compare_prerelease [] [] = Ordering.eq
  compare_prerelease [] (y ∷ ys) = Ordering.gt
  compare_prerelease (x ∷ xs) [] = Ordering.lt
  compare_prerelease (x ∷ xs) (y ∷ ys) = pre_order (x ∷ xs) (y ∷ ys)

  abbrev is_lt : Ordering → Bool
  is_lt Ordering.lt = true
  is_lt _ = false

  -- `__lt__`
  unfoldable pub version_lt : SemVer → SemVer → Bool
  unfolding compare_prerelease
  version_lt a b =
      if not (a.major == b.major)
      then ltb a.major b.major
      else if not (a.minor == b.minor)
      then ltb a.minor b.minor
      else if not (a.patch == b.patch)
      then ltb a.patch b.patch
      else is_lt (compare_prerelease a.prerelease b.prerelease)

-- `==` on tuples of texts.
unfoldable pub texts_eq : List Text → List Text → Bool
unfolding text_eq
texts_eq [] [] = true
texts_eq [] (y ∷ ys) = false
texts_eq (x ∷ xs) [] = false
texts_eq (x ∷ xs) (y ∷ ys) = text_eq x y && texts_eq xs ys

-- `__eq__`: the build is left out.
unfoldable pub version_eq : SemVer → SemVer → Bool
unfolding texts_eq
version_eq a b =
    (a.major == b.major)
    && (a.minor == b.minor)
    && (a.patch == b.patch)
    && texts_eq a.prerelease b.prerelease

-- `functools.total_ordering` derives the other comparisons from these two.
abbrev pub version_le : Unicode → SemVer → SemVer → Bool
version_le u a b = version_lt u a b || version_eq a b

abbrev pub version_gt : Unicode → SemVer → SemVer → Bool
version_gt u a b = not (version_lt u a b) && not (version_eq a b)
