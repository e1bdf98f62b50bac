-- ===== src/SemVer/SampleDigits.antt =====
-- A concrete `Unicode`, for tests of what src/quota_monitor/semver.py does with digits.
use openai_free_credit_track.Base.{
  ℕ, ◌≡◌, ◌-◌, ◌≤◌, ◌<◌, Bool, ◌⊎◌, arith, false, true, ◌&&◌, leb, ◌||◌, if◌then◌else◌,
}
use openai_free_credit_track.SemVer.{Unicode}

abbrev is_decimal : ℕ → Bool
is_decimal c = (leb 48 c && leb c 57) || (leb 1632 c && leb c 1641)

abbrev digit_value : ℕ → ℕ
digit_value c = if leb 1632 c then c - 1632 else c - 48

pub ascii_decimal : (c : ℕ) → 48 ≤ c → c ≤ 57 → is_decimal c ≡ true
ascii_decimal c h k = ground arith

pub ascii_value : (c : ℕ) → 48 ≤ c → c ≤ 57 → digit_value c ≡ c - 48
ascii_value c h k = ground arith

pub ascii_other : (c : ℕ) → c < 128 → (c < 48) ⊎ (57 < c) → is_decimal c ≡ false
ascii_other c h k = ground arith

-- The digits of ASCII, and of the Arabic script at 1632.
abbrev pub digits : Unicode
digits = record {
  is_decimal = is_decimal;
  is_digit = is_decimal;
  digit_value = digit_value;
  ascii_decimal = ascii_decimal;
  ascii_digit = ascii_decimal;
  ascii_value = ascii_value;
  ascii_other = ascii_other;
  ascii_other_digit = ascii_other;
}
