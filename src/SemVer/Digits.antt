-- ===== src/SemVer/Digits.antt =====
-- Digits of other scripts: `\d` of the pattern and `int` accept them, and the comparison of
-- semver.py does not order two identifiers that have the same integer.
use openai_free_credit_track.Base.{ℕ, ◌≡◌, ◌≢◌, some, [], ◌∷◌, arith, true, false, Ordering}
use openai_free_credit_track.SemVer.{
  Unicode, SemVer, int_from, identifier_order, compare_prerelease, version_lt, version_eq,
}
use openai_free_credit_track.SemVer.Grammar.{parse, str, is_pre_identifier, is_number}
use openai_free_credit_track.SemVer.RoundTrip.{parse-str}

-- The version 1.0.0-1z, for a character z.
abbrev pub one_and : ℕ → SemVer
one_and z = record {
  major = 1;
  minor = 0;
  patch = 0;
  prerelease = (b'1' ∷ z ∷ []) ∷ [];
  build = [];
}

module _ (u : Unicode) (z : ℕ) where
  one_and-parses : u.is_decimal z ≡ true → parse u (str (one_and z)) ≡ some (one_and z)
  unfolding is_pre_identifier is_number
  one_and-parses d =
      parse-str u (one_and z) (record { prerelease = (ground arith, tt); build = tt })

  identifier_order-same :
      u.is_digit z ≡ true
      → u.digit_value z ≡ 0
      → (identifier_order u (b'1' ∷ b'0' ∷ []) (b'1' ∷ z ∷ []) ≡ Ordering.gt)
        × (identifier_order u (b'1' ∷ z ∷ []) (b'1' ∷ b'0' ∷ []) ≡ Ordering.gt)
  unfolding identifier_order int_from
  identifier_order-same d v = ground (
    arith,
    u.ascii_digit b'1' (omega arith) (omega arith),
    u.ascii_digit b'0' (omega arith) (omega arith),
    u.ascii_value b'1' (omega arith) (omega arith),
    u.ascii_value b'0' (omega arith) (omega arith),
  )

  -- For a zero digit of another script, the texts of 1.0.0-10 and of 1.0.0-1 followed by that digit
  -- are both accepted, and neither version is less than or equal to the other.
  pub unordered_of_zero_digit :
      z ≢ 48
      → u.is_decimal z ≡ true
      → u.is_digit z ≡ true
      → u.digit_value z ≡ 0
      → (parse u (str (one_and b'0')) ≡ some (one_and b'0'))
        × (parse u (str (one_and z)) ≡ some (one_and z))
        × (version_lt u (one_and b'0') (one_and z) ≡ false)
        × (version_eq (one_and b'0') (one_and z) ≡ false)
        × (version_lt u (one_and z) (one_and b'0') ≡ false)
  unfolding version_lt version_eq compare_prerelease
  unordered_of_zero_digit other dec dig v =
      let (up, down) = identifier_order-same dig v in
      (
        unfold is_pre_identifier is_number in
            parse-str u (one_and b'0') (record {
              prerelease = (ground (arith, u.ascii_decimal b'0' (omega arith) (omega arith)), tt);
              build = tt;
            }),
        one_and-parses dec,
        ground (arith, up),
        ground arith,
        ground (arith, down),
      )
