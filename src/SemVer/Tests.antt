-- ===== src/SemVer/Tests.antt =====
-- Versions of tests/test_semver.py, and the theorems at concrete versions.
use openai_free_credit_track.Base.{◌≡◌, ◌⊎◌, refl, some, none, List, [], ◌∷◌, arith, true, false}
use openai_free_credit_track.Base.Text.{Text, codes}
use openai_free_credit_track.SemVer.{
  SemVer, int_from, is_digit_text, version_lt, version_eq, compare_prerelease, identifier_order,
}
use openai_free_credit_track.SemVer.SampleDigits.{digits}
use openai_free_credit_track.SemVer.Order.{version_lt_trans, version_trichotomy}
use openai_free_credit_track.SemVer.Grammar.{
  parse, str, full_match, match_number, after_dot, match_suffix, match_build, span, is_number,
  split_dots, is_pre_identifier, is_build_identifier, identifiers, nonempty,
}
use openai_free_credit_track.SemVer.Digits.{one_and, unordered_of_zero_digit}
use openai_free_credit_track.SemVer.RoundTrip.{parse-str-parse}

abbrev alpha : List Text → SemVer
alpha xs = record { major = 1; minor = 0; patch = 0; prerelease = codes "alpha" ∷ xs; build = [] }

parses :
    parse digits (codes "1.0.0-alpha.1+b.7")
    ≡ some (record {
      major = 1;
      minor = 0;
      patch = 0;
      prerelease = codes "alpha" ∷ codes "1" ∷ [];
      build = codes "b" ∷ codes "7" ∷ [];
    })
unfolding parse full_match match_number after_dot match_suffix match_build span is_number split_dots
    is_pre_identifier is_build_identifier identifiers nonempty int_from
parses = refl

rejects : (parse digits (codes "01.0.0") ≡ none) × (parse digits (codes "1.0.0-01") ≡ none)
unfolding parse full_match match_number after_dot match_suffix match_build span is_number split_dots
    is_pre_identifier is_build_identifier identifiers nonempty int_from
rejects = (refl, refl)

version_lt_trans_example : version_lt digits (alpha []) (alpha (codes "beta" ∷ [])) ≡ true
unfolding version_lt compare_prerelease identifier_order
version_lt_trans_example =
    version_lt_trans digits (alpha []) (alpha (codes "1" ∷ [])) (alpha (codes "beta" ∷ [])) refl
      refl

version_trichotomy_example :
    ((version_lt digits (alpha []) (alpha (codes "1" ∷ [])) ≡ true)
      × (version_eq (alpha []) (alpha (codes "1" ∷ [])) ≡ false)
      × (version_lt digits (alpha (codes "1" ∷ [])) (alpha []) ≡ false))
    ⊎ ((version_lt digits (alpha []) (alpha (codes "1" ∷ [])) ≡ false)
        × (version_eq (alpha []) (alpha (codes "1" ∷ [])) ≡ true)
        × (version_lt digits (alpha (codes "1" ∷ [])) (alpha []) ≡ false))
    ⊎ ((version_lt digits (alpha []) (alpha (codes "1" ∷ [])) ≡ false)
        × (version_eq (alpha []) (alpha (codes "1" ∷ [])) ≡ false)
        × (version_lt digits (alpha (codes "1" ∷ [])) (alpha []) ≡ true))
unfolding is_digit_text
version_trichotomy_example =
    version_trichotomy digits (alpha []) (alpha (codes "1" ∷ [])) (λ h. cc, tt)
      (λ h. cc, (λ h. ((omega arith, omega arith), tt, λ e. refl), tt))

parse-str-parse_example :
    parse digits (str (alpha (codes "1" ∷ []))) ≡ some (alpha (codes "1" ∷ []))
unfolding parse full_match match_number after_dot match_suffix match_build span is_number split_dots
    is_pre_identifier is_build_identifier identifiers nonempty int_from
parse-str-parse_example =
    parse-str-parse digits (codes "1.0.0-alpha.1") (alpha (codes "1" ∷ [])) refl

unordered_of_zero_digit_example :
    (parse digits (str (one_and 48)) ≡ some (one_and 48))
    × (parse digits (str (one_and 1632)) ≡ some (one_and 1632))
    × (version_lt digits (one_and 48) (one_and 1632) ≡ false)
    × (version_eq (one_and 48) (one_and 1632) ≡ false)
    × (version_lt digits (one_and 1632) (one_and 48) ≡ false)
unordered_of_zero_digit_example =
    unordered_of_zero_digit digits 1632 (λ e. omega arith) refl refl refl
