-- ===== src/SemVer/Decimal.antt =====
-- Decimal printing and reading of the numbers of a version.
use openai_free_credit_track.Base.{
  ℕ, zero, suc, ◌+◌, ◌*◌, ◌/◌, ◌%◌, ◌≤◌, ◌<◌, ◌≡◌, ◌≢◌, refl, inl, inr, [], ◌∷◌, ◌++◌, All,
  All-append, arith, true, Bool-cases, ltb, all,
}
use openai_free_credit_track.Base.Text.{Text}
use openai_free_credit_track.SemVer.{Unicode, int_from, int}
use openai_free_credit_track.SemVer.Identifier.{IsAsciiDigit, IsNumeral}
use openai_free_credit_track.SemVer.Grammar.{is_number, decimal_from, decimal}

pub int_from-append :
    (u : Unicode) (acc : ℕ) (s t : Text) → int_from u acc (s ++ t) ≡ int_from u (int_from u acc s) t
unfolding int_from
int_from-append u acc [] t = refl
int_from-append u acc (c ∷ s) t = int_from-append u (acc * 10 + u.digit_value c) s t

int-snoc :
    (u : Unicode) (s : Text) (d : ℕ) → d < 10 → int u (s ++ ((b'0' + d) ∷ [])) ≡ int u s * 10 + d
unfolding int_from
int-snoc u s d h =
    let v = u.ascii_value (b'0' + d) (omega arith) (omega arith) in
    omega (arith, int_from-append u 0 s ((b'0' + d) ∷ []))

int-decimal_from : (u : Unicode) (fuel n : ℕ) → n < fuel → int u (decimal_from fuel n) ≡ n
unfolding decimal_from int_from
int-decimal_from u zero n h = absurd (omega arith)
int-decimal_from u (suc fuel) n h = elim (Bool-cases (ltb n 10)) [
  | inl small ↦
      let v = u.ascii_value (b'0' + n) (omega arith) (ground arith) in rw small (omega arith)
  | inr large ↦ rw large (
      let ih = int-decimal_from u fuel (n / 10) (ground arith) in
      omega (arith, int-snoc u (decimal_from fuel (n / 10)) (n % 10) (omega arith)))
]

-- Reading a printed number gives the number back.
pub int-decimal : (u : Unicode) (n : ℕ) → int u (decimal n) ≡ n
unfolding decimal
int-decimal u n = int-decimal_from u (suc n) n (omega arith)

abbrev StartsPositive : Text → Type 0
StartsPositive [] = ⊥
StartsPositive (c ∷ s) = (49 ≤ c) × (c ≤ 57) × All IsAsciiDigit s

StartsPositive-snoc :
    (s : Text) (d : ℕ) → d < 10 → StartsPositive s → StartsPositive (s ++ ((b'0' + d) ∷ []))
StartsPositive-snoc [] d h p = absurd p
StartsPositive-snoc (c ∷ s) d h (lo, hi, p) =
    (lo, hi, All-append IsAsciiDigit s ((b'0' + d) ∷ []) p ((omega arith, omega arith), tt))

decimal_from-StartsPositive : (fuel n : ℕ) → 0 < n → n < fuel → StartsPositive (decimal_from fuel n)
unfolding decimal_from
decimal_from-StartsPositive zero n p h = absurd (omega arith)
decimal_from-StartsPositive (suc fuel) n p h = elim (Bool-cases (ltb n 10)) [
  | inl small ↦ rw small (omega arith, ground arith, tt)
  | inr large ↦ rw large (
      StartsPositive-snoc (decimal_from fuel (n / 10)) (n % 10) (omega arith)
        (decimal_from-StartsPositive fuel (n / 10) (ground arith) (ground arith)))
]

IsNumeral-StartsPositive : (s : Text) → StartsPositive s → IsNumeral s
IsNumeral-StartsPositive [] h = h
IsNumeral-StartsPositive (c ∷ s) (lo, hi, h) = ((omega arith, hi), h, λ e. absurd (omega arith))

-- A printed number is a numeral with no leading zero.
pub decimal-IsNumeral : (n : ℕ) → IsNumeral (decimal n)
unfolding decimal decimal_from
decimal-IsNumeral zero = ((omega arith, omega arith), tt, λ e. refl)
decimal-IsNumeral (suc n) =
    IsNumeral-StartsPositive (decimal_from (suc (suc n)) (suc n))
      (decimal_from-StartsPositive (suc (suc n)) (suc n) (omega arith) (omega arith))

module _ (u : Unicode) where
  pub all-decimal : (s : Text) → All IsAsciiDigit s → all u.is_decimal s ≡ true
  all-decimal [] h = refl
  all-decimal (c ∷ s) ((lo, hi), h) = rw (u.ascii_decimal c lo hi) (all-decimal s h)

  pub is_number_of_IsNumeral :
      (s : Text) → IsNumeral s → (is_number u s ≡ true) × (all u.is_decimal s ≡ true)
  unfolding is_number
  is_number_of_IsNumeral [] h = absurd h
  is_number_of_IsNumeral (c ∷ []) ((lo, hi), h, z) =
      (ground arith, all-decimal (c ∷ []) ((lo, hi), h))
  is_number_of_IsNumeral (c ∷ d ∷ s) ((lo, hi), h, z) =
      let all_d = all-decimal (d ∷ s) h in
      let pos : c ≢ 48 = λ e. ground (arith, z e) in
      (ground (arith, all_d, pos), all-decimal (c ∷ d ∷ s) ((lo, hi), h))
