-- ===== src/SemVer/Identifier.antt =====
-- Identifiers of a pre-release: the integers of digit texts with no leading zero are different.
use openai_free_credit_track.Base.{
  ℕ, ◌+◌, ◌*◌, ◌≤◌, ◌<◌, ◌-◌, ◌≡◌, ◌≢◌, refl, ap, sym, inl, inr, [], ◌∷◌, All, length, arith, true,
  Bool-cases, ltb,
}
use openai_free_credit_track.Base.Text.{Text}
use openai_free_credit_track.SemVer.{Unicode, int_from, int, is_digit_text}

abbrev pub IsAsciiDigit : ℕ → Type 0
IsAsciiDigit c = (48 ≤ c) × (c ≤ 57)

-- `0|[1-9][0-9]*`
abbrev pub IsNumeral : Text → Type 0
IsNumeral [] = ⊥
IsNumeral (c ∷ s) = IsAsciiDigit c × All IsAsciiDigit s × ((c ≡ 48) → (s ≡ []))

-- A text that Python takes for a number is written in ASCII with no leading zero.
abbrev pub IsCanonical : Unicode → Text → Type 0
IsCanonical u s = is_digit_text u s ≡ true → IsNumeral s

module _ (u : Unicode) where
  step : (a c : ℕ) → IsAsciiDigit c → a * 10 + u.digit_value c ≡ a * 10 + (c - 48)
  step a c (h, k) = ap (λ v. a * 10 + v) (u.ascii_value c h k)

  -- Equally many digits with one value are the same digits, on the same number before them.
  int_from_inj :
      (a b : ℕ) (s t : Text)
      → All IsAsciiDigit s
      → All IsAsciiDigit t
      → length s ≡ length t
      → int_from u a s ≡ int_from u b t
      → (a ≡ b) × (s ≡ t)
  unfolding int_from
  int_from_inj a b [] [] hs ht l e = (e, refl)
  int_from_inj a b [] (d ∷ t) hs ht l e = absurd (omega arith)
  int_from_inj a b (c ∷ s) [] hs ht l e = absurd (omega arith)
  int_from_inj a b (c ∷ s) (d ∷ t) (hc, hs) (hd, ht) l e =
      let (front, back) =
        int_from_inj (a * 10 + u.digit_value c) (b * 10 + u.digit_value d) s t hs ht (omega arith)
          e in
      let cv = step a c hc in
      let dv = step b d hd in
      let same : c ≡ d = omega arith in (omega arith, ground (arith, same, back))

  -- A longer numeral that begins with a positive number is another number.
  int_from_ne :
      (b : ℕ) (s t : Text)
      → 1 ≤ b
      → All IsAsciiDigit s
      → All IsAsciiDigit t
      → length s ≤ length t
      → int_from u 0 s ≢ int_from u b t
  unfolding int_from
  int_from_ne b [] [] h hs ht l e = omega arith
  int_from_ne b [] (d ∷ t) h hs (hd, ht) l e =
      int_from_ne (b * 10 + u.digit_value d) [] t (omega arith) hs ht (omega arith) e
  int_from_ne b (c ∷ s) [] h hs ht l e = omega arith
  int_from_ne b (c ∷ s) (d ∷ t) h hs (hd, ht) l e = elim (Bool-cases (ltb (length s) (length t))) [
    | inl shorter ↦
        int_from_ne (b * 10 + u.digit_value d) (c ∷ s) t (omega arith) hs ht (ground arith) e
    | inr same ↦
        let zero_b = int_from_inj 0 b (c ∷ s) (d ∷ t) hs (hd, ht) (ground arith) e in omega arith
  ]

  -- A numeral of at least two digits is longer than, and so differs from, any shorter one.
  int_ne_of_shorter :
      (s t : Text) → IsNumeral s → IsNumeral t → length s < length t → int u s ≢ int u t
  unfolding int_from
  int_ne_of_shorter [] t hs ht l e = hs
  int_ne_of_shorter (c ∷ s) [] hs ht l e = ht
  int_ne_of_shorter (c ∷ s) (d ∷ []) hs ht l e = omega arith
  int_ne_of_shorter (c ∷ s) (d ∷ d' ∷ t) (hc, hs, zc) ((lo, hi), ht, zd) l e =
      let v = u.ascii_value d lo hi in
      let pos : d ≢ 48 = λ q. ground (arith, zd q) in
      int_from_ne (0 * 10 + u.digit_value d) (c ∷ s) (d' ∷ t) (omega arith) (hc, hs) ht
        (omega arith) e

  -- Numerals with the same value are the same text.
  pub int_inj : (s t : Text) → IsNumeral s → IsNumeral t → int u s ≡ int u t → s ≡ t
  int_inj [] t hs ht e = absurd hs
  int_inj (c ∷ s) [] hs ht e = absurd ht
  int_inj (c ∷ s) (d ∷ t) hs ht e = elim (Bool-cases (ltb (length s) (length t))) [
    | inl shorter ↦ absurd (int_ne_of_shorter (c ∷ s) (d ∷ t) hs ht (ground arith) e)
    | inr more ↦ elim (Bool-cases (ltb (length t) (length s))) [
      | inl longer ↦ absurd (int_ne_of_shorter (d ∷ t) (c ∷ s) ht hs (ground arith) (sym e))
      | inr same ↦ (int_from_inj 0 0 (c ∷ s) (d ∷ t) (hs.0, hs.1) (ht.0, ht.1) (ground arith) e).1
    ]
  ]
