-- ===== src/SemVer/Order.antt =====
-- `__lt__` and `__eq__` of semver.py order the versions.
use openai_free_credit_track.Base.{
  ◌≡◌, refl, ◌⊎◌, inl, inr, List, [], ◌∷◌, All, arith, true, false, Ordering, if◌then◌else◌, ◌↔◌,
}
use openai_free_credit_track.Base.Text.{
  Text, text_eq, text_eq_iff, text_lt_trans, text_lt_irrefl, text_lt_total,
}
use openai_free_credit_track.SemVer.{
  Unicode, is_digit_text, identifier_order, first_difference, length_order, pre_order,
  compare_prerelease, SemVer, version_lt, version_eq, texts_eq,
}
use openai_free_credit_track.SemVer.Identifier.{IsCanonical, int_inj}

module _ (u : Unicode) where
  identifier_order_trans :
      (x y z : Text)
      → identifier_order u x y ≡ Ordering.lt
      → identifier_order u y z ≡ Ordering.lt
      → identifier_order u x z ≡ Ordering.lt
  unfolding identifier_order
  identifier_order_trans x y z h k = ground (arith, text_lt_trans x y z)

  identifier_order_asym :
      (x y : Text) → identifier_order u x y ≡ Ordering.lt → identifier_order u y x ≡ Ordering.lt → ⊥
  unfolding identifier_order
  identifier_order_asym x y h k = ground (arith, text_lt_trans x y x, text_lt_irrefl x)

  identifier_order_total :
      (x y : Text)
      → IsCanonical u x
      → IsCanonical u y
      → text_eq x y ≡ false
      → (identifier_order u x y ≡ Ordering.lt) ⊎ (identifier_order u y x ≡ Ordering.lt)
  unfolding identifier_order
  identifier_order_total x y hx hy d = ground (
    arith,
    text_lt_total x y,
    text_eq_iff x y,
    λ (p : is_digit_text u x ≡ true) (q : is_digit_text u y ≡ true). int_inj u x y (hx p) (hy q),
  )

  pre_order-cons :
      (x y : Text) (xs ys : List Text)
      → pre_order u (x ∷ xs) (y ∷ ys)
        ≡ (if text_eq x y then pre_order u xs ys else identifier_order u x y)
  unfolding pre_order first_difference length_order
  pre_order-cons x y xs ys = ground arith

  pre_order_trans :
      (xs ys zs : List Text)
      → pre_order u xs ys ≡ Ordering.lt
      → pre_order u ys zs ≡ Ordering.lt
      → pre_order u xs zs ≡ Ordering.lt
  pre_order_trans [] [] zs h k = absurd (unfold pre_order in ground arith)
  pre_order_trans [] (y ∷ ys) [] h k = absurd (unfold pre_order in ground arith)
  pre_order_trans [] (y ∷ ys) (z ∷ zs) h k = unfold pre_order in ground arith
  pre_order_trans (x ∷ xs) [] zs h k = absurd (unfold pre_order in ground arith)
  pre_order_trans (x ∷ xs) (y ∷ ys) [] h k = absurd (unfold pre_order in ground arith)
  pre_order_trans (x ∷ xs) (y ∷ ys) (z ∷ zs) h k = ground (
    arith,
    pre_order-cons x y xs ys,
    pre_order-cons y z ys zs,
    pre_order-cons x z xs zs,
    pre_order_trans xs ys zs,
    identifier_order_trans x y z,
    identifier_order_asym x y,
    text_eq_iff x y,
    text_eq_iff y z,
    text_eq_iff x z,
  )

  pre_order_refl : (xs : List Text) → pre_order u xs xs ≡ Ordering.eq
  pre_order_refl [] = unfold pre_order in refl
  pre_order_refl (x ∷ xs) =
      ground (arith, pre_order-cons x x xs xs, text_eq_iff x x, pre_order_refl xs)

  pre_order_total :
      (xs ys : List Text)
      → All (IsCanonical u) xs
      → All (IsCanonical u) ys
      → texts_eq xs ys ≡ false
      → (pre_order u xs ys ≡ Ordering.lt) ⊎ (pre_order u ys xs ≡ Ordering.lt)
  unfolding texts_eq
  pre_order_total [] [] hx hy d = absurd (ground arith)
  pre_order_total [] (y ∷ ys) hx hy d = inl (unfold pre_order in ground arith)
  pre_order_total (x ∷ xs) [] hx hy d = inr (unfold pre_order in ground arith)
  pre_order_total (x ∷ xs) (y ∷ ys) (cx, hx) (cy, hy) d = ground (
    arith,
    pre_order-cons x y xs ys,
    pre_order-cons y x ys xs,
    pre_order_total xs ys hx hy,
    identifier_order_total x y cx cy,
    text_eq_iff x y,
    text_eq_iff y x,
  )

  texts_eq_iff : (xs ys : List Text) → (texts_eq xs ys ≡ true) ↔ (xs ≡ ys)
  unfolding texts_eq
  texts_eq_iff [] [] = ground arith
  texts_eq_iff [] (y ∷ ys) = ground arith
  texts_eq_iff (x ∷ xs) [] = ground arith
  texts_eq_iff (x ∷ xs) (y ∷ ys) = ground (arith, text_eq_iff x y, texts_eq_iff xs ys)

  compare_trans :
      (xs ys zs : List Text)
      → compare_prerelease u xs ys ≡ Ordering.lt
      → compare_prerelease u ys zs ≡ Ordering.lt
      → compare_prerelease u xs zs ≡ Ordering.lt
  compare_trans [] [] zs h k = absurd (unfold compare_prerelease in ground arith)
  compare_trans [] (y ∷ ys) zs h k = absurd (unfold compare_prerelease in ground arith)
  compare_trans (x ∷ xs) [] [] h k = absurd (unfold compare_prerelease in ground arith)
  compare_trans (x ∷ xs) [] (z ∷ zs) h k = absurd (unfold compare_prerelease in ground arith)
  compare_trans (x ∷ xs) (y ∷ ys) [] h k = unfold compare_prerelease in refl
  compare_trans (x ∷ xs) (y ∷ ys) (z ∷ zs) h k =
      unfold compare_prerelease in pre_order_trans (x ∷ xs) (y ∷ ys) (z ∷ zs) h k

  compare_refl : (xs : List Text) → compare_prerelease u xs xs ≡ Ordering.eq
  compare_refl [] = unfold compare_prerelease in refl
  compare_refl (x ∷ xs) = unfold compare_prerelease in pre_order_refl (x ∷ xs)

  compare_total :
      (xs ys : List Text)
      → All (IsCanonical u) xs
      → All (IsCanonical u) ys
      → texts_eq xs ys ≡ false
      → (compare_prerelease u xs ys ≡ Ordering.lt) ⊎ (compare_prerelease u ys xs ≡ Ordering.lt)
  compare_total [] [] hx hy d = absurd (unfold texts_eq in ground arith)
  compare_total [] (y ∷ ys) hx hy d = inr (unfold compare_prerelease in refl)
  compare_total (x ∷ xs) [] hx hy d = inl (unfold compare_prerelease in refl)
  compare_total (x ∷ xs) (y ∷ ys) hx hy d =
      unfold compare_prerelease in pre_order_total (x ∷ xs) (y ∷ ys) hx hy d

  -- The comparison `<` of versions is transitive.
  pub version_lt_trans :
      (a b c : SemVer) → version_lt u a b ≡ true → version_lt u b c ≡ true → version_lt u a c ≡ true
  unfolding version_lt
  version_lt_trans a b c h k = ground (arith, compare_trans a.prerelease b.prerelease c.prerelease)

  version_lt_irrefl : (a : SemVer) → version_lt u a a ≡ false
  unfolding version_lt
  version_lt_irrefl a = ground (arith, compare_refl a.prerelease)

  -- Versions that are equal, the build aside, are not less than one another.
  version_lt_of_eq : (a b : SemVer) → version_eq a b ≡ true → version_lt u a b ≡ false
  unfolding version_lt version_eq
  version_lt_of_eq a b h =
      ground (arith, texts_eq_iff a.prerelease b.prerelease, compare_refl a.prerelease)

  version_eq_sym : (a b : SemVer) → version_eq a b ≡ true → version_eq b a ≡ true
  unfolding version_eq
  version_eq_sym a b h =
      ground (arith, texts_eq_iff a.prerelease b.prerelease, texts_eq_iff b.prerelease a.prerelease)

  version_total :
      (a b : SemVer)
      → All (IsCanonical u) a.prerelease
      → All (IsCanonical u) b.prerelease
      → version_eq a b ≡ false
      → (version_lt u a b ≡ true) ⊎ (version_lt u b a ≡ true)
  unfolding version_lt version_eq
  version_total a b ha hb d = ground (arith, compare_total a.prerelease b.prerelease ha hb)

  -- Of two versions whose numeric identifiers are ASCII with no leading zero, exactly one of these
  -- holds: the first is less, they are equal up to their builds, the second is less.
  pub version_trichotomy :
      (a b : SemVer)
      → All (IsCanonical u) a.prerelease
      → All (IsCanonical u) b.prerelease
      → ((version_lt u a b ≡ true) × (version_eq a b ≡ false) × (version_lt u b a ≡ false))
        ⊎ ((version_lt u a b ≡ false) × (version_eq a b ≡ true) × (version_lt u b a ≡ false))
        ⊎ ((version_lt u a b ≡ false) × (version_eq a b ≡ false) × (version_lt u b a ≡ true))
  version_trichotomy a b ha hb = ground (
    arith,
    version_total a b ha hb,
    version_lt_of_eq a b,
    version_lt_of_eq b a,
    version_eq_sym a b,
    version_lt_trans a b a,
    version_lt_irrefl a,
  )
