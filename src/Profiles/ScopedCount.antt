-- ===== src/Profiles/ScopedCount.antt =====
-- How many records the scoped repository has under a profile.
use openai_free_credit_track.Base.{
  ℕ, suc, ◌+◌, ◌≡◌, inl, inr, refl, ◌∙◌, subst, Bool, true, false, none, List, [], ◌∷◌, arith,
  if◌then◌else◌, Bool-cases, length,
}
use openai_free_credit_track.Base.Text.{Text, text_eq, text_eq→eq}
use openai_free_credit_track.Profiles.Sound.{text_eq_sym}
use openai_free_credit_track.Profiles.Scoped.{
  lookup, assign, drop, Records, rows_or_empty, is_some, without,
}
use openai_free_credit_track.Profiles.Scope.{lookup-assign, lookup-drop}

-- No key stands twice.
abbrev pub IsDistinct : {A : Type 0} → List (Text × A) → Type 0
IsDistinct [] = Unit
IsDistinct ((j, b) ∷ rest) = (lookup j rest ≡ none) × IsDistinct rest

abbrev pub one_if : Bool → ℕ
one_if true = 1
one_if false = 0

pub length-assign :
    {A : Type 0} (k : Text) (a : A) (xs : List (Text × A))
    → length (assign k a xs) + one_if (is_some (lookup k xs)) ≡ suc (length xs)
unfolding assign lookup
length-assign k a [] = omega arith
length-assign k a ((j, b) ∷ rest) = elim (Bool-cases (text_eq j k)) [
  | inl same ↦ rw same (omega arith)
  | inr other ↦ rw other (omega (arith, length-assign k a rest))
]

pub length-drop :
    {A : Type 0} (k : Text) (xs : List (Text × A))
    → IsDistinct xs
    → length (drop k xs) + one_if (is_some (lookup k xs)) ≡ length xs
unfolding drop lookup
length-drop k [] h = omega arith
length-drop k ((j, b) ∷ rest) (new, h) =
    let later = length-drop k rest h in
    elim (Bool-cases (text_eq j k)) [
      | inl same ↦
          let alone : lookup k rest ≡ none =
            subst (λ x. lookup x rest ≡ none) (text_eq→eq j k same) new in
          let kept = rw alone at later in rw same (omega (arith, kept))
      | inr other ↦ rw other (omega (arith, later))
    ]

pub assign-IsDistinct :
    {A : Type 0} (k : Text) (a : A) (xs : List (Text × A))
    → IsDistinct xs
    → IsDistinct (assign k a xs)
unfolding assign lookup
assign-IsDistinct k a [] h = (refl, tt)
assign-IsDistinct k a ((j, b) ∷ rest) (new, h) = elim (Bool-cases (text_eq j k)) [
  | inl same ↦ rw same (new, h)
  | inr other ↦
      let apart : text_eq k j ≡ false = text_eq_sym k j ∙ other in
      rw other (lookup-assign j k a rest ∙ rw apart new, assign-IsDistinct k a rest h)
]

pub drop-IsDistinct :
    {A : Type 0} (k : Text) (xs : List (Text × A)) → IsDistinct xs → IsDistinct (drop k xs)
unfolding drop lookup
drop-IsDistinct k [] h = tt
drop-IsDistinct k ((j, b) ∷ rest) (new, h) = elim (Bool-cases (text_eq j k)) [
  | inl same ↦ rw same (drop-IsDistinct k rest h)
  | inr other ↦
      let apart : text_eq k j ≡ false = text_eq_sym k j ∙ other in
      rw other (lookup-drop j k rest ∙ rw apart new, drop-IsDistinct k rest h)
]

-- The records under a profile.
abbrev pub rows_of : {V : Type 0} → Text → Records V → List (Text × V)
rows_of q records = rows_or_empty (lookup q records)

pub rows_of-assign :
    {V : Type 0} (p q : Text) (rows : List (Text × V)) (records : Records V)
    → rows_of q (assign p rows records) ≡ (if text_eq p q then rows else rows_of q records)
rows_of-assign p q rows records =
    rw (lookup-assign q p rows records)
      (elim (Bool-cases (text_eq p q)) [ inl same ↦ rw same refl | inr other ↦ rw other refl ])

pub rows_of-drop :
    {V : Type 0} (p q : Text) (records : Records V)
    → rows_of q (drop p records) ≡ (if text_eq p q then [] else rows_of q records)
rows_of-drop p q records =
    rw (lookup-drop q p records)
      (elim (Bool-cases (text_eq p q)) [ inl same ↦ rw same refl | inr other ↦ rw other refl ])

pub rows_of-without :
    {V : Type 0} (p q : Text) (rows : List (Text × V)) (records : Records V)
    → rows_of q (without p rows records) ≡ (if text_eq p q then rows else rows_of q records)
rows_of-without p q [] records = rows_of-drop p q records
rows_of-without p q (x ∷ rows) records = rows_of-assign p q (x ∷ rows) records
