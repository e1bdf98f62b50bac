-- ===== src/Profiles/Scope.antt =====
-- The scoped repository is a map from pairs of a profile and a record.
use openai_free_credit_track.Base.{
  ◌≡◌, inl, inr, refl, sym, ◌∙◌, subst, false, Option, some, none, List, [], ◌∷◌, ◌&&◌,
  if◌then◌else◌, Bool-cases,
}
use openai_free_credit_track.Base.Text.{Text, text_eq, text_eq→eq}
use openai_free_credit_track.Profiles.Sound.{text_eq_sym, text_eq_cong}
use openai_free_credit_track.Profiles.Scoped.{lookup, assign, drop, Records, rows_or_empty, without}

pub lookup-assign :
    {A : Type 0} (j k : Text) (a : A) (xs : List (Text × A))
    → lookup j (assign k a xs) ≡ (if text_eq k j then some a else lookup j xs)
unfolding lookup assign
lookup-assign j k a [] = refl
lookup-assign j k a ((i, b) ∷ rest) = elim (Bool-cases (text_eq i k)) [
  | inl same ↦
      let e = text_eq→eq i k same in
      rw same (
        subst
          (λ x.
            lookup j ((x, a) ∷ rest) ≡ (if text_eq k j then some a else lookup j ((x, b) ∷ rest)))
          (sym e)
          (elim (Bool-cases (text_eq k j)) [ inl here ↦ rw here refl | inr other ↦ rw other refl ]))
  | inr other ↦ rw other (
      rw (lookup-assign j k a rest) (elim (Bool-cases (text_eq i j)) [
        | inr different ↦ rw different refl
        | inl here ↦
            let e = text_eq→eq i j here in
            let no : text_eq k j ≡ false =
              subst (λ x. text_eq k x ≡ false) e (text_eq_sym k i ∙ other) in
            rw (here, no) refl
      ]))
]

pub lookup-drop :
    {A : Type 0} (j k : Text) (xs : List (Text × A))
    → lookup j (drop k xs) ≡ (if text_eq k j then none else lookup j xs)
unfolding lookup drop
lookup-drop j k [] = elim (Bool-cases (text_eq k j)) [
  | inl here ↦ rw here refl
  | inr other ↦ rw other refl
]
lookup-drop j k ((i, b) ∷ rest) = elim (Bool-cases (text_eq i k)) [
  | inl same ↦
      let agree = text_eq_cong i k j same in
      rw (same, agree)
        (rw (lookup-drop j k rest) (elim (Bool-cases (text_eq k j)) [
          | inl here ↦ rw here refl
          | inr different ↦ rw different refl
        ]))
  | inr other ↦ rw other (
      rw (lookup-drop j k rest) (elim (Bool-cases (text_eq i j)) [
        | inr different ↦ rw different refl
        | inl here ↦
            let e = text_eq→eq i j here in
            let no : text_eq k j ≡ false =
              subst (λ x. text_eq k x ≡ false) e (text_eq_sym k i ∙ other) in
            rw (here, no) refl
      ]))
]

-- The value under a profile and a record, if there is one.
abbrev pub view : {V : Type 0} → Records V → Text → Text → Option V
view records q s = lookup s (rows_or_empty (lookup q records))

view-assign :
    {V : Type 0} (p : Text) (rows : List (Text × V)) (records : Records V) (q s : Text)
    → view (assign p rows records) q s ≡ (if text_eq p q then lookup s rows else view records q s)
view-assign p rows records q s =
    rw (lookup-assign q p rows records)
      (elim (Bool-cases (text_eq p q)) [ inl same ↦ rw same refl | inr other ↦ rw other refl ])

pub view-drop :
    {V : Type 0} (p : Text) (records : Records V) (q s : Text)
    → view (drop p records) q s ≡ (if text_eq p q then none else view records q s)
unfolding lookup
view-drop p records q s =
    rw (lookup-drop q p records)
      (elim (Bool-cases (text_eq p q)) [ inl same ↦ rw same refl | inr other ↦ rw other refl ])

view-without :
    {V : Type 0} (p : Text) (rows : List (Text × V)) (records : Records V) (q s : Text)
    → view (without p rows records) q s ≡ (if text_eq p q then lookup s rows else view records q s)
unfolding lookup
view-without p [] records q s = view-drop p records q s
view-without p (x ∷ rows) records q s = view-assign p (x ∷ rows) records q s

pub view-put :
    {V : Type 0} (p r : Text) (v : V) (records : Records V) (q s : Text)
    → view (assign p (assign r v (rows_or_empty (lookup p records))) records) q s
      ≡ (if text_eq p q && text_eq r s then some v else view records q s)
view-put p r v records q s =
    rw (view-assign p (assign r v (rows_or_empty (lookup p records))) records q s)
      (elim (Bool-cases (text_eq p q)) [
        | inr other ↦ rw other refl
        | inl same ↦
            let e = text_eq→eq p q same in
            rw same (rw (lookup-assign s r v (rows_or_empty (lookup p records))) (rw e refl))
      ])

pub view-delete :
    {V : Type 0} (p r : Text) (records : Records V) (q s : Text)
    → view (without p (drop r (rows_or_empty (lookup p records))) records) q s
      ≡ (if text_eq p q && text_eq r s then none else view records q s)
view-delete p r records q s =
    rw (view-without p (drop r (rows_or_empty (lookup p records))) records q s)
      (elim (Bool-cases (text_eq p q)) [
        | inr other ↦ rw other refl
        | inl same ↦
            let e = text_eq→eq p q same in
            rw same (rw (lookup-drop s r (rows_or_empty (lookup p records))) (rw e refl))
      ])
