-- ===== src/Profiles/Sound.antt =====
-- What holds of the stored profiles after any calls of the service.
use openai_free_credit_track.Base.{
  ◌≡◌, inl, inr, refl, sym, ap, ◌∙◌, subst, true, false, some, none, List, [], ◌∷◌, ◌++◌, arith,
  Bool-cases, All, All-append,
}
use openai_free_credit_track.Base.Text.{Text, text_eq, text_eq→eq}
use openai_free_credit_track.Profiles.{Profile}
use openai_free_credit_track.Profiles.Repository.{credential_owner, find, is_other, put, remove}

-- Two profiles share neither the identifier nor the credential.
abbrev pub Apart : Profile → Profile → Type 0
Apart p q =
    (text_eq q.profile_id p.profile_id ≡ false)
    × (text_eq q.credential_ref.credential_id p.credential_ref.credential_id ≡ false)

abbrev pub AllApart : List Profile → Type 0
AllApart [] = Unit
AllApart (x ∷ xs) = All (Apart x) xs × AllApart xs

pub text_eq_sym : (s t : Text) → text_eq s t ≡ text_eq t s
text_eq_sym s t = elim (Bool-cases (text_eq s t)) [
  | inl same ↦ let e = text_eq→eq s t same in subst (λ x. text_eq s x ≡ text_eq x s) e refl
  | inr other ↦ elim (Bool-cases (text_eq t s)) [
    | inl same ↦ let e = text_eq→eq t s same in subst (λ x. text_eq x t ≡ text_eq t x) e refl
    | inr differ ↦ other ∙ sym differ
  ]
]

pub text_eq_cong : (s t v : Text) → text_eq s t ≡ true → text_eq s v ≡ text_eq t v
text_eq_cong s t v h = ap (λ x. text_eq x v) (text_eq→eq s t h)

Apart-sym : (p q : Profile) → Apart p q → Apart q p
Apart-sym p q (h, k) = (text_eq_sym _ _ ∙ h, text_eq_sym _ _ ∙ k)

-- No profile but the one with this identifier has this credential.
abbrev NotShared : Text → Text → Profile → Type 0
NotShared i c y = text_eq y.profile_id i ≡ false → text_eq y.credential_ref.credential_id c ≡ false

pub credential_owner-none :
    (c : Text) (xs : List Profile)
    → credential_owner c xs ≡ none
    → All (λ y. text_eq y.credential_ref.credential_id c ≡ false) xs
unfolding credential_owner
credential_owner-none c [] h = tt
credential_owner-none c (x ∷ xs) h = elim (Bool-cases (text_eq x.credential_ref.credential_id c)) [
  | inl same ↦ absurd (let bad = rw same at h in cc)
  | inr other ↦ (other, credential_owner-none c xs (rw other at h))
]

pub find-none :
    (i : Text) (xs : List Profile) → find i xs ≡ none → All (λ y. text_eq y.profile_id i ≡ false) xs
unfolding find
find-none i [] h = tt
find-none i (x ∷ xs) h = elim (Bool-cases (text_eq x.profile_id i)) [
  | inl same ↦ absurd (let bad = rw same at h in cc)
  | inr other ↦ (other, find-none i xs (rw other at h))
]

pub find-All :
    (P : Profile → Type 0) (i : Text) (xs : List Profile) (p : Profile)
    → All P xs
    → find i xs ≡ some p
    → P p × (text_eq p.profile_id i ≡ true)
unfolding find
find-All P i [] p h e = absurd cc
find-All P i (x ∷ xs) p (a, h) e = elim (Bool-cases (text_eq x.profile_id i)) [
  | inl same ↦
      let found = rw same at e in
      let here : x ≡ p = cc in subst (λ y. P y × (text_eq y.profile_id i ≡ true)) here (a, same)
  | inr other ↦ find-All P i xs p h (rw other at e)
]

Apart-from :
    (i c : Text) (x : Profile) (xs : List Profile)
    → text_eq x.credential_ref.credential_id c ≡ true
    → All (Apart x) xs
    → All (NotShared i c) xs
Apart-from i c x [] e h = tt
Apart-from i c x (y ∷ ys) e ((a, b), h) = (
  λ k. text_eq_sym _ _ ∙ sym (text_eq_cong _ _ _ e) ∙ text_eq_sym _ _ ∙ b,
  Apart-from i c x ys e h,
)

pub credential_owner-NotShared :
    (i c : Text) (xs : List Profile)
    → AllApart xs
    → is_other i (credential_owner c xs) ≡ false
    → All (NotShared i c) xs
unfolding credential_owner
credential_owner-NotShared i c [] h k = tt
credential_owner-NotShared i c (x ∷ xs) (a, h) k =
    elim (Bool-cases (text_eq x.credential_ref.credential_id c)) [
      | inl same ↦
          let self = rw same at k in (λ n. absurd (ground arith), Apart-from i c x xs same a)
      | inr other ↦ (λ n. other, credential_owner-NotShared i c xs h (rw other at k))
    ]

pub All-put :
    (P : Profile → Type 0) (p : Profile) (xs : List Profile) → P p → All P xs → All P (put p xs)
unfolding put
All-put P p [] h k = tt
All-put P p (x ∷ xs) h (a, k) = elim (Bool-cases (text_eq x.profile_id p.profile_id)) [
  | inl same ↦ rw same (h, k)
  | inr other ↦ rw other (a, All-put P p xs h k)
]

replaced-Apart :
    (p x : Profile) (xs : List Profile)
    → text_eq x.profile_id p.profile_id ≡ true
    → All (Apart x) xs
    → All (NotShared p.profile_id p.credential_ref.credential_id) xs
    → All (Apart p) xs
replaced-Apart p x [] e h k = tt
replaced-Apart p x (y ∷ ys) e ((a, b), h) (n, k) =
    let other : text_eq y.profile_id p.profile_id ≡ false =
      text_eq_sym _ _ ∙ sym (text_eq_cong _ _ _ e) ∙ text_eq_sym _ _ ∙ a in
    ((other, n other), replaced-Apart p x ys e h k)

pub put-AllApart :
    (p : Profile) (xs : List Profile)
    → AllApart xs
    → All (NotShared p.profile_id p.credential_ref.credential_id) xs
    → AllApart (put p xs)
unfolding put
put-AllApart p [] h k = tt
put-AllApart p (x ∷ xs) (a, h) (n, k) = elim (Bool-cases (text_eq x.profile_id p.profile_id)) [
  | inl same ↦ rw same (replaced-Apart p x xs same a k, h)
  | inr other ↦
      rw other (All-put (Apart x) p xs (Apart-sym p x (other, n other)) a, put-AllApart p xs h k)
]

pub append-AllApart :
    (p : Profile) (xs : List Profile)
    → AllApart xs
    → All (λ y. text_eq y.profile_id p.profile_id ≡ false) xs
    → All (λ y. text_eq y.credential_ref.credential_id p.credential_ref.credential_id ≡ false) xs
    → AllApart (xs ++ (p ∷ []))
append-AllApart p [] h i c = (tt, tt)
append-AllApart p (x ∷ xs) (a, h) (n, i) (m, c) =
    (All-append (Apart x) xs (p ∷ []) a (Apart-sym p x (n, m), tt), append-AllApart p xs h i c)

pub All-remove :
    (P : Profile → Type 0) (i : Text) (xs : List Profile) → All P xs → All P (remove i xs)
unfolding remove
All-remove P i [] h = tt
All-remove P i (x ∷ xs) (a, h) = elim (Bool-cases (text_eq x.profile_id i)) [
  | inl same ↦ rw same h
  | inr other ↦ rw other (a, All-remove P i xs h)
]

pub remove-AllApart : (i : Text) (xs : List Profile) → AllApart xs → AllApart (remove i xs)
unfolding remove
remove-AllApart i [] h = tt
remove-AllApart i (x ∷ xs) (a, h) = elim (Bool-cases (text_eq x.profile_id i)) [
  | inl same ↦ rw same h
  | inr other ↦ rw other (All-remove (Apart x) i xs a, remove-AllApart i xs h)
]
