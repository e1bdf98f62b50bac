-- ===== src/Profiles/Refines.antt =====
-- The repository over the database does what the repository in memory does, on whole seconds.
use openai_free_credit_track.Base.{
  ℕ, ◌*◌, ◌≡◌, inl, inr, refl, sym, ap, ◌∙◌, subst, Bool, false, Option, some, none, List, [], ◌∷◌,
  ◌++◌, ltb, ◌==◌, arith, if◌then◌else◌, Bool-cases, Option-cases, All,
}
use openai_free_credit_track.Base.Text.{Text, text_eq}
use openai_free_credit_track.Base.Sorting.{sorted, insert_sorted, All-sorted}
use openai_free_credit_track.Profiles.{Profile, Result, done, refused}
use openai_free_credit_track.Profiles.Repository as Repository
use openai_free_credit_track.Profiles.Sqlite.{
  ProfileRow, row_of, profile_of, find_row, holder, add, update, is_held_by_other, save, remove_row,
  is_row_before, from_row, get, delete, cons_done, all_from, list_all,
}

-- The profiles of the rows, and a profile with its times cut to whole seconds.
abbrev pub profiles_of : List ProfileRow → List Profile
profiles_of [] = []
profiles_of (x ∷ xs) = profile_of x ∷ profiles_of xs

abbrev pub whole : Profile → Profile
whole p = profile_of (row_of p)

abbrev pub profile_or_none : Option ProfileRow → Option Profile
profile_or_none none = none
profile_or_none (some x) = some (profile_of x)

abbrev pub profiles_done : Result (List ProfileRow) → Result (List Profile)
profiles_done (refused e) = refused e
profiles_done (done rows) = done (profiles_of rows)

abbrev pub deletion_done : Result (Profile × List ProfileRow) → Result (Profile × List Profile)
deletion_done (refused e) = refused e
deletion_done (done (p, rows)) = done (p, profiles_of rows)

find-profiles_of :
    (i : Text) (rows : List ProfileRow)
    → Repository.find i (profiles_of rows) ≡ profile_or_none (find_row i rows)
unfolding Repository.find find_row
find-profiles_of i [] = refl
find-profiles_of i (x ∷ xs) = elim (Bool-cases (text_eq x.profile_id i)) [
  | inl same ↦ rw same refl
  | inr other ↦ rw other (find-profiles_of i xs)
]

owner-profiles_of :
    (c : Text) (rows : List ProfileRow)
    → Repository.credential_owner c (profiles_of rows) ≡ holder c rows
unfolding Repository.credential_owner holder
owner-profiles_of c [] = refl
owner-profiles_of c (x ∷ xs) =
    ap (λ o. if text_eq x.credential_id c then some x.profile_id else o) (owner-profiles_of c xs)

put-profiles_of :
    (p : Profile) (rows : List ProfileRow)
    → Repository.put (whole p) (profiles_of rows) ≡ profiles_of (update p rows)
unfolding Repository.put update
put-profiles_of p [] = refl
put-profiles_of p (x ∷ xs) = elim (Bool-cases (text_eq x.profile_id p.profile_id)) [
  | inl same ↦ rw same refl
  | inr other ↦ rw other (ap (λ ps. profile_of x ∷ ps) (put-profiles_of p xs))
]

remove-profiles_of :
    (i : Text) (rows : List ProfileRow)
    → Repository.remove i (profiles_of rows) ≡ profiles_of (remove_row i rows)
unfolding Repository.remove remove_row
remove-profiles_of i [] = refl
remove-profiles_of i (x ∷ xs) = elim (Bool-cases (text_eq x.profile_id i)) [
  | inl same ↦ rw same refl
  | inr other ↦ rw other (ap (λ ps. profile_of x ∷ ps) (remove-profiles_of i xs))
]

append-profiles_of :
    (rows : List ProfileRow) (p : Profile)
    → profiles_of (rows ++ (row_of p ∷ [])) ≡ profiles_of rows ++ (whole p ∷ [])
append-profiles_of [] p = refl
append-profiles_of (x ∷ xs) p = ap (λ ps. profile_of x ∷ ps) (append-profiles_of xs p)

is_before-profile_of :
    (x y : ProfileRow) → Repository.is_before (profile_of x) (profile_of y) ≡ is_row_before x y
unfolding Repository.is_before is_row_before
is_before-profile_of x y =
    let same : (x.created_at * 1000000 == y.created_at * 1000000) ≡ (x.created_at == y.created_at) =
      ground arith in
    let earlier : ltb (x.created_at * 1000000) (y.created_at * 1000000)
        ≡ ltb x.created_at y.created_at =
      ground arith in
    rw (same, earlier) refl

insert-profiles_of :
    (x : ProfileRow) (rows : List ProfileRow)
    → profiles_of (insert_sorted is_row_before x rows)
      ≡ insert_sorted Repository.is_before (profile_of x) (profiles_of rows)
unfolding insert_sorted
insert-profiles_of x [] = refl
insert-profiles_of x (y ∷ ys) =
    let same = is_before-profile_of x y in
    elim (Bool-cases (is_row_before x y)) [
      | inl first ↦ rw (same, first) refl
      | inr later ↦ rw (same, later) (ap (λ ps. profile_of y ∷ ps) (insert-profiles_of x ys))
    ]

sorted-profiles_of :
    (rows : List ProfileRow)
    → profiles_of (sorted is_row_before rows) ≡ sorted Repository.is_before (profiles_of rows)
unfolding sorted
sorted-profiles_of [] = refl
sorted-profiles_of (x ∷ xs) =
    insert-profiles_of x (sorted is_row_before xs)
    ∙ ap (insert_sorted Repository.is_before (profile_of x)) (sorted-profiles_of xs)

pub add-profiles_of :
    (p : Profile) (rows : List ProfileRow)
    → profiles_done (add p rows) ≡ Repository.add (whole p) (profiles_of rows)
unfolding add Repository.add
add-profiles_of p rows =
    let found = find-profiles_of p.profile_id rows in
    let owned = owner-profiles_of p.credential_ref.credential_id rows in
    elim (Option-cases (find_row p.profile_id rows)) [
      | inr (x, e) ↦ rw (found, e, add, Repository.add) refl
      | inl e ↦ elim (Option-cases (holder p.credential_ref.credential_id rows)) [
        | inr (q, f) ↦ rw (found, e, owned, f, add, Repository.add) refl
        | inl f ↦ rw (found, e, owned, f, add, Repository.add) (ap done (append-profiles_of rows p))
      ]
    ]

is_held_other : (i : Text) (o : Option Text) → Repository.is_other i o ≡ is_held_by_other i o
is_held_other i none = refl
is_held_other i (some q) = refl

pub save-profiles_of :
    (p : Profile) (rows : List ProfileRow)
    → profiles_done (save p rows) ≡ Repository.save (whole p) (profiles_of rows)
unfolding save Repository.save
save-profiles_of p rows =
    let found = find-profiles_of p.profile_id rows in
    let owned = owner-profiles_of p.credential_ref.credential_id rows in
    let other = is_held_other p.profile_id (holder p.credential_ref.credential_id rows) in
    elim (Option-cases (find_row p.profile_id rows)) [
      | inl e ↦ rw (found, e, save, Repository.save) refl
      | inr (x, e) ↦
          elim (Bool-cases
            (is_held_by_other p.profile_id (holder p.credential_ref.credential_id rows))) [
              | inl f ↦ rw (found, e, owned, other, f, save, Repository.save) refl
              | inr f ↦
                  rw (found, e, owned, other, f, save, Repository.save)
                    (ap done (sym (put-profiles_of p rows)))
            ]
    ]

module _ (is_space : ℕ → Bool) where
  -- Every row makes the profile of its values again.
  abbrev pub IsStored : List ProfileRow → Type 0
  IsStored rows = All (λ (x : ProfileRow). from_row is_space x ≡ done (profile_of x)) rows

  find_row-IsStored :
      (i : Text) (rows : List ProfileRow) (x : ProfileRow)
      → IsStored rows
      → find_row i rows ≡ some x
      → from_row is_space x ≡ done (profile_of x)
  unfolding find_row
  find_row-IsStored i [] x h e = absurd cc
  find_row-IsStored i (y ∷ ys) x (good, h) e = elim (Bool-cases (text_eq y.profile_id i)) [
    | inl same ↦
        let found = rw same at e in
        let here : y ≡ x = cc in subst (λ z. from_row is_space z ≡ done (profile_of z)) here good
    | inr other ↦ find_row-IsStored i ys x h (rw other at e)
  ]

  pub get-profiles_of :
      (i : Text) (rows : List ProfileRow)
      → IsStored rows
      → get is_space i rows ≡ Repository.get i (profiles_of rows)
  unfolding get Repository.get
  get-profiles_of i rows h =
      let found = find-profiles_of i rows in
      elim (Option-cases (find_row i rows)) [
        | inl e ↦ rw (found, e, get, Repository.get) refl
        | inr (x, e) ↦ rw (found, e, get, Repository.get) (find_row-IsStored i rows x h e)
      ]

  pub delete-profiles_of :
      (i : Text) (rows : List ProfileRow)
      → IsStored rows
      → deletion_done (delete is_space false i rows) ≡ Repository.delete i (profiles_of rows)
  unfolding delete get Repository.delete
  delete-profiles_of i rows h =
      let found = find-profiles_of i rows in
      elim (Option-cases (find_row i rows)) [
        | inl e ↦ rw (found, e, delete, get, Repository.delete) refl
        | inr (x, e) ↦
            let made = find_row-IsStored i rows x h e in
            rw (found, e, delete, get, Repository.delete, made)
              (ap (λ ps. done (profile_of x, ps)) (sym (remove-profiles_of i rows)))
      ]

  all_from-profiles_of :
      (rows : List ProfileRow) → IsStored rows → all_from is_space rows ≡ done (profiles_of rows)
  unfolding all_from
  all_from-profiles_of [] h = refl
  all_from-profiles_of (x ∷ xs) (good, h) =
      ap (cons_done is_space (from_row is_space x)) (all_from-profiles_of xs h)
      ∙ ap (λ r. cons_done is_space r (done (profiles_of xs))) good

  pub list_all-profiles_of :
      (rows : List ProfileRow)
      → IsStored rows
      → list_all is_space rows ≡ done (Repository.list_all (profiles_of rows))
  unfolding list_all Repository.list_all
  list_all-profiles_of rows h =
      all_from-profiles_of (sorted is_row_before rows) (
        All-sorted is_row_before (λ (x : ProfileRow). from_row is_space x ≡ done (profile_of x))
          rows h)
      ∙ ap done (sorted-profiles_of rows)
