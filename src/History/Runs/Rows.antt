-- ===== src/History/Runs/Rows.antt =====
-- What the updates of a row do to the rows that a key finds.
use openai_free_credit_track.Base.{
  ◌≡◌, ◌⊎◌, inl, inr, refl, true, false, Option, some, none, List, [], ◌∷◌, ◌++◌, arith,
  if◌then◌else◌, Bool-cases,
}
use openai_free_credit_track.Base.Text.{Text, text_eq→eq, text_eq_refl}
use openai_free_credit_track.History.Runs.{
  CollectionRun, CollectionSlice, is_key, is_same_slice, get_collection_run, update_run, slices_of,
  upsert_slice,
}

pub is_key→eq : (p r q t : Text) → is_key p r q t ≡ true → (p ≡ q) × (r ≡ t)
unfolding is_key
is_key→eq p r q t h = ground (arith, text_eq→eq p q, text_eq→eq r t)

pub is_key_refl : (p r : Text) → is_key p r p r ≡ true
unfolding is_key
is_key_refl p r = ground (arith, text_eq_refl p, text_eq_refl r)

-- Two keys are the same, or each is not found under the other.
pub is_key-cases : (p r q t : Text) → ((p ≡ q) × (r ≡ t)) ⊎ (is_key p r q t ≡ false)
is_key-cases p r q t = elim (Bool-cases (is_key p r q t)) [
  | inl same ↦ inl (is_key→eq p r q t same)
  | inr other ↦ inr other
]

is_key_both :
    (a b p r q t : Text) → is_key a b p r ≡ true → is_key p r q t ≡ false → is_key a b q t ≡ false
is_key_both a b p r q t h k = let (e, f) = is_key→eq a b p r h in cc

abbrev pub option_map : {A B : Type 0} → (A → B) → Option A → Option B
option_map f none = none
option_map f (some a) = some (f a)

-- The function leaves the key as it is.
abbrev pub KeepsKey : (CollectionRun → CollectionRun) → Type 0
KeepsKey f = (x : CollectionRun) → ((f x).profile_id ≡ x.profile_id) × ((f x).run_id ≡ x.run_id)

key_kept :
    (f : CollectionRun → CollectionRun) (q t : Text) (x : CollectionRun)
    → KeepsKey f
    → is_key (f x).profile_id (f x).run_id q t ≡ is_key x.profile_id x.run_id q t
key_kept f q t x keeps = let (a, b) = keeps x in cc

pub get-update_self :
    (p r : Text) (f : CollectionRun → CollectionRun) (xs : List CollectionRun)
    → KeepsKey f
    → get_collection_run p r (update_run p r f xs) ≡ option_map f (get_collection_run p r xs)
unfolding get_collection_run update_run
get-update_self p r f [] keeps = refl
get-update_self p r f (x ∷ xs) keeps = elim (Bool-cases (is_key x.profile_id x.run_id p r)) [
  | inl here ↦ rw here (rw (key_kept f p r x keeps) (rw here refl))
  | inr there ↦ rw there (rw there (get-update_self p r f xs keeps))
]

get_step :
    (q t : Text) (x : CollectionRun) (ys zs : List CollectionRun)
    → get_collection_run q t ys ≡ get_collection_run q t zs
    → get_collection_run q t (x ∷ ys) ≡ get_collection_run q t (x ∷ zs)
unfolding get_collection_run
get_step q t x ys zs e = rw e refl

pub get-update_other :
    (p r q t : Text) (f : CollectionRun → CollectionRun) (xs : List CollectionRun)
    → KeepsKey f
    → is_key p r q t ≡ false
    → get_collection_run q t (update_run p r f xs) ≡ get_collection_run q t xs
unfolding get_collection_run update_run
get-update_other p r q t f [] keeps h = refl
get-update_other p r q t f (x ∷ xs) keeps h = elim (Bool-cases (is_key x.profile_id x.run_id p r)) [
  | inl here ↦
      let other = is_key_both x.profile_id x.run_id p r q t here h in
      rw here (rw (key_kept f q t x keeps) (rw other (get-update_other p r q t f xs keeps h)))
  | inr there ↦
      rw there (get_step q t x (update_run p r f xs) xs (get-update_other p r q t f xs keeps h))
]

pub get-append :
    (p r : Text) (x : CollectionRun) (xs : List CollectionRun)
    → get_collection_run p r (xs ++ (x ∷ [])) ≡ elim (get_collection_run p r xs) [
      | some y ↦ some y
      | none ↦ if is_key x.profile_id x.run_id p r then some x else none
    ]
unfolding get_collection_run
get-append p r x [] = refl
get-append p r x (y ∷ xs) = elim (Bool-cases (is_key y.profile_id y.run_id p r)) [
  | inl here ↦ rw here refl
  | inr there ↦ rw there (get-append p r x xs)
]

slices_step :
    (q t : Text) (x : CollectionSlice) (ys zs : List CollectionSlice)
    → slices_of q t ys ≡ slices_of q t zs
    → slices_of q t (x ∷ ys) ≡ slices_of q t (x ∷ zs)
unfolding slices_of
slices_step q t x ys zs e = rw e refl

is_same_slice-key :
    (s x : CollectionSlice)
    → is_same_slice s x ≡ true
    → is_key s.profile_id s.run_id x.profile_id x.run_id ≡ true
unfolding is_same_slice
is_same_slice-key s x h = ground arith

pub slices_of-upsert_other :
    (q t : Text) (s : CollectionSlice) (xs : List CollectionSlice)
    → is_key s.profile_id s.run_id q t ≡ false
    → slices_of q t (upsert_slice s xs) ≡ slices_of q t xs
unfolding slices_of upsert_slice
slices_of-upsert_other q t s [] h = rw h refl
slices_of-upsert_other q t s (x ∷ xs) h = elim (Bool-cases (is_same_slice s x)) [
  | inl same ↦
      let (e, f) = is_key→eq _ _ _ _ (is_same_slice-key s x same) in
      let other : is_key x.profile_id x.run_id q t ≡ false = cc in rw same (rw h (rw other refl))
  | inr other ↦
      rw other (slices_step q t x (upsert_slice s xs) xs (slices_of-upsert_other q t s xs h))
]
