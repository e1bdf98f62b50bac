-- ===== src/Profiles/Repository.antt =====
-- `InMemoryProfileRepository` of src/quota_monitor/profiles/repository.py. The dictionary is the list
-- of its values in the order of their first insertion. The lock makes each method one step.
use openai_free_credit_track.Base.{
  Bool, false, Option, some, none, List, [], ◌∷◌, ◌++◌, ◌||◌, not, ltb, ◌==◌, if◌then◌else◌,
}
use openai_free_credit_track.Base.Text.{Text, text_eq, text_lt}
use openai_free_credit_track.Base.Sorting.{sorted}
use openai_free_credit_track.Profiles.{
  Profile, Result, done, refused, duplicate_profile, credential_conflict, not_found,
}

unfoldable pub credential_owner : Text → List Profile → Option Text
credential_owner c [] = none
credential_owner c (x ∷ xs) =
    let rest = credential_owner c xs in
    if text_eq x.credential_ref.credential_id c then some x.profile_id else rest

unfoldable pub find : Text → List Profile → Option Profile
find i [] = none
find i (x ∷ xs) = let rest = find i xs in if text_eq x.profile_id i then some x else rest

unfoldable pub get : Text → List Profile → Result Profile
get i repo = elim (find i repo) [ none ↦ refused not_found | some p ↦ done p ]

unfoldable pub add : Profile → List Profile → Result (List Profile)
add p repo = elim (find p.profile_id repo) [
  | some q ↦ refused duplicate_profile
  | none ↦ elim (credential_owner p.credential_ref.credential_id repo) [
    | some owner ↦ refused credential_conflict
    | none ↦ done (repo ++ (p ∷ []))
  ]
]

-- `self._profiles[profile.profile_id] = profile` for a key that is there.
unfoldable pub put : Profile → List Profile → List Profile
put p [] = []
put p (x ∷ xs) =
    let rest = put p xs in if text_eq x.profile_id p.profile_id then p ∷ xs else x ∷ rest

abbrev pub is_other : Text → Option Text → Bool
is_other i none = false
is_other i (some owner) = not (text_eq owner i)

unfoldable pub save : Profile → List Profile → Result (List Profile)
save p repo = elim (find p.profile_id repo) [
  | none ↦ refused not_found
  | some q ↦
      if is_other p.profile_id (credential_owner p.credential_ref.credential_id repo)
      then refused credential_conflict
      else done (put p repo)
]

unfoldable pub remove : Text → List Profile → List Profile
remove i [] = []
remove i (x ∷ xs) = let rest = remove i xs in if text_eq x.profile_id i then xs else x ∷ rest

unfoldable pub delete : Text → List Profile → Result (Profile × List Profile)
delete i repo = elim (find i repo) [ none ↦ refused not_found | some p ↦ done (p, remove i repo) ]

-- The order of the pairs of the creation time and the identifier.
unfoldable pub is_before : Profile → Profile → Bool
is_before p q =
    if p.created_at == q.created_at
    then text_lt p.profile_id q.profile_id || text_eq p.profile_id q.profile_id
    else ltb p.created_at q.created_at

unfoldable pub list_all : List Profile → List Profile
list_all repo = sorted is_before repo
