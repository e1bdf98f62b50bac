-- ===== src/Profiles/Sqlite.antt =====
-- `SQLiteProfileRepository` of src/quota_monitor/profiles/sqlite_repository.py over the rows of the
-- table `profiles`, in the order of insertion, whose identifier is its primary key and whose
-- credential is unique. The text of a time is its whole seconds. Whether another table refers to a
-- profile, which keeps it from being deleted, is an argument.
use openai_free_credit_track.Base.{
  ℕ, ◌*◌, ◌/◌, Bool, true, false, Option, some, none, List, [], ◌∷◌, ◌++◌, ◌&&◌, ◌||◌, not, ltb,
  ◌==◌, if◌then◌else◌,
}
use openai_free_credit_track.Base.Text.{Text, text_eq, text_lt}
use openai_free_credit_track.Base.Sorting.{sorted}
use openai_free_credit_track.History.Runs.{is_profile_id}
use openai_free_credit_track.Profiles.{
  Profile, Result, done, refused, duplicate_profile, credential_conflict, not_found, has_data,
  value_error, make_profile, is_reference,
}

pub record ProfileRow : Type 0 where
  pub profile_id : Text
  pub display_name : Text
  pub credential_id : Text
  pub organization_ref_private : Option Text
  pub enabled : Bool
  pub created_at : ℕ
  pub last_validated_at : Option ℕ

-- `_utc_text` and `_parse_utc`, of a time that there is and of one that may be absent.
unfoldable pub utc_text : ℕ → ℕ
utc_text t = t / 1000000

abbrev pub parse_utc : ℕ → ℕ
parse_utc seconds = seconds * 1000000

abbrev pub utc_text_or_none : Option ℕ → Option ℕ
utc_text_or_none none = none
utc_text_or_none (some t) = some (utc_text t)

abbrev pub parse_utc_or_none : Option ℕ → Option ℕ
parse_utc_or_none none = none
parse_utc_or_none (some t) = some (parse_utc t)

-- The values that `add` and `save` write.
abbrev pub row_of : Profile → ProfileRow
row_of p = record {
  profile_id = p.profile_id;
  display_name = p.display_name;
  credential_id = p.credential_ref.credential_id;
  organization_ref_private = p.organization_ref;
  enabled = p.enabled;
  created_at = utc_text p.created_at;
  last_validated_at = utc_text_or_none p.last_validated_at;
}

-- The arguments of the constructor in `_from_row`.
abbrev pub profile_of : ProfileRow → Profile
profile_of x = record {
  profile_id = x.profile_id;
  display_name = x.display_name;
  credential_ref = record { credential_id = x.credential_id; account_id = x.profile_id };
  organization_ref = x.organization_ref_private;
  enabled = x.enabled;
  created_at = parse_utc x.created_at;
  last_validated_at = parse_utc_or_none x.last_validated_at;
}

unfoldable pub find_row : Text → List ProfileRow → Option ProfileRow
find_row i [] = none
find_row i (x ∷ xs) = let rest = find_row i xs in if text_eq x.profile_id i then some x else rest

-- The profile whose row has this credential.
unfoldable pub holder : Text → List ProfileRow → Option Text
holder c [] = none
holder c (x ∷ xs) =
    let rest = holder c xs in if text_eq x.credential_id c then some x.profile_id else rest

abbrev pub is_some : {A : Type 0} → Option A → Bool
is_some none = false
is_some (some a) = true

-- `add`: an `INSERT` that breaks a constraint is told by whether the identifier is there.
unfoldable pub add : Profile → List ProfileRow → Result (List ProfileRow)
add p rows =
    if is_some (find_row p.profile_id rows) || is_some (holder p.credential_ref.credential_id rows)
    then (if is_some (find_row p.profile_id rows)
        then refused duplicate_profile
        else refused credential_conflict)
    else done (rows ++ (row_of p ∷ []))

-- `UPDATE profiles SET ... WHERE profile_id = ?`
unfoldable pub update : Profile → List ProfileRow → List ProfileRow
update p [] = []
update p (x ∷ xs) =
    let rest = update p xs in if text_eq x.profile_id p.profile_id then row_of p ∷ xs else x ∷ rest

abbrev pub is_held_by_other : Text → Option Text → Bool
is_held_by_other i none = false
is_held_by_other i (some owner) = not (text_eq owner i)

-- `save`: an update of no row is no conflict.
unfoldable pub save : Profile → List ProfileRow → Result (List ProfileRow)
save p rows =
    if is_some (find_row p.profile_id rows)
    then (if is_held_by_other p.profile_id (holder p.credential_ref.credential_id rows)
        then refused credential_conflict
        else done (update p rows))
    else refused not_found

unfoldable pub remove_row : Text → List ProfileRow → List ProfileRow
remove_row i [] = []
remove_row i (x ∷ xs) =
    let rest = remove_row i xs in if text_eq x.profile_id i then xs else x ∷ rest

-- `ORDER BY created_at, profile_id`
unfoldable pub is_row_before : ProfileRow → ProfileRow → Bool
is_row_before x y =
    if x.created_at == y.created_at
    then text_lt x.profile_id y.profile_id || text_eq x.profile_id y.profile_id
    else ltb x.created_at y.created_at

module _ (is_space : ℕ → Bool) where
  -- `_from_row`, which makes the identifier and the reference first.
  unfoldable pub from_row : ProfileRow → Result Profile
  from_row x =
      if is_profile_id x.profile_id && is_reference is_space (profile_of x).credential_ref
      then make_profile is_space (profile_of x)
      else refused value_error

  unfoldable pub get : Text → List ProfileRow → Result Profile
  get i rows = elim (find_row i rows) [ none ↦ refused not_found | some x ↦ from_row x ]

  abbrev pub deleted :
      Bool → Text → List ProfileRow → Result Profile → Result (Profile × List ProfileRow)
  deleted referred i rows (refused e) = refused e
  deleted referred i rows (done p) =
      if referred then refused has_data else done (p, remove_row i rows)

  unfoldable pub delete : Bool → Text → List ProfileRow → Result (Profile × List ProfileRow)
  delete referred i rows = deleted referred i rows (get i rows)

  abbrev pub cons_done : Result Profile → Result (List Profile) → Result (List Profile)
  cons_done (refused e) ps = refused e
  cons_done (done p) (refused e) = refused e
  cons_done (done p) (done ps) = done (p ∷ ps)

  unfoldable pub all_from : List ProfileRow → Result (List Profile)
  all_from [] = done []
  all_from (x ∷ xs) = cons_done (from_row x) (all_from xs)

  unfoldable pub list_all : List ProfileRow → Result (List Profile)
  list_all rows = all_from (sorted is_row_before rows)
