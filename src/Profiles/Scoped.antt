-- ===== src/Profiles/Scoped.antt =====
-- `InMemoryProfileScopedRepository` of src/quota_monitor/profiles/scoped_repository.py: a dictionary
-- of dictionaries, each a list of its entries, whose keys differ. A copy of a value is the value.
use openai_free_credit_track.Base.{
  ℕ, Bool, true, false, Option, some, none, List, [], ◌∷◌, ◌&&◌, not, leb, ltb, if◌then◌else◌, any,
  is_empty, length,
}
use openai_free_credit_track.Base.Text.{Text, text_eq, text_lt}
use openai_free_credit_track.Base.Sorting.{sorted}

pub data Result (A : Type 0) : Type 0 where
  done : A → Result A
  value_error not_found : Result A

-- `_validate_record_id`
unfoldable pub is_record_id : Text → Bool
is_record_id r = not (is_empty r) && leb (length r) 500 && not (any (λ c. ltb c 32) r)

-- `dictionary.get(key)`, `dictionary[key] = value` and `del dictionary[key]`
unfoldable pub lookup : {A : Type 0} → Text → List (Text × A) → Option A
lookup k [] = none
lookup k ((j, a) ∷ rest) = let later = lookup k rest in if text_eq j k then some a else later

unfoldable pub assign : {A : Type 0} → Text → A → List (Text × A) → List (Text × A)
assign k a [] = (k, a) ∷ []
assign k a ((j, b) ∷ rest) =
    let later = assign k a rest in if text_eq j k then (j, a) ∷ rest else (j, b) ∷ later

unfoldable pub drop : {A : Type 0} → Text → List (Text × A) → List (Text × A)
drop k [] = []
drop k ((j, b) ∷ rest) = let later = drop k rest in if text_eq j k then later else (j, b) ∷ later

abbrev pub Records : Type 0 → Type 0
Records V = List (Text × List (Text × V))

abbrev pub rows_or_empty : {V : Type 0} → Option (List (Text × V)) → List (Text × V)
rows_or_empty none = []
rows_or_empty (some rows) = rows

abbrev pub is_some : {A : Type 0} → Option A → Bool
is_some none = false
is_some (some a) = true

abbrev pub found : {V : Type 0} → Option V → Result V
found none = not_found
found (some v) = done v

unfoldable pub put : {V : Type 0} → Text → Text → V → Records V → Result (Records V)
put p r v records =
    if is_record_id r
    then done (assign p (assign r v (rows_or_empty (lookup p records))) records)
    else value_error

unfoldable pub get : {V : Type 0} → Text → Text → Records V → Result V
get p r records =
    if is_record_id r then found (lookup r (rows_or_empty (lookup p records))) else value_error

-- `for key in sorted(rows)`
abbrev pub key_before : {V : Type 0} → Text × V → Text × V → Bool
key_before (j, a) (k, b) = not (text_lt k j)

unfoldable pub list_for_profile : {V : Type 0} → Text → Records V → List (Text × V)
list_for_profile p records = sorted key_before (rows_or_empty (lookup p records))

-- What a deletion leaves: the dictionary of a profile is dropped with its last record.
abbrev pub without : {V : Type 0} → Text → List (Text × V) → Records V → Records V
without p [] records = drop p records
without p (x ∷ rows) records = assign p (x ∷ rows) records

unfoldable pub delete : {V : Type 0} → Text → Text → Records V → Result (Bool × Records V)
delete p r records =
    if is_record_id r
    then (if is_some (lookup r (rows_or_empty (lookup p records)))
        then done (true, without p (drop r (rows_or_empty (lookup p records))) records)
        else done (false, records))
    else value_error

unfoldable pub delete_profile : {V : Type 0} → Text → Records V → ℕ × Records V
delete_profile p records = (length (rows_or_empty (lookup p records)), drop p records)
