-- ===== src/Profiles/ScopedCalls.antt =====
-- Calls of the scoped repository in a row, and the map from pairs that it stands for.
use openai_free_credit_track.Base.{
  ℕ, suc, ◌-◌, not, Bool, Option, some, none, List, [], ◌∷◌, ◌&&◌, if◌then◌else◌,
}
use openai_free_credit_track.Base.Text.{Text, text_eq}
use openai_free_credit_track.Profiles.Scoped.{
  Result, done, value_error, not_found, is_record_id, Records, is_some, found, put, get, delete,
  delete_profile,
}

pub data Command (V : Type 0) : Type 0 where
  put_command : Text → Text → V → Command V
  get_command : Text → Text → Command V
  delete_command : Text → Text → Command V
  delete_profile_command : Text → Command V

pub data Answer (V : Type 0) : Type 0 where
  nothing invalid missing : Answer V
  value : V → Answer V
  deleted : Bool → Answer V
  removed : ℕ → Answer V

-- A map from a profile and a record to a value, and how many records it has under each profile.
pub record Map (V : Type 0) : Type 0 where
  pub at : Text → Text → Option V
  pub size : Text → ℕ

abbrev pub valued : {V : Type 0} → Result V → Answer V
valued (done v) = value v
valued value_error = invalid
valued not_found = missing

abbrev pub put_done : {V : Type 0} → Records V → Result (Records V) → Answer V × Records V
put_done records (done after) = (nothing, after)
put_done records value_error = (invalid, records)
put_done records not_found = (missing, records)

abbrev pub delete_done : {V : Type 0} → Records V → Result (Bool × Records V) → Answer V × Records V
delete_done records (done (b, after)) = (deleted b, after)
delete_done records value_error = (invalid, records)
delete_done records not_found = (missing, records)

-- The answer of the repository, and its records afterwards.
unfoldable pub step : {V : Type 0} → Command V → Records V → Answer V × Records V
step (put_command p r v) records = put_done records (put p r v records)
step (get_command p r) records = (valued (get p r records), records)
step (delete_command p r) records = delete_done records (delete p r records)
step (delete_profile_command p) records =
    (removed (delete_profile p records).0, (delete_profile p records).1)

-- The answer of the map, and the map afterwards.
unfoldable pub map_answer : {V : Type 0} → Command V → Map V → Answer V
map_answer (put_command p r v) m = if is_record_id r then nothing else invalid
map_answer (get_command p r) m = if is_record_id r then valued (found (m.at p r)) else invalid
map_answer (delete_command p r) m = if is_record_id r then deleted (is_some (m.at p r)) else invalid
map_answer (delete_profile_command p) m = removed (m.size p)

unfoldable pub at_after : {V : Type 0} → Command V → Map V → Text → Text → Option V
at_after (put_command p r v) m q s =
    if is_record_id r && (text_eq p q && text_eq r s) then some v else m.at q s
at_after (get_command p r) m q s = m.at q s
at_after (delete_command p r) m q s =
    if is_record_id r && (text_eq p q && text_eq r s) then none else m.at q s
at_after (delete_profile_command p) m q s = if text_eq p q then none else m.at q s

unfoldable pub size_after : {V : Type 0} → Command V → Map V → Text → ℕ
size_after (put_command p r v) m q =
    if is_record_id r && text_eq p q && not (is_some (m.at p r)) then suc (m.size q) else m.size q
size_after (get_command p r) m q = m.size q
size_after (delete_command p r) m q =
    if is_record_id r && text_eq p q && is_some (m.at p r) then m.size q - 1 else m.size q
size_after (delete_profile_command p) m q = if text_eq p q then 0 else m.size q

abbrev pub map_after : {V : Type 0} → Command V → Map V → Map V
map_after c m = record { at = at_after c m; size = size_after c m }

unfoldable pub answers : {V : Type 0} → List (Command V) → Records V → List (Answer V)
answers [] records = []
answers (c ∷ cs) records = (step c records).0 ∷ answers cs (step c records).1

unfoldable pub map_answers : {V : Type 0} → List (Command V) → Map V → List (Answer V)
map_answers [] m = []
map_answers (c ∷ cs) m = map_answer c m ∷ map_answers cs (map_after c m)
