-- ===== src/History/Runs.antt =====
-- Collection runs and their slices: the tables `collection_runs` and `collection_slices` of
-- src/quota_monitor/database.py and the operations on them. The rows of a table stand in the order
-- of their row ids. A transaction that raises leaves the store as it was, so that an operation
-- returns the new store or the error. The times that the source reads from the clock are arguments,
-- and so is the identifier that `uuid4` makes.
pub mod Rows
pub mod Consistent
use openai_free_credit_track.Base.{
  ℕ, Bool, true, false, Option, some, none, List, [], ◌∷◌, ◌++◌, length, all, any, sum, ◌&&◌, ◌||◌,
  not, ltb, leb, ◌==◌, if◌then◌else◌,
}
use openai_free_credit_track.Base.Text.{Text, codes, text_eq, text_lt}
use openai_free_credit_track.History.Ranges.{Interval, is_range}
use openai_free_credit_track.History.Coverage.{interval_is_covered}

pub data RunStatus : Type 0 where
  running completed partial failed cancelled : RunStatus

pub data SliceStatus : Type 0 where
  pending in_progress completed failed : SliceStatus

pub record CollectionRun : Type 0 where
  pub profile_id : Text
  pub run_id : Text
  pub requested_start : ℕ
  pub requested_end : ℕ
  pub started_at : Text
  pub finished_at : Option Text
  pub status : RunStatus
  pub pages_fetched : ℕ
  pub error_code : Option Text

pub record CollectionSlice : Type 0 where
  pub profile_id : Text
  pub run_id : Text
  pub slice_start : ℕ
  pub slice_end : ℕ
  pub status : SliceStatus
  pub pages_fetched : ℕ
  pub checkpoint : Option Text
  pub error_code : Option Text
  pub updated_at : Text

pub record Store : Type 0 where
  pub profiles : List Text
  pub runs : List CollectionRun
  pub slices : List CollectionSlice

-- `ValueError`, `KeyError`, `sqlite3.IntegrityError` and `OverflowError`
pub data Fault : Type 0 where
  value_error key_error integrity_error overflow_error : Fault

pub data Result (A : Type 0) : Type 0 where
  done : A → Result A
  refused : Fault → Result A

unfoldable pub is_running : RunStatus → Bool
is_running RunStatus.running = true
is_running RunStatus.completed = false
is_running RunStatus.partial = false
is_running RunStatus.failed = false
is_running RunStatus.cancelled = false

unfoldable pub is_completed : RunStatus → Bool
is_completed RunStatus.running = false
is_completed RunStatus.completed = true
is_completed RunStatus.partial = false
is_completed RunStatus.failed = false
is_completed RunStatus.cancelled = false

unfoldable pub is_cancelled : RunStatus → Bool
is_cancelled RunStatus.running = false
is_cancelled RunStatus.completed = false
is_cancelled RunStatus.partial = false
is_cancelled RunStatus.failed = false
is_cancelled RunStatus.cancelled = true

unfoldable pub is_slice_completed : SliceStatus → Bool
is_slice_completed pending = false
is_slice_completed in_progress = false
is_slice_completed SliceStatus.completed = true
is_slice_completed SliceStatus.failed = false

abbrev is_lower_hex : ℕ → Bool
is_lower_hex c = (leb 48 c && leb c 57) || (leb 97 c && leb c 102)

abbrev is_prefixed : Text → (Text → Bool) → Text → Bool
is_prefixed [] f t = f t
is_prefixed (c ∷ s) f [] = false
is_prefixed (c ∷ s) f (d ∷ t) = (c == d) && is_prefixed s f t

-- `_validate_profile_id`
unfoldable pub is_profile_id : Text → Bool
is_profile_id t =
    is_prefixed (codes "prof_") (λ rest. (length rest == 32) && all is_lower_hex rest) t

abbrev is_code_start : ℕ → Bool
is_code_start c = (leb 97 c && leb c 122) || (leb 48 c && leb c 57)

-- `_safe_error_code`
unfoldable pub is_safe_error_code : Option Text → Bool
is_safe_error_code none = true
is_safe_error_code (some []) = false
is_safe_error_code (some (c ∷ t)) =
    is_code_start c && leb (length t) 63 && all (λ d. is_code_start d || (d == 95) || (d == 45)) t

-- `WHERE profile_id = ? AND run_id = ?`
unfoldable pub is_key : Text → Text → Text → Text → Bool
is_key profile_id run_id p r = text_eq profile_id p && text_eq run_id r

unfoldable pub get_collection_run : Text → Text → List CollectionRun → Option CollectionRun
get_collection_run p r [] = none
get_collection_run p r (x ∷ xs) =
    let rest = get_collection_run p r xs in
    if is_key x.profile_id x.run_id p r then some x else rest

unfoldable pub update_run :
    Text → Text → (CollectionRun → CollectionRun) → List CollectionRun → List CollectionRun
update_run p r f [] = []
update_run p r f (x ∷ xs) =
    let rest = update_run p r f xs in
    if is_key x.profile_id x.run_id p r then f x ∷ rest else x ∷ rest

unfoldable pub slices_of : Text → Text → List CollectionSlice → List CollectionSlice
slices_of p r [] = []
slices_of p r (x ∷ xs) =
    let rest = slices_of p r xs in if is_key x.profile_id x.run_id p r then x ∷ rest else rest

unfoldable pub is_same_slice : CollectionSlice → CollectionSlice → Bool
is_same_slice s t =
    is_key s.profile_id s.run_id t.profile_id t.run_id
    && (s.slice_start == t.slice_start)
    && (s.slice_end == t.slice_end)

-- `INSERT INTO collection_slices ... ON CONFLICT ... DO UPDATE SET`, which sets all other columns.
unfoldable pub upsert_slice : CollectionSlice → List CollectionSlice → List CollectionSlice
upsert_slice s [] = s ∷ []
upsert_slice s (x ∷ xs) =
    let rest = upsert_slice s xs in if is_same_slice s x then s ∷ xs else x ∷ rest

-- `SUM(pages_fetched)`
abbrev pub sum_pages : List CollectionSlice → ℕ
sum_pages xs = sum (λ (x : CollectionSlice). x.pages_fetched) xs

unfoldable pub completed_intervals : List CollectionSlice → List Interval
completed_intervals [] = []
completed_intervals (x ∷ xs) =
    let rest = completed_intervals xs in
    if is_slice_completed x.status then (x.slice_start, x.slice_end) ∷ rest else rest

-- The two statements that both writers of a slice end with.
unfoldable pub write_slice : CollectionSlice → Store → Store
write_slice s d =
    let slices = upsert_slice s d.slices in
    let pages = sum_pages (slices_of s.profile_id s.run_id slices) in
    record d {
      slices = slices;
      runs = update_run s.profile_id s.run_id (λ run. record run { pages_fetched = pages }) d.runs;
    }

unfoldable pub start_collection_run : ℕ → ℕ → Text → Text → Text → Store → Result Store
start_collection_run start end run_id started_at profile_id d =
    if not (
      is_range start end
      && is_profile_id profile_id
      && leb 1 (length run_id)
      && leb (length run_id) 128)
    then refused value_error
    else if not (any (text_eq profile_id) d.profiles)
    then refused integrity_error
    else elim (get_collection_run profile_id run_id d.runs) [
      | some run ↦ refused integrity_error
      | none ↦ done (record d {
        runs =
            d.runs
            ++ (record {
              profile_id = profile_id;
              run_id = run_id;
              requested_start = start;
              requested_end = end;
              started_at = started_at;
              finished_at = none;
              status = RunStatus.running;
              pages_fetched = 0;
              error_code = none;
            }
                ∷ []);
      })
    ]

-- `_assert_slice_in_run`: the error, if there is one.
unfoldable pub slice_fault : Option CollectionRun → ℕ → ℕ → Option Fault
slice_fault none slice_start slice_end = some key_error
slice_fault (some run) slice_start slice_end =
    if not (is_running run.status)
    then some value_error
    else if ltb slice_start run.requested_start || ltb run.requested_end slice_end
    then some value_error
    else none

abbrev is_checkpoint : Option Text → Bool
is_checkpoint none = true
is_checkpoint (some t) = leb (length t) 2048

unfoldable pub record_slice_checkpoint : CollectionSlice → Store → Result Store
record_slice_checkpoint s d =
    if not (
      is_range s.slice_start s.slice_end
      && not (is_slice_completed s.status)
      && is_safe_error_code s.error_code
      && is_profile_id s.profile_id
      && is_checkpoint s.checkpoint)
    then refused value_error
    else elim (slice_fault (get_collection_run s.profile_id s.run_id d.runs) s.slice_start
        s.slice_end) [ some fault ↦ refused fault | none ↦ done (write_slice s d) ]

-- What `reconcile_slice` does to the two tables, when its buckets are valid.
unfoldable pub complete_slice : Text → Text → ℕ → ℕ → ℕ → Text → Store → Result Store
complete_slice p r slice_start slice_end pages now d =
    if not (is_range slice_start slice_end && is_profile_id p)
    then refused value_error
    else elim (slice_fault (get_collection_run p r d.runs) slice_start slice_end) [
      | some fault ↦ refused fault
      | none ↦ done (
          write_slice
            (record {
              profile_id = p;
              run_id = r;
              slice_start = slice_start;
              slice_end = slice_end;
              status = SliceStatus.completed;
              pages_fetched = pages;
              checkpoint = none;
              error_code = none;
              updated_at = now;
            })
            d)
    ]

-- `_run_has_complete_coverage`
unfoldable pub has_complete_coverage : CollectionRun → List CollectionSlice → Bool
has_complete_coverage run slices =
    interval_is_covered run.requested_start run.requested_end (completed_intervals slices)

unfoldable pub finish_collection_run :
    Text → Text → RunStatus → Option Text → Text → Store → Result Store
finish_collection_run p r status error_code finished_at d =
    if not (not (is_running status) && is_safe_error_code error_code && is_profile_id p)
    then refused value_error
    else elim (get_collection_run p r d.runs) [
      | none ↦ refused key_error
      | some run ↦
          if is_completed status && not (has_complete_coverage run (slices_of p r d.slices))
          then refused value_error
          else done (record d {
            runs =
                update_run p r
                  (λ x. record x {
                    status = status;
                    error_code = error_code;
                    finished_at = some finished_at;
                  })
                  d.runs;
          })
    ]

unfoldable pub resume_collection_run : Text → Text → Store → Result Store
resume_collection_run p r d =
    if not (is_profile_id p) then refused value_error else elim (get_collection_run p r d.runs) [
      | none ↦ refused key_error
      | some run ↦
          if is_completed run.status || is_cancelled run.status
          then refused value_error
          else done (record d {
            runs =
                update_run p r
                  (λ x. record x {
                    status = RunStatus.running;
                    finished_at = none;
                    error_code = none;
                  })
                  d.runs;
          })
    ]

-- `ORDER BY started_at DESC, rowid DESC LIMIT 1`
abbrev newest : List CollectionRun → Option CollectionRun
newest [] = none
newest (x ∷ xs) = elim (newest xs) [
  | none ↦ some x
  | some y ↦ if text_lt y.started_at x.started_at then some x else some y
]

abbrev is_resumable : Text → ℕ → ℕ → CollectionRun → Bool
is_resumable p start end run =
    text_eq run.profile_id p
    && (run.requested_start == start)
    && (run.requested_end == end)
    && not (is_completed run.status)
    && not (is_cancelled run.status)

abbrev resumable_runs : Text → ℕ → ℕ → List CollectionRun → List CollectionRun
resumable_runs p start end [] = []
resumable_runs p start end (x ∷ xs) =
    let rest = resumable_runs p start end xs in
    if is_resumable p start end x then x ∷ rest else rest

unfoldable pub find_resumable_collection_run : Text → ℕ → ℕ → Store → Result (Option CollectionRun)
find_resumable_collection_run p start end d =
    if not (is_range start end && is_profile_id p)
    then refused value_error
    else done (newest (resumable_runs p start end d.runs))
