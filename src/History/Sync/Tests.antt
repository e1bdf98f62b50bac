-- ===== src/History/Sync/Tests.antt =====
-- Calls of `sync` with concrete clients.
use openai_free_credit_track.Base.{◌≡◌, refl, true, false, some, none, [], ◌∷◌, ltb, if◌then◌else◌}
use openai_free_credit_track.Base.Text.{Text, codes, text_eq, text_lt}
use openai_free_credit_track.Base.Sorting.{sorted, insert_sorted}
use openai_free_credit_track.History.Ranges.{
  Interval, is_range, is_sync_range, slices_from, utc_day_slices,
}
use openai_free_credit_track.History.Coverage.{pair_le, covers_from, interval_is_covered}
use openai_free_credit_track.History.Runs.{
  RunStatus, done, is_key, is_running, is_completed, is_cancelled, is_slice_completed,
  is_profile_id, is_safe_error_code, is_same_slice, get_collection_run, update_run, slices_of,
  upsert_slice, completed_intervals, write_slice, start_collection_run, slice_fault,
  record_slice_checkpoint, complete_slice, has_complete_coverage, finish_collection_run,
  resume_collection_run, find_resumable_collection_run,
}
use openai_free_credit_track.History.Usage.{
  reconcile_rows, replace_rows, stage_from, delete_rows, put_rows,
}
use openai_free_credit_track.History.Reconcile.{Database, reconcile_slice}
use openai_free_credit_track.History.Sync.{
  Fetched, fetched, broken, SyncResult, conclude, watch, fail_slice, take_slice, sync_slice,
  was_completed, sync_slices, open_run, sync,
}
use openai_free_credit_track.History.Sync.Recorded.{IsRecorded, sync-IsRecorded}

abbrev profile : Text
profile = codes "prof_0123456789abcdef0123456789abcdef"

abbrev empty : Database
empty = record { store = record { profiles = profile ∷ []; runs = []; slices = [] }; rows = [] }

-- It fails on the second day.
abbrev failing : Interval → Fetched
failing (a, b) =
    if ltb 0 (if ltb a 86400 then 0 else 1)
    then broken (none ∷ []) (codes "timeout")
    else fetched (none ∷ []) [] 1

abbrev working : Interval → Fetched
working i = fetched (none ∷ []) [] 1

abbrev half : Database
half = (sync true profile (codes "r1") 100 90000 (codes "t0") failing empty).0

abbrev partial_result : SyncResult
partial_result = record {
  run_id = codes "r1";
  requested_start = 100;
  requested_end = 90000;
  status = RunStatus.partial;
  completed_slices = 1;
  total_slices = 2;
  pages_fetched = 2;
  error_code = some (codes "timeout");
  resumed = false;
}

abbrev resumed_result : SyncResult
resumed_result = record {
  run_id = codes "r1";
  requested_start = 100;
  requested_end = 90000;
  status = RunStatus.completed;
  completed_slices = 2;
  total_slices = 2;
  pages_fetched = 2;
  error_code = none;
  resumed = true;
}

-- The first call fails on the second day, and the second call resumes the run and completes it.
fails_then_resumes :
    ((sync true profile (codes "r1") 100 90000 (codes "t0") failing empty).1 ≡ done partial_result)
    × ((sync true profile (codes "r2") 100 90000 (codes "t1") working half).1 ≡ done resumed_result)
unfolding sync open_run sync_slices sync_slice take_slice fail_slice watch conclude was_completed
    utc_day_slices slices_from is_sync_range is_range is_profile_id is_safe_error_code is_key
    is_running is_completed is_cancelled is_slice_completed is_same_slice get_collection_run
    update_run slices_of upsert_slice completed_intervals write_slice start_collection_run
    slice_fault record_slice_checkpoint complete_slice has_complete_coverage finish_collection_run
    resume_collection_run find_resumable_collection_run reconcile_slice reconcile_rows replace_rows
    stage_from delete_rows put_rows interval_is_covered covers_from sorted insert_sorted pair_le
    text_eq text_lt
fails_then_resumes = (refl, refl)

sync-IsRecorded_example :
    IsRecorded profile (sync true profile (codes "r2") 100 90000 (codes "t1") working half)
sync-IsRecorded_example =
    sync-IsRecorded true profile (codes "r2") 100 90000 (codes "t1") working half
