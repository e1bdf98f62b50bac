-- ===== src/History/Tests.antt =====
-- The theorems at concrete inputs, and runs of the definitions.
use openai_free_credit_track.Base.{
  ◌<◌, ◌≤◌, ◌≡◌, ◌↔◌, refl, true, false, some, none, List, [], ◌∷◌, All, arith, length,
}
use openai_free_credit_track.Base.Text.{Text, codes}
use openai_free_credit_track.Base.Sorting.{sorted, insert_sorted}
use openai_free_credit_track.History.Usage.{
  BucketKey, UsageBucket, integer, real, StoredBucket, UsageRow, is_int64, is_bindable, stored_of,
  add_amount, key_eq, is_inside, stage_one, stage_from, find_bucket, find_row, is_deleted,
  delete_rows, put_row, put_rows, replace_rows, is_valid_bucket, reconcile_rows,
}
use openai_free_credit_track.History.Usage.Totals.{
  column, has_key, stored_total, reconcile_rows_lem,
}
use openai_free_credit_track.History.Reconcile.{Database, reconcile_slice, reconcile_slice-done}
use openai_free_credit_track.Base.{In, ◌&&◌, ℕ, ◌+◌, ◌^◌}
use openai_free_credit_track.History.Runs.{done, refused, overflow_error}
use openai_free_credit_track.History.Ranges.{
  Interval, is_range, is_sync_range, slices_from, utc_day_slices, Tiles, IsInDay, days_touched,
  utc_day_slices_lem, default_sync_range, is_days,
}
use openai_free_credit_track.History.Coverage.{
  pair_le, covers_from, interval_is_covered, IsCovered, interval_is_covered_iff,
}
use openai_free_credit_track.History.Runs.{
  CollectionRun, RunStatus, Store, is_key, is_running, is_completed, is_slice_completed,
  is_profile_id, is_safe_error_code, is_same_slice, get_collection_run, update_run, slices_of,
  upsert_slice, sum_pages, completed_intervals, write_slice, start_collection_run, slice_fault,
  complete_slice, has_complete_coverage, finish_collection_run,
}
use openai_free_credit_track.History.Runs.Consistent.{
  Operation, start_run, reconcile, finish_run, call, run_all, empty_store, run_found, run_missing,
}
use openai_free_credit_track.Base.Text.{text_eq}

abbrev day_slices : List Interval
day_slices = (100, 86400) ∷ (86400, 90000) ∷ []

two_days : utc_day_slices 100 90000 ≡ some day_slices
unfolding utc_day_slices slices_from is_sync_range
two_days = refl

utc_day_slices_lem_example :
    Tiles 100 90000 day_slices
    × All IsInDay day_slices
    × (length day_slices ≤ days_touched 100 90000)
    × (days_touched 100 90000 ≤ 367)
utc_day_slices_lem_example = utc_day_slices_lem 100 90000 day_slices two_days

interval_is_covered_iff_example :
    (interval_is_covered 0 90 ((40, 100) ∷ (0, 50) ∷ []) ≡ true)
    ↔ IsCovered 0 90 ((40, 100) ∷ (0, 50) ∷ [])
interval_is_covered_iff_example =
    interval_is_covered_iff 0 90 ((40, 100) ∷ (0, 50) ∷ []) (omega arith)

overlap_covers : interval_is_covered 0 90 ((40, 100) ∷ (0, 50) ∷ []) ≡ true
unfolding interval_is_covered covers_from sorted insert_sorted pair_le
overlap_covers = refl

gap_uncovered : interval_is_covered 0 90 ((60, 100) ∷ (0, 50) ∷ []) ≡ false
unfolding interval_is_covered covers_from sorted insert_sorted pair_le
gap_uncovered = refl

abbrev profile : Text
profile = codes "prof_0123456789abcdef0123456789abcdef"

abbrev run_name : Text
run_name = codes "r1"

abbrev calls : List Operation
calls =
    start_run 0 100 run_name (codes "t0") profile
    ∷ reconcile profile run_name 60 100 2 (codes "t1")
    ∷ finish_run profile run_name RunStatus.completed none (codes "t2")
    ∷ reconcile profile run_name 0 60 3 (codes "t3")
    ∷ finish_run profile run_name RunStatus.completed none (codes "t4")
    ∷ []

abbrev finished : CollectionRun
finished = record {
  profile_id = profile;
  run_id = run_name;
  requested_start = 0;
  requested_end = 100;
  started_at = codes "t0";
  finished_at = some (codes "t4");
  status = RunStatus.completed;
  pages_fetched = 5;
  error_code = none;
}

abbrev other_run : Text
other_run = codes "r2"

abbrev after : Store
after = run_all calls (empty_store (profile ∷ []))

finished_found : get_collection_run profile run_name after.runs ≡ some finished
unfolding run_all call start_collection_run complete_slice finish_collection_run get_collection_run
    update_run slices_of upsert_slice is_same_slice completed_intervals write_slice slice_fault
    has_complete_coverage interval_is_covered covers_from sorted insert_sorted pair_le is_key
    text_eq is_range is_profile_id is_safe_error_code is_running is_completed is_slice_completed
finished_found = refl

other_missing : get_collection_run profile other_run after.runs ≡ none
unfolding run_all call start_collection_run complete_slice finish_collection_run get_collection_run
    update_run slices_of upsert_slice is_same_slice completed_intervals write_slice slice_fault
    has_complete_coverage interval_is_covered covers_from sorted insert_sorted pair_le is_key
    text_eq is_range is_profile_id is_safe_error_code is_running is_completed is_slice_completed
other_missing = refl

run_found_example :
    (finished.requested_start < finished.requested_end)
    × (finished.pages_fetched ≡ sum_pages (slices_of profile run_name after.slices))
    × (is_completed finished.status ≡ true
        → IsCovered finished.requested_start finished.requested_end
            (completed_intervals (slices_of profile run_name after.slices)))
run_found_example = run_found (profile ∷ []) calls profile run_name finished finished_found

run_missing_example : slices_of profile other_run after.slices ≡ []
run_missing_example = run_missing (profile ∷ []) calls profile other_run other_missing

last_day : default_sync_range 864010 1 ≡ some (777600, 864000)
unfolding default_sync_range is_days
last_day = refl

abbrev usage_key : BucketKey
usage_key = record {
  bucket_start = 0;
  bucket_end = 60;
  project_key = codes "p";
  model = codes "m";
  service_tier = codes "t";
}

abbrev usage : ℕ → ℕ → UsageBucket
usage input count = record {
  key = usage_key;
  input_tokens = input;
  cached_input_tokens = 0;
  output_tokens = 1;
  request_count = count;
  catalog_version = codes "c";
  collected_at = codes "t";
}

abbrev row_of : Text → StoredBucket → UsageRow
row_of p b = record { profile_id = p; bucket = b }

abbrev two_buckets : List UsageBucket
two_buckets = usage 5 1 ∷ usage 7 2 ∷ []

abbrev old_rows : List UsageRow
old_rows = row_of profile (stored_of (usage 100 9)) ∷ row_of run_name (stored_of (usage 30 3)) ∷ []

abbrev joint : StoredBucket
joint = record {
  key = usage_key;
  input_tokens = integer 12;
  cached_input_tokens = integer 0;
  output_tokens = integer 2;
  request_count = integer 3;
  catalog_version = codes "c";
  collected_at = codes "t";
}

abbrev new_rows : List UsageRow
new_rows = row_of profile joint ∷ row_of run_name (stored_of (usage 30 3)) ∷ []

replaced_rows : reconcile_rows profile 0 60 two_buckets old_rows ≡ done new_rows
unfolding reconcile_rows replace_rows stage_from stage_one find_bucket delete_rows is_deleted
    put_row put_rows key_eq is_inside is_bindable is_int64 add_amount text_eq
replaced_rows = refl

-- Another key inside the slice, under which nothing is given.
abbrev unused_key : BucketKey
unused_key = record usage_key { model = codes "other" }

reconcile_rows_lem_example :
    (some (integer 12) ≡ stored_total (λ b. b.input_tokens) usage_key two_buckets)
    × (some (integer 0) ≡ stored_total (λ b. b.cached_input_tokens) usage_key two_buckets)
    × (some (integer 2) ≡ stored_total (λ b. b.output_tokens) usage_key two_buckets)
    × (some (integer 3) ≡ stored_total (λ b. b.request_count) usage_key two_buckets)
unfolding find_row key_eq is_inside text_eq
reconcile_rows_lem_example =
    reconcile_rows_lem profile 0 60 two_buckets old_rows new_rows usage_key replaced_rows refl

nothing_given : stored_total (λ b. b.input_tokens) unused_key two_buckets ≡ none
unfolding has_key key_eq text_eq
nothing_given = refl

-- A row under it is deleted.
unused_deleted :
    find_row profile unused_key (
      replace_rows profile 0 60 two_buckets
        (row_of profile (record joint { key = unused_key }) ∷ []))
    ≡ none
unfolding replace_rows stage_from stage_one find_bucket find_row delete_rows is_deleted put_row
    put_rows key_eq is_inside add_amount text_eq
unused_deleted = refl

-- Two amounts that fit, of which the sum does not.
large_sum :
    column
      (λ x. x.input_tokens)
      (find_bucket usage_key (stage_from [] (usage (2 ^ 62 + 1) 1 ∷ usage (2 ^ 62) 1 ∷ [])))
    ≡ some real
unfolding stage_from stage_one find_bucket is_int64 add_amount key_eq text_eq
large_sum = refl

-- An amount that does not fit.
too_large : reconcile_rows profile 0 60 (usage (2 ^ 63) 1 ∷ []) [] ≡ refused overflow_error
unfolding reconcile_rows is_bindable is_int64
too_large = refl

abbrev started : Store
started = run_all (start_run 0 100 run_name (codes "t0") profile ∷ []) (empty_store (profile ∷ []))

abbrev completed_store : Store
completed_store = run_all (reconcile profile run_name 0 60 3 (codes "t3") ∷ []) started

abbrev database_before : Database
database_before = record { store = started; rows = old_rows }

abbrev database_after : Database
database_after = record { store = completed_store; rows = new_rows }

reconciled_slice :
    reconcile_slice profile run_name 0 60 two_buckets 3 (codes "t3") database_before
    ≡ done database_after
unfolding reconcile_slice run_all call start_collection_run complete_slice get_collection_run
    update_run slices_of upsert_slice is_same_slice write_slice slice_fault is_key is_profile_id
    is_running reconcile_rows replace_rows stage_from stage_one find_bucket delete_rows is_deleted
    put_row put_rows key_eq is_inside is_valid_bucket is_range is_bindable is_int64 add_amount
    text_eq
reconciled_slice = refl

reconcile_slice-done_example :
    In (0, 60) (completed_intervals (slices_of profile run_name completed_store.slices))
    × ((k : BucketKey)
        → is_inside 0 60 k ≡ true
        → (column (λ x. x.input_tokens) (find_row profile k new_rows)
            ≡ stored_total (λ x. x.input_tokens) k two_buckets)
          × (column (λ x. x.cached_input_tokens) (find_row profile k new_rows)
              ≡ stored_total (λ x. x.cached_input_tokens) k two_buckets)
          × (column (λ x. x.output_tokens) (find_row profile k new_rows)
              ≡ stored_total (λ x. x.output_tokens) k two_buckets)
          × (column (λ x. x.request_count) (find_row profile k new_rows)
              ≡ stored_total (λ x. x.request_count) k two_buckets))
    × ((q : Text) (k : BucketKey)
        → text_eq profile q && is_inside 0 60 k ≡ false
        → find_row q k new_rows ≡ find_row q k old_rows)
reconcile_slice-done_example =
    reconcile_slice-done profile run_name 0 60 3 two_buckets (codes "t3") database_before
      database_after reconciled_slice
