-- ===== src/History/Sync.antt =====
-- `UsageSyncService.sync` of src/quota_monitor/sync_service.py, over the database of Reconcile. What
-- the client does for a slice is an argument; so are the run's new identifier, the clock's text,
-- and the range, which `default_sync_range` gives if the caller does not. Progress goes to a
-- callback that is outside and is left out. An error leaves the transactions before it committed.
pub mod Recorded
mod Tests
use openai_free_credit_track.Base.{
  ℕ, zero, suc, ◌+◌, Bool, true, false, Option, some, none, List, [], ◌∷◌, ◌&&◌, ◌==◌, length, any,
  sum, if◌then◌else◌,
}
use openai_free_credit_track.Base.Text.{Text, codes}
use openai_free_credit_track.History.Ranges.{Interval, utc_day_slices}
use openai_free_credit_track.History.Runs.{
  CollectionRun, RunStatus, CollectionSlice, SliceStatus, Store, Fault, value_error, key_error,
  Result, done, refused, is_slice_completed, slices_of, get_collection_run, start_collection_run,
  record_slice_checkpoint, finish_collection_run, resume_collection_run,
  find_resumable_collection_run,
}
use openai_free_credit_track.History.Usage.{UsageBucket}
use openai_free_credit_track.History.Reconcile.{Database, reconcile_slice}

-- `fetch_usage_slice`: the checkpoints after the pages that the client returned, then the records and
-- the number of pages, or the safe code of the error that the fetch ends with.
pub data Fetched : Type 0 where
  fetched : List (Option Text) → List UsageBucket → ℕ → Fetched
  broken : List (Option Text) → Text → Fetched

pub record SyncResult : Type 0 where
  pub run_id : Text
  pub requested_start : ℕ
  pub requested_end : ℕ
  pub status : RunStatus
  pub completed_slices : ℕ
  pub total_slices : ℕ
  pub pages_fetched : ℕ
  pub error_code : Option Text
  pub resumed : Bool

-- What the service and one call of `sync` are given.
pub record Sync : Type 0 where
  pub profile_id : Text
  pub run_id : Text
  pub start : ℕ
  pub end : ℕ
  pub total : ℕ
  pub resumed : Bool
  pub now : Text
  pub client : Interval → Fetched

abbrev pub Outcome : Type 0
Outcome = Database × Result SyncResult

abbrev pub with_new_store : Database → Store → Database
with_new_store d store = record d { store = store }

-- The end of `sync`, and of its `except` clause.
unfoldable pub conclude : Sync → RunStatus → ℕ → Option Text → Database → Outcome
conclude s status completed error_code d =
    elim (finish_collection_run s.profile_id s.run_id status error_code s.now d.store) [
      | refused f ↦ (d, refused f)
      | done store ↦ elim (get_collection_run s.profile_id s.run_id store.runs) [
        | none ↦ (with_new_store d store, refused key_error)
        | some run ↦ (
          with_new_store d store,
          done (record {
            run_id = s.run_id;
            requested_start = s.start;
            requested_end = s.end;
            status = status;
            completed_slices = completed;
            total_slices = s.total;
            pages_fetched = run.pages_fetched;
            error_code = error_code;
            resumed = s.resumed;
          }),
        )
      ]
    ]

abbrev pub checkpoint_of :
    Sync → Interval → SliceStatus → Option Text → ℕ → Option Text → CollectionSlice
checkpoint_of s (a, b) status checkpoint pages error_code = record {
  profile_id = s.profile_id;
  run_id = s.run_id;
  slice_start = a;
  slice_end = b;
  status = status;
  pages_fetched = pages;
  checkpoint = checkpoint;
  error_code = error_code;
  updated_at = s.now;
}

-- `_CheckpointingClient`: its two counters, the store, and the error of the database, if any, that
-- it raises into the fetch.
pub record Watched : Type 0 where
  pub store : Store
  pub checkpoint : Option Text
  pub pages : ℕ
  pub fault : Option Fault

unfoldable pub watch : Sync → Interval → List (Option Text) → Watched → Watched
watch s i [] w = w
watch s i (checkpoint ∷ pages) w =
    let count = suc w.pages in
    elim (record_slice_checkpoint (checkpoint_of s i SliceStatus.in_progress checkpoint count none)
      w.store) [
        | refused f ↦ record {
          store = w.store;
          checkpoint = checkpoint;
          pages = count;
          fault = some f;
        }
        | done next ↦
            watch s i pages
              (record { store = next; checkpoint = checkpoint; pages = count; fault = none })
      ]

abbrev pub pages_of : Fetched → List (Option Text)
pages_of (fetched pages buckets count) = pages
pages_of (broken pages code) = pages

-- One round of the loop ends the call, or goes on.
pub data Round : Type 0 where
  stop : Outcome → Round
  go_on : Database → Round

-- The `except` clause.
unfoldable pub fail_slice : Sync → Interval → Watched → Text → ℕ → Database → Outcome
fail_slice s i w code completed d =
    let failure = checkpoint_of s i SliceStatus.failed w.checkpoint w.pages (some code) in
    let status = if completed == 0 then RunStatus.failed else RunStatus.partial in
    elim (record_slice_checkpoint failure d.store) [
      | refused f ↦ (d, refused f)
      | done store ↦ conclude s status completed (some code) (with_new_store d store)
    ]

abbrev pub sync_failed : Text
sync_failed = codes "sync_failed"

-- The `try` block, after the pages were read.
unfoldable pub take_slice : Sync → Interval → Watched → ℕ → Database → Fetched → Round
take_slice s (a, b) w completed d (broken pages code) =
    stop (fail_slice s (a, b) w code completed d)
take_slice s (a, b) w completed d (fetched pages buckets count) =
    elim (reconcile_slice s.profile_id s.run_id a b buckets count s.now d) [
      | refused f ↦ stop (fail_slice s (a, b) w sync_failed completed d)
      | done e ↦ go_on e
    ]

unfoldable pub sync_slice : Sync → Interval → ℕ → Database → Round
sync_slice s i completed d =
    elim (record_slice_checkpoint (checkpoint_of s i SliceStatus.in_progress none 0 none) d.store) [
      | refused f ↦ stop (d, refused f)
      | done store ↦
          let result = s.client i in
          let w =
            watch s i (pages_of result)
              (record { store = store; checkpoint = none; pages = 0; fault = none }) in
          elim w.fault [
            | some f ↦ stop (fail_slice s i w sync_failed completed (with_new_store d w.store))
            | none ↦ take_slice s i w completed (with_new_store d w.store) result
          ]
    ]

-- `existing and existing["status"] == "completed"`
unfoldable pub was_completed : Interval → List CollectionSlice → Bool
was_completed (a, b) prior =
    any
      (λ (x : CollectionSlice).
        (x.slice_start == a) && (x.slice_end == b) && is_slice_completed x.status)
      prior

unfoldable pub sync_slices : Sync → List CollectionSlice → List Interval → ℕ → Database → Outcome
sync_slices s prior [] completed d = conclude s RunStatus.completed completed none d
sync_slices s prior (i ∷ slices) completed d = elim (was_completed i prior) [
  | true ↦ sync_slices s prior slices completed d
  | false ↦ elim (sync_slice s i completed d) [
    | stop o ↦ o
    | go_on e ↦ sync_slices s prior slices (suc completed) e
  ]
]

abbrev pub count_completed : List CollectionSlice → ℕ
count_completed xs = sum (λ (x : CollectionSlice). if is_slice_completed x.status then 1 else 0) xs

-- The run that is worked on: its identifier, whether it was resumed, and the store.
unfoldable pub open_run : Bool → Text → Text → ℕ → ℕ → Text → Store → Result (Text × Bool × Store)
open_run resume p new_id start end now d =
    elim (if resume then find_resumable_collection_run p start end d else done none) [
      | refused f ↦ refused f
      | done (some run) ↦ elim (resume_collection_run p run.run_id d) [
        | refused f ↦ refused f
        | done e ↦ done (run.run_id, true, e)
      ]
      | done none ↦ elim (start_collection_run start end new_id now p d) [
        | refused f ↦ refused f
        | done e ↦ done (new_id, false, e)
      ]
    ]

unfoldable pub sync : Bool → Text → Text → ℕ → ℕ → Text → (Interval → Fetched) → Database → Outcome
sync resume p new_id start end now client d = elim (utc_day_slices start end) [
  | none ↦ (d, refused value_error)
  | some slices ↦ elim (open_run resume p new_id start end now d.store) [
    | refused f ↦ (d, refused f)
    | done (run_id, resumed, store) ↦
        let prior = slices_of p run_id store.slices in
        sync_slices
          (record {
            profile_id = p;
            run_id = run_id;
            start = start;
            end = end;
            total = length slices;
            resumed = resumed;
            now = now;
            client = client;
          })
          prior slices (count_completed prior) (with_new_store d store)
  ]
]
