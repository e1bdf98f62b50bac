-- ===== src/Scheduler/Tests.antt =====
-- Runs of tests/test_scheduler.py, and the theorems at concrete values.
use openai_free_credit_track.Base.{
  ℕ, ◌+◌, ◌*◌, ◌^◌, ◌≤◌, ◌<◌, ◌≡◌, ◌≢◌, ◌↔◌, refl, true, false, some, none, [], ◌∷◌, arith, min,
}
use openai_free_credit_track.Scheduler.{
  CollectionScheduler, Collection, SchedulerState, RunStatus, BackoffPolicy, returned, failed,
  delay, is_valid_backoff, create, start, pause, begin, finish, tick, run_now,
}
use openai_free_credit_track.Scheduler.Runs.{
  IsIdle, tick_iff, delay_bounds, run_all, retry_schedule, auth_stops,
}
use openai_free_credit_track.Scheduler.Steps.{
  IsExclusive, here, next, start_step, begin_step, Reach-collecting, pause_in_run,
}

abbrev backoff : BackoffPolicy
backoff = record { base_seconds = 30; maximum_seconds = 1800; jitter = λ n raw. 0 }

abbrev created : CollectionScheduler
created = record {
  interval_seconds = 300;
  backoff = backoff;
  paused = true;
  running = false;
  next_run = none;
  last_success = none;
  last_error_code = none;
  failures = 0;
  state = SchedulerState.paused;
}

abbrev started : CollectionScheduler
started = record created { paused = false; next_run = some 1000; state = SchedulerState.monitoring }

abbrev collecting : CollectionScheduler
collecting = record started { running = true; state = SchedulerState.syncing }

abbrev fails : Collection
fails = record { outcome = failed; now = 1010; utc_now = 5 }

abbrev refused : Collection
refused = record {
  outcome = returned (record { status = RunStatus.auth_error; error_code = none });
  now = 1010;
  utc_now = 5;
}

delays : (delay backoff 1 ≡ 30) × (delay backoff 3 ≡ 120) × (delay backoff 20 ≡ 1800)
unfolding delay
delays = (refl, refl, refl)

tick_iff_example :
    (((tick 1000 fails started).1 ≡ true)
      ↔ (IsIdle started × ((t : ℕ) × (started.next_run ≡ some t) × (t ≤ 1000))))
    × ((tick 1000 fails started).1 ≡ false → (tick 1000 fails started).0 ≡ started)
tick_iff_example = tick_iff 1000 fails started

delay_bounds_example :
    (min 1800 (30 * 2 ^ 2) ≤ delay backoff 3) × (delay backoff 3 ≤ 1800) × (0 < delay backoff 3)
unfolding is_valid_backoff
delay_bounds_example = delay_bounds backoff 3 refl (omega arith)

retry_schedule_example :
    IsIdle (run_now fails (run_all (fails ∷ []) started)).0
    × ((run_now fails (run_all (fails ∷ []) started)).0.next_run ≡ some (1010 + delay backoff 2))
retry_schedule_example = retry_schedule (fails ∷ []) fails started (refl, refl) (refl, tt) refl

auth_stops_example :
    ((run_now refused started).1 ≡ true)
    × (tick 9999 fails (run_now refused started).0 ≡ ((run_now refused started).0, false))
    × (run_now fails (run_now refused started).0 ≡ ((run_now refused started).0, false))
auth_stops_example = auth_stops refused fails started 9999 (refl, refl) refl

Reach-collecting_example :
    IsExclusive (record { scheduler = record collecting { next_run = some 700 }; collecting = 1 })
unfolding start begin create
Reach-collecting_example =
    Reach-collecting 300 backoff created
      (record { scheduler = record collecting { next_run = some 700 }; collecting = 1 }) refl
      (next (next here (start_step created 0 700 true)) (
        begin_step (record started { next_run = some 700 })
          (record collecting { next_run = some 700 }) 0 refl))

pause_in_run_example :
    ((finish failed 1010 5 (pause collecting)).paused ≡ true)
    × ((finish failed 1010 5 (pause collecting)).state ≢ SchedulerState.paused)
    × (RunStatus.retryable_error ≢ RunStatus.auth_error
        → (finish failed 1010 5 (pause collecting)).next_run ≢ none)
unfolding begin
pause_in_run_example = pause_in_run started collecting failed 1010 5 refl
