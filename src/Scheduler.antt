-- ===== src/Scheduler.antt =====
-- src/quota_monitor/scheduler.py: the collection scheduler and its backoff.
-- Times are whole units of the monotonic clock, and the sums of the source are exact here. The lock
-- makes each method, and each of the two locked parts of `_run`, one step. The collector, both
-- clocks and the random source are outside: what they return are arguments.
pub mod Steps
pub mod Runs
mod Tests
use openai_free_credit_track.Base.{
  ℕ, ◌+◌, ◌-◌, ◌*◌, ◌^◌, Bool, true, false, String, str_eq, Option, some, none, ◌||◌, ◌&&◌, not,
  ltb, leb, ◌==◌, if◌then◌else◌, min,
}

abbrev pub minimum_interval_seconds : ℕ
minimum_interval_seconds = 300

abbrev pub default_interval_seconds : ℕ
default_interval_seconds = 900

pub data SchedulerState : Type 0 where
  monitoring paused syncing stale error : SchedulerState

pub data RunStatus : Type 0 where
  success partial retryable_error auth_error : RunStatus

pub record RunResult : Type 0 where
  pub status : RunStatus
  pub error_code : Option String

-- What the call of the collector does: it returns a result, or raises, or returns something else.
pub data Collected : Type 0 where
  returned : RunResult → Collected
  failed : Collected

pub record BackoffPolicy : Type 0 where
  pub base_seconds : ℕ
  pub maximum_seconds : ℕ
  -- `raw * jitter_ratio * random_source()` at the call for so many failures.
  pub jitter : ℕ → ℕ → ℕ

-- The check of the bounds in `BackoffPolicy.__init__`.
unfoldable pub is_valid_backoff : BackoffPolicy → Bool
is_valid_backoff b = ltb 0 b.base_seconds && leb b.base_seconds b.maximum_seconds

unfoldable pub delay : BackoffPolicy → ℕ → ℕ
delay b failures =
    let raw = min b.maximum_seconds (b.base_seconds * 2 ^ (failures - 1)) in
    if ltb failures 1 then 0 else min b.maximum_seconds (raw + b.jitter failures raw)

pub record CollectionScheduler : Type 0 where
  pub interval_seconds : ℕ
  pub backoff : BackoffPolicy
  pub paused : Bool
  pub running : Bool
  pub next_run : Option ℕ
  pub last_success : Option ℕ
  pub last_error_code : Option String
  pub failures : ℕ
  pub state : SchedulerState

-- `__init__`; `none` is the `ValueError` for a short interval.
unfoldable pub create : ℕ → BackoffPolicy → Option CollectionScheduler
create interval backoff =
    if ltb interval minimum_interval_seconds
    then none
    else some (record {
      interval_seconds = interval;
      backoff = backoff;
      paused = true;
      running = false;
      next_run = none;
      last_success = none;
      last_error_code = none;
      failures = 0;
      state = SchedulerState.paused;
    })

-- `resume` is the same, but for the default of its argument.
unfoldable pub start : Bool → ℕ → CollectionScheduler → CollectionScheduler
start run_immediately now s = record s {
  paused = false;
  next_run = some (if run_immediately then now else now + s.interval_seconds);
  state = monitoring;
}

unfoldable pub pause : CollectionScheduler → CollectionScheduler
pause s = record s { paused = true; next_run = none; state = SchedulerState.paused }

-- `now < next_run` of `tick`, where `None` does not run.
abbrev is_early : ℕ → Option ℕ → Bool
is_early now none = true
is_early now (some t) = ltb now t

-- The first locked part of `_run`; `none` is `return False`.
unfoldable pub begin : CollectionScheduler → Option CollectionScheduler
begin s =
    if s.paused || s.running then none else some (record s { running = true; state = syncing })

-- The `except` clause around the collector.
abbrev pub result_of : Collected → RunResult
result_of (returned r) = r
result_of failed = record { status = retryable_error; error_code = some "collection_failed" }

-- `code or default`
abbrev or_code : Option String → String → Option String
or_code none d = some d
or_code (some c) d = some (if str_eq c "" then d else c)

finish_as : RunStatus → Option String → ℕ → ℕ → CollectionScheduler → CollectionScheduler
finish_as success code now utc_now s = record s {
  running = false;
  failures = 0;
  last_error_code = none;
  last_success = some utc_now;
  next_run = some (now + s.interval_seconds);
  state = monitoring;
}
finish_as partial code now utc_now s = record s {
  running = false;
  failures = 0;
  last_error_code = or_code code "partial_collection";
  next_run = some (now + s.interval_seconds);
  state = stale;
}
finish_as auth_error code now utc_now s = record s {
  running = false;
  paused = true;
  next_run = none;
  last_error_code = or_code code "credential_invalid";
  state = error;
}
finish_as retryable_error code now utc_now s = record s {
  running = false;
  failures = s.failures + 1;
  last_error_code = or_code code "collection_failed";
  next_run = some (now + delay s.backoff (s.failures + 1));
  state = error;
}

-- The second locked part of `_run`, at the monotonic and the UTC time read after the collector.
unfoldable pub finish : Collected → ℕ → ℕ → CollectionScheduler → CollectionScheduler
unfolding finish_as delay
finish c now utc_now s = finish_as (result_of c).status (result_of c).error_code now utc_now s

-- What happens around one call of `_run`: the collector's outcome, and the times read after it.
pub record Collection : Type 0 where
  pub outcome : Collected
  pub now : ℕ
  pub utc_now : ℕ

-- `_run` with no other step between its two locked parts.
unfoldable pub run : Collection → CollectionScheduler → CollectionScheduler × Bool
unfolding begin finish
run c s = elim (begin s) [ none ↦ (s, false) | some r ↦ (finish c.outcome c.now c.utc_now r, true) ]

unfoldable pub tick : ℕ → Collection → CollectionScheduler → CollectionScheduler × Bool
unfolding run
tick now c s = if s.paused || s.running || is_early now s.next_run then (s, false) else run c s

unfoldable pub run_now : Collection → CollectionScheduler → CollectionScheduler × Bool
unfolding run
run_now c s = if s.paused || s.running then (s, false) else run c s

pub record SchedulerSnapshot : Type 0 where
  pub state : SchedulerState
  pub next_run_monotonic : Option ℕ
  pub last_success_at : Option ℕ
  pub last_error_code : Option String
  pub consecutive_failures : ℕ
  pub running : Bool

unfoldable pub snapshot : CollectionScheduler → SchedulerSnapshot
snapshot s = record {
  state = s.state;
  next_run_monotonic = s.next_run;
  last_success_at = s.last_success;
  last_error_code = s.last_error_code;
  consecutive_failures = s.failures;
  running = s.running;
}
