-- ===== src/Scheduler/Runs.antt =====
-- When a tick collects, how long the scheduler waits after failures, and what stops it.
use native.Mathlib.Nat.{one-le-pow}
use openai_free_credit_track.Base.{
  ℕ, ◌+◌, ◌-◌, ◌*◌, ◌^◌, ◌≤◌, ◌<◌, ◌≡◌, ◌↔◌, refl, true, false, some, List, [], ◌∷◌, All, length,
  arith, min, ap₂, ◌∙◌,
}
use openai_free_credit_track.Scheduler.{
  CollectionScheduler, Collection, RunStatus, result_of, BackoffPolicy, is_valid_backoff, delay,
  finish, begin, run, tick, run_now,
}

-- The scheduler is neither paused nor collecting.
abbrev pub IsIdle : CollectionScheduler → Type 0
IsIdle s = (s.paused ≡ false) × (s.running ≡ false)

-- A tick collects exactly when the scheduler is neither paused nor collecting and its next run is
-- due; otherwise it changes nothing.
pub tick_iff :
    (now : ℕ) (c : Collection) (s : CollectionScheduler)
    → (((tick now c s).1 ≡ true) ↔ (IsIdle s × ((t : ℕ) × (s.next_run ≡ some t) × (t ≤ now))))
      × ((tick now c s).1 ≡ false → (tick now c s).0 ≡ s)
unfolding tick run begin
tick_iff now c s = ((λ h. ground arith, λ (idle, (t, e, due)). ground arith), λ h. ground arith)

doubled_pos : (n k : ℕ) → 0 < n → 0 < n * 2 ^ k
doubled_pos n k h = let two = one-le-pow k 2 (omega arith) in grind arith

-- With valid bounds, the wait after `f` failures is at least the base doubled `f - 1` times, capped
-- at the maximum, and it never exceeds the maximum.
pub delay_bounds :
    (b : BackoffPolicy) (f : ℕ)
    → is_valid_backoff b ≡ true
    → 1 ≤ f
    → (min b.maximum_seconds (b.base_seconds * 2 ^ (f - 1)) ≤ delay b f)
      × (delay b f ≤ b.maximum_seconds)
      × (0 < delay b f)
unfolding delay is_valid_backoff
delay_bounds b f v h =
    let least = doubled_pos b.base_seconds (f - 1) (ground arith) in
    (ground arith, ground arith, ground (arith, least))

abbrev pub IsRetry : Collection → Type 0
IsRetry c = (result_of c.outcome).status ≡ RunStatus.retryable_error

-- One collection after the other.
pub run_all : List Collection → CollectionScheduler → CollectionScheduler
run_all [] s = s
run_all (c ∷ cs) s = run_all cs (run_now c s).0

run_now-retry :
    (c : Collection) (s : CollectionScheduler)
    → IsIdle s
    → IsRetry c
    → IsIdle (run_now c s).0
      × ((run_now c s).0.failures ≡ s.failures + 1)
      × ((run_now c s).0.next_run ≡ some (c.now + delay s.backoff (s.failures + 1)))
      × ((run_now c s).0.backoff ≡ s.backoff)
unfolding run_now begin finish
run_now-retry c s idle h = ground arith

run_all-retry :
    (cs : List Collection) (s : CollectionScheduler)
    → IsIdle s
    → All IsRetry cs
    → IsIdle (run_all cs s)
      × ((run_all cs s).failures ≡ s.failures + length cs)
      × ((run_all cs s).backoff ≡ s.backoff)
unfolding run_all
run_all-retry [] s idle h = (idle, omega arith, refl)
run_all-retry (c ∷ cs) s idle (r, h) =
    let (idle', n, _, b) = run_now-retry c s idle r in
    let (last, m, b') = run_all-retry cs (run_now c s).0 idle' h in (last, omega arith, b' ∙ b)

-- The (n+1)-th failure in a row schedules the next run after the backoff's delay for all failures
-- so far, and leaves the scheduler running.
pub retry_schedule :
    (cs : List Collection) (c : Collection) (s : CollectionScheduler)
    → IsIdle s
    → All IsRetry cs
    → IsRetry c
    → IsIdle (run_now c (run_all cs s)).0
      × ((run_now c (run_all cs s)).0.next_run
          ≡ some (c.now + delay s.backoff (s.failures + length cs + 1)))
retry_schedule cs c s idle h r =
    let (idle', n, b) = run_all-retry cs s idle h in
    let (last, _, at, _) = run_now-retry c (run_all cs s) idle' r in
    (last, at ∙ ap₂ (λ (p : BackoffPolicy) (k : ℕ). some (c.now + delay p (k + 1))) b n)

-- A refused credential stops the scheduler: no tick at any time, and no request to run now,
-- collects until it is started again.
pub auth_stops :
    (c later : Collection) (s : CollectionScheduler) (now : ℕ)
    → IsIdle s
    → (result_of c.outcome).status ≡ RunStatus.auth_error
    → let stopped = (run_now c s).0 in
      ((run_now c s).1 ≡ true)
      × (tick now later stopped ≡ (stopped, false))
      × (run_now later stopped ≡ (stopped, false))
unfolding tick run_now begin finish
auth_stops c later s now idle h = (ground arith, ground arith, ground arith)
