-- ===== src/Scheduler/Steps.antt =====
-- Threads that call one scheduler: the locked parts interleave, and collections never overlap.
use openai_free_credit_track.Base.{
  ℕ, suc, ◌≡◌, ◌≢◌, ◌⊎◌, inr, refl, Bool, true, false, some, none, arith,
}
use openai_free_credit_track.Scheduler.{
  CollectionScheduler, SchedulerState, Collected, RunStatus, result_of, BackoffPolicy, create,
  start, pause, begin, finish,
}

-- A scheduler, and how many threads stand between the two locked parts of `_run`.
pub record System : Type 0 where
  pub scheduler : CollectionScheduler
  pub collecting : ℕ

-- One locked part, by any thread. `begin` has the guards of `_run`, so that those of `tick` and
-- `run_now` before it only leave steps out.
pub data Step : System → System → Type 0 where
  start_step :
      (s : CollectionScheduler) (n now : ℕ) (at_once : Bool)
      → Step
          (record { scheduler = s; collecting = n })
          (record { scheduler = start at_once now s; collecting = n })
  pause_step :
      (s : CollectionScheduler) (n : ℕ)
      → Step
          (record { scheduler = s; collecting = n })
          (record { scheduler = pause s; collecting = n })
  begin_step :
      (s r : CollectionScheduler) (n : ℕ)
      → begin s ≡ some r
      → Step
          (record { scheduler = s; collecting = n })
          (record { scheduler = r; collecting = suc n })
  finish_step :
      (s : CollectionScheduler) (n : ℕ) (c : Collected) (now utc_now : ℕ)
      → Step
          (record { scheduler = s; collecting = suc n })
          (record { scheduler = finish c now utc_now s; collecting = n })

pub data Reach (s : System) : System → Type 0 where
  here : Reach s s
  next : {t w : System} → Reach s t → Step t w → Reach s w

-- The flag `_running` counts the threads that collect.
abbrev pub IsExclusive : System → Type 0
IsExclusive t =
    ((t.scheduler.running ≡ true) × (t.collecting ≡ 1))
    ⊎ ((t.scheduler.running ≡ false) × (t.collecting ≡ 0))

finish-running :
    (c : Collected) (now utc_now : ℕ) (s : CollectionScheduler)
    → (finish c now utc_now s).running ≡ false
unfolding finish
finish-running c now utc_now s = ground arith

Step-IsExclusive : {t w : System} → Step t w → IsExclusive t → IsExclusive w
unfolding start pause begin
Step-IsExclusive (start_step s n now at_once) h = h
Step-IsExclusive (pause_step s n) h = h
Step-IsExclusive (begin_step s r n e) h = ground arith
Step-IsExclusive (finish_step s n c now utc_now) h = ground (arith, finish-running c now utc_now s)

Reach-IsExclusive : {s t : System} → IsExclusive s → Reach s t → IsExclusive t
Reach-IsExclusive h here = h
Reach-IsExclusive h (next r st) = Step-IsExclusive st (Reach-IsExclusive h r)

abbrev pub fresh_system : CollectionScheduler → System
fresh_system s = record { scheduler = s; collecting = 0 }

-- From a new scheduler, whatever the threads do, at most one collection runs at a time, and
-- `running` says whether one does.
pub Reach-collecting :
    (interval : ℕ) (b : BackoffPolicy) (s : CollectionScheduler) (t : System)
    → create interval b ≡ some s
    → Reach (fresh_system s) t
    → IsExclusive t
unfolding create
Reach-collecting interval b s t e r =
    let idle : s.running ≡ false = ground arith in Reach-IsExclusive (inr (idle, refl)) r

-- A pause that falls into a collection is kept, but the end of the collection overwrites the state
-- and, unless the credential was refused, sets a next run.
pub pause_in_run :
    (s r : CollectionScheduler) (c : Collected) (now utc_now : ℕ)
    → begin s ≡ some r
    → ((finish c now utc_now (pause r)).paused ≡ true)
      × ((finish c now utc_now (pause r)).state ≢ SchedulerState.paused)
      × ((result_of c).status ≢ RunStatus.auth_error
          → (finish c now utc_now (pause r)).next_run ≢ none)
unfolding pause finish
pause_in_run s r c now utc_now e = (ground arith, λ q. ground arith, λ h q. ground arith)
