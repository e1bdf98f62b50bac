-- ===== src/Locks/Tests.antt =====
-- The theorems at concrete machines.
use openai_free_credit_track.Base.{
  ℕ, ◌≡◌, refl, Bool, true, false, Option, some, ◌==◌, arith, if◌then◌else◌,
}
use openai_free_credit_track.Locks.{
  symlink, LockFile, Machine, FileInstanceLock, read_existing, is_stale, is_unchanged,
  remove_if_unchanged, acquire_loop, acquire, new_file,
}
use openai_free_credit_track.Locks.Exclusion.{
  System, start, later, acquires, Reach, Owns, Owns-unique, fresh_lock,
}
use openai_free_credit_track.Locks.Race.{Scene, stale_scene, owning, both_own}
use openai_free_credit_track.Locks.Race

-- Process 9 is dead.
abbrev machine : Machine
machine = record { is_alive = λ q. if q == 9 then false else true; now = 100; grace = 10 }

abbrev left_over : LockFile
left_over = new_file 9 77 5 20

abbrev taken : FileInstanceLock × Option LockFile × Bool
taken = acquire machine 11 6 (fresh_lock 1) (some left_over)

recovers : taken ≡ (
  record { pid = 1; owner_token = some 11; stale_recovered = true },
  some (new_file 1 11 6 100),
  true,
)
unfolding acquire acquire_loop is_stale read_existing remove_if_unchanged is_unchanged
recovers = refl

refuses :
    acquire machine 12 7 (fresh_lock 2) (some (new_file 1 11 6 100))
    ≡ (fresh_lock 2, some (new_file 1 11 6 100), false)
unfolding acquire acquire_loop is_stale read_existing
refuses = refl

-- A symbolic link is never removed, though it is stale after the grace period.
keeps_link :
    acquire machine 12 7 (fresh_lock 2) (some (record left_over { kind = symlink }))
    ≡ (fresh_lock 2, some (record left_over { kind = symlink }), false)
unfolding acquire acquire_loop is_stale read_existing remove_if_unchanged is_unchanged
keeps_link = refl

one_owner : (s : System) × Reach s × Owns s 1
unfolding acquire acquire_loop is_stale read_existing remove_if_unchanged is_unchanged
one_owner = (_, later (start machine (some left_over)) (acquires 1 11 6 refl), (refl, 11, refl))

Owns-unique_example : ◌≡◌ {A = ℕ} 1 1
unfolding one_owner
Owns-unique_example = Owns-unique one_owner.1 1 1 one_owner.2 one_owner.2

both_own_example :
    (s : Scene) × Race.Reach machine (stale_scene left_over) s
    × (s.phase 1 ≡ owning 11)
    × (s.phase 2 ≡ owning 12)
both_own_example =
    both_own machine left_over (record { pid = 9; owner_token = 77 }) 1 2 11 12 (omega arith) refl
      refl refl
