-- ===== src/Locks/Race.antt =====
-- Two calls of `acquire` that overlap: between the test of `_remove_if_unchanged` and its `unlink`,
-- another process may remove the stale file and create its own.
use openai_free_credit_track.Base.{ℕ, ◌≡◌, ◌≢◌, refl, true, false, Option, some, none, arith}
use openai_free_credit_track.Locks.{
  regular, Payload, LockFile, Machine, read_existing, is_stale, is_unchanged, new_file,
}
use openai_free_credit_track.Locks.Owning.{set_at}

-- Where a process stands in `acquire`: at the head of a round; with a file that it judged stale;
-- with one that moreover stood unchanged; and with the lock.
pub data Phase : Type 0 where
  trying : Phase
  judged checked : LockFile → Phase
  owning : ℕ → Phase

pub record Scene : Type 0 where
  pub file : Option LockFile
  pub phase : ℕ → Phase

-- One call of the file system by one process.
pub data Step (m : Machine) (s : Scene) : Scene → Type 0 where
  creates :
      (i token signature : ℕ)
      → s.phase i ≡ trying
      → s.file ≡ none
      → Step m s (record {
        file = some (new_file i token signature m.now);
        phase = set_at i (owning token) s.phase;
      })
  judges :
      (i : ℕ) (f : LockFile)
      → s.phase i ≡ trying
      → s.file ≡ some f
      → is_stale m f ≡ true
      → Step m s (record s { phase = set_at i (judged f) s.phase })
  checks :
      (i : ℕ) (f g : LockFile)
      → s.phase i ≡ judged f
      → s.file ≡ some g
      → is_unchanged f g ≡ true
      → Step m s (record s { phase = set_at i (checked f) s.phase })
  unlinks :
      (i : ℕ) (f g : LockFile)
      → s.phase i ≡ checked f
      → s.file ≡ some g
      → g.kind ≡ regular
      → Step m s (record { file = none; phase = set_at i trying s.phase })

pub data Reach (m : Machine) (s : Scene) : Scene → Type 0 where
  here : Reach m s s
  later : {t w : Scene} → Reach m s t → Step m t w → Reach m s w

abbrev pub stale_scene : LockFile → Scene
stale_scene f = record { file = some f; phase = λ q. trying }

-- Two processes that find the lock file of a dead process can both come to own the lock: each judges
-- the file stale and finds it unchanged, one removes it and creates its own, and the other removes
-- that one too.
pub both_own :
    (m : Machine) (f : LockFile) (p : Payload) (a b token other : ℕ)
    → a ≢ b
    → f.kind ≡ regular
    → f.payload ≡ some p
    → m.is_alive p.pid ≡ false
    → (s : Scene) × Reach m (stale_scene f) s
      × (s.phase a ≡ owning token)
      × (s.phase b ≡ owning other)
unfolding is_stale read_existing is_unchanged
both_own m f p a b token other ne k e d =
    let stale : is_stale m f ≡ true = ground arith in
    let same : is_unchanged f f ≡ true = ground arith in
    let start : Reach m (stale_scene f) (stale_scene f) = here in
    let a_judged = later start (judges a f refl refl stale) in
    let b_judged = later a_judged (judges b f (ground arith) refl stale) in
    let a_checked = later b_judged (checks a f f (ground arith) refl same) in
    let b_checked = later a_checked (checks b f f (ground arith) refl same) in
    let a_removed = later b_checked (unlinks a f f (ground arith) refl k) in
    let a_owns = later a_removed (creates a token 0 (ground arith) refl) in
    let b_removed =
      later a_owns (unlinks b f (new_file a token 0 m.now) (ground arith) refl refl) in
    let b_owns = later b_removed (creates b other 1 (ground arith) refl) in
    (_, b_owns, ground arith, ground arith)
