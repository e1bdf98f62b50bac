-- ===== src/Locks/Exclusion.antt =====
-- Processes whose calls of `acquire` and `release` follow one another: at most one live process owns
-- the lock. What happens when two calls overlap is the matter of Race.
use openai_free_credit_track.Base.{
  ℕ, ◌≡◌, refl, sym, ap, ◌∙◌, subst, Bool, true, false, Option, some, none, ◌==◌, arith,
}
use openai_free_credit_track.Locks.{
  Payload, LockFile, Machine, FileInstanceLock, acquire_loop, acquire, release_file, release,
}
use openai_free_credit_track.Locks.Owning.{
  set_at, set_at-other, set_at-all, Names, acquire_loop-Acquired, Sound, some_inj, Sound-Acquired,
  Sound-acquire_loop_other,
}

-- The machine, the lock file, and the lock object of each process, by its identifier.
pub record System : Type 0 where
  pub machine : Machine
  pub file : Option LockFile
  pub locks : ℕ → FileInstanceLock

abbrev pub fresh_lock : ℕ → FileInstanceLock
fresh_lock i = record { pid = i; owner_token = none; stale_recovered = false }

abbrev with_alive : ℕ → Bool → Machine → Machine
with_alive i b m = record m { is_alive = set_at i b m.is_alive }

-- A whole call by a live process, a death, a start, or the passing of time. A process may die in
-- `_create`, between the creation of the file and the writing of its payload.
pub data Step (s : System) : System → Type 0 where
  acquires :
      (i token signature : ℕ)
      → s.machine.is_alive i ≡ true
      → Step s (
          let r = acquire s.machine token signature (s.locks i) s.file in
          record s { file = r.1; locks = set_at i r.0 s.locks })
  releases :
      (i : ℕ)
      → s.machine.is_alive i ≡ true
      → Step s (
          let r = release (s.locks i) s.file in
          record s { file = r.1; locks = set_at i r.0 s.locks })
  dies : (i : ℕ) → Step s (record s { machine = with_alive i false s.machine })
  dies_creating :
      (i : ℕ) (f : LockFile)
      → s.file ≡ none
      → f.payload ≡ none
      → Step s (record s { machine = with_alive i false s.machine; file = some f })
  starts :
      (i : ℕ)
      → s.machine.is_alive i ≡ false
      → Step s (record s {
        machine = with_alive i true s.machine;
        locks = set_at i (fresh_lock i) s.locks;
      })
  waits : (now : ℕ) → Step s (record s { machine = record s.machine { now = now } })

-- At first no process has acquired the lock, whatever file there is.
pub data Reach : System → Type 0 where
  start :
      (m : Machine) (file : Option LockFile)
      → Reach (record { machine = m; file = file; locks = fresh_lock })
  later : {s t : System} → Reach s → Step s t → Reach t

abbrev pub Owns : System → ℕ → Type 0
Owns s i = (s.machine.is_alive i ≡ true) × (t : ℕ) × ((s.locks i).owner_token ≡ some t)

abbrev IsOwned : System → Type 0
IsOwned s =
    ((i : ℕ) → (s.locks i).pid ≡ i)
    × ((i t : ℕ)
        → s.machine.is_alive i ≡ true
        → (s.locks i).owner_token ≡ some t
        → Names s.file i t)

Sound-IsOwned :
    (m : Machine) (file : Option LockFile) (locks : ℕ → FileInstanceLock)
    → ((j : ℕ) → Sound m file j (locks j))
    → IsOwned (record { machine = m; file = file; locks = locks })
Sound-IsOwned m file locks h = (λ j. (h j).0, λ j t a o. (h j).1 t a o)

Step-acquires :
    (s : System) (i token signature : ℕ) (o : Option ℕ)
    → (s.locks i).owner_token ≡ o
    → IsOwned s
    → (let r = acquire s.machine token signature (s.locks i) s.file in
        IsOwned (record s { file = r.1; locks = set_at i r.0 s.locks }))
unfolding acquire
Step-acquires s i token signature (some t) e (own, names) =
    let same : acquire s.machine token signature (s.locks i) s.file ≡ (s.locks i, s.file, true) =
      simp (e, acquire) in
    subst
      (λ (r : FileInstanceLock × Option LockFile × Bool).
        IsOwned (record s { file = r.1; locks = set_at i r.0 s.locks }))
      (sym same)
      (Sound-IsOwned s.machine s.file (set_at i (s.locks i) s.locks) (
        set_at-all (Sound s.machine s.file) i (s.locks i) s.locks (own i, names i)
          (λ j h. (own j, names j))))
Step-acquires s i token signature none e (own, names) =
    let l : FileInstanceLock = record (s.locks i) { stale_recovered = false } in
    let loop = acquire_loop 3 s.machine token signature l s.file in
    let same : acquire s.machine token signature (s.locks i) s.file ≡ loop = simp (e, acquire) in
    let self =
      Sound-Acquired s.machine i token signature l s.file loop (own i)
        (acquire_loop-Acquired 3 s.machine token signature l s.file e) in
    subst
      (λ (r : FileInstanceLock × Option LockFile × Bool).
        IsOwned (record s { file = r.1; locks = set_at i r.0 s.locks }))
      (sym same)
      (Sound-IsOwned s.machine loop.1 (set_at i loop.0 s.locks) (
        set_at-all (Sound s.machine loop.1) i loop.0 s.locks self (λ j h.
          Sound-acquire_loop_other 3 s.machine j token signature l (s.locks j) s.file
            (own j, names j))))

Names-one : (file : Option LockFile) (i j t v : ℕ) → Names file i t → Names file j v → i ≡ j
Names-one file i j t v (f, e, p) (g, d, q) =
    let same : f ≡ g = some_inj (sym e ∙ d) in
    let pay : some (record { pid = i; owner_token = t })
        ≡ some (record { pid = j; owner_token = v }) =
      cc in
    ap (λ (x : Payload). x.pid) (some_inj pay)

release_other :
    (s : System) (i j t : ℕ) (o : Option ℕ)
    → (s.locks i).owner_token ≡ o
    → s.machine.is_alive i ≡ true
    → (j == i) ≡ false
    → IsOwned s
    → Names s.file j t
    → Names (release_file o s.file) j t
unfolding release_file
release_other s i j t none e a h c n = n
release_other s i j t (some v) e a h (own, names) n =
    let same = Names-one s.file j i t v n (names i v a e) in absurd (ground arith)

Step-releases :
    (s : System) (i : ℕ)
    → s.machine.is_alive i ≡ true
    → IsOwned s
    → (let r = release (s.locks i) s.file in
        IsOwned (record s { file = r.1; locks = set_at i r.0 s.locks }))
unfolding release
Step-releases s i a (own, names) =
    let l : FileInstanceLock = record (s.locks i) { owner_token = none } in
    let file = release_file (s.locks i).owner_token s.file in
    Sound-IsOwned s.machine file (set_at i l s.locks) (
      set_at-all (Sound s.machine file) i l s.locks
        (own i, λ t live o. absurd (let bad : none ≡ some t = o in cc))
        (λ j h. (
          own j,
          λ t live o.
              release_other s i j t (s.locks i).owner_token refl a h (own, names)
                (names j t live o),
        )))

still_alive : (i j : ℕ) (alive : ℕ → Bool) → set_at i false alive j ≡ true → alive j ≡ true
still_alive i j alive h = ground arith

Step-IsOwned : {s t : System} → Step s t → IsOwned s → IsOwned t
Step-IsOwned {s} (acquires i token signature a) c = Step-acquires s i token signature _ refl c
Step-IsOwned {s} (releases i a) c = Step-releases s i a c
Step-IsOwned {s} (dies i) (own, names) =
    (own, λ j t a o. names j t (still_alive i j s.machine.is_alive a) o)
Step-IsOwned {s} (dies_creating i f gone broken) (own, names) = (
  own,
  λ j t a o.
      let (g, e, p) = names j t (still_alive i j s.machine.is_alive a) o in
      absurd (let bad : none ≡ some g = sym gone ∙ e in cc),
)
Step-IsOwned {s} (starts i dead) (own, names) =
    Sound-IsOwned (with_alive i true s.machine) s.file (set_at i (fresh_lock i) s.locks) (
      set_at-all (Sound (with_alive i true s.machine) s.file) i (fresh_lock i) s.locks
        (refl, λ t a o. absurd (let bad : none ≡ some t = o in cc))
        (λ j h.
          (own j, λ t a o. names j t (sym (set_at-other i j true s.machine.is_alive h) ∙ a) o)))
Step-IsOwned (waits now) c = c

Reach-IsOwned : {s : System} → Reach s → IsOwned s
Reach-IsOwned (start m file) = (λ j. refl, λ j t a o. absurd (let bad : none ≡ some t = o in cc))
Reach-IsOwned (later r st) = Step-IsOwned st (Reach-IsOwned r)

-- While no two calls overlap, two live processes never own the lock together: from any lock file
-- that an earlier process left, and whatever processes die, start, acquire, release and wait.
pub Owns-unique : {s : System} → Reach s → (i j : ℕ) → Owns s i → Owns s j → i ≡ j
Owns-unique {s} r i j (a, t, o) (b, v, q) =
    let (own, names) = Reach-IsOwned r in Names-one s.file i j t v (names i t a o) (names j v b q)
