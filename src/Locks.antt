-- ===== src/Locks.antt =====
-- The locks that keep a second instance of the program out: `FileInstanceLock` of
-- src/quota_monitor/platform_adapters/instance_lock.py. Process identifiers, owner tokens, file
-- signatures and times are numbers. A file without a valid payload is one whose text cannot be
-- read, is no JSON object or lacks a valid field. A file system call that fails for another reason
-- than those shown is left out, and a lock file is created with its payload at once.
pub mod Owning
pub mod Exclusion
pub mod Race
mod Tests
use openai_free_credit_track.Base.{
  ℕ, zero, suc, ◌-◌, Bool, true, false, Option, some, none, not, leb, ◌==◌, if◌then◌else◌,
}

pub data FileKind : Type 0 where
  regular symlink directory : FileKind

pub record Payload : Type 0 where
  pub pid : ℕ
  pub owner_token : ℕ

pub record LockFile : Type 0 where
  pub kind : FileKind
  pub signature : ℕ
  pub modified : ℕ
  pub payload : Option Payload

-- What a process sees of the machine: which processes live, the time, and the grace period.
pub record Machine : Type 0 where
  pub is_alive : ℕ → Bool
  pub now : ℕ
  pub grace : ℕ

pub record FileInstanceLock : Type 0 where
  pub pid : ℕ
  pub owner_token : Option ℕ
  pub stale_recovered : Bool

abbrev pub payload_if : FileKind → Option Payload → Option Payload
payload_if regular p = p
payload_if symlink p = none
payload_if directory p = none

-- `_read_existing` of a file that is there.
unfoldable pub read_existing : LockFile → Option Payload
read_existing f = payload_if f.kind f.payload

unfoldable pub is_stale : Machine → LockFile → Bool
is_stale m f = elim (read_existing f) [
  | some p ↦ not (m.is_alive p.pid)
  | none ↦ leb m.grace (m.now - f.modified)
]

-- What `unlink` leaves.
abbrev unlink : FileKind → LockFile → Option LockFile × Bool
unlink regular f = (none, true)
unlink symlink f = (none, true)
unlink directory f = (some f, false)

abbrev is_symlink : FileKind → Bool
is_symlink symlink = true
is_symlink regular = false
is_symlink directory = false

-- The test of `_remove_if_unchanged` on the file as it is now.
unfoldable pub is_unchanged : LockFile → LockFile → Bool
is_unchanged seen current =
    if is_symlink current.kind then false else current.signature == seen.signature

unfoldable pub remove_if_unchanged : LockFile → Option LockFile → Option LockFile × Bool
remove_if_unchanged seen none = (none, true)
remove_if_unchanged seen (some f) = if is_unchanged seen f then unlink f.kind f else (some f, false)

-- The file that `_create` makes.
abbrev pub new_file : ℕ → ℕ → ℕ → ℕ → LockFile
new_file pid token signature now = record {
  kind = regular;
  signature = signature;
  modified = now;
  payload = some (record { pid = pid; owner_token = token });
}

-- The loop of `acquire`, with the token and the signature of a file that it creates.
unfoldable pub acquire_loop :
    ℕ
    → Machine
    → ℕ
    → ℕ
    → FileInstanceLock
    → Option LockFile
    → FileInstanceLock × Option LockFile × Bool
acquire_loop zero m token signature l file = (l, file, false)
acquire_loop (suc n) m token signature l none =
    (record l { owner_token = some token }, some (new_file l.pid token signature m.now), true)
acquire_loop (suc n) m token signature l (some f) = elim (is_stale m f) [
  | false ↦ (l, some f, false)
  | true ↦
      let (left, removed) = remove_if_unchanged f (some f) in
      elim removed [
        | true ↦ acquire_loop n m token signature (record l { stale_recovered = true }) left
        | false ↦ (l, left, false)
      ]
]

unfoldable pub acquire :
    Machine → ℕ → ℕ → FileInstanceLock → Option LockFile → FileInstanceLock × Option LockFile × Bool
acquire m token signature l file = elim l.owner_token [
  | some t ↦ (l, file, true)
  | none ↦ acquire_loop 3 m token signature (record l { stale_recovered = false }) file
]

abbrev pub has_token : ℕ → Option Payload → Bool
has_token t none = false
has_token t (some p) = p.owner_token == t

-- What `release` does to the file, with the token that the lock had.
unfoldable pub release_file : Option ℕ → Option LockFile → Option LockFile
release_file none file = file
release_file (some t) none = none
release_file (some t) (some f) =
    if has_token t (read_existing f) then (remove_if_unchanged f (some f)).0 else some f

unfoldable pub release : FileInstanceLock → Option LockFile → FileInstanceLock × Option LockFile
release l file = (record l { owner_token = none }, release_file l.owner_token file)
