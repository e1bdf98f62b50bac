-- ===== src/Profiles/Commands.antt =====
-- Sequences of calls of the two profile repositories, with their answers.
use openai_free_credit_track.Base.{ℕ, Bool, false, List, [], ◌∷◌}
use openai_free_credit_track.Base.Text.{Text}
use openai_free_credit_track.Profiles.{Profile, ProfileFault, Result, done, refused}
use openai_free_credit_track.Profiles.Repository as Repository
use openai_free_credit_track.Profiles.Sqlite as Sqlite
use openai_free_credit_track.Profiles.Sqlite.{
  ProfileRow, row_of, profile_of, utc_text, utc_text_or_none, parse_utc_or_none,
}
use openai_free_credit_track.Profiles.Refines.{whole}

pub data Command : Type 0 where
  add_command save_command : Profile → Command
  get_command delete_command : Text → Command
  list_command : Command

pub data Answer : Type 0 where
  nothing : Answer
  profile : Profile → Answer
  profiles : List Profile → Answer
  fault : ProfileFault → Answer

-- The answer and the state after a call, which an error leaves as it was.
abbrev pub written : {S : Type 0} → S → Result S → Answer × S
written s (refused e) = (fault e, s)
written s (done after) = (nothing, after)

abbrev pub read : {S : Type 0} → S → Result Profile → Answer × S
read s (refused e) = (fault e, s)
read s (done p) = (profile p, s)

abbrev pub taken : {S : Type 0} → S → Result (Profile × S) → Answer × S
taken s (refused e) = (fault e, s)
taken s (done (p, after)) = (profile p, after)

abbrev pub listed : {S : Type 0} → S → Result (List Profile) → Answer × S
listed s (refused e) = (fault e, s)
listed s (done ps) = (profiles ps, s)

-- The repository in memory, given profiles whose times are cut to whole seconds.
unfoldable pub memory_step : Command → List Profile → Answer × List Profile
memory_step (add_command p) repo = written repo (Repository.add (whole p) repo)
memory_step (save_command p) repo = written repo (Repository.save (whole p) repo)
memory_step (get_command i) repo = read repo (Repository.get i repo)
memory_step (delete_command i) repo = taken repo (Repository.delete i repo)
memory_step list_command repo = listed repo (done (Repository.list_all repo))

unfoldable pub memory_answers : List Command → List Profile → List Answer
memory_answers [] repo = []
memory_answers (c ∷ cs) repo = (memory_step c repo).0 ∷ memory_answers cs (memory_step c repo).1

module _ (is_space : ℕ → Bool) where
  -- The repository over the database, where no other table refers to a profile.
  unfoldable pub sqlite_step : Command → List ProfileRow → Answer × List ProfileRow
  sqlite_step (add_command p) rows = written rows (Sqlite.add p rows)
  sqlite_step (save_command p) rows = written rows (Sqlite.save p rows)
  sqlite_step (get_command i) rows = read rows (Sqlite.get is_space i rows)
  sqlite_step (delete_command i) rows = taken rows (Sqlite.delete is_space false i rows)
  sqlite_step list_command rows = listed rows (Sqlite.list_all is_space rows)

  unfoldable pub sqlite_answers : List Command → List ProfileRow → List Answer
  sqlite_answers [] rows = []
  sqlite_answers (c ∷ cs) rows = (sqlite_step c rows).0 ∷ sqlite_answers cs (sqlite_step c rows).1
