-- ===== src/Profiles/Traces.antt =====
-- Sequences of calls of the two repositories give the same answers.
use openai_free_credit_track.Base.{ℕ, ◌≡◌, refl, sym, ap, ◌∙◌, Bool, false, List, [], ◌∷◌, All}
use openai_free_credit_track.Profiles.{Profile, Result, done, refused}
use openai_free_credit_track.Profiles.Sqlite as Sqlite
use openai_free_credit_track.Profiles.Sqlite.{
  ProfileRow, row_of, profile_of, utc_text, utc_text_or_none, parse_utc_or_none,
}
use openai_free_credit_track.Profiles.Commands.{
  Command, add_command, save_command, get_command, delete_command, list_command, written, read,
  taken, memory_step, memory_answers, sqlite_step, sqlite_answers,
}
use openai_free_credit_track.Profiles.Refines.{
  profiles_of, profiles_done, deletion_done, add-profiles_of, save-profiles_of, IsStored,
  get-profiles_of, delete-profiles_of, list_all-profiles_of,
}
use openai_free_credit_track.Profiles.Stored.{
  IsMade, valid-Row, add-IsStored, save-IsStored, delete-IsStored,
}

module _ (is_space : ℕ → Bool) where
  written_done :
      (rows : List ProfileRow) (r : Result (List ProfileRow))
      → written (profiles_of rows) (profiles_done r)
        ≡ ((written rows r).0, profiles_of (written rows r).1)
  written_done rows (refused e) = refl
  written_done rows (done after) = refl

  taken_done :
      (rows : List ProfileRow) (r : Result (Profile × List ProfileRow))
      → taken (profiles_of rows) (deletion_done r)
        ≡ ((taken rows r).0, profiles_of (taken rows r).1)
  taken_done rows (refused e) = refl
  taken_done rows (done (p, after)) = refl

  abbrev Simulates : Command → List ProfileRow → Type 0
  Simulates c rows =
      (memory_step c (profiles_of rows)
        ≡ ((sqlite_step is_space c rows).0, profiles_of (sqlite_step is_space c rows).1))
      × IsStored is_space (sqlite_step is_space c rows).1

  step-Simulates :
      (c : Command) (rows : List ProfileRow)
      → IsMade is_space c
      → IsStored is_space rows
      → Simulates c rows
  unfolding memory_step sqlite_step
  step-Simulates (add_command p) rows made h = (
    ap (written (profiles_of rows)) (sym (add-profiles_of p rows))
        ∙ written_done rows (Sqlite.add p rows),
    add-IsStored is_space p rows (valid-Row is_space p made) h,
  )
  step-Simulates (save_command p) rows made h = (
    ap (written (profiles_of rows)) (sym (save-profiles_of p rows))
        ∙ written_done rows (Sqlite.save p rows),
    save-IsStored is_space p rows (valid-Row is_space p made) h,
  )
  step-Simulates (get_command i) rows made h = (
    ap (read (profiles_of rows)) (sym (get-profiles_of is_space i rows h))
        ∙ read_done rows (Sqlite.get is_space i rows),
    read_kept (Sqlite.get is_space i rows),
  )
    where
      read_done :
          (rows : List ProfileRow) (r : Result Profile)
          → read (profiles_of rows) r ≡ ((read rows r).0, profiles_of (read rows r).1)
      read_done rows (refused e) = refl
      read_done rows (done p) = refl

      read_kept : (r : Result Profile) → IsStored is_space (read rows r).1
      read_kept (refused e) = h
      read_kept (done p) = h
  step-Simulates (delete_command i) rows made h = (
    ap (taken (profiles_of rows)) (sym (delete-profiles_of is_space i rows h))
        ∙ taken_done rows (Sqlite.delete is_space false i rows),
    delete-IsStored is_space i rows h,
  )
  step-Simulates list_command rows made h =
      let same = list_all-profiles_of is_space rows h in rw same (refl, h)

  -- Whatever sequence of calls is made of the two profile repositories, with profiles that the
  -- constructors accept, on rows that make their profiles again and to which no other table refers: the
  -- repository over the database gives the same answers, errors included, as the one in memory does
  -- from the profiles of the rows when it is given the profiles with their times cut to whole
  -- seconds.
  pub sqlite_answers-memory_answers :
      (cs : List Command) (rows : List ProfileRow)
      → All (IsMade is_space) cs
      → IsStored is_space rows
      → sqlite_answers is_space cs rows ≡ memory_answers cs (profiles_of rows)
  unfolding sqlite_answers memory_answers
  sqlite_answers-memory_answers [] rows made h = refl
  sqlite_answers-memory_answers (c ∷ cs) rows (m, made) h =
      let (same, stored) = step-Simulates c rows m h in
      let rest = sqlite_answers-memory_answers cs (sqlite_step is_space c rows).1 made stored in
      rw same (ap (λ xs. (sqlite_step is_space c rows).0 ∷ xs) rest)
