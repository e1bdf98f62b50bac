-- ===== src/Profiles/Tests.antt =====
-- Calls of the profile service like those of tests/test_profiles.py, and the theorems at them.
use openai_free_credit_track.Base.{
  ℕ, ◌≡◌, ◌⊎◌, refl, Bool, true, false, some, none, List, [], ◌∷◌, ◌==◌,
}
use openai_free_credit_track.Base.Text.{Text, codes, text_eq}
use openai_free_credit_track.History.Runs.{is_profile_id}
use openai_free_credit_track.Profiles.{
  CredentialReference, Profile, done, refused, duplicate_profile, not_found, make_profile,
  validate_text, strip, rstrip, lstrip, validate_organization, renamed, is_reference, is_opaque,
  is_api_key, starts_with,
}
use openai_free_credit_track.Profiles.Repository.{find, add, get, save, credential_owner}
use openai_free_credit_track.Profiles.Service.{create, save_changed, rename, credential_for}
use openai_free_credit_track.Profiles.Sqlite as Sqlite
use openai_free_credit_track.Profiles.Scoped as Scoped
use openai_free_credit_track.Profiles.ScopedCalls as ScopedCalls
use openai_free_credit_track.Profiles.ScopedMap as ScopedMap
use openai_free_credit_track.Profiles.Commands.{
  Command, add_command, get_command, delete_command, nothing, profile as an_answer, fault,
  sqlite_step, sqlite_answers, memory_answers,
}
use openai_free_credit_track.Profiles.Stored.{IsValid}
use openai_free_credit_track.Profiles.Traces.{sqlite_answers-memory_answers}
use openai_free_credit_track.Profiles.Calls.{
  Call, create_call, rename_call, IsSound, run, run_all, run_all-IsSound, credential_for-own,
}
use openai_free_credit_track.Profiles.Located.{run-find}

abbrev is_space : ℕ → Bool
is_space c = c == 32

abbrev first_id : Text
first_id = codes "prof_0123456789abcdef0123456789abcdef"

abbrev second_id : Text
second_id = codes "prof_fedcba9876543210fedcba9876543210"

abbrev reference : Text → Text → CredentialReference
reference account c = record { credential_id = c; account_id = account }

abbrev creates : Text → Text → Text → Call
creates account c name = create_call name (reference account c) none true 5

abbrev profile : Text → Text → Text → Profile
profile account c name = record {
  profile_id = account;
  display_name = name;
  credential_ref = reference account c;
  organization_ref = none;
  enabled = true;
  created_at = 5;
  last_validated_at = none;
}

-- The name is stripped, the second profile is refused the credential of the first, and the third
-- call is refused since the profile is not there.
abbrev calls : List Call
calls =
    creates first_id (codes "cred_a") (codes " Work ")
    ∷ creates second_id (codes "cred_a") (codes "Home")
    ∷ rename_call second_id (codes "Other")
    ∷ []

leaves_one : run_all is_space calls [] ≡ profile first_id (codes "cred_a") (codes "Work") ∷ []
unfolding run_all rename save_changed get save renamed run create is_profile_id make_profile text_eq
    validate_text strip rstrip lstrip validate_organization add find credential_owner
leaves_one = refl

creates_first :
    run is_space (creates first_id (codes "cred_a") (codes "Work")) []
    ≡ done (
      profile first_id (codes "cred_a") (codes "Work"),
      profile first_id (codes "cred_a") (codes "Work") ∷ [],
    )
unfolding run create is_profile_id make_profile text_eq validate_text strip rstrip lstrip
    validate_organization add find credential_owner
creates_first = refl

run_all-IsSound_example : IsSound is_space (run_all is_space calls [])
run_all-IsSound_example = run_all-IsSound is_space calls [] (tt, tt)

credential_for-own_example :
    ((find first_id (run_all is_space calls []) ≡ none)
      × (credential_for first_id (run_all is_space calls []) ≡ refused not_found))
    ⊎ ((p : Profile) × (find first_id (run_all is_space calls []) ≡ some p)
        × (credential_for first_id (run_all is_space calls []) ≡ done p.credential_ref)
        × (p.credential_ref.account_id ≡ first_id))
credential_for-own_example =
    credential_for-own is_space first_id (run_all is_space calls [])
      (run_all-IsSound is_space calls [] (tt, tt))

run-find_example :
    (find first_id (profile first_id (codes "cred_a") (codes "Work") ∷ [])
      ≡ some (profile first_id (codes "cred_a") (codes "Work")))
    × ((j : Text)
        → text_eq first_id j ≡ false
        → find j (profile first_id (codes "cred_a") (codes "Work") ∷ []) ≡ find j [])
run-find_example =
    run-find is_space (creates first_id (codes "cred_a") (codes "Work")) []
      (profile first_id (codes "cred_a") (codes "Work"))
      (profile first_id (codes "cred_a") (codes "Work") ∷ []) (tt, tt) creates_first

-- A profile made in the middle of a second, which the database cuts.
abbrev middle : Profile
middle = record (profile first_id (codes "cred_a") (codes "Work")) { created_at = 5500000 }

abbrev commands : List Command
commands =
    add_command middle ∷ add_command middle ∷ get_command first_id ∷ delete_command second_id ∷ []

answered :
    sqlite_answers is_space commands []
    ≡ nothing
      ∷ fault duplicate_profile
      ∷ an_answer (record middle { created_at = 5000000 })
      ∷ fault not_found
      ∷ []
unfolding sqlite_answers sqlite_step Sqlite.add Sqlite.get Sqlite.delete Sqlite.find_row
    Sqlite.holder Sqlite.from_row Sqlite.utc_text make_profile text_eq validate_text strip rstrip
    lstrip validate_organization is_profile_id is_reference is_opaque is_api_key starts_with
answered = refl

valid : IsValid is_space middle
unfolding make_profile text_eq validate_text strip rstrip lstrip validate_organization is_profile_id
    is_reference is_opaque is_api_key starts_with
valid = (refl, refl, refl)

sqlite_answers-memory_answers_example :
    sqlite_answers is_space commands [] ≡ memory_answers commands []
sqlite_answers-memory_answers_example =
    sqlite_answers-memory_answers is_space commands [] (valid, (valid, (tt, (tt, tt)))) tt

abbrev scoped_commands : List (ScopedCalls.Command ℕ)
scoped_commands =
    ScopedCalls.put_command first_id (codes "bucket") 1
    ∷ ScopedCalls.put_command second_id (codes "bucket") 2
    ∷ ScopedCalls.get_command first_id (codes "bucket")
    ∷ ScopedCalls.delete_command first_id (codes "bucket")
    ∷ ScopedCalls.get_command first_id (codes "bucket")
    ∷ ScopedCalls.get_command second_id (codes "bucket")
    ∷ ScopedCalls.get_command second_id []
    ∷ ScopedCalls.delete_profile_command second_id
    ∷ ScopedCalls.delete_profile_command second_id
    ∷ []

scoped :
    ScopedCalls.answers scoped_commands []
    ≡ ScopedCalls.nothing
      ∷ ScopedCalls.nothing
      ∷ ScopedCalls.value 1
      ∷ ScopedCalls.deleted true
      ∷ ScopedCalls.missing
      ∷ ScopedCalls.value 2
      ∷ ScopedCalls.invalid
      ∷ ScopedCalls.removed 1
      ∷ ScopedCalls.removed 0
      ∷ []
unfolding ScopedCalls.answers ScopedCalls.step Scoped.put Scoped.get Scoped.delete
    Scoped.delete_profile Scoped.is_record_id Scoped.lookup Scoped.assign Scoped.drop text_eq
scoped = refl

abbrev empty_map : ScopedCalls.Map ℕ
empty_map = record { at = λ q s. none; size = λ q. 0 }

answers-map_answers_example :
    ScopedCalls.answers scoped_commands [] ≡ ScopedCalls.map_answers scoped_commands empty_map
unfolding Scoped.lookup
answers-map_answers_example =
    ScopedMap.answers-map_answers scoped_commands [] empty_map (λ q s. refl) (λ q. (refl, tt))
