-- ===== src/Profiles/Service.antt =====
-- `ProfileService` of src/quota_monitor/profiles/service.py over the repository: a call returns the
-- profile and the repository, or an error, which leaves the repository as it was. The clock's time
-- is an argument.
use openai_free_credit_track.Base.{ℕ, Bool, Option, none, List, [], ◌∷◌, not, if◌then◌else◌}
use openai_free_credit_track.Base.Text.{Text, text_eq}
use openai_free_credit_track.History.Runs.{is_profile_id}
use openai_free_credit_track.Profiles.{
  CredentialReference, Profile, Result, done, refused, isolation_error, make_profile, renamed,
  with_enabled, with_credential, with_organization_ref, validated_at,
}
use openai_free_credit_track.Profiles.Repository.{get, add, save, list_all}

abbrev pub Outcome : Type 0
Outcome = Result (Profile × List Profile)

abbrev pub stored : Profile → Result (List Profile) → Outcome
stored p (refused f) = refused f
stored p (done repo) = done (p, repo)

-- The end of the methods that change a profile.
unfoldable pub save_changed : Result Profile → List Profile → Outcome
save_changed (refused f) repo = refused f
save_changed (done p) repo = stored p (save p repo)

abbrev pub changed : (Profile → Result Profile) → Result Profile → Result Profile
changed f (refused e) = refused e
changed f (done p) = f p

abbrev enabled_only : List Profile → List Profile
enabled_only [] = []
enabled_only (x ∷ xs) = let rest = enabled_only xs in if x.enabled then x ∷ rest else rest

module _ (is_space : ℕ → Bool) where
  unfoldable pub create :
      Text → CredentialReference → Option Text → Bool → ℕ → List Profile → Outcome
  create display_name r organization_ref enabled now repo =
      if not (is_profile_id r.account_id)
      then refused isolation_error
      else elim (make_profile is_space (record {
        profile_id = r.account_id;
        display_name = display_name;
        credential_ref = r;
        organization_ref = organization_ref;
        enabled = enabled;
        created_at = now;
        last_validated_at = none;
      })) [ refused f ↦ refused f | done p ↦ stored p (add p repo) ]

  unfoldable pub rename : Text → Text → List Profile → Outcome
  rename i name repo = save_changed (changed (renamed is_space name) (get i repo)) repo

  unfoldable pub set_enabled : Text → Bool → List Profile → Outcome
  set_enabled i enabled repo =
      save_changed (changed (with_enabled is_space enabled) (get i repo)) repo

  unfoldable pub replace_credential : Text → CredentialReference → List Profile → Outcome
  replace_credential i r repo =
      if text_eq r.account_id i
      then save_changed (changed (with_credential is_space r) (get i repo)) repo
      else refused isolation_error

  unfoldable pub set_organization_ref : Text → Option Text → List Profile → Outcome
  set_organization_ref i o repo =
      save_changed (changed (with_organization_ref is_space o) (get i repo)) repo

  unfoldable pub mark_validated : Text → ℕ → List Profile → Outcome
  mark_validated i at repo = save_changed (changed (validated_at is_space at) (get i repo)) repo

abbrev pub owned_by : Text → Result Profile → Result CredentialReference
owned_by i (refused f) = refused f
owned_by i (done p) =
    if text_eq p.credential_ref.account_id i then done p.credential_ref else refused isolation_error

unfoldable pub credential_for : Text → List Profile → Result CredentialReference
credential_for i repo = owned_by i (get i repo)

unfoldable pub list_enabled : List Profile → List Profile
list_enabled repo = enabled_only (list_all repo)
