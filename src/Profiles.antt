-- ===== src/Profiles.antt =====
-- The profiles of src/quota_monitor/profiles: this file has domain.py and the reference of
-- platform_adapters/contracts.py. Instants are in microseconds, in UTC. What Python counts as white space
-- is a parameter. Values of another type than the annotated one are left out.
pub mod Repository
pub mod Stripping
pub mod Sound
pub mod Service
pub mod Calls
mod Tests
pub mod Located
pub mod Scoped
pub mod Scope
pub mod ScopedCalls
pub mod ScopedCount
pub mod ScopedMap
pub mod Sqlite
pub mod Refines
pub mod Commands
pub mod Stored
pub mod Traces
use openai_free_credit_track.Base.{
  ℕ, Bool, true, false, Option, some, none, List, [], ◌∷◌, ◌&&◌, ◌||◌, not, leb, ltb, ◌==◌,
  if◌then◌else◌, all, any, is_empty, length,
}
use openai_free_credit_track.Base.Text.{Text, codes, text_eq}

pub record CredentialReference : Type 0 where
  pub credential_id : Text
  pub account_id : Text

pub record Profile : Type 0 where
  pub profile_id : Text
  pub display_name : Text
  pub credential_ref : CredentialReference
  pub organization_ref : Option Text
  pub enabled : Bool
  pub created_at : ℕ
  pub last_validated_at : Option ℕ

-- The errors of the package: `ValueError`, `ProfileIsolationError`, `DuplicateProfileError`,
-- `CredentialReferenceConflictError`, `ProfileNotFoundError` and `ProfileHasDataError`.
pub data ProfileFault : Type 0 where
  value_error isolation_error duplicate_profile credential_conflict not_found has_data :
      ProfileFault

pub data Result (A : Type 0) : Type 0 where
  done : A → Result A
  refused : ProfileFault → Result A

-- `s.startswith(prefix)`
unfoldable pub starts_with : Text → Text → Bool
starts_with [] s = true
starts_with (c ∷ prefix) [] = false
starts_with (c ∷ prefix) (d ∷ s) = (c == d) && starts_with prefix s

unfoldable pub is_api_key : Text → Bool
is_api_key s = starts_with (codes "sk-admin-") s || starts_with (codes "sk-proj-") s

abbrev pub is_after : ℕ → Option ℕ → Bool
is_after created none = true
is_after created (some t) = leb created t

module _ (is_space : ℕ → Bool) where
  -- `CredentialReference.__post_init__`, of one of its fields and of both.
  unfoldable pub is_opaque : Text → Bool
  is_opaque s =
      not (is_empty s)
      && leb (length s) 200
      && not (is_api_key s)
      && not (any (λ c. is_space c || ltb c 32) s)

  unfoldable pub is_reference : CredentialReference → Bool
  is_reference r = is_opaque r.credential_id && is_opaque r.account_id

  unfoldable pub lstrip : Text → Text
  lstrip [] = []
  lstrip (c ∷ s) = let rest = lstrip s in if is_space c then rest else c ∷ s

  unfoldable pub rstrip : Text → Text
  rstrip [] = []
  rstrip (c ∷ s) = let rest = rstrip s in if is_empty rest && is_space c then [] else c ∷ rest

  -- `str.strip`
  unfoldable pub strip : Text → Text
  strip s = rstrip (lstrip s)

  -- `_validate_text`; `none` is the `ValueError`.
  unfoldable pub validate_text : ℕ → Text → Option Text
  validate_text maximum value =
      let cleaned = strip value in
      if is_empty cleaned
        || ltb maximum (length cleaned)
        || any (λ c. ltb c 32 || (c == 127)) cleaned
      then none
      else some cleaned

  -- The same for the organization, which may be absent.
  unfoldable pub validate_organization : Option Text → Option (Option Text)
  validate_organization none = some none
  validate_organization (some t) = elim (validate_text 200 t) [
    | none ↦ none
    | some cleaned ↦ if is_api_key cleaned then none else some (some cleaned)
  ]

  -- `Profile.__post_init__`, which `replace` runs too: the profile with its texts stripped.
  unfoldable pub make_profile : Profile → Result Profile
  make_profile p =
      if not (text_eq p.credential_ref.account_id p.profile_id)
      then refused value_error
      else elim (validate_text 80 p.display_name) [
        | none ↦ refused value_error
        | some name ↦ elim (validate_organization p.organization_ref) [
          | none ↦ refused value_error
          | some organization ↦
              if is_after p.created_at p.last_validated_at
              then done (record p { display_name = name; organization_ref = organization })
              else refused value_error
        ]
      ]

  unfoldable pub renamed : Text → Profile → Result Profile
  renamed name p = make_profile (record p { display_name = name })

  unfoldable pub with_enabled : Bool → Profile → Result Profile
  with_enabled enabled p = make_profile (record p { enabled = enabled })

  unfoldable pub with_credential : CredentialReference → Profile → Result Profile
  with_credential r p = make_profile (record p { credential_ref = r })

  unfoldable pub with_organization_ref : Option Text → Profile → Result Profile
  with_organization_ref o p = make_profile (record p { organization_ref = o })

  unfoldable pub validated_at : ℕ → Profile → Result Profile
  validated_at at p = make_profile (record p { last_validated_at = some at })
