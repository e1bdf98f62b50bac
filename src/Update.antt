-- ===== src/Update.antt =====
-- The updater: src/quota_monitor/update_manifest.py (the records, the choice of artifacts, the
-- check of a manifest against the installed version, the verification of a file) and
-- update_engine.py (in Engine). SHA-256 is a parameter that answers in lower-case hexadecimal; a file
-- is the list of its bytes, and times are instants in whole units. The other parameter is the
-- knowledge of Unicode that the comparison of versions takes.
pub mod Engine
pub mod Policy
pub mod Download
mod Tests
use openai_free_credit_track.Base.{
  ℕ, ◌+◌, Bool, true, false, Option, some, none, List, [], ◌∷◌, length, ◌&&◌, ◌||◌, not, leb, ◌==◌,
  if◌then◌else◌, map,
}
use openai_free_credit_track.Base.Text.{Text, text_eq}
use openai_free_credit_track.SemVer.{Unicode, SemVer, version_lt, version_eq, version_gt}

pub record ArtifactDescriptor : Type 0 where
  pub url : Text
  pub size : ℕ
  pub sha256 : Text
  pub os : Option Text
  pub arch : Option Text
  pub format : Option Text

pub record UpdateManifest : Type 0 where
  pub schema_version : ℕ
  pub channel : Text
  pub version : SemVer
  pub published_at : ℕ
  pub minimum_updater_version : SemVer
  pub artifacts : List ArtifactDescriptor
  pub release_notes_url : Text
  pub signature : Text
  pub key_id : Text
  pub signing_payload : Text
  pub expires_at : Option ℕ
  pub critical : Bool

-- `a is None or a == b`
unfoldable pub is_none_or : Text → Option Text → Bool
is_none_or t none = true
is_none_or t (some s) = text_eq s t

unfoldable pub artifacts_for : Text → Text → List ArtifactDescriptor → List ArtifactDescriptor
artifacts_for os arch [] = []
artifacts_for os arch (a ∷ rest) =
    let matches = artifacts_for os arch rest in
    if is_none_or os a.os && is_none_or arch a.arch then a ∷ matches else matches

-- `str.lower`, of a text in ASCII
abbrev pub lower : Text → Text
lower t = map (λ c. if leb 65 c && leb c 90 then c + 32 else c) t

-- The verdict of `verify_artifact_stream` on the bytes of a file.
unfoldable pub is_verified : (Text → Text) → ArtifactDescriptor → Text → Bool
is_verified sha256 a content =
    (length content == a.size) && text_eq (sha256 content) (lower a.sha256)

pub data UpdateStatus : Type 0 where
  update_available up_to_date ignored_channel rejected_downgrade incompatible_updater : UpdateStatus

pub record UpdateChecker : Type 0 where
  pub current_version : SemVer
  pub updater_version : SemVer
  pub channel : Text

-- `UpdateChecker.evaluate`; the results that it does not give are left out of `UpdateStatus`.
unfoldable pub evaluate : Unicode → UpdateChecker → UpdateManifest → UpdateStatus
evaluate u c m =
    if not (text_eq m.channel c.channel)
    then ignored_channel
    else if version_lt u m.version c.current_version
    then rejected_downgrade
    else if version_eq m.version c.current_version
    then up_to_date
    else if version_gt u m.minimum_updater_version c.updater_version
    then incompatible_updater
    else update_available
