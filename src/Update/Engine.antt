-- ===== src/Update/Engine.antt =====
-- src/quota_monitor/update_engine.py: the journal and the operations of `UpdateEngine`. An operation
-- returns the states of the disk that it goes through, one for each write, and its reply, so that a
-- crash leaves one of these states. The journal's two names in the cache are fresh for each
-- `prepare`, and the disk has the files under the names of its journal. The results of the
-- downloader, the installer and the health check are arguments, and so is the clock.
pub mod Recovery
pub mod Consent
use openai_free_credit_track.Base.{
  ℕ, Bool, true, false, Option, some, none, List, [], ◌∷◌, ◌++◌, length, ◌&&◌, ◌||◌, not, leb, ◌==◌,
  if◌then◌else◌,
}
use openai_free_credit_track.Base.Text.{Text, codes, text_eq}
use openai_free_credit_track.SemVer.{Unicode, SemVer, version_le}
use openai_free_credit_track.Update.{
  ArtifactDescriptor, UpdateManifest, artifacts_for, is_none_or, is_verified,
}

pub data UpdateState : Type 0 where
  available download_consented downloading verified staged install_consented installing health_check
        committed rolled_back manual_recovery :
      UpdateState

pub record UpdateJournal : Type 0 where
  pub state : UpdateState
  pub version : SemVer
  pub channel : Text
  pub critical : Bool
  pub manifest_fingerprint : Text
  pub artifact_size : ℕ
  pub artifact_sha256 : Text
  pub artifact_os : Option Text
  pub artifact_arch : Option Text
  pub artifact_format : Option Text

-- What `load_journal` finds.
pub data JournalFile : Type 0 where
  missing invalid : JournalFile
  valid : UpdateJournal → JournalFile

-- A call of the installer: the bytes of the staged file, and the journal it was called for.
pub record Handed : Type 0 where
  pub content : Text
  pub size : ℕ
  pub sha256 : Text

pub record Disk : Type 0 where
  pub journal : JournalFile
  pub partial_file : Option Text
  pub staged_file : Option Text
  -- All calls of the installer, the last first.
  pub handed : List Handed

pub data EngineFault : Type 0 where
  state_error policy_error verification_error file_error download_error : EngineFault

pub data Reply : Type 0 where
  ok : UpdateState → Reply
  raised : EngineFault → Reply

pub data Choice (A : Type 0) : Type 0 where
  found : A → Choice A
  wrong : EngineFault → Choice A

abbrev pub Trace : Type 0
Trace = List Disk × Reply

pub data Download : Type 0 where
  downloaded : Text → Download
  -- It raised, and left this file behind.
  broken : Option Text → Download

pub record UpdateEngine : Type 0 where
  pub current_version : SemVer
  pub channel : Text
  pub platform_os : Text
  pub platform_arch : Text
  pub artifact_format : Option Text

abbrev pub state_code : UpdateState → ℕ
state_code available = 0
state_code download_consented = 1
state_code downloading = 2
state_code verified = 3
state_code staged = 4
state_code install_consented = 5
state_code installing = 6
state_code health_check = 7
state_code committed = 8
state_code rolled_back = 9
state_code manual_recovery = 10

unfoldable pub state_eq : UpdateState → UpdateState → Bool
state_eq a b = state_code a == state_code b

unfoldable pub option_eq : Option Text → Option Text → Bool
option_eq none none = true
option_eq (some s) (some t) = text_eq s t
option_eq _ _ = false

abbrev of_format : Option Text → List ArtifactDescriptor → List ArtifactDescriptor
of_format none l = l
of_format (some f) [] = []
of_format (some f) (a ∷ l) =
    let rest = of_format (some f) l in if is_none_or f a.format then a ∷ rest else rest

abbrev pub is_expired : Option ℕ → ℕ → Bool
is_expired none now = false
is_expired (some t) now = leb t now

-- `_replace_state`, `_write` and `_transition`
abbrev pub replace_state : UpdateJournal → UpdateState → UpdateJournal
replace_state j s = record j { state = s }

abbrev pub write : UpdateJournal → Disk → Disk
write j d = record d { journal = valid j }

abbrev pub transition : UpdateJournal → UpdateState → Disk → Trace
transition j s d = (write (replace_state j s) d ∷ [], ok s)

-- `_require`
unfoldable pub require : UpdateState → JournalFile → Choice UpdateJournal
require s missing = wrong state_error
require s invalid = wrong state_error
require s (valid j) = if state_eq j.state s then found j else wrong state_error

unfoldable pub rollback : Bool → UpdateJournal → Disk → Trace
rollback succeeds j d =
    if succeeds then transition j rolled_back d else transition j manual_recovery d

module _ (u : Unicode) (sha256 : Text → Text) (c : UpdateEngine) where
  unfoldable pub validate_manifest_policy : ℕ → UpdateManifest → Bool
  validate_manifest_policy now m =
      text_eq m.channel c.channel
      && not (version_le u m.version c.current_version)
      && not (is_expired m.expires_at now)

  abbrev only_one : List ArtifactDescriptor → Choice ArtifactDescriptor
  only_one (a ∷ []) = elim a.os [
    | some os ↦ found a
    | none ↦ if text_eq c.platform_os (codes "windows") then found a else wrong policy_error
  ]
  only_one _ = wrong policy_error

  unfoldable pub select_artifact : ℕ → UpdateManifest → Choice ArtifactDescriptor
  select_artifact now m =
      if validate_manifest_policy now m
      then only_one
          (of_format c.artifact_format (artifacts_for c.platform_os c.platform_arch m.artifacts))
      else wrong policy_error

  unfoldable pub manifest_fingerprint_of : UpdateManifest → Text
  manifest_fingerprint_of m = sha256 (m.signing_payload ++ m.signature)

  unfoldable pub matches_journal : UpdateJournal → UpdateManifest → ArtifactDescriptor → Bool
  matches_journal j m a =
      text_eq (manifest_fingerprint_of m) j.manifest_fingerprint
      && (a.size == j.artifact_size)
      && text_eq a.sha256 j.artifact_sha256
      && option_eq a.os j.artifact_os
      && option_eq a.arch j.artifact_arch
      && option_eq a.format j.artifact_format

  unfoldable pub match_manifest : UpdateJournal → UpdateManifest → ℕ → Choice ArtifactDescriptor
  match_manifest j m now = elim (select_artifact now m) [
    | wrong f ↦ wrong f
    | found a ↦ if matches_journal j m a then found a else wrong policy_error
  ]

  -- `verify_artifact_file`: the file's bytes, or the error.
  unfoldable pub verify_artifact_file : Option Text → ArtifactDescriptor → Choice Text
  verify_artifact_file none a = wrong file_error
  verify_artifact_file (some content) a =
      if is_verified sha256 a content then found content else wrong verification_error

  abbrev journal_for : UpdateManifest → ArtifactDescriptor → UpdateJournal
  journal_for m a = record {
    state = available;
    version = m.version;
    channel = m.channel;
    critical = m.critical;
    manifest_fingerprint = manifest_fingerprint_of m;
    artifact_size = a.size;
    artifact_sha256 = a.sha256;
    artifact_os = a.os;
    artifact_arch = a.arch;
    artifact_format = a.format;
  }

  abbrev is_over : JournalFile → Bool
  is_over missing = true
  is_over invalid = false
  is_over (valid j) = state_eq j.state committed || state_eq j.state rolled_back

  unfoldable pub prepare : ℕ → UpdateManifest → Disk → Trace
  prepare now m d = elim (select_artifact now m) [
    | wrong f ↦ ([], raised f)
    | found a ↦
        if is_over d.journal
        then (
          record d { journal = valid (journal_for m a); partial_file = none; staged_file = none }
              ∷ [],
          ok available,
        )
        else ([], raised state_error)
  ]

  unfoldable pub consent_download : Disk → Trace
  consent_download d = elim (require available d.journal) [
    | wrong f ↦ ([], raised f)
    | found j ↦ transition j download_consented d
  ]

  -- `download` from the write of DOWNLOADING on.
  unfoldable pub fetch : UpdateJournal → ArtifactDescriptor → Download → Disk → Trace
  fetch j a result d =
      let started = write (replace_state j downloading) d in
      let cleared = record started { partial_file = none } in
      elim result [
        | broken left ↦
            (started ∷ cleared ∷ record cleared { partial_file = left } ∷ [], raised download_error)
        | downloaded content ↦
            let full = record cleared { partial_file = some content } in
            elim (verify_artifact_file (some content) a) [
              | wrong f ↦ (started ∷ cleared ∷ full ∷ [], raised f)
              | found bytes ↦
                  let checked = write (replace_state j verified) full in
                  let unstaged = record checked { staged_file = none } in
                  let moved = record unstaged { partial_file = none; staged_file = some content } in
                  (
                    started
                        ∷ cleared
                        ∷ full
                        ∷ checked
                        ∷ unstaged
                        ∷ moved
                        ∷ write (replace_state j staged) moved
                        ∷ [],
                    ok staged,
                  )
            ]
      ]

  unfoldable pub download : ℕ → UpdateManifest → Download → Disk → Trace
  download now m result d = elim (require download_consented d.journal) [
    | wrong f ↦ ([], raised f)
    | found j ↦ elim (match_manifest j m now) [
      | wrong f ↦ ([], raised f)
      | found a ↦ fetch j a result d
    ]
  ]

  unfoldable pub consent_install : ℕ → UpdateManifest → Disk → Trace
  consent_install now m d = elim (require staged d.journal) [
    | wrong f ↦ ([], raised f)
    | found j ↦ elim (match_manifest j m now) [
      | wrong f ↦ ([], raised f)
      | found a ↦ elim (verify_artifact_file d.staged_file a) [
        | wrong f ↦ ([], raised f)
        | found content ↦ transition j install_consented d
      ]
    ]
  ]

  -- The results of `installer.install` (`false`: it raises), of the health check (`false`: it raises
  -- or answers no) and of `installer.rollback` (`false`: it raises).
  abbrev after_trace : Disk → Trace → Trace
  after_trace d (l, r) = (d ∷ l, r)

  -- `install` from the write of INSTALLING on.
  unfoldable pub put_in_place : UpdateJournal → Text → Bool → Bool → Bool → Disk → Trace
  put_in_place j content installs healthy rolls_back d =
      let started = write (replace_state j installing) d in
      let entry : Handed = record {
        content = content;
        size = j.artifact_size;
        sha256 = j.artifact_sha256;
      } in
      let called = record started { handed = entry ∷ d.handed } in
      let checking = write (replace_state j health_check) called in
      if not installs
      then after_trace started
          (after_trace called (rollback rolls_back (replace_state j installing) called))
      else if not healthy
      then after_trace started (
          after_trace called
            (after_trace checking (rollback rolls_back (replace_state j health_check) checking)))
      else after_trace started
          (after_trace called (after_trace checking (transition j committed checking)))

  unfoldable pub install : ℕ → UpdateManifest → Bool → Bool → Bool → Disk → Trace
  install now m installs healthy rolls_back d = elim (require install_consented d.journal) [
    | wrong f ↦ ([], raised f)
    | found j ↦ elim (match_manifest j m now) [
      | wrong f ↦ ([], raised f)
      | found a ↦ elim (verify_artifact_file d.staged_file a) [
        | wrong f ↦ ([], raised f)
        | found content ↦ put_in_place j content installs healthy rolls_back d
      ]
    ]
  ]

  -- `candidate` of `resume`
  abbrev candidate : Option Text → Option Text → Option Text
  candidate none staged_file = staged_file
  candidate (some content) staged_file = some content

  -- The branch of `resume` for VERIFIED.
  unfoldable pub resume_verified : UpdateJournal → ArtifactDescriptor → Disk → Trace
  resume_verified j a d = elim (verify_artifact_file (candidate d.partial_file d.staged_file) a) [
    | wrong f ↦
        let no_partial = record d { partial_file = none } in
        let cleared = record no_partial { staged_file = none } in
        after_trace no_partial (after_trace cleared (transition j download_consented cleared))
    | found content ↦
        let moved = record d { partial_file = none; staged_file = some content } in
        after_trace moved (transition j staged moved)
  ]

  -- The branch of `resume` for STAGED and INSTALL_CONSENTED.
  unfoldable pub resume_staged : UpdateJournal → ArtifactDescriptor → Disk → Trace
  resume_staged j a d = elim (verify_artifact_file d.staged_file a) [
    | wrong f ↦
        let cleared = record d { staged_file = none } in
        after_trace cleared (transition j download_consented cleared)
    | found content ↦ ([], ok j.state)
  ]

  unfoldable pub resume_state :
      UpdateState → UpdateJournal → ArtifactDescriptor → Bool → Disk → Trace
  resume_state downloading j a rolls_back d =
      let cleared = record d { partial_file = none } in
      after_trace cleared (transition j download_consented cleared)
  resume_state verified j a rolls_back d = resume_verified j a d
  resume_state staged j a rolls_back d = resume_staged j a d
  resume_state install_consented j a rolls_back d = resume_staged j a d
  resume_state installing j a rolls_back d = rollback rolls_back j d
  resume_state health_check j a rolls_back d = rollback rolls_back j d
  resume_state available j a rolls_back d = ([], ok j.state)
  resume_state download_consented j a rolls_back d = ([], ok j.state)
  resume_state committed j a rolls_back d = ([], ok j.state)
  resume_state rolled_back j a rolls_back d = ([], ok j.state)
  resume_state manual_recovery j a rolls_back d = ([], ok j.state)

  unfoldable pub resume : ℕ → UpdateManifest → Bool → Disk → Trace
  resume now m rolls_back d = elim d.journal [
    | missing ↦ ([], raised state_error)
    | invalid ↦ ([], raised state_error)
    | valid j ↦ elim (match_manifest j m now) [
      | wrong f ↦ ([], raised f)
      | found a ↦ resume_state j.state j a rolls_back d
    ]
  ]
