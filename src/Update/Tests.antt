-- ===== src/Update/Tests.antt =====
-- The theorems at concrete inputs. Any function may stand for the hash: here it is the identity.
use openai_free_credit_track.Base.{
  ℕ, ◌≡◌, inl, inr, refl, true, false, Option, some, none, List, [], ◌∷◌, All,
}
use openai_free_credit_track.Base.Text.{Text, codes, text_eq}
use openai_free_credit_track.SemVer.{SemVer, version_lt, version_eq}
use openai_free_credit_track.SemVer.SampleDigits.{digits}
use openai_free_credit_track.Update.{
  ArtifactDescriptor, UpdateManifest, UpdateChecker, artifacts_for, is_none_or, is_verified,
}
use openai_free_credit_track.Update.Engine.{
  UpdateState, available, download_consented, verified, staged, install_consented, committed,
  UpdateJournal, valid, Disk, Handed, UpdateEngine, found, downloaded, state_eq, option_eq, require,
  validate_manifest_policy, select_artifact, manifest_fingerprint_of, matches_journal,
  match_manifest, verify_artifact_file, prepare, consent_download, fetch, download, consent_install,
  put_in_place, install, resume,
}
use openai_free_credit_track.Update.Engine.Recovery.{Settles, resume-Settles}
use openai_free_credit_track.Update.Engine.Consent.{
  prepare_op, consent_download_op, download_op, consent_install_op, install_op, perform, Event,
  wrote, unwritten, Reach, fresh, step, stay, IsGenuine, is_allowed, download_was_consented,
  install_was_consented, journal_was_consented, handed-IsGenuine,
}
use openai_free_credit_track.Update.Download.{
  read_chunks, joined, verify_artifact_stream, verify_artifact_stream-joined, absent, announced,
  opened, saved, download_error, download_file, download_file-saved,
}
use openai_free_credit_track.Base.{◌≤◌, ◌+◌, length}

abbrev hash : Text → Text
hash t = t

abbrev number : ℕ → SemVer
number n = record { major = n; minor = 0; patch = 0; prerelease = []; build = [] }

abbrev engine : UpdateEngine
engine = record {
  current_version = number 1;
  channel = codes "stable";
  platform_os = codes "linux";
  platform_arch = codes "x64";
  artifact_format = none;
}

abbrev checker : UpdateChecker
checker = record {
  current_version = number 1;
  updater_version = number 1;
  channel = codes "stable";
}

abbrev artifact : ArtifactDescriptor
artifact = record {
  url = codes "u";
  size = 3;
  sha256 = codes "abc";
  os = some (codes "linux");
  arch = some (codes "x64");
  format = none;
}

abbrev manifest : UpdateManifest
manifest = record {
  schema_version = 1;
  channel = codes "stable";
  version = number 2;
  published_at = 0;
  minimum_updater_version = number 1;
  artifacts = artifact ∷ [];
  release_notes_url = codes "n";
  signature = codes "s";
  key_id = codes "k";
  signing_payload = codes "p";
  expires_at = some 9;
  critical = false;
}

abbrev journal : UpdateState → UpdateJournal
journal s = record {
  state = s;
  version = number 2;
  channel = codes "stable";
  critical = false;
  manifest_fingerprint = codes "ps";
  artifact_size = 3;
  artifact_sha256 = codes "abc";
  artifact_os = some (codes "linux");
  artifact_arch = some (codes "x64");
  artifact_format = none;
}

abbrev disk_at : UpdateState → Option Text → Option Text → List Handed → Disk
disk_at s p f h = record {
  journal = valid (journal s);
  partial_file = p;
  staged_file = f;
  handed = h;
}

matching : match_manifest digits hash engine (journal verified) manifest 5 ≡ found artifact
unfolding match_manifest select_artifact validate_manifest_policy matches_journal
    manifest_fingerprint_of option_eq artifacts_for is_none_or text_eq version_lt version_eq
matching = refl

-- A crash between the write of VERIFIED and the move of the file.
resume-Settles_example :
    Settles digits hash engine
      (journal verified)
      artifact
      (disk_at verified (some (codes "abc")) none [])
      (resume digits hash engine 5 manifest true (disk_at verified (some (codes "abc")) none []))
resume-Settles_example =
    resume-Settles digits hash engine 5 manifest true
      (disk_at verified (some (codes "abc")) none []) (journal verified) artifact refl matching

-- The second `prepare` is refused, since an update is under way.
abbrev all_calls : List Event
all_calls =
    wrote (install_op 5 manifest true true true)
    ∷ wrote (consent_install_op 5 manifest)
    ∷ wrote (download_op 5 manifest (downloaded (codes "abc")))
    ∷ unwritten (prepare_op 5 manifest)
    ∷ wrote consent_download_op
    ∷ wrote (prepare_op 5 manifest)
    ∷ []

abbrev given : Handed
given = record { content = codes "abc"; size = 3; sha256 = codes "abc" }

whole_update :
    Reach digits hash engine all_calls (disk_at committed none (some (codes "abc")) (given ∷ []))
unfolding perform prepare consent_download download fetch consent_install install put_in_place
    require state_eq match_manifest select_artifact validate_manifest_policy matches_journal
    manifest_fingerprint_of option_eq artifacts_for is_none_or text_eq version_lt version_eq
    verify_artifact_file is_verified
whole_update =
    step {d = disk_at install_consented none (some (codes "abc")) []} _
      (step {d = disk_at staged none (some (codes "abc")) []} _
        (step {d = disk_at download_consented none none []} _
          (stay _ (
            step {d = disk_at available none none []} _ (step _ (fresh none none) (inl refl))
              (inl refl)))
          (inr (inr (inr (inr (inr (inr (inl refl))))))))
        (inl refl))
      (inr (inr (inr (inl refl))))

journal_was_consented_example :
    is_allowed (download_was_consented all_calls) (install_was_consented all_calls) committed ≡ true
journal_was_consented_example =
    journal_was_consented digits hash engine all_calls
      (disk_at committed none (some (codes "abc")) (given ∷ [])) (journal committed) whole_update
      refl

handed-IsGenuine_example : All (IsGenuine digits hash engine) (given ∷ [])
handed-IsGenuine_example =
    handed-IsGenuine digits hash engine all_calls
      (disk_at committed none (some (codes "abc")) (given ∷ [])) whole_update

abbrev chunks : List Text
chunks = codes "ab" ∷ codes "c" ∷ [] ∷ codes "ignored" ∷ []

verify_artifact_stream-joined_example :
    verify_artifact_stream hash artifact chunks ≡ is_verified hash artifact (joined chunks)
verify_artifact_stream-joined_example = verify_artifact_stream-joined hash artifact chunks

downloads :
    download_file hash 10 artifact true 13 false (opened true (announced 3) chunks)
    ≡ saved (codes "abc")
unfolding download_file read_chunks text_eq
downloads = refl

refuses_extra :
    download_file hash 10 artifact true 13 false (opened true absent (codes "ab" ∷ codes "cd" ∷ []))
    ≡ download_error
unfolding download_file read_chunks text_eq
refuses_extra = refl

download_file-saved_example :
    (true ≡ true)
    × (artifact.size + 10 ≤ 13)
    × (true ≡ true)
    × (false ≡ false)
    × (length (codes "abc") ≡ artifact.size)
    × (hash (codes "abc") ≡ artifact.sha256)
download_file-saved_example =
    download_file-saved hash 10 artifact true 13 false true (announced 3) chunks (codes "abc")
      downloads
