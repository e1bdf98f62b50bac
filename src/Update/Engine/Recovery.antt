-- ===== src/Update/Engine/Recovery.antt =====
-- What `resume` of src/quota_monitor/update_engine.py leaves after a crash.
use openai_free_credit_track.Base.{
  ℕ, ◌≡◌, ◌⊎◌, inl, inr, refl, sym, Bool, true, false, Option, some, none, List, [], ◌∷◌,
  Bool-cases, subst,
}
use openai_free_credit_track.Base.Text.{Text}
use openai_free_credit_track.SemVer.{Unicode}
use openai_free_credit_track.Update.{ArtifactDescriptor, UpdateManifest, is_verified}
use openai_free_credit_track.Update.Engine.{
  UpdateState, available, download_consented, downloading, verified, staged, install_consented,
  installing, health_check, committed, rolled_back, manual_recovery, UpdateJournal, Disk, ok,
  Choice, found, wrong, Trace, UpdateEngine, valid, replace_state, rollback, match_manifest,
  verify_artifact_file, candidate, resume_verified, resume_staged, resume_state, resume,
  EngineFault,
}

-- The disk after a trace.
abbrev pub final : Disk → List Disk → Disk
final d [] = d
final d (e ∷ l) = final e l

-- The states in which no operation is under way.
abbrev pub is_settled : UpdateState → Bool
is_settled downloading = false
is_settled verified = false
is_settled installing = false
is_settled health_check = false
is_settled _ = true

abbrev pub needs_file : UpdateState → Bool
needs_file staged = true
needs_file install_consented = true
needs_file _ = false

module _ (u : Unicode) (sha256 : Text → Text) (c : UpdateEngine) where
  pub verify-found :
      (file : Option Text) (a : ArtifactDescriptor) (content : Text)
      → verify_artifact_file u sha256 c file a ≡ found content
      → (file ≡ some content) × (is_verified sha256 a content ≡ true)
  unfolding verify_artifact_file
  verify-found none a content h = absurd cc
  verify-found (some bytes) a content h = elim (Bool-cases (is_verified sha256 a bytes)) [
    | inl good ↦ let same = rw good at h in let e : bytes ≡ content = cc in (cc, rw (sym e) good)
    | inr bad ↦ absurd (let no = rw bad at h in cc)
  ]

  -- A trace from the disk ends settled: its reply is a settled state, the journal has that state and
  -- is otherwise as before, and the staged file is good if the state needs it.
  abbrev pub Settles : UpdateJournal → ArtifactDescriptor → Disk → Trace → Type 0
  Settles j a d t =
      (s : UpdateState) × (t.1 ≡ ok s)
      × (is_settled s ≡ true)
      × ((final d t.0).journal ≡ valid (replace_state j s))
      × (needs_file s ≡ true
          → (content : Text) × ((final d t.0).staged_file ≡ some content)
            × (is_verified sha256 a content ≡ true))

  rollback-Settles :
      (b : Bool) (j : UpdateJournal) (a : ArtifactDescriptor) (d : Disk)
      → Settles j a d (rollback b j d)
  unfolding rollback
  rollback-Settles true j a d = (rolled_back, refl, refl, refl, λ h. absurd cc)
  rollback-Settles false j a d = (manual_recovery, refl, refl, refl, λ h. absurd cc)

  Choice-cases :
      (r : Choice Text)
      → ((f : EngineFault) × (r ≡ wrong f)) ⊎ ((content : Text) × (r ≡ found content))
  Choice-cases (wrong f) = inl (f, refl)
  Choice-cases (found content) = inr (content, refl)

  resume_verified-Settles :
      (j : UpdateJournal) (a : ArtifactDescriptor) (d : Disk)
      → Settles j a d (resume_verified u sha256 c j a d)
  unfolding resume_verified
  resume_verified-Settles j a d =
      elim (Choice-cases
        (verify_artifact_file u sha256 c (candidate u sha256 c d.partial_file d.staged_file) a)) [
          | inl (f, e) ↦
              rw (e, resume_verified) (download_consented, refl, refl, refl, λ h. absurd cc)
          | inr (content, e) ↦
              let (is_file, good) = verify-found _ a content e in
              rw (e, resume_verified) (staged, refl, refl, refl, λ h. (content, refl, good))
        ]

  resume_staged-Settles :
      (j : UpdateJournal) (a : ArtifactDescriptor) (d : Disk)
      → d.journal ≡ valid j
      → is_settled j.state ≡ true
      → Settles j a d (resume_staged u sha256 c j a d)
  unfolding resume_staged
  resume_staged-Settles j a d h k =
      elim (Choice-cases (verify_artifact_file u sha256 c d.staged_file a)) [
        | inl (f, e) ↦ rw (e, resume_staged) (download_consented, refl, refl, refl, λ n. absurd cc)
        | inr (content, e) ↦
            let (is_file, good) = verify-found _ a content e in
            rw (e, resume_staged) (j.state, refl, k, h, λ n. (content, is_file, good))
      ]

  -- The states in which `resume` does nothing.
  stays :
      (j : UpdateJournal) (a : ArtifactDescriptor) (d : Disk)
      → d.journal ≡ valid j
      → is_settled j.state ≡ true
      → needs_file j.state ≡ false
      → Settles j a d ([], ok j.state)
  stays j a d h k n = (j.state, refl, k, h, λ m. absurd cc)

  resume_state-Settles :
      (s : UpdateState) (j : UpdateJournal) (a : ArtifactDescriptor) (b : Bool) (d : Disk)
      → d.journal ≡ valid j
      → j.state ≡ s
      → Settles j a d (resume_state u sha256 c s j a b d)
  unfolding resume_state
  resume_state-Settles downloading j a b d h e =
      (download_consented, refl, refl, refl, λ n. absurd cc)
  resume_state-Settles verified j a b d h e = resume_verified-Settles j a d
  resume_state-Settles staged j a b d h e = resume_staged-Settles j a d h (rw e refl)
  resume_state-Settles install_consented j a b d h e = resume_staged-Settles j a d h (rw e refl)
  resume_state-Settles installing j a b d h e = rollback-Settles b j a d
  resume_state-Settles health_check j a b d h e = rollback-Settles b j a d
  resume_state-Settles available j a b d h e = stays j a d h (rw e refl) (rw e refl)
  resume_state-Settles download_consented j a b d h e = stays j a d h (rw e refl) (rw e refl)
  resume_state-Settles committed j a b d h e = stays j a d h (rw e refl) (rw e refl)
  resume_state-Settles rolled_back j a b d h e = stays j a d h (rw e refl) (rw e refl)
  resume_state-Settles manual_recovery j a b d h e = stays j a d h (rw e refl) (rw e refl)

  pub resume-found :
      (now : ℕ) (m : UpdateManifest) (b : Bool) (d : Disk) (j : UpdateJournal)
      (a : ArtifactDescriptor)
      → d.journal ≡ valid j
      → match_manifest u sha256 c j m now ≡ found a
      → resume u sha256 c now m b d ≡ resume_state u sha256 c j.state j a b d
  unfolding resume
  resume-found now m b d j a h k = simp (h, k, resume)

  -- Whatever state the journal is in, and whatever files there are, `resume` with a manifest that
  -- matches the journal returns a state, which is none of DOWNLOADING, VERIFIED, INSTALLING and
  -- HEALTH_CHECK; the journal then has that state and is otherwise as before; and if the state is
  -- STAGED or INSTALL_CONSENTED then the staged file has the size and the hash of the artifact.
  pub resume-Settles :
      (now : ℕ) (m : UpdateManifest) (b : Bool) (d : Disk) (j : UpdateJournal)
      (a : ArtifactDescriptor)
      → d.journal ≡ valid j
      → match_manifest u sha256 c j m now ≡ found a
      → Settles j a d (resume u sha256 c now m b d)
  resume-Settles now m b d j a h k =
      subst (Settles j a d) (sym (resume-found now m b d j a h k))
        (resume_state-Settles j.state j a b d h refl)
