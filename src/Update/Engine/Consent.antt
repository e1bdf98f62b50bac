-- ===== src/Update/Engine/Consent.antt =====
-- What the operations of `UpdateEngine` may lead to, with a crash after any write.
use openai_free_credit_track.Base.{
  ℕ, zero, suc, ◌≡◌, ◌⊎◌, inl, inr, refl, sym, ap, Bool, true, false, Option, some, List, [], ◌∷◌,
  All, In, All→at, arith, Bool-cases, length, ==_iff, subst, ◌&&◌,
}
use openai_free_credit_track.Base.Text.{Text, text_eq, text_eq→eq}
use openai_free_credit_track.SemVer.{Unicode}
use openai_free_credit_track.Update.{ArtifactDescriptor, UpdateManifest, is_verified, lower}
use openai_free_credit_track.Update.Engine.{
  UpdateState, available, download_consented, downloading, verified, staged, install_consented,
  installing, health_check, committed, rolled_back, manual_recovery, UpdateJournal, JournalFile,
  missing, invalid, valid, Handed, Disk, raised, EngineFault, state_error, Choice, found, wrong,
  Trace, UpdateEngine, Download, downloaded, broken, state_code, state_eq, require, rollback,
  select_artifact, matches_journal, match_manifest, verify_artifact_file, is_over, prepare,
  consent_download, fetch, download, consent_install, put_in_place, install, candidate,
  resume_verified, resume_staged, resume_state, resume,
}
use openai_free_credit_track.Update.Engine.Recovery.{verify-found, resume-found}

-- A call of an operation, with the clock's time, the manifest, and what the outside does.
pub data Operation : Type 0 where
  prepare_op : ℕ → UpdateManifest → Operation
  consent_download_op : Operation
  download_op : ℕ → UpdateManifest → Download → Operation
  consent_install_op : ℕ → UpdateManifest → Operation
  install_op : ℕ → UpdateManifest → Bool → Bool → Bool → Operation
  resume_op : ℕ → UpdateManifest → Bool → Operation

-- What became of a call: it wrote to the disk, or it did not. It does not when it is refused, when
-- it has nothing to do, and when a crash precedes its first write.
pub data Event : Type 0 where
  wrote unwritten : Operation → Event

-- Among the events, the last first: `consent_download` wrote, and `prepare` has not since.
unfoldable pub download_was_consented : List Event → Bool
download_was_consented [] = false
download_was_consented (unwritten o ∷ h) = download_was_consented h
download_was_consented (wrote (prepare_op now m) ∷ h) = false
download_was_consented (wrote consent_download_op ∷ h) = true
download_was_consented (wrote (download_op now m r) ∷ h) = download_was_consented h
download_was_consented (wrote (consent_install_op now m) ∷ h) = download_was_consented h
download_was_consented (wrote (install_op now m a b c) ∷ h) = download_was_consented h
download_was_consented (wrote (resume_op now m b) ∷ h) = download_was_consented h

-- `consent_install` wrote, and `prepare`, `consent_download` and `download` have not since.
unfoldable pub install_was_consented : List Event → Bool
install_was_consented [] = false
install_was_consented (unwritten o ∷ h) = install_was_consented h
install_was_consented (wrote (prepare_op now m) ∷ h) = false
install_was_consented (wrote consent_download_op ∷ h) = false
install_was_consented (wrote (download_op now m r) ∷ h) = false
install_was_consented (wrote (consent_install_op now m) ∷ h) = true
install_was_consented (wrote (install_op now m a b c) ∷ h) = install_was_consented h
install_was_consented (wrote (resume_op now m b) ∷ h) = install_was_consented h

-- The state is allowed when these consents were given.
abbrev pub is_allowed : Bool → Bool → UpdateState → Bool
is_allowed downloads installs available = true
is_allowed downloads installs download_consented = downloads
is_allowed downloads installs downloading = downloads
is_allowed downloads installs verified = downloads
is_allowed downloads installs staged = downloads
is_allowed downloads installs install_consented = downloads && installs
is_allowed downloads installs installing = downloads && installs
is_allowed downloads installs health_check = downloads && installs
is_allowed downloads installs committed = downloads && installs
is_allowed downloads installs rolled_back = downloads && installs
is_allowed downloads installs manual_recovery = downloads && installs

abbrev pub IsAllowed : Bool → Bool → JournalFile → Type 0
IsAllowed downloads installs missing = Unit
IsAllowed downloads installs invalid = Unit
IsAllowed downloads installs (valid j) = is_allowed downloads installs j.state ≡ true

following : UpdateState → UpdateState
following available = download_consented
following download_consented = downloading
following downloading = verified
following verified = staged
following staged = install_consented
following install_consented = installing
following installing = health_check
following health_check = committed
following committed = rolled_back
following rolled_back = manual_recovery
following manual_recovery = manual_recovery

state_of : ℕ → UpdateState
unfolding following
state_of zero = available
state_of (suc n) = following (state_of n)

state_of-code : (s : UpdateState) → state_of (state_code s) ≡ s
unfolding state_of following
state_of-code available = refl
state_of-code download_consented = refl
state_of-code downloading = refl
state_of-code verified = refl
state_of-code staged = refl
state_of-code install_consented = refl
state_of-code installing = refl
state_of-code health_check = refl
state_of-code committed = refl
state_of-code rolled_back = refl
state_of-code manual_recovery = refl

pub state_eq→eq : (a b : UpdateState) → state_eq a b ≡ true → a ≡ b
unfolding state_eq
state_eq→eq a b h =
    let codes_eq = (==_iff (state_code a) (state_code b)).0 h in
    let left = state_of-code a in
    let right = state_of-code b in let both = ap state_of codes_eq in cc

pub require-found :
    (s : UpdateState) (f : JournalFile) (j : UpdateJournal)
    → require s f ≡ found j
    → (f ≡ valid j) × (j.state ≡ s)
unfolding require
require-found s missing j h = absurd cc
require-found s invalid j h = absurd cc
require-found s (valid k) j h = elim (Bool-cases (state_eq k.state s)) [
  | inl same ↦
      let is_found = rw same at h in
      let e : k ≡ j = cc in (ap valid e, subst (λ x. x.state ≡ s) e (state_eq→eq k.state s same))
  | inr other ↦ absurd (let no = rw other at h in cc)
]

module _ (u : Unicode) (sha256 : Text → Text) (c : UpdateEngine) where
  unfoldable pub perform : Operation → Disk → Trace
  perform (prepare_op now m) d = prepare u sha256 c now m d
  perform consent_download_op d = consent_download u sha256 c d
  perform (download_op now m r) d = download u sha256 c now m r d
  perform (consent_install_op now m) d = consent_install u sha256 c now m d
  perform (install_op now m installs healthy rolls_back) d =
      install u sha256 c now m installs healthy rolls_back d
  perform (resume_op now m rolls_back) d = resume u sha256 c now m rolls_back d

  -- The disks after any calls, the last first. A call may be cut short by a crash after any write, or
  -- write nothing: then the disk is as before.
  pub data Reach : List Event → Disk → Type 0 where
    fresh :
        (partial_file staged_file : Option Text)
        → Reach [] (record {
          journal = missing;
          partial_file = partial_file;
          staged_file = staged_file;
          handed = [];
        })
    step :
        {h : List Event} {d e : Disk} (o : Operation)
        → Reach h d
        → In e (perform o d).0
        → Reach (wrote o ∷ h) e
    stay : {h : List Event} {d : Disk} (o : Operation) → Reach h d → Reach (unwritten o ∷ h) d

  -- What the installer was given had the size and the hash of its artifact.
  abbrev pub IsGenuine : Handed → Type 0
  IsGenuine g = (length g.content ≡ g.size) × (sha256 g.content ≡ lower g.sha256)

  abbrev pub IsSafe : Bool → Bool → Disk → Type 0
  IsSafe downloads installs d = IsAllowed downloads installs d.journal × All IsGenuine d.handed

  allowed_at :
      (x y : Bool) (d : Disk) (j : UpdateJournal) (s : UpdateState)
      → require s d.journal ≡ found j
      → IsAllowed x y d.journal
      → is_allowed x y s ≡ true
  allowed_at x y d j s h k =
      let (e, f) = require-found s d.journal j h in
      let at_j : is_allowed x y j.state ≡ true = subst (IsAllowed x y) e k in
      subst (λ t. is_allowed x y t ≡ true) f at_j

  Steps : Bool → Bool → Trace → Type 0
  Steps x y t = All (IsSafe x y) t.0

  Choice-cases :
      {A : Type 0} (r : Choice A) → ((f : EngineFault) × (r ≡ wrong f)) ⊎ ((a : A) × (r ≡ found a))
  Choice-cases (wrong f) = inl (f, refl)
  Choice-cases (found a) = inr (a, refl)

  prepare-Steps :
      (now : ℕ) (m : UpdateManifest) (d : Disk)
      → All IsGenuine d.handed
      → Steps false false (prepare u sha256 c now m d)
  unfolding Steps prepare
  prepare-Steps now m d g = elim (Choice-cases (select_artifact u sha256 c now m)) [
    | inl (f, e) ↦ rw (e, prepare) tt
    | inr (a, e) ↦ elim (Bool-cases (is_over u sha256 c d.journal)) [
      | inl over ↦ rw (e, over, prepare) ((refl, g), tt)
      | inr busy ↦ rw (e, busy, prepare) tt
    ]
  ]

  consent_download-Steps :
      (x y : Bool) (d : Disk)
      → All IsGenuine d.handed
      → Steps true false (consent_download u sha256 c d)
  unfolding Steps consent_download
  consent_download-Steps x y d g = elim (Choice-cases (require available d.journal)) [
    | inl (f, e) ↦ rw (e, consent_download) tt
    | inr (j, e) ↦ rw (e, consent_download) ((refl, g), tt)
  ]

  fetch-Steps :
      (x : Bool) (j : UpdateJournal) (a : ArtifactDescriptor) (r : Download) (d : Disk)
      → x ≡ true
      → All IsGenuine d.handed
      → Steps x false (fetch u sha256 c j a r d)
  unfolding Steps fetch
  fetch-Steps x j a (broken left) d k g = ((k, g), ((k, g), ((k, g), tt)))
  fetch-Steps x j a (downloaded content) d k g =
      elim (Choice-cases (verify_artifact_file u sha256 c (some content) a)) [
        | inl (f, e) ↦ rw (e, fetch) ((k, g), ((k, g), ((k, g), tt)))
        | inr (bytes, e) ↦
            rw (e, fetch) ((k, g), ((k, g), ((k, g), ((k, g), ((k, g), ((k, g), ((k, g), tt)))))))
      ]

  download-Steps :
      (x y : Bool) (now : ℕ) (m : UpdateManifest) (r : Download) (d : Disk)
      → IsSafe x y d
      → Steps x false (download u sha256 c now m r d)
  unfolding Steps download
  download-Steps x y now m r d (k, g) = elim (Choice-cases (require download_consented d.journal)) [
    | inl (f, e) ↦ rw (e, download) tt
    | inr (j, e) ↦ elim (Choice-cases (match_manifest u sha256 c j m now)) [
      | inl (f, n) ↦ rw (e, n, download) tt
      | inr (a, n) ↦
          rw (e, n, download) (fetch-Steps x j a r d (allowed_at x y d j download_consented e k) g)
    ]
  ]

  both : (x : Bool) → x ≡ true → x && true ≡ true
  both x h = rw h refl

  first_of : (x y : Bool) → x && y ≡ true → x ≡ true
  first_of x y h = ground arith

  consent_install-Steps :
      (x y : Bool) (now : ℕ) (m : UpdateManifest) (d : Disk)
      → IsSafe x y d
      → Steps x true (consent_install u sha256 c now m d)
  unfolding Steps consent_install
  consent_install-Steps x y now m d (k, g) = elim (Choice-cases (require staged d.journal)) [
    | inl (f, e) ↦ rw (e, consent_install) tt
    | inr (j, e) ↦ elim (Choice-cases (match_manifest u sha256 c j m now)) [
      | inl (f, n) ↦ rw (e, n, consent_install) tt
      | inr (a, n) ↦ elim (Choice-cases (verify_artifact_file u sha256 c d.staged_file a)) [
        | inl (f, v) ↦ rw (e, n, v, consent_install) tt
        | inr (bytes, v) ↦
            rw (e, n, v, consent_install) ((both x (allowed_at x y d j staged e k), g), tt)
      ]
    ]
  ]

  rollback-Steps :
      (x y b : Bool) (j : UpdateJournal) (d : Disk)
      → x && y ≡ true
      → All IsGenuine d.handed
      → Steps x y (rollback b j d)
  unfolding Steps rollback
  rollback-Steps x y true j d k g = ((k, g), tt)
  rollback-Steps x y false j d k g = ((k, g), tt)

  put_in_place-Steps :
      (x y : Bool) (j : UpdateJournal) (content : Text) (installs healthy rolls_back : Bool)
      (d : Disk)
      → x && y ≡ true
      → IsGenuine (record { content = content; size = j.artifact_size; sha256 = j.artifact_sha256 })
      → All IsGenuine d.handed
      → Steps x y (put_in_place u sha256 c j content installs healthy rolls_back d)
  unfolding Steps put_in_place
  put_in_place-Steps x y j content false healthy b d k one g =
      ((k, g), ((k, (one, g)), rollback-Steps x y b _ _ k (one, g)))
  put_in_place-Steps x y j content true false b d k one g =
      ((k, g), ((k, (one, g)), ((k, (one, g)), rollback-Steps x y b _ _ k (one, g))))
  put_in_place-Steps x y j content true true b d k one g =
      ((k, g), ((k, (one, g)), ((k, (one, g)), ((k, (one, g)), tt))))

  matches-IsGenuine :
      (j : UpdateJournal) (m : UpdateManifest) (a : ArtifactDescriptor) (content : Text)
      → matches_journal u sha256 c j m a ≡ true
      → is_verified sha256 a content ≡ true
      → IsGenuine (record { content = content; size = j.artifact_size; sha256 = j.artifact_sha256 })
  unfolding matches_journal is_verified
  matches-IsGenuine j m a content h k =
      let size : a.size ≡ j.artifact_size = ground arith in
      let hash : text_eq a.sha256 j.artifact_sha256 ≡ true = ground arith in
      let same = text_eq→eq _ _ hash in
      let long : length content ≡ a.size = ground arith in
      let digest : text_eq (sha256 content) (lower a.sha256) ≡ true = ground arith in
      (cc, subst (λ t. sha256 content ≡ lower t) same (text_eq→eq _ _ digest))

  match-found :
      (j : UpdateJournal) (m : UpdateManifest) (now : ℕ) (a : ArtifactDescriptor)
      → match_manifest u sha256 c j m now ≡ found a
      → matches_journal u sha256 c j m a ≡ true
  unfolding match_manifest
  match-found j m now a h = elim (Choice-cases (select_artifact u sha256 c now m)) [
    | inl (f, e) ↦ absurd (let no = rw (e, match_manifest) at h in cc)
    | inr (b, e) ↦ elim (Bool-cases (matches_journal u sha256 c j m b)) [
      | inl good ↦
          let is_found = rw (e, good, match_manifest) at h in
          let same : b ≡ a = cc in subst (λ t. matches_journal u sha256 c j m t ≡ true) same good
      | inr bad ↦ absurd (let no = rw (e, bad, match_manifest) at h in cc)
    ]
  ]

  install-Steps :
      (x y : Bool) (now : ℕ) (m : UpdateManifest) (installs healthy rolls_back : Bool) (d : Disk)
      → IsSafe x y d
      → Steps x y (install u sha256 c now m installs healthy rolls_back d)
  unfolding Steps install
  install-Steps x y now m i h b d (k, g) =
      elim (Choice-cases (require install_consented d.journal)) [
        | inl (f, e) ↦ rw (e, install) tt
        | inr (j, e) ↦ elim (Choice-cases (match_manifest u sha256 c j m now)) [
          | inl (f, n) ↦ rw (e, n, install) tt
          | inr (a, n) ↦ elim (Choice-cases (verify_artifact_file u sha256 c d.staged_file a)) [
            | inl (f, v) ↦ rw (e, n, v, install) tt
            | inr (content, v) ↦
                let genuine =
                  matches-IsGenuine j m a content (match-found j m now a n)
                    (verify-found u sha256 c _ a content v).1 in
                rw (e, n, v, install)
                  (put_in_place-Steps x y j content i h b d
                    (allowed_at x y d j install_consented e k) genuine g)
          ]
        ]
      ]

  here_at :
      (x y : Bool) (d : Disk) (j : UpdateJournal) (s : UpdateState)
      → d.journal ≡ valid j
      → j.state ≡ s
      → is_allowed x y s ≡ true
      → IsAllowed x y d.journal
  here_at x y d j s h e k =
      subst (IsAllowed x y) (sym h) (subst (λ t. is_allowed x y t ≡ true) (sym e) k)

  resume_verified-Steps :
      (x y : Bool) (j : UpdateJournal) (a : ArtifactDescriptor) (d : Disk)
      → d.journal ≡ valid j
      → j.state ≡ verified
      → x ≡ true
      → All IsGenuine d.handed
      → Steps x y (resume_verified u sha256 c j a d)
  unfolding Steps resume_verified
  resume_verified-Steps x y j a d h s k g =
      let here = here_at x y d j verified h s k in
      elim (Choice-cases
        (verify_artifact_file u sha256 c (candidate u sha256 c d.partial_file d.staged_file) a)) [
          | inl (f, e) ↦ rw (e, resume_verified) ((here, g), ((here, g), ((k, g), tt)))
          | inr (content, e) ↦ rw (e, resume_verified) ((here, g), ((k, g), tt))
        ]

  resume_staged-Steps :
      (x y : Bool) (j : UpdateJournal) (a : ArtifactDescriptor) (d : Disk)
      → IsAllowed x y d.journal
      → x ≡ true
      → All IsGenuine d.handed
      → Steps x y (resume_staged u sha256 c j a d)
  unfolding Steps resume_staged
  resume_staged-Steps x y j a d here k g =
      elim (Choice-cases (verify_artifact_file u sha256 c d.staged_file a)) [
        | inl (f, e) ↦ rw (e, resume_staged) ((here, g), ((k, g), tt))
        | inr (content, e) ↦ rw (e, resume_staged) tt
      ]

  resume_state-Steps :
      (s : UpdateState) (x y b : Bool) (j : UpdateJournal) (a : ArtifactDescriptor) (d : Disk)
      → d.journal ≡ valid j
      → j.state ≡ s
      → is_allowed x y s ≡ true
      → All IsGenuine d.handed
      → Steps x y (resume_state u sha256 c s j a b d)
  unfolding Steps resume_state
  resume_state-Steps downloading x y b j a d h e k g = ((here_at x y d j _ h e k, g), ((k, g), tt))
  resume_state-Steps verified x y b j a d h e k g = resume_verified-Steps x y j a d h e k g
  resume_state-Steps staged x y b j a d h e k g =
      resume_staged-Steps x y j a d (here_at x y d j _ h e k) k g
  resume_state-Steps install_consented x y b j a d h e k g =
      resume_staged-Steps x y j a d (here_at x y d j _ h e k) (first_of x y k) g
  resume_state-Steps installing x y b j a d h e k g = rollback-Steps x y b j d k g
  resume_state-Steps health_check x y b j a d h e k g = rollback-Steps x y b j d k g
  resume_state-Steps available x y b j a d h e k g = tt
  resume_state-Steps download_consented x y b j a d h e k g = tt
  resume_state-Steps committed x y b j a d h e k g = tt
  resume_state-Steps rolled_back x y b j a d h e k g = tt
  resume_state-Steps manual_recovery x y b j a d h e k g = tt

  JournalFile-cases :
      (f : JournalFile) → (f ≡ missing) ⊎ ((f ≡ invalid) ⊎ ((j : UpdateJournal) × (f ≡ valid j)))
  JournalFile-cases missing = inl refl
  JournalFile-cases invalid = inr (inl refl)
  JournalFile-cases (valid j) = inr (inr (j, refl))

  the_missing :
      (now : ℕ) (m : UpdateManifest) (b : Bool) (d : Disk)
      → d.journal ≡ missing
      → resume u sha256 c now m b d ≡ ([], raised state_error)
  unfolding resume
  the_missing now m b d e = simp (e, resume)

  the_invalid :
      (now : ℕ) (m : UpdateManifest) (b : Bool) (d : Disk)
      → d.journal ≡ invalid
      → resume u sha256 c now m b d ≡ ([], raised state_error)
  unfolding resume
  the_invalid now m b d e = simp (e, resume)

  the_wrong :
      (now : ℕ) (m : UpdateManifest) (b : Bool) (d : Disk) (j : UpdateJournal) (f : EngineFault)
      → d.journal ≡ valid j
      → match_manifest u sha256 c j m now ≡ wrong f
      → resume u sha256 c now m b d ≡ ([], raised f)
  unfolding resume
  the_wrong now m b d j f e n = simp (e, n, resume)

  resume-Steps :
      (x y : Bool) (now : ℕ) (m : UpdateManifest) (b : Bool) (d : Disk)
      → IsSafe x y d
      → Steps x y (resume u sha256 c now m b d)
  unfolding Steps resume
  resume-Steps x y now m b d (k, g) = elim (JournalFile-cases d.journal) [
    | inl e ↦ subst (Steps x y) (sym (the_missing now m b d e)) tt
    | inr (inl e) ↦ subst (Steps x y) (sym (the_invalid now m b d e)) tt
    | inr (inr (j, e)) ↦ elim (Choice-cases (match_manifest u sha256 c j m now)) [
      | inl (f, n) ↦ subst (Steps x y) (sym (the_wrong now m b d j f e n)) tt
      | inr (a, n) ↦
          subst (Steps x y) (sym (resume-found u sha256 c now m b d j a e n))
            (resume_state-Steps j.state x y b j a d e refl (subst (IsAllowed x y) e k) g)
    ]
  ]

  perform-Steps :
      (o : Operation) (h : List Event) (d : Disk)
      → IsSafe (download_was_consented h) (install_was_consented h) d
      → Steps
          (download_was_consented (wrote o ∷ h))
          (install_was_consented (wrote o ∷ h))
          (perform o d)
  unfolding perform download_was_consented install_was_consented
  perform-Steps (prepare_op now m) h d (k, g) = prepare-Steps now m d g
  perform-Steps consent_download_op h d (k, g) = consent_download-Steps true true d g
  perform-Steps (download_op now m r) h d s = download-Steps _ (install_was_consented h) now m r d s
  perform-Steps (consent_install_op now m) h d s =
      consent_install-Steps _ (install_was_consented h) now m d s
  perform-Steps (install_op now m a b e) h d s = install-Steps _ _ now m a b e d s
  perform-Steps (resume_op now m b) h d s = resume-Steps _ _ now m b d s

  Reach-IsSafe :
      {h : List Event} {d : Disk}
      → Reach h d
      → IsSafe (download_was_consented h) (install_was_consented h) d
  unfolding Steps download_was_consented install_was_consented
  Reach-IsSafe (fresh partial_file staged_file) = (tt, tt)
  Reach-IsSafe (step {h = h} {d = d} {e = e} o r i) =
      All→at (IsSafe (download_was_consented (wrote o ∷ h)) (install_was_consented (wrote o ∷ h)))
        (perform o d).0 e (perform-Steps o h d (Reach-IsSafe r)) i
  Reach-IsSafe (stay o r) = Reach-IsSafe r

  -- After any calls of the operations from a disk without a journal, each of them completed, refused
  -- or cut short by a crash before or after any write: if the journal's state is DOWNLOAD_CONSENTED,
  -- DOWNLOADING, VERIFIED or STAGED, then a call of `consent_download` wrote to the disk, and no call
  -- of `prepare` did since; if it is INSTALL_CONSENTED, INSTALLING, HEALTH_CHECK, COMMITTED,
  -- ROLLED_BACK or MANUAL_RECOVERY, then moreover a call of `consent_install` did, and no call of
  -- `prepare`, `consent_download` or `download` did since.
  pub journal_was_consented :
      (h : List Event) (d : Disk) (j : UpdateJournal)
      → Reach h d
      → d.journal ≡ valid j
      → is_allowed (download_was_consented h) (install_was_consented h) j.state ≡ true
  journal_was_consented h d j r e =
      subst (IsAllowed (download_was_consented h) (install_was_consented h)) e (Reach-IsSafe r).0

  -- After any calls of the operations from a disk without a journal, each of them completed, refused
  -- or cut short by a crash before or after any write, each file that the installer was given had the size and the SHA-256 hash that the journal
  -- of that time records for the artifact.
  pub handed-IsGenuine : (h : List Event) (d : Disk) → Reach h d → All IsGenuine d.handed
  handed-IsGenuine h d r = (Reach-IsSafe r).1
