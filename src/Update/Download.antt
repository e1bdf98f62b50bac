-- ===== src/Update/Download.antt =====
-- The reading of an artifact in chunks: `verify_artifact_stream` of src/quota_monitor/update_manifest.py
-- and `HttpsArtifactDownloader.download` of update_engine.py. A stream is the list of what its reads
-- return; the loop ends at an empty chunk, or at the end of the list. The hash of the chunks that a
-- digest was given is the hash of their concatenation.
use openai_free_credit_track.Base.{
  ℕ, ◌+◌, ◌≡◌, ◌≤◌, inl, inr, refl, Bool, true, false, Option, some, none, List, [], ◌∷◌, ◌++◌,
  append_assoc, append-nil, length, length-append, ◌&&◌, not, ltb, leb, ◌==◌, arith, if◌then◌else◌,
  Bool-cases, is_empty, subst, sym, ap, ◌∙◌,
}
use openai_free_credit_track.Base.Text.{Text, text_eq, text_eq→eq}
use openai_free_credit_track.Update.{ArtifactDescriptor, is_verified, lower}

-- The loop: the bytes that were read, or `none` when they get more than the size.
unfoldable pub read_chunks : ℕ → Text → List Text → Option Text
read_chunks size content [] = some content
read_chunks size content (chunk ∷ chunks) =
    let rest = read_chunks size (content ++ chunk) chunks in
    if is_empty chunk
    then some content
    else if ltb size (length (content ++ chunk))
    then none
    else rest

-- The bytes up to the first empty chunk.
unfoldable pub joined : List Text → Text
joined [] = []
joined (chunk ∷ chunks) = let rest = joined chunks in if is_empty chunk then [] else chunk ++ rest

unfoldable pub verify_artifact_stream : (Text → Text) → ArtifactDescriptor → List Text → Bool
verify_artifact_stream sha256 a chunks = elim (read_chunks a.size [] chunks) [
  | none ↦ false
  | some content ↦ (length content == a.size) && text_eq (sha256 content) (lower a.sha256)
]

-- The `Content-Length` of a response.
pub data Announced : Type 0 where
  absent no_number : Announced
  announced : ℕ → Announced

-- The opened URL: whether the URL at its end is allowed, its length, and what its reads return.
pub data Response : Type 0 where
  failed : Response
  opened : Bool → Announced → List Text → Response

pub data Downloaded : Type 0 where
  saved : Text → Downloaded
  url_error disk_error download_error : Downloaded

abbrev is_announced : ℕ → Announced → Bool
is_announced size absent = true
is_announced size no_number = false
is_announced size (announced n) = n == size

abbrev check_content : (Text → Text) → ArtifactDescriptor → Option Text → Downloaded
check_content sha256 a none = download_error
check_content sha256 a (some content) =
    if (length content == a.size) && text_eq (sha256 content) a.sha256
    then saved content
    else download_error

-- `download`, with the verdict on the artifact's URL, the free bytes of the disk, whether the
-- destination exists, and the response.
unfoldable pub download_file :
    (Text → Text) → ℕ → ArtifactDescriptor → Bool → ℕ → Bool → Response → Downloaded
download_file sha256 reserve a url_ok free exists failed =
    if not url_ok
    then url_error
    else if ltb free (a.size + reserve)
    then disk_error
    else download_error
download_file sha256 reserve a url_ok free exists (opened end_ok size chunks) =
    if not url_ok
    then url_error
    else if ltb free (a.size + reserve)
    then disk_error
    else if not end_ok
    then url_error
    else if not (is_announced a.size size)
    then download_error
    else if exists
    then download_error
    else check_content sha256 a (read_chunks a.size [] chunks)

read_short :
    (size : ℕ) (content : Text) (chunks : List Text)
    → length (content ++ joined chunks) ≤ size
    → read_chunks size content chunks ≡ some (content ++ joined chunks)
unfolding read_chunks joined
read_short size content [] h = rw (append-nil content) refl
read_short size content ([] ∷ chunks) h = rw (append-nil content) refl
read_short size content ((c ∷ chunk) ∷ chunks) h =
    let more = length-append (content ++ (c ∷ chunk)) (joined chunks) in
    let assoc = append_assoc content (c ∷ chunk) (joined chunks) in
    let short = subst (λ (t : Text). length t ≤ size) (sym assoc) h in
    let bound : ltb size (length (content ++ (c ∷ chunk))) ≡ false = ground (arith, more, short) in
    rw bound (read_short size (content ++ (c ∷ chunk)) chunks short ∙ ap some assoc)

too_long :
    (size : ℕ) (content : Text)
    → length content ≤ size
    → size + 1 ≤ length (content ++ [])
    → false ≡ true
too_long size content l h =
    let long = subst (λ (t : Text). size + 1 ≤ length t) (append-nil content) h in
    absurd (omega (arith, long))

read_long :
    (size : ℕ) (content : Text) (chunks : List Text)
    → length content ≤ size
    → size + 1 ≤ length (content ++ joined chunks)
    → read_chunks size content chunks ≡ none
unfolding read_chunks joined
read_long size content [] l h = absurd (let no = too_long size content l h in cc)
read_long size content ([] ∷ chunks) l h = absurd (let no = too_long size content l h in cc)
read_long size content ((c ∷ chunk) ∷ chunks) l h =
    let assoc = append_assoc content (c ∷ chunk) (joined chunks) in
    let long = subst (λ (t : Text). size + 1 ≤ length t) (sym assoc) h in
    elim (Bool-cases (ltb size (length (content ++ (c ∷ chunk))))) [
      | inl stops ↦ rw stops refl
      | inr goes_on ↦
          rw goes_on (read_long size (content ++ (c ∷ chunk)) chunks (ground arith) long)
    ]

too_big : (size n : ℕ) (b : Bool) → size + 1 ≤ n → (n == size) && b ≡ false
too_big size n b h = ground arith

-- The early end of the loop on a stream that is too long does not change the verdict: it is that on
-- the bytes up to the first empty read, taken at once, however they are cut into chunks.
pub verify_artifact_stream-joined :
    (sha256 : Text → Text) (a : ArtifactDescriptor) (chunks : List Text)
    → verify_artifact_stream sha256 a chunks ≡ is_verified sha256 a (joined chunks)
unfolding verify_artifact_stream is_verified
verify_artifact_stream-joined sha256 a chunks =
    elim (Bool-cases (leb (length (joined chunks)) a.size)) [
      | inl short ↦
          let all_read = read_short a.size [] chunks (ground arith) in
          rw (all_read, verify_artifact_stream) refl
      | inr long ↦
          let stopped = read_long a.size [] chunks (omega arith) (ground arith) in
          let no =
            too_big a.size (length (joined chunks))
              (text_eq (sha256 (joined chunks)) (lower a.sha256)) (ground arith) in
          rw (stopped, no, verify_artifact_stream) refl
    ]

checked :
    (sha256 : Text → Text) (a : ArtifactDescriptor) (o : Option Text) (content : Text)
    → check_content sha256 a o ≡ saved content
    → (o ≡ some content) × (length content ≡ a.size) × (sha256 content ≡ a.sha256)
checked sha256 a none content h = absurd cc
checked sha256 a (some read) content h =
    elim (Bool-cases ((length read == a.size) && text_eq (sha256 read) a.sha256)) [
      | inl good ↦
          let same = rw good at h in
          let e : read ≡ content = cc in
          let hash : text_eq (sha256 read) a.sha256 ≡ true = ground arith in
          let long : length read ≡ a.size = ground arith in
          let digest = text_eq→eq _ _ hash in
          (
            ap some e,
            subst (λ (t : Text). length t ≡ a.size) e long,
            subst (λ t. sha256 t ≡ a.sha256) e digest,
          )
      | inr bad ↦ absurd (let no = rw bad at h in cc)
    ]

guards :
    (a : ArtifactDescriptor) (exists end_ok : Bool) (size : Announced) (r : Downloaded)
    (content : Text)
    → (if not end_ok
        then url_error
        else if not (is_announced a.size size)
        then download_error
        else if exists
        then download_error
        else r)
      ≡ saved content
    → (end_ok ≡ true) × (exists ≡ false) × (r ≡ saved content)
guards a exists false size r content h = absurd cc
guards a true true size r content h = elim (Bool-cases (is_announced a.size size)) [
  | inl same ↦ absurd (let no = rw same at h in cc)
  | inr other ↦ absurd (let no = rw other at h in cc)
]
guards a false true size r content h = elim (Bool-cases (is_announced a.size size)) [
  | inl same ↦ (refl, refl, rw same at h)
  | inr other ↦ absurd (let no = rw other at h in cc)
]

-- A file is saved only if the URLs are allowed, the disk has room for the artifact and the reserve,
-- the destination is new, and the bytes have the size and the hash of the descriptor.
pub download_file-saved :
    (sha256 : Text → Text) (reserve : ℕ) (a : ArtifactDescriptor) (url_ok : Bool) (free : ℕ)
    (exists : Bool) (end_ok : Bool) (size : Announced) (chunks : List Text) (content : Text)
    → download_file sha256 reserve a url_ok free exists (opened end_ok size chunks) ≡ saved content
    → (url_ok ≡ true)
      × (a.size + reserve ≤ free)
      × (end_ok ≡ true)
      × (exists ≡ false)
      × (length content ≡ a.size)
      × (sha256 content ≡ a.sha256)
unfolding download_file
download_file-saved sha256 reserve a false free exists end_ok size chunks content h = absurd cc
download_file-saved sha256 reserve a true free exists end_ok size chunks content h =
    elim (Bool-cases (ltb free (a.size + reserve))) [
      | inl full ↦ absurd (let no = rw full at h in cc)
      | inr room ↦
          let (e, n, k) = guards a exists end_ok size _ content (rw room at h) in
          let (read, long, digest) = checked sha256 a _ content k in
          (refl, ground arith, e, n, long, digest)
    ]
