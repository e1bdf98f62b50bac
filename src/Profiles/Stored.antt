-- ===== src/Profiles/Stored.antt =====
-- The rows that the repository over the database writes are read as the profiles that were written.
use openai_free_credit_track.Base.{
  ℕ, ◌*◌, ◌≡◌, inl, inr, refl, subst, Bool, true, false, Option, some, none, List, [], ◌∷◌, arith,
  Bool-cases, Option-cases, All-append,
}
use openai_free_credit_track.Base.Text.{Text, text_eq, text_eq_refl, text_eq→eq}
use openai_free_credit_track.History.Runs.{is_profile_id}
use openai_free_credit_track.Profiles.Stripping.{make_profile-done}
use openai_free_credit_track.Profiles.{
  Profile, Result, done, refused, make_profile, is_after, validate_text, validate_organization,
  is_reference,
}
use openai_free_credit_track.Profiles.Sqlite as Sqlite
use openai_free_credit_track.Profiles.Sqlite.{
  ProfileRow, row_of, profile_of, utc_text, utc_text_or_none, parse_utc_or_none,
}
use openai_free_credit_track.Profiles.Commands.{
  Command, add_command, save_command, get_command, delete_command, list_command, written, taken,
}
use openai_free_credit_track.Profiles.Refines.{whole, IsStored}

module _ (is_space : ℕ → Bool) where
  -- What the constructors of the identifier, the reference and the profile accept.
  abbrev pub IsValid : Profile → Type 0
  IsValid p =
      (make_profile is_space p ≡ done p)
      × (is_profile_id p.profile_id ≡ true)
      × (is_reference is_space p.credential_ref ≡ true)

  -- The profiles that are written are valid.
  abbrev pub IsMade : Command → Type 0
  IsMade (add_command p) = IsValid p
  IsMade (save_command p) = IsValid p
  IsMade (get_command i) = Unit
  IsMade (delete_command i) = Unit
  IsMade list_command = Unit

  is_after_whole :
      (t : ℕ) (o : Option ℕ)
      → is_after t o ≡ true
      → is_after (utc_text t * 1000000) (parse_utc_or_none (utc_text_or_none o)) ≡ true
  unfolding utc_text
  is_after_whole t none h = refl
  is_after_whole t (some u) h = ground arith

  made_whole :
      (p : Profile)
      → make_profile is_space p ≡ done p
      → make_profile is_space (whole p) ≡ done (whole p)
  unfolding make_profile
  made_whole p h = elim (Bool-cases (text_eq p.credential_ref.account_id p.profile_id)) [
    | inr other ↦ absurd (let no_profile = rw (other, make_profile) at h in cc)
    | inl own ↦ elim (Option-cases (validate_text is_space 80 p.display_name)) [
      | inl bad ↦ absurd (let no_profile = rw (own, bad, make_profile) at h in cc)
      | inr (name, e) ↦ elim (Option-cases (validate_organization is_space p.organization_ref)) [
        | inl bad ↦ absurd (let no_profile = rw (own, e, bad, make_profile) at h in cc)
        | inr (organization, f) ↦ elim (Bool-cases (is_after p.created_at p.last_validated_at)) [
          | inr early ↦ absurd (let no_profile = rw (own, e, f, early, make_profile) at h in cc)
          | inl later ↦
              let made = rw (own, e, f, later, make_profile) at h in
              let same_name : name ≡ p.display_name = cc in
              let same_organization : organization ≡ p.organization_ref = cc in
              let self = text_eq_refl p.profile_id in
              let again = is_after_whole p.created_at p.last_validated_at later in
              rw (self, e, f, again, make_profile) (rw (same_name, same_organization) refl)
        ]
      ]
    ]
  ]

  abbrev pub Row : ProfileRow → Type 0
  Row x = Sqlite.from_row is_space x ≡ done (profile_of x)

  pub valid-Row : (p : Profile) → IsValid p → Row (row_of p)
  unfolding Sqlite.from_row
  valid-Row p (made, identifier, reference) =
      let (again, same_id, same_ref, own) = make_profile-done is_space p p made in
      let account = text_eq→eq _ _ own in
      let refers : is_reference is_space (whole p).credential_ref ≡ true =
        subst
          (λ a.
            is_reference is_space
              (record { credential_id = p.credential_ref.credential_id; account_id = a })
            ≡ true)
          account reference in
      rw (identifier, refers, Sqlite.from_row) (made_whole p made)

  update-IsStored :
      (p : Profile) (rows : List ProfileRow)
      → Row (row_of p)
      → IsStored is_space rows
      → IsStored is_space (Sqlite.update p rows)
  unfolding Sqlite.update
  update-IsStored p [] made h = tt
  update-IsStored p (x ∷ xs) made (good, h) =
      elim (Bool-cases (text_eq x.profile_id p.profile_id)) [
        | inl same ↦ rw same (made, h)
        | inr other ↦ rw other (good, update-IsStored p xs made h)
      ]

  remove-IsStored :
      (i : Text) (rows : List ProfileRow)
      → IsStored is_space rows
      → IsStored is_space (Sqlite.remove_row i rows)
  unfolding Sqlite.remove_row
  remove-IsStored i [] h = tt
  remove-IsStored i (x ∷ xs) (good, h) = elim (Bool-cases (text_eq x.profile_id i)) [
    | inl same ↦ rw same h
    | inr other ↦ rw other (good, remove-IsStored i xs h)
  ]

  -- What a write leaves: the same answer as the write in memory, and stored rows.
  abbrev pub Agrees : List ProfileRow → Result (List ProfileRow) → Type 0
  Agrees rows r = IsStored is_space (written rows r).1

  pub add-IsStored :
      (p : Profile) (rows : List ProfileRow)
      → Row (row_of p)
      → IsStored is_space rows
      → Agrees rows (Sqlite.add p rows)
  unfolding Sqlite.add
  add-IsStored p rows made h = elim (Option-cases (Sqlite.find_row p.profile_id rows)) [
    | inr (x, e) ↦ rw (e, Sqlite.add) h
    | inl e ↦ elim (Option-cases (Sqlite.holder p.credential_ref.credential_id rows)) [
      | inr (q, f) ↦ rw (e, f, Sqlite.add) h
      | inl f ↦ rw (e, f, Sqlite.add) (All-append Row rows (row_of p ∷ []) h (made, tt))
    ]
  ]

  pub save-IsStored :
      (p : Profile) (rows : List ProfileRow)
      → Row (row_of p)
      → IsStored is_space rows
      → Agrees rows (Sqlite.save p rows)
  unfolding Sqlite.save
  save-IsStored p rows made h = elim (Option-cases (Sqlite.find_row p.profile_id rows)) [
    | inl e ↦ rw (e, Sqlite.save) h
    | inr (x, e) ↦
        elim (Bool-cases (
          Sqlite.is_held_by_other p.profile_id
            (Sqlite.holder p.credential_ref.credential_id rows))) [
              | inl f ↦ rw (e, f, Sqlite.save) h
              | inr f ↦ rw (e, f, Sqlite.save) (update-IsStored p rows made h)
            ]
  ]

  pub delete-IsStored :
      (i : Text) (rows : List ProfileRow)
      → IsStored is_space rows
      → IsStored is_space (taken rows (Sqlite.delete is_space false i rows)).1
  unfolding Sqlite.delete
  delete-IsStored i rows h = gone (Sqlite.get is_space i rows)
    where
      gone :
          (r : Result Profile)
          → IsStored is_space (taken rows (Sqlite.deleted is_space false i rows r)).1
      gone (refused e) = h
      gone (done p) = remove-IsStored i rows h
