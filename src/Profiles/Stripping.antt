-- ===== src/Profiles/Stripping.antt =====
-- Stripping twice is stripping once, so that a validated profile is as `replace` would make it again.
use openai_free_credit_track.Base.{
  ℕ, ◌≡◌, inl, inr, refl, ap, ◌∙◌, subst, Bool, true, false, Option, some, none, [], ◌∷◌, ◌&&◌,
  ◌||◌, ltb, ◌==◌, arith, is_empty, length, any, Bool-cases, Option-cases,
}
use openai_free_credit_track.Base.Text.{Text, text_eq}
use openai_free_credit_track.Profiles.{
  Profile, done, is_api_key, lstrip, rstrip, strip, validate_text, validate_organization, is_after,
  make_profile,
}

done_inj : {A : Type 0} {a b : A} → done a ≡ done b → a ≡ b
done_inj h = cc

some_inj : {A : Type 0} {a b : A} → some a ≡ some b → a ≡ b
some_inj h = cc

module _ (is_space : ℕ → Bool) where
  rstrip-rstrip : (s : Text) → rstrip is_space (rstrip is_space s) ≡ rstrip is_space s
  unfolding rstrip
  rstrip-rstrip [] = refl
  rstrip-rstrip (c ∷ s) = elim (Bool-cases (is_empty (rstrip is_space s) && is_space c)) [
    | inl gone ↦ rw gone refl
    | inr kept ↦ rw kept (rw (rstrip-rstrip s) (rw kept refl))
  ]

  -- The text does not begin with white space.
  abbrev IsLeft : Text → Type 0
  IsLeft [] = Unit
  IsLeft (c ∷ s) = is_space c ≡ false

  lstrip-IsLeft : (s : Text) → IsLeft (lstrip is_space s)
  unfolding lstrip
  lstrip-IsLeft [] = tt
  lstrip-IsLeft (c ∷ s) = elim (Bool-cases (is_space c)) [
    | inl blank ↦ rw blank (lstrip-IsLeft s)
    | inr kept ↦ rw kept kept
  ]

  IsLeft-lstrip : (s : Text) → IsLeft s → lstrip is_space s ≡ s
  unfolding lstrip
  IsLeft-lstrip [] h = refl
  IsLeft-lstrip (c ∷ s) h = rw h refl

  rstrip-IsLeft : (s : Text) → IsLeft s → IsLeft (rstrip is_space s)
  unfolding rstrip
  rstrip-IsLeft [] h = tt
  rstrip-IsLeft (c ∷ s) h =
      let kept : is_empty (rstrip is_space s) && is_space c ≡ false = ground arith in rw kept h

  strip-strip : (s : Text) → strip is_space (strip is_space s) ≡ strip is_space s
  unfolding strip
  strip-strip s =
      ap (rstrip is_space) (IsLeft-lstrip _ (rstrip-IsLeft _ (lstrip-IsLeft s)))
      ∙ rstrip-rstrip (lstrip is_space s)

  validate_text_again :
      (n : ℕ) (t c : Text)
      → validate_text is_space n t ≡ some c
      → validate_text is_space n c ≡ some c
  unfolding validate_text
  validate_text_again n t c h =
      elim (Bool-cases (
        is_empty (strip is_space t)
        || ltb n (length (strip is_space t))
        || any (λ d. ltb d 32 || (d == 127)) (strip is_space t))) [
          | inl bad ↦ absurd (let no_text = rw bad at h in cc)
          | inr good ↦
              let cleaned = some_inj (rw good at h) in
              let same = strip-strip t in
              subst (λ x. validate_text is_space n x ≡ some x) cleaned
                (rw (same, good, validate_text) refl)
        ]

  validate_organization_again :
      (t c : Option Text)
      → validate_organization is_space t ≡ some c
      → validate_organization is_space c ≡ some c
  unfolding validate_organization
  validate_organization_again none c h =
      subst (λ x. validate_organization is_space x ≡ some x) (some_inj h) refl
  validate_organization_again (some t) c h = elim (Option-cases (validate_text is_space 200 t)) [
    | inl bad ↦ absurd (let no_text = rw (bad, validate_organization) at h in cc)
    | inr (cleaned, good) ↦ elim (Bool-cases (is_api_key cleaned)) [
      | inl key ↦ absurd (let no_text = rw (good, key, validate_organization) at h in cc)
      | inr safe ↦
          let same = some_inj (rw (good, safe, validate_organization) at h) in
          subst (λ x. validate_organization is_space x ≡ some x) same
            (rw (validate_text_again 200 t cleaned good, safe, validate_organization) refl)
    ]
  ]

  -- What a profile that was made has.
  pub make_profile-done :
      (p q : Profile)
      → make_profile is_space p ≡ done q
      → (make_profile is_space q ≡ done q)
        × (q.profile_id ≡ p.profile_id)
        × (q.credential_ref ≡ p.credential_ref)
        × (text_eq q.credential_ref.account_id q.profile_id ≡ true)
  unfolding make_profile
  make_profile-done p q h = elim (Bool-cases (text_eq p.credential_ref.account_id p.profile_id)) [
    | inr other ↦ absurd (let no_profile = rw (other, make_profile) at h in cc)
    | inl own ↦ elim (Option-cases (validate_text is_space 80 p.display_name)) [
      | inl bad ↦ absurd (let no_profile = rw (own, bad, make_profile) at h in cc)
      | inr (name, e) ↦ elim (Option-cases (validate_organization is_space p.organization_ref)) [
        | inl bad ↦ absurd (let no_profile = rw (own, e, bad, make_profile) at h in cc)
        | inr (organization, f) ↦ elim (Bool-cases (is_after p.created_at p.last_validated_at)) [
          | inr early ↦ absurd (let no_profile = rw (own, e, f, early, make_profile) at h in cc)
          | inl later ↦
              let same = done_inj (rw (own, e, f, later, make_profile) at h) in
              subst
                (λ (x : Profile).
                  (make_profile is_space x ≡ done x)
                  × (x.profile_id ≡ p.profile_id)
                  × (x.credential_ref ≡ p.credential_ref)
                  × (text_eq x.credential_ref.account_id x.profile_id ≡ true))
                same
                (
                  rw
                      (
                        own,
                        validate_text_again 80 p.display_name name e,
                        validate_organization_again p.organization_ref organization f,
                        later,
                        make_profile,
                      )
                      refl,
                  refl,
                  refl,
                  own,
                )
        ]
      ]
    ]
  ]
