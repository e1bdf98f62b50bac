-- ===== src/Profiles/Calls.antt =====
-- Any sequence of calls of the profile service, and what holds of the repository after it.
use openai_free_credit_track.Base.{
  ℕ, ◌≡◌, ◌⊎◌, inl, inr, refl, ◌∙◌, Bool, true, Option, some, none, List, [], ◌∷◌, Bool-cases,
  Option-cases, All, All-append,
}
use openai_free_credit_track.Base.Text.{Text, text_eq, text_eq→eq, text_eq_refl}
use openai_free_credit_track.History.Runs.{is_profile_id}
use openai_free_credit_track.Profiles.{
  CredentialReference, Profile, Result, done, refused, not_found, make_profile, renamed,
  with_enabled, with_credential, with_organization_ref, validated_at,
}
use openai_free_credit_track.Profiles.Repository.{
  credential_owner, find, get, add, is_other, save, delete,
}
use openai_free_credit_track.Profiles.Service.{
  Outcome, stored, save_changed, changed, create, rename, set_enabled, replace_credential,
  set_organization_ref, mark_validated, credential_for,
}
use openai_free_credit_track.Profiles.Stripping.{make_profile-done}
use openai_free_credit_track.Profiles.Sound.{
  AllApart, find-none, find-All, credential_owner-none, credential_owner-NotShared, All-put,
  put-AllApart, append-AllApart, All-remove, remove-AllApart,
}

-- The repository after a call, which an error leaves as it was.
abbrev pub resulting : List Profile → Outcome → List Profile
resulting repo (refused f) = repo
resulting repo (done (p, after)) = after

-- The calls of the service that change the repository, with their arguments.
pub data Call : Type 0 where
  create_call : Text → CredentialReference → Option Text → Bool → ℕ → Call
  rename_call : Text → Text → Call
  set_enabled_call : Text → Bool → Call
  replace_credential_call : Text → CredentialReference → Call
  set_organization_ref_call : Text → Option Text → Call
  mark_validated_call : Text → ℕ → Call
  delete_call : Text → Call

module _ (is_space : ℕ → Bool) where
  -- The profile is as `__post_init__` leaves it, and its credential is its own.
  abbrev pub Good : Profile → Type 0
  Good p =
      (make_profile is_space p ≡ done p) × (text_eq p.credential_ref.account_id p.profile_id ≡ true)

  abbrev pub IsSound : List Profile → Type 0
  IsSound repo = AllApart repo × All Good repo

  made-Good : (p q : Profile) → make_profile is_space p ≡ done q → Good q
  made-Good p q h = let (again, same, ref, own) = make_profile-done is_space p q h in (again, own)

  add-IsSound :
      (p : Profile) (repo : List Profile)
      → Good p
      → IsSound repo
      → IsSound (resulting repo (stored p (add p repo)))
  unfolding add
  add-IsSound p repo good (h, k) = elim (Option-cases (find p.profile_id repo)) [
    | inr (q, e) ↦ rw (e, add) (h, k)
    | inl e ↦ elim (Option-cases (credential_owner p.credential_ref.credential_id repo)) [
      | inr (q, f) ↦ rw (e, f, add) (h, k)
      | inl f ↦
          rw (e, f, add)
            (
              append-AllApart p repo h (find-none _ repo e) (credential_owner-none _ repo f),
              All-append Good repo (p ∷ []) k (good, tt),
            )
    ]
  ]

  save-IsSound :
      (p : Profile) (repo : List Profile)
      → Good p
      → IsSound repo
      → IsSound (resulting repo (stored p (save p repo)))
  unfolding save
  save-IsSound p repo good (h, k) = elim (Option-cases (find p.profile_id repo)) [
    | inl e ↦ rw (e, save) (h, k)
    | inr (q, e) ↦
        elim (Bool-cases
          (is_other p.profile_id (credential_owner p.credential_ref.credential_id repo))) [
            | inl f ↦ rw (e, f, save) (h, k)
            | inr f ↦
                rw (e, f, save)
                  (
                    put-AllApart p repo h (credential_owner-NotShared _ _ repo h f),
                    All-put Good p repo good k,
                  )
          ]
  ]

  save_changed-IsSound :
      (r : Result Profile) (repo : List Profile)
      → ((q : Profile) → r ≡ done q → Good q)
      → IsSound repo
      → IsSound (resulting repo (save_changed r repo))
  unfolding save_changed
  save_changed-IsSound (refused f) repo good h = h
  save_changed-IsSound (done p) repo good h = save-IsSound p repo (good p refl) h

  -- What every change of a profile does last: make it again.
  abbrev Makes : (Profile → Result Profile) → Type 0
  Makes f = (p q : Profile) → f p ≡ done q → Good q

  changed-Good :
      (f : Profile → Result Profile) (o : Result Profile)
      → Makes f
      → (q : Profile) → changed f o ≡ done q
      → Good q
  changed-Good f (refused e) h q k = absurd cc
  changed-Good f (done p) h q k = h p q k

  update-IsSound :
      (f : Profile → Result Profile) (i : Text) (repo : List Profile)
      → Makes f
      → IsSound repo
      → IsSound (resulting repo (save_changed (changed f (get i repo)) repo))
  update-IsSound f i repo h k =
      save_changed-IsSound (changed f (get i repo)) repo (changed-Good f (get i repo) h) k

  create-IsSound :
      (name : Text) (r : CredentialReference) (o : Option Text) (on : Bool) (now : ℕ)
      (repo : List Profile)
      → IsSound repo
      → IsSound (resulting repo (create is_space name r o on now repo))
  unfolding create
  create-IsSound name r o on now repo h = elim (Bool-cases (is_profile_id r.account_id)) [
    | inr bad ↦ rw (bad, create) h
    | inl good ↦ rw (good, create) (made (make_profile is_space p) refl)
  ]
    where
      p : Profile
      p = record {
        profile_id = r.account_id;
        display_name = name;
        credential_ref = r;
        organization_ref = o;
        enabled = on;
        created_at = now;
        last_validated_at = none;
      }

      made :
          (m : Result Profile)
          → make_profile is_space p ≡ m
          → IsSound
              (resulting repo (elim m [ refused f ↦ refused f | done q ↦ stored q (add q repo) ]))
      made (refused f) e = h
      made (done q) e = add-IsSound q repo (made-Good p q e) h

  delete-IsSound :
      (i : Text) (repo : List Profile) → IsSound repo → IsSound (resulting repo (delete i repo))
  unfolding delete
  delete-IsSound i repo (h, k) = elim (Option-cases (find i repo)) [
    | inl e ↦ rw (e, delete) (h, k)
    | inr (p, e) ↦ rw (e, delete) (remove-AllApart i repo h, All-remove Good i repo k)
  ]

  unfoldable pub run : Call → List Profile → Outcome
  run (create_call name r o on now) repo = create is_space name r o on now repo
  run (rename_call i name) repo = rename is_space i name repo
  run (set_enabled_call i on) repo = set_enabled is_space i on repo
  run (replace_credential_call i r) repo = replace_credential is_space i r repo
  run (set_organization_ref_call i o) repo = set_organization_ref is_space i o repo
  run (mark_validated_call i at) repo = mark_validated is_space i at repo
  run (delete_call i) repo = delete i repo

  unfoldable pub run_all : List Call → List Profile → List Profile
  run_all [] repo = repo
  run_all (c ∷ cs) repo = run_all cs (resulting repo (run c repo))

  run-IsSound :
      (c : Call) (repo : List Profile) → IsSound repo → IsSound (resulting repo (run c repo))
  unfolding run rename set_enabled replace_credential set_organization_ref mark_validated renamed
      with_enabled with_credential with_organization_ref validated_at
  run-IsSound (create_call name r o on now) repo h = create-IsSound name r o on now repo h
  run-IsSound (rename_call i name) repo h =
      update-IsSound (renamed is_space name) i repo (λ p q. made-Good _ q) h
  run-IsSound (set_enabled_call i on) repo h =
      update-IsSound (with_enabled is_space on) i repo (λ p q. made-Good _ q) h
  run-IsSound (replace_credential_call i r) repo h = elim (Bool-cases (text_eq r.account_id i)) [
    | inl own ↦ rw own (update-IsSound (with_credential is_space r) i repo (λ p q. made-Good _ q) h)
    | inr other ↦ rw other h
  ]
  run-IsSound (set_organization_ref_call i o) repo h =
      update-IsSound (with_organization_ref is_space o) i repo (λ p q. made-Good _ q) h
  run-IsSound (mark_validated_call i at) repo h =
      update-IsSound (validated_at is_space at) i repo (λ p q. made-Good _ q) h
  run-IsSound (delete_call i) repo h = delete-IsSound i repo h

  -- Whatever calls of the profile service are made on a sound repository, those that fail included,
  -- the repository after them is sound: no two profiles have the same identifier or the same
  -- credential, and every profile belongs to its own account and is as its constructor would make
  -- it again (stripped name of 1 to 80 characters, no API key in place of the organization, not
  -- validated before it was created).
  pub run_all-IsSound :
      (cs : List Call) (repo : List Profile) → IsSound repo → IsSound (run_all cs repo)
  unfolding run_all
  run_all-IsSound [] repo h = h
  run_all-IsSound (c ∷ cs) repo h =
      run_all-IsSound cs (resulting repo (run c repo)) (run-IsSound c repo h)

  -- The credential of a profile in a sound repository is given to the profile that is asked for,
  -- and it is a credential of that account: the isolation error is never raised, and the only
  -- failure is that there is no such profile.
  pub credential_for-own :
      (i : Text) (repo : List Profile)
      → IsSound repo
      → ((find i repo ≡ none) × (credential_for i repo ≡ refused not_found))
        ⊎ ((p : Profile) × (find i repo ≡ some p)
            × (credential_for i repo ≡ done p.credential_ref)
            × (p.credential_ref.account_id ≡ i))
  unfolding credential_for get
  credential_for-own i repo (h, k) = elim (Option-cases (find i repo)) [
    | inl e ↦ inl (e, rw (e, get, credential_for) refl)
    | inr (p, e) ↦
        let ((good, own), same) = find-All Good i repo p k e in
        let account = text_eq→eq _ _ own ∙ text_eq→eq _ _ same in
        inr (p, e, rw (e, get, account, text_eq_refl i, credential_for) refl, account)
  ]
