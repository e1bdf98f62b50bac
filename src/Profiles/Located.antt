-- ===== src/Profiles/Located.antt =====
-- Which profile is found after a call of the profile service.
use openai_free_credit_track.Base.{
  ℕ, ◌≡◌, inl, inr, refl, sym, ap, ◌∙◌, subst, Bool, true, false, Option, some, none, List, [], ◌∷◌,
  ◌++◌, if◌then◌else◌, Bool-cases, Option-cases, All,
}
use openai_free_credit_track.Base.Text.{Text, text_eq, text_eq→eq, text_eq_refl}
use openai_free_credit_track.History.Runs.{is_profile_id}
use openai_free_credit_track.Profiles.{CredentialReference, Profile, Result, done, refused}
use openai_free_credit_track.Profiles.Repository.{
  credential_owner, find, add, is_other, put, save, remove, delete,
}
use openai_free_credit_track.Profiles.Service.{
  Outcome, stored, save_changed, create, rename, set_enabled, replace_credential,
  set_organization_ref, mark_validated,
}
use openai_free_credit_track.Profiles.Sound.{AllApart, text_eq_sym, text_eq_cong, find-All}
use openai_free_credit_track.Profiles.Calls.{
  Call, create_call, rename_call, set_enabled_call, replace_credential_call,
  set_organization_ref_call, mark_validated_call, delete_call, IsSound, run,
}

All-refl : (xs : List Profile) → All (λ (y : Profile). y ≡ y) xs
All-refl [] = tt
All-refl (x ∷ xs) = (refl, All-refl xs)

-- This profile is found under its identifier, and any other identifier gives what it gave.
abbrev Found : Option Profile → List Profile → Profile → List Profile → Type 0
Found o repo p after =
    (find p.profile_id after ≡ o)
    × ((j : Text) → text_eq p.profile_id j ≡ false → find j after ≡ find j repo)

find-append :
    (p : Profile) (xs : List Profile)
    → find p.profile_id xs ≡ none
    → Found (some p) xs p (xs ++ (p ∷ []))
unfolding find
find-append p [] h = (rw (text_eq_refl p.profile_id) refl, λ j other. rw other refl)
find-append p (x ∷ xs) h = elim (Bool-cases (text_eq x.profile_id p.profile_id)) [
  | inl same ↦ absurd (let bad = rw same at h in cc)
  | inr different ↦
      let (here, others) = find-append p xs (rw different at h) in
      (
        rw different here,
        λ j other. ap (λ o. if text_eq x.profile_id j then some x else o) (others j other),
      )
]

find-put :
    (p q : Profile) (xs : List Profile)
    → find p.profile_id xs ≡ some q
    → Found (some p) xs p (put p xs)
unfolding find put
find-put p q [] h = absurd cc
find-put p q (x ∷ xs) h = elim (Bool-cases (text_eq x.profile_id p.profile_id)) [
  | inl same ↦ rw same (
    rw (text_eq_refl p.profile_id) refl,
    λ j other.
        let old = text_eq_cong x.profile_id p.profile_id j same ∙ other in rw (other, old) refl,
  )
  | inr different ↦
      let (here, others) = find-put p q xs (rw different at h) in
      rw different (
        rw different here,
        λ j other. ap (λ o. if text_eq x.profile_id j then some x else o) (others j other),
      )
]

apart-find :
    (i : Text) (x : Profile) (xs : List Profile)
    → text_eq x.profile_id i ≡ true
    → AllApart (x ∷ xs)
    → find i xs ≡ none
unfolding find
apart-find i x [] same h = refl
apart-find i x (y ∷ ys) same (((a, b), h), (c, k)) =
    let other : text_eq y.profile_id i ≡ false =
      text_eq_sym _ _ ∙ sym (text_eq_cong _ _ _ same) ∙ text_eq_sym _ _ ∙ a in
    rw other (apart-find i x ys same (h, k))

find-remove :
    (p : Profile) (xs : List Profile)
    → AllApart xs
    → find p.profile_id xs ≡ some p
    → Found none xs p (remove p.profile_id xs)
unfolding find remove
find-remove p [] h e = absurd cc
find-remove p (x ∷ xs) (a, h) e = elim (Bool-cases (text_eq x.profile_id p.profile_id)) [
  | inl same ↦ rw same (
    apart-find p.profile_id x xs same (a, h),
    λ j other. let old = text_eq_cong x.profile_id p.profile_id j same ∙ other in rw old refl,
  )
  | inr different ↦
      let (here, others) = find-remove p xs h (rw different at e) in
      rw different (
        rw different here,
        λ j other. ap (λ o. if text_eq x.profile_id j then some x else o) (others j other),
      )
]

-- What an outcome says, when there is one: the profile found afterwards, and no other touched.
abbrev Located : Bool → List Profile → Outcome → Type 0
Located deleted repo (refused f) = Unit
Located deleted repo (done (p, after)) = Found (if deleted then none else some p) repo p after

add-Located : (p : Profile) (repo : List Profile) → Located false repo (stored p (add p repo))
unfolding add
add-Located p repo = elim (Option-cases (find p.profile_id repo)) [
  | inr (q, e) ↦ rw (e, add) tt
  | inl e ↦ elim (Option-cases (credential_owner p.credential_ref.credential_id repo)) [
    | inr (q, f) ↦ rw (e, f, add) tt
    | inl f ↦ rw (e, f, add) (find-append p repo e)
  ]
]

save-Located : (p : Profile) (repo : List Profile) → Located false repo (stored p (save p repo))
unfolding save
save-Located p repo = elim (Option-cases (find p.profile_id repo)) [
  | inl e ↦ rw (e, save) tt
  | inr (q, e) ↦
      elim (Bool-cases
        (is_other p.profile_id (credential_owner p.credential_ref.credential_id repo))) [
          | inl f ↦ rw (e, f, save) tt
          | inr f ↦ rw (e, f, save) (find-put p q repo e)
        ]
]

save_changed-Located :
    (r : Result Profile) (repo : List Profile) → Located false repo (save_changed r repo)
unfolding save_changed
save_changed-Located (refused f) repo = tt
save_changed-Located (done p) repo = save-Located p repo

delete-Located :
    (i : Text) (repo : List Profile) → AllApart repo → Located true repo (delete i repo)
unfolding delete
delete-Located i repo h = elim (Option-cases (find i repo)) [
  | inl e ↦ rw (e, delete) tt
  | inr (p, e) ↦
      let (any, same) = find-All (λ y. y ≡ y) i repo p (All-refl repo) e in
      let own = text_eq→eq _ _ same in
      let here = subst (λ x. find x repo ≡ some p) (sym own) e in
      rw (e, delete)
        (subst (λ x. Found none repo p (remove x repo)) own (find-remove p repo h here))
]

abbrev is_delete : Call → Bool
is_delete (delete_call i) = true
is_delete (create_call name r o on now) = false
is_delete (rename_call i name) = false
is_delete (set_enabled_call i on) = false
is_delete (replace_credential_call i r) = false
is_delete (set_organization_ref_call i o) = false
is_delete (mark_validated_call i at) = false

module _ (is_space : ℕ → Bool) where
  create-Located :
      (name : Text) (r : CredentialReference) (o : Option Text) (on : Bool) (now : ℕ)
      (repo : List Profile)
      → Located false repo (create is_space name r o on now repo)
  unfolding create
  create-Located name r o on now repo = elim (Bool-cases (is_profile_id r.account_id)) [
    | inr bad ↦ rw (bad, create) tt
    | inl good ↦ rw (good, create) (made _)
  ]
    where
      made :
          (m : Result Profile)
          → Located false repo (elim m [ refused f ↦ refused f | done q ↦ stored q (add q repo) ])
      made (refused f) = tt
      made (done q) = add-Located q repo

  run-Located :
      (c : Call) (repo : List Profile)
      → AllApart repo
      → Located (is_delete c) repo (run is_space c repo)
  unfolding run rename set_enabled replace_credential set_organization_ref mark_validated
  run-Located (create_call name r o on now) repo h = create-Located name r o on now repo
  run-Located (rename_call i name) repo h = save_changed-Located _ repo
  run-Located (set_enabled_call i on) repo h = save_changed-Located _ repo
  run-Located (replace_credential_call i r) repo h = elim (Bool-cases (text_eq r.account_id i)) [
    | inl own ↦ rw own (save_changed-Located _ repo)
    | inr other ↦ rw other tt
  ]
  run-Located (set_organization_ref_call i o) repo h = save_changed-Located _ repo
  run-Located (mark_validated_call i at) repo h = save_changed-Located _ repo
  run-Located (delete_call i) repo h = delete-Located i repo h

  -- When a call of the profile service on a sound repository succeeds, the profile that it returns is
  -- the one found under its identifier afterwards, or none is found there if the call was a
  -- deletion, and under any other identifier the same is found as before.
  pub run-find :
      (c : Call) (repo : List Profile) (p : Profile) (after : List Profile)
      → IsSound is_space repo
      → run is_space c repo ≡ done (p, after)
      → (find p.profile_id after ≡ (if is_delete c then none else some p))
        × ((j : Text) → text_eq p.profile_id j ≡ false → find j after ≡ find j repo)
  run-find c repo p after (h, k) e = subst (Located (is_delete c) repo) e (run-Located c repo h)
