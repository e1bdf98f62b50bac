-- ===== src/Alerts/Storage/Sending.antt =====
-- How often a rule is sent on a day, by what the database records.
use openai_free_credit_track.Base.{
  ℕ, ◌≡◌, inl, inr, refl, ◌∙◌, Bool, true, false, String, str_eq, str_eq_iff, Option, some, List,
  [], ◌∷◌, ◌&&◌, ◌==◌, ==_iff, arith, Bool-cases,
}
use openai_free_credit_track.Alerts.Storage.{
  DedupRow, is_row, find_row, sent_of, upsert_row, set_sent,
}

abbrev pub key_eq : String → String → ℕ → String → String → ℕ → Bool
key_eq p i d q j e = str_eq p q && str_eq i j && (d == e)

is_row_same :
    (p i q j : String) (d e : ℕ) (x : DedupRow)
    → is_row p i d x ≡ true
    → is_row q j e x ≡ key_eq p i d q j e
is_row_same p i q j d e x h =
    let a : x.profile_id ≡ p = (str_eq_iff _ _).0 (ground arith) in
    let b : x.rule_id ≡ i = (str_eq_iff _ _).0 (ground arith) in
    let c : x.utc_day ≡ d = (==_iff _ _).0 (ground arith) in rw (a, b, c) refl

module _ (p i : String) (d : ℕ) where
  -- When the key was sent, by the rows.
  abbrev pub sent_in : List DedupRow → Option ℕ
  sent_in rows = sent_of (find_row p i d rows)

  pub upsert_row-sent :
      (y : DedupRow) (rows : List DedupRow)
      → y.sent_at ≡ sent_of (find_row y.profile_id y.rule_id y.utc_day rows)
      → sent_in (upsert_row y rows) ≡ sent_in rows
  unfolding upsert_row find_row
  upsert_row-sent y [] h = elim (Bool-cases (is_row p i d y)) [
    | inl same ↦ rw same h
    | inr other ↦ rw other refl
  ]
  upsert_row-sent y (x ∷ xs) h = elim (Bool-cases (is_row y.profile_id y.rule_id y.utc_day x)) [
    | inl here ↦
        rw here (elim (Bool-cases (is_row p i d x)) [
          | inl same ↦ rw same refl
          | inr other ↦ rw other refl
        ])
    | inr later ↦ rw later (elim (Bool-cases (is_row p i d x)) [
      | inl same ↦ rw same refl
      | inr other ↦ rw other (upsert_row-sent y xs (rw later at h))
    ])
  ]

  pub set_sent_other :
      (q j : String) (e at : ℕ) (rows : List DedupRow)
      → key_eq q j e p i d ≡ false
      → sent_in (set_sent q j e at rows) ≡ sent_in rows
  unfolding set_sent find_row
  set_sent_other q j e at [] h = refl
  set_sent_other q j e at (x ∷ xs) h = elim (Bool-cases (is_row q j e x)) [
    | inl here ↦
        let other = is_row_same q j p i e d x here ∙ h in
        rw here (rw other (set_sent_other q j e at xs h))
    | inr later ↦ rw later (elim (Bool-cases (is_row p i d x)) [
      | inl same ↦ rw same refl
      | inr other ↦ rw other (set_sent_other q j e at xs h)
    ])
  ]

  pub set_sent_self :
      (at : ℕ) (x : DedupRow) (rows : List DedupRow)
      → find_row p i d rows ≡ some x
      → sent_in (set_sent p i d at rows) ≡ some at
  unfolding set_sent find_row
  set_sent_self at x [] h = absurd cc
  set_sent_self at x (y ∷ ys) h = elim (Bool-cases (is_row p i d y)) [
    | inl same ↦ rw same (rw same refl)
    | inr other ↦ rw other (rw other (set_sent_self at x ys (rw other at h)))
  ]

is_row_self : (y : DedupRow) → is_row y.profile_id y.rule_id y.utc_day y ≡ true
is_row_self y = ground (
  arith,
  (str_eq_iff y.profile_id y.profile_id).1 refl,
  (str_eq_iff y.rule_id y.rule_id).1 refl,
  (==_iff y.utc_day y.utc_day).1 refl,
)

pub upsert_row-find :
    (y : DedupRow) (rows : List DedupRow)
    → (x : DedupRow) × (find_row y.profile_id y.rule_id y.utc_day (upsert_row y rows) ≡ some x)
unfolding upsert_row find_row
upsert_row-find y [] = (y, rw (is_row_self y) refl)
upsert_row-find y (x ∷ xs) = elim (Bool-cases (is_row y.profile_id y.rule_id y.utc_day x)) [
  | inl here ↦ (
    record x {
      group_id = y.group_id;
      project_key = y.project_key;
      previous_percent = y.previous_percent;
    },
    rw here (rw here refl),
  )
  | inr later ↦ let (z, e) = upsert_row-find y xs in (z, rw later (rw later e))
]
