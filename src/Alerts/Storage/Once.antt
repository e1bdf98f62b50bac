-- ===== src/Alerts/Storage/Once.antt =====
-- Calls of the alert state in any order: a rule is sent as often as the database records it.
use openai_free_credit_track.Base.{
  ℕ, ◌+◌, ◌≡◌, inl, inr, refl, ap, Bool, true, false, String, str_eq_iff, Option, some, none, List,
  [], ◌∷◌, ==_iff, not, arith, if◌then◌else◌, Bool-cases, sum,
}
use openai_free_credit_track.Alerts.{AlertRule, UsageObservation, AlertEvent, is_skipped, event_of}
use openai_free_credit_track.Alerts.Storage.{
  RuleRow, DedupRow, has_rule, find_row, sent_of, set_sent, noted, is_unsent, fires, after_rule,
  evaluate_rules, utc_now_text, noted_rows,
}
use openai_free_credit_track.Alerts.Storage.Sending.{
  key_eq, upsert_row-sent, set_sent_other, set_sent_self, upsert_row-find,
}

abbrev pub weight : Bool → ℕ
weight true = 1
weight false = 0

-- Whether the key of the rule and the day is recorded as sent.
abbrev pub is_recorded : String → String → ℕ → List DedupRow → Bool
is_recorded p i d rows = not (is_unsent (sent_of (find_row p i d rows)))

-- How many of the observation's events have the key.
abbrev pub count : String → String → ℕ → UsageObservation → List AlertEvent → ℕ
count p i d o events =
    sum (λ (e : AlertEvent). weight (key_eq e.profile_id e.rule_id o.utc_day p i d)) events

module _ (p i : String) (d : ℕ) (o : UsageObservation) where
  abbrev hit : AlertRule → ℕ
  hit r = weight (key_eq o.profile_id r.rule_id o.utc_day p i d)

  noted_rows-recorded :
      (r : AlertRule) (rows : List DedupRow)
      → is_recorded p i d (noted_rows o r rows) ≡ is_recorded p i d rows
  noted_rows-recorded r rows = ap (λ s. not (is_unsent s)) (upsert_row-sent p i d _ rows refl)

  fired-recorded :
      (r : AlertRule) (rows : List DedupRow)
      → fires o r rows ≡ true
      → weight (
          is_recorded p i d (
            set_sent o.profile_id r.rule_id o.utc_day
              (utc_now_text o.observed_at)
              (noted_rows o r rows)))
        ≡ weight (is_recorded p i d rows) + hit r
  unfolding fires
  fired-recorded r rows h = elim (Bool-cases (key_eq o.profile_id r.rule_id o.utc_day p i d)) [
    | inr other ↦
        let same =
          set_sent_other p i d o.profile_id r.rule_id o.utc_day (utc_now_text o.observed_at)
            (noted_rows o r rows) other in
        let kept = noted_rows-recorded r rows in rw (other, same, kept) (omega arith)
    | inl own ↦
        let a : o.profile_id ≡ p = (str_eq_iff _ _).0 (ground arith) in
        let b : r.rule_id ≡ i = (str_eq_iff _ _).0 (ground arith) in
        let c : o.utc_day ≡ d = (==_iff _ _).0 (ground arith) in
        let (x, e) =
          upsert_row-find (noted o r (find_row o.profile_id r.rule_id o.utc_day rows)) rows in
        let now =
          set_sent_self o.profile_id r.rule_id o.utc_day (utc_now_text o.observed_at) x
            (noted_rows o r rows) e in
        let before : is_unsent (sent_of (find_row o.profile_id r.rule_id o.utc_day rows)) ≡ true =
          ground arith in
        rw own (rw (← a, ← b, ← c) (rw (now, before) refl))
  ]

  pub after_rule-recorded :
      (r : AlertRule) (rows : List DedupRow)
      → weight (is_recorded p i d (after_rule o r rows))
        ≡ weight (is_recorded p i d rows) + (if fires o r rows then hit r else 0)
  unfolding after_rule
  after_rule-recorded r rows = elim (Bool-cases (fires o r rows)) [
    | inl yes_fires ↦ rw yes_fires (fired-recorded r rows yes_fires)
    | inr silent ↦ let kept = noted_rows-recorded r rows in rw (silent, kept) (omega arith)
  ]

  -- What a result says: the key is recorded as sent as often as it was and the events have it.
  abbrev pub Counted : List DedupRow → Option (List DedupRow × List AlertEvent) → Type 0
  Counted rows none = Unit
  Counted rows (some (last, events)) =
      weight (is_recorded p i d last) ≡ weight (is_recorded p i d rows) + count p i d o events

  Counted-rule :
      (r : AlertRule) (rows : List DedupRow) (res : Option (List DedupRow × List AlertEvent))
      → Counted (after_rule o r rows) res
      → Counted rows (elim res [
        | none ↦ none
        | some (last, events) ↦
            some (last, if fires o r rows then event_of o r ∷ events else events)
      ])
  Counted-rule r rows none h = tt
  Counted-rule r rows (some (last, events)) h =
      let step = after_rule-recorded r rows in
      elim (Bool-cases (fires o r rows)) [
        | inl yes_fires ↦ let now = rw yes_fires at step in rw yes_fires (omega (arith, h, now))
        | inr silent ↦ let now = rw silent at step in rw silent (omega (arith, h, now))
      ]

  pub evaluate_rules-Counted :
      (stored : List RuleRow) (rules : List AlertRule) (rows : List DedupRow)
      → Counted rows (evaluate_rules o stored rules rows)
  unfolding evaluate_rules
  evaluate_rules-Counted stored [] rows = omega arith
  evaluate_rules-Counted stored (r ∷ rules) rows = elim (Bool-cases (is_skipped o r)) [
    | inl skipped ↦ rw skipped (evaluate_rules-Counted stored rules rows)
    | inr addressed ↦ rw addressed (elim (Bool-cases (has_rule o.profile_id r.rule_id stored)) [
      | inr missing ↦ rw missing tt
      | inl there ↦
          rw there
            (Counted-rule r rows _ (evaluate_rules-Counted stored rules (after_rule o r rows)))
    ])
  ]
