-- ===== src/Alerts/Storage/Calls.antt =====
-- Calls of the alert state in any order, and how often they send a rule.
use openai_free_credit_track.Base.{
  ℕ, ◌+◌, ◌≤◌, ◌≡◌, inl, inr, refl, ap, Bool, true, false, String, str_eq, str_eq_iff, some, none,
  List, [], ◌∷◌, ◌&&◌, arith, if◌then◌else◌, Bool-cases, Option-cases, any,
}
use openai_free_credit_track.Base.Sorting.{sorted}
use openai_free_credit_track.Alerts.{AlertRule, UsageObservation, AlertEvent, by_threshold}
use openai_free_credit_track.Alerts.Storage.{
  DedupRow, Tables, save_rule, delete_rule, drop_dedup, is_row, find_row, evaluate_rules, evaluate,
}
use openai_free_credit_track.Alerts.Storage.Once.{
  weight, is_recorded, count, evaluate_rules-Counted,
}

-- The calls that change the tables; an error leaves them as they were.
pub data Call : Type 0 where
  save_call : AlertRule → ℕ → Call
  delete_call : String → String → Call
  evaluate_call : UsageObservation → List AlertRule → Call

-- The tables after a call, and the events that it returns.
unfoldable pub run : Call → Tables → Tables × List AlertEvent
run (save_call r now) t = elim (save_rule r now t) [ none ↦ (t, []) | some after ↦ (after, []) ]
run (delete_call q j) t = ((delete_rule q j t).1, [])
run (evaluate_call o rules) t = elim (evaluate o rules t) [
  | none ↦ (t, [])
  | some (after, events) ↦ (after, events)
]

unfoldable pub run_all : List Call → Tables → Tables
run_all [] t = t
run_all (c ∷ cs) t = run_all cs (run c t).0

weight_bound : (b : Bool) → weight b ≤ 1
weight_bound true = omega arith
weight_bound false = omega arith

module _ (p i : String) (d : ℕ) where
  -- How many of a call's events are of the rule, for an observation of the day.
  abbrev sent_by : Call → List AlertEvent → ℕ
  sent_by (evaluate_call o rules) events = count p i d o events
  sent_by (save_call r now) events = 0
  sent_by (delete_call q j) events = 0

  unfoldable pub sent_count : List Call → Tables → ℕ
  sent_count [] t = 0
  sent_count (c ∷ cs) t = sent_by c (run c t).1 + sent_count cs (run c t).0

  -- Whether the call deletes the rule.
  abbrev pub is_deletion : Call → Bool
  is_deletion (delete_call q j) = str_eq q p && str_eq j i
  is_deletion (save_call r now) = false
  is_deletion (evaluate_call o rules) = false

  drop_dedup_other :
      (q j : String) (rows : List DedupRow)
      → str_eq q p && str_eq j i ≡ false
      → find_row p i d (drop_dedup q j rows) ≡ find_row p i d rows
  unfolding drop_dedup find_row
  drop_dedup_other q j [] h = refl
  drop_dedup_other q j (x ∷ xs) h =
      elim (Bool-cases (str_eq x.profile_id q && str_eq x.rule_id j)) [
        | inr kept ↦
            rw kept (ap (λ o. if is_row p i d x then some x else o) (drop_dedup_other q j xs h))
        | inl gone ↦
            let a : x.profile_id ≡ q = (str_eq_iff _ _).0 (ground arith) in
            let b : x.rule_id ≡ j = (str_eq_iff _ _).0 (ground arith) in
            let other : is_row p i d x ≡ false = rw (a, b) (ground (arith, h)) in
            rw gone (rw other (drop_dedup_other q j xs h))
      ]

  abbrev recorded : Tables → ℕ
  recorded t = weight (is_recorded p i d t.alert_dedup)

  run-recorded :
      (c : Call) (t : Tables)
      → is_deletion c ≡ false
      → recorded (run c t).0 ≡ recorded t + sent_by c (run c t).1
  unfolding run save_rule delete_rule evaluate
  run-recorded (save_call r now) t h = elim (Bool-cases (any (str_eq r.profile_id) t.profiles)) [
    | inl known ↦ rw (known, save_rule, run) (omega arith)
    | inr unknown ↦ rw (unknown, save_rule, run) (omega arith)
  ]
  run-recorded (delete_call q j) t h = rw (drop_dedup_other q j t.alert_dedup h) (omega arith)
  run-recorded (evaluate_call o rules) t h =
      let counted =
        evaluate_rules-Counted p i d o t.alert_rules (sorted by_threshold rules) t.alert_dedup in
      elim (Option-cases
        (evaluate_rules o t.alert_rules (sorted by_threshold rules) t.alert_dedup)) [
          | inl e ↦ rw (e, evaluate, run) (omega arith)
          | inr (x, e) ↦ let now = rw e at counted in rw (e, evaluate, run) now
        ]

  total_recorded :
      (cs : List Call) (t : Tables)
      → any is_deletion cs ≡ false
      → recorded t + sent_count cs t ≡ recorded (run_all cs t)
  unfolding run_all sent_count
  total_recorded [] t h = omega arith
  total_recorded (c ∷ cs) t h =
      let step = run-recorded c t (ground arith) in
      let rest = total_recorded cs (run c t).0 (ground arith) in omega (arith, step, rest)

  -- Whatever rules are saved and whatever observations are evaluated, with whatever rules and
  -- failures included, as long as the rule `i` of the profile `p` is not deleted: the number of
  -- alerts returned for it on the day `d`, of all projects and groups together, is one if the
  -- database came to record it as sent, and none if it was recorded before or still is not. So it is
  -- sent at most once a day, also if several projects cross its level.
  pub sent_count-recorded :
      (cs : List Call) (t : Tables)
      → any is_deletion cs ≡ false
      → (weight (is_recorded p i d t.alert_dedup) + sent_count cs t
          ≡ weight (is_recorded p i d (run_all cs t).alert_dedup))
        × (sent_count cs t ≤ 1)
  sent_count-recorded cs t h =
      let total = total_recorded cs t h in
      let bound = weight_bound (is_recorded p i d (run_all cs t).alert_dedup) in
      (total, omega (arith, total, bound))
