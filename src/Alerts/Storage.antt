-- ===== src/Alerts/Storage.antt =====
-- `SQLiteAlertState` of src/quota_monitor/alert_storage.py over its three tables: the list of a
-- table's rows, in the order of insertion. A method is one transaction: `none` is the error that
-- rolls it back. A time is in microseconds since an epoch, and the stored text of a time is its
-- whole seconds, whose order is that of the texts.
pub mod Sending
pub mod Calls
pub mod Once
mod Tests
use openai_free_credit_track.Base.{
  ℕ, ◌/◌, Bool, true, false, String, str_eq, Option, some, none, List, [], ◌∷◌, ◌++◌, ◌&&◌, ◌||◌,
  not, ltb, leb, ◌==◌, if◌then◌else◌, map, any, all, length, is_empty,
}
use openai_free_credit_track.Base.Text.{Text, codes, text_lt}
use openai_free_credit_track.Base.Sorting.{sorted}
use openai_free_credit_track.Alerts.{
  AlertRule, UsageObservation, AlertEvent, is_skipped, crosses, event_of, by_threshold,
}

-- A row of `alert_rules`.
pub record RuleRow : Type 0 where
  pub rule : AlertRule
  pub created_at : ℕ
  pub updated_at : ℕ

-- A row of `alert_dedup`.
pub record DedupRow : Type 0 where
  pub profile_id : String
  pub rule_id : String
  pub utc_day : ℕ
  pub group_id : String
  pub project_key : String
  pub previous_percent : ℕ
  pub sent_at : Option ℕ

-- A row of `notification_history`.
pub record NotificationRow : Type 0 where
  pub profile_id : String
  pub notification_id : String
  pub rule_id : String
  pub event_kind : String
  pub group_id : String
  pub project_key : String
  pub occurred_at : ℕ
  pub delivery_status : String
  pub error_code : Option String
  pub is_test : Bool

-- The identifiers of the table `profiles`, and the three tables.
pub record Tables : Type 0 where
  pub profiles : List String
  pub alert_rules : List RuleRow
  pub alert_dedup : List DedupRow
  pub notifications : List NotificationRow

-- `utc_now_text`
unfoldable pub utc_now_text : ℕ → ℕ
utc_now_text t = t / 1000000

abbrev pub is_rule : String → String → AlertRule → Bool
is_rule p i r = str_eq r.profile_id p && str_eq r.rule_id i

-- The upsert of `save_rule` on the rows.
unfoldable pub upsert_rule : AlertRule → ℕ → List RuleRow → List RuleRow
upsert_rule r stamp [] = record { rule = r; created_at = stamp; updated_at = stamp } ∷ []
upsert_rule r stamp (x ∷ xs) =
    let rest = upsert_rule r stamp xs in
    if is_rule r.profile_id r.rule_id x.rule
    then (record x { rule = r; updated_at = stamp }) ∷ xs
    else x ∷ rest

-- `save_rule` at a time: a rule of an unknown profile breaks the foreign key.
unfoldable pub save_rule : AlertRule → ℕ → Tables → Option Tables
save_rule r now t =
    if any (str_eq r.profile_id) t.profiles
    then some (record t { alert_rules = upsert_rule r (utc_now_text now) t.alert_rules })
    else none

unfoldable pub rules_of : String → List RuleRow → List AlertRule
rules_of p [] = []
rules_of p (x ∷ xs) =
    let rest = rules_of p xs in if str_eq x.rule.profile_id p then x.rule ∷ rest else rest

-- `ORDER BY threshold_percent, rule_id`
unfoldable pub by_threshold_and_id : AlertRule → AlertRule → Bool
by_threshold_and_id a b =
    ltb a.threshold_percent b.threshold_percent
    || ((a.threshold_percent == b.threshold_percent)
        && not (text_lt (codes b.rule_id) (codes a.rule_id)))

unfoldable pub list_rules : String → Tables → List AlertRule
list_rules p t = sorted by_threshold_and_id (rules_of p t.alert_rules)

unfoldable pub drop_rule : String → String → List RuleRow → List RuleRow
drop_rule p i [] = []
drop_rule p i (x ∷ xs) =
    let rest = drop_rule p i xs in if is_rule p i x.rule then rest else x ∷ rest

-- The cascade of the foreign key of `alert_dedup`.
unfoldable pub drop_dedup : String → String → List DedupRow → List DedupRow
drop_dedup p i [] = []
drop_dedup p i (x ∷ xs) =
    let rest = drop_dedup p i xs in
    if str_eq x.profile_id p && str_eq x.rule_id i then rest else x ∷ rest

abbrev pub has_rule : String → String → List RuleRow → Bool
has_rule p i rows = any (λ x. is_rule p i x.rule) rows

-- The result is `rowcount == 1`; the key is primary, and at most one row is deleted.
unfoldable pub delete_rule : String → String → Tables → Bool × Tables
delete_rule p i t = (
  has_rule p i t.alert_rules,
  record t {
    alert_rules = drop_rule p i t.alert_rules;
    alert_dedup = drop_dedup p i t.alert_dedup;
  },
)

-- The key of a row of `alert_dedup`.
abbrev pub is_row : String → String → ℕ → DedupRow → Bool
is_row p i day x = str_eq x.profile_id p && str_eq x.rule_id i && (x.utc_day == day)

unfoldable pub find_row : String → String → ℕ → List DedupRow → Option DedupRow
find_row p i day [] = none
find_row p i day (x ∷ xs) =
    let rest = find_row p i day xs in if is_row p i day x then some x else rest

abbrev pub previous_of : Option DedupRow → ℕ
previous_of none = 0
previous_of (some x) = x.previous_percent

abbrev pub sent_of : Option DedupRow → Option ℕ
sent_of none = none
sent_of (some x) = x.sent_at

-- The upsert of `evaluate`; `sent_at` is only that of a new row.
unfoldable pub upsert_row : DedupRow → List DedupRow → List DedupRow
upsert_row y [] = y ∷ []
upsert_row y (x ∷ xs) =
    let rest = upsert_row y xs in
    if is_row y.profile_id y.rule_id y.utc_day x
    then (record x {
      group_id = y.group_id;
      project_key = y.project_key;
      previous_percent = y.previous_percent;
    })
      ∷ xs
    else x ∷ rest

-- `UPDATE alert_dedup SET sent_at = ?` of the row of the key.
unfoldable pub set_sent : String → String → ℕ → ℕ → List DedupRow → List DedupRow
set_sent p i day at [] = []
set_sent p i day at (x ∷ xs) =
    let rest = set_sent p i day at xs in
    if is_row p i day x then (record x { sent_at = some at }) ∷ rest else x ∷ rest

abbrev pub noted : UsageObservation → AlertRule → Option DedupRow → DedupRow
noted o r row = record {
  profile_id = o.profile_id;
  rule_id = r.rule_id;
  utc_day = o.utc_day;
  group_id = o.group_id;
  project_key = o.project_key;
  previous_percent = o.percent;
  sent_at = sent_of row;
}

abbrev pub is_unsent : Option ℕ → Bool
is_unsent none = true
is_unsent (some at) = false

-- The rows once the percentage is noted.
abbrev pub noted_rows : UsageObservation → AlertRule → List DedupRow → List DedupRow
noted_rows o r rows = upsert_row (noted o r (find_row o.profile_id r.rule_id o.utc_day rows)) rows

-- What one rule does once it is not skipped: whether it fires, and the rows.
unfoldable pub fires : UsageObservation → AlertRule → List DedupRow → Bool
fires o r rows =
    o.fresh
    && is_unsent (sent_of (find_row o.profile_id r.rule_id o.utc_day rows))
    && crosses (previous_of (find_row o.profile_id r.rule_id o.utc_day rows)) o r

unfoldable pub after_rule : UsageObservation → AlertRule → List DedupRow → List DedupRow
after_rule o r rows =
    if fires o r rows
    then set_sent o.profile_id r.rule_id o.utc_day (utc_now_text o.observed_at)
        (noted_rows o r rows)
    else noted_rows o r rows

-- The loop of `evaluate`: a rule that is not stored breaks the foreign key of `alert_dedup`.
unfoldable pub evaluate_rules :
    UsageObservation
    → List RuleRow
    → List AlertRule
    → List DedupRow
    → Option (List DedupRow × List AlertEvent)
evaluate_rules o stored [] rows = some (rows, [])
evaluate_rules o stored (r ∷ rules) rows =
    let skipping = evaluate_rules o stored rules rows in
    let rest = evaluate_rules o stored rules (after_rule o r rows) in
    if is_skipped o r
    then skipping
    else if not (has_rule o.profile_id r.rule_id stored)
    then none
    else elim rest [
      | none ↦ none
      | some (last, events) ↦ some (last, if fires o r rows then event_of o r ∷ events else events)
    ]

unfoldable pub evaluate :
    UsageObservation → List AlertRule → Tables → Option (Tables × List AlertEvent)
evaluate o rules t =
    elim (evaluate_rules o t.alert_rules (sorted by_threshold rules) t.alert_dedup) [
      | none ↦ none
      | some (rows, events) ↦ some (record t { alert_dedup = rows }, events)
    ]
