-- ===== src/Alerts.antt =====
-- src/quota_monitor/alerts.py: rules, observations and the evaluator that notices a crossing once.
-- A percentage is a finite non-negative double, and so a multiple of 2^-1074; the natural number is
-- that multiple. Percentages are only compared, which the scale does not change. A day and an
-- instant are numbers: days since an epoch, and instants of the time line.
pub mod Sent
pub mod Crossing
pub mod Storage
pub mod Notifications
mod Tests
use openai_free_credit_track.Base.{
  ℕ, ◌*◌, ◌^◌, Bool, true, false, String, str_eq, Option, some, none, List, [], ◌∷◌, ◌++◌, ◌&&◌,
  ◌||◌, not, ltb, leb, ◌==◌, if◌then◌else◌, map,
}
use openai_free_credit_track.Base.Sorting.{sorted}

pub record AlertRule : Type 0 where
  pub rule_id : String
  pub profile_id : String
  pub group_id : String
  pub threshold_percent : ℕ
  pub project_key : String
  pub enabled : Bool

-- One hundred percent.
unfoldable pub hundred : ℕ
hundred = 100 * 2 ^ 1074

-- The checks of `AlertRule.__post_init__`.
unfoldable pub is_valid_rule : AlertRule → Bool
unfolding hundred
is_valid_rule r =
    not (str_eq r.rule_id "" || str_eq r.profile_id "" || str_eq r.group_id "")
    && (ltb 0 r.threshold_percent && leb r.threshold_percent hundred)

pub record UsageObservation : Type 0 where
  pub profile_id : String
  pub group_id : String
  pub project_key : String
  pub utc_day : ℕ
  pub percent : ℕ
  pub observed_at : ℕ
  pub fresh : Bool

pub record AlertEvent : Type 0 where
  pub rule_id : String
  pub profile_id : String
  pub group_id : String
  pub project_key : String
  pub threshold_percent : ℕ
  pub observed_percent : ℕ
  pub occurred_at : ℕ
  pub test : Bool

-- The key of `_previous`.
pub record SeriesKey : Type 0 where
  pub utc_day : ℕ
  pub profile_id : String
  pub group_id : String
  pub project_key : String

abbrev pub series_eq : SeriesKey → SeriesKey → Bool
series_eq a b =
    (a.utc_day == b.utc_day)
    && str_eq a.profile_id b.profile_id
    && str_eq a.group_id b.group_id
    && str_eq a.project_key b.project_key

abbrev pub SentKey : Type 0
SentKey = ℕ × String

pub record AlertEvaluator : Type 0 where
  pub previous : List (SeriesKey × ℕ)
  pub sent : List SentKey

abbrev pub init : AlertEvaluator
init = record { previous = []; sent = [] }

-- `previous.get(key, 0.0)`
unfoldable pub get_previous : SeriesKey → List (SeriesKey × ℕ) → ℕ
get_previous key [] = 0
get_previous key ((k, v) ∷ rest) = if series_eq k key then v else get_previous key rest

-- `key in sent`
unfoldable pub is_sent : SentKey → List SentKey → Bool
is_sent key [] = false
is_sent (day, rule) ((d, r) ∷ rest) = ((d == day) && str_eq r rule) || is_sent (day, rule) rest

abbrev pub series_of : UsageObservation → SeriesKey
series_of o = record {
  utc_day = o.utc_day;
  profile_id = o.profile_id;
  group_id = o.group_id;
  project_key = o.project_key;
}

-- The two guards that skip a rule.
unfoldable pub is_skipped : UsageObservation → AlertRule → Bool
is_skipped o r =
    (not r.enabled || not (str_eq r.profile_id o.profile_id) || not (str_eq r.group_id o.group_id))
    || not (str_eq r.project_key "all" || str_eq r.project_key o.project_key)

-- `previous < threshold <= percent`
unfoldable pub crosses : ℕ → UsageObservation → AlertRule → Bool
crosses previous o r = ltb previous r.threshold_percent && leb r.threshold_percent o.percent

abbrev pub event_of : UsageObservation → AlertRule → AlertEvent
event_of o r = record {
  rule_id = r.rule_id;
  profile_id = o.profile_id;
  group_id = o.group_id;
  project_key = o.project_key;
  threshold_percent = r.threshold_percent;
  observed_percent = o.percent;
  occurred_at = o.observed_at;
  test = false;
}

-- `key=lambda item: item.threshold_percent`
abbrev pub by_threshold : AlertRule → AlertRule → Bool
by_threshold a b = leb a.threshold_percent b.threshold_percent

-- The loop over the sorted rules: the keys sent, and the events in order.
unfoldable pub evaluate_rules :
    UsageObservation → ℕ → List AlertRule → List SentKey → List SentKey × List AlertEvent
evaluate_rules o previous [] sent = (sent, [])
evaluate_rules o previous (r ∷ rules) sent =
    let fired = evaluate_rules o previous rules ((o.utc_day, r.rule_id) ∷ sent) in
    let rest = evaluate_rules o previous rules sent in
    if is_skipped o r
    then rest
    else if is_sent (o.utc_day, r.rule_id) sent
    then rest
    else if crosses previous o r
    then (fired.0, event_of o r ∷ fired.1)
    else rest

unfoldable pub evaluate :
    AlertEvaluator → UsageObservation → List AlertRule → AlertEvaluator × List AlertEvent
unfolding evaluate_rules is_skipped crosses get_previous is_sent sorted
evaluate s o rules =
    let before = get_previous (series_of o) s.previous in
    let noted = (series_of o, o.percent) ∷ s.previous in
    let (sent, events) = evaluate_rules o before (sorted by_threshold rules) s.sent in
    if not o.fresh
    then (record { previous = noted; sent = s.sent }, [])
    else (record { previous = noted; sent = sent }, events)

-- `now or datetime.now(timezone.utc)` is the argument.
unfoldable pub test_event : AlertRule → ℕ → AlertEvent
test_event r now = record {
  rule_id = r.rule_id;
  profile_id = r.profile_id;
  group_id = r.group_id;
  project_key = r.project_key;
  threshold_percent = r.threshold_percent;
  observed_percent = r.threshold_percent;
  occurred_at = now;
  test = true;
}

-- The keys that a list of observations, each with the rules of its time, sends in order.
unfoldable pub run : AlertEvaluator → List (UsageObservation × List AlertRule) → List SentKey
unfolding evaluate
run s [] = []
run s ((o, rules) ∷ rest) =
    let (next, events) = evaluate s o rules in
    map (λ e. (o.utc_day, e.rule_id)) events ++ run next rest
