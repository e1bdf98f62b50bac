-- ===== src/Alerts/Notifications.antt =====
-- The history of notifications of `SQLiteAlertState` in src/quota_monitor/alert_storage.py. A new
-- identifier is an argument, where the source draws one.
use openai_free_credit_track.Base.{
  ℕ, zero, suc, Bool, true, String, str_eq, Option, some, none, List, [], ◌∷◌, ◌++◌, ◌&&◌, ◌||◌,
  not, ltb, leb, ◌==◌, if◌then◌else◌, any,
}
use openai_free_credit_track.Base.Text.{codes, text_lt}
use openai_free_credit_track.Base.Sorting.{sorted}
use openai_free_credit_track.History.Runs.{is_safe_error_code}
use openai_free_credit_track.Alerts.{AlertEvent}
use openai_free_credit_track.Alerts.Storage.{Tables, NotificationRow, utc_now_text}

pub data Recorded : Type 0 where
  recorded : String → Tables → Recorded
  value_error integrity_error : Recorded

unfoldable pub is_delivery_status : String → Bool
is_delivery_status s =
    str_eq s "sent" || str_eq s "failed" || str_eq s "suppressed" || str_eq s "test"

-- `_SAFE_ERROR_CODE.fullmatch` of a code that there is.
abbrev is_safe : Option String → Bool
is_safe none = true
is_safe (some code) = is_safe_error_code (some (codes code))

abbrev is_notification : String → String → NotificationRow → Bool
is_notification p i n = str_eq n.profile_id p && str_eq n.notification_id i

-- `notification_id or uuid.uuid4().hex`
abbrev identifier_of : Option String → String → String
identifier_of none fresh = fresh
identifier_of (some i) fresh = if str_eq i "" then fresh else i

abbrev row_of : AlertEvent → String → Option String → String → NotificationRow
row_of e status error_code identifier = record {
  profile_id = e.profile_id;
  notification_id = identifier;
  rule_id = e.rule_id;
  event_kind = if e.test then "quota_threshold_test" else "quota_threshold";
  group_id = e.group_id;
  project_key = e.project_key;
  occurred_at = utc_now_text e.occurred_at;
  delivery_status = status;
  error_code = error_code;
  is_test = e.test;
}

-- A profile that is not there, and an identifier that is, break a constraint.
unfoldable pub record_notification :
    AlertEvent → String → Option String → Option String → String → Tables → Recorded
record_notification e status error_code notification_id fresh t =
    if not (is_delivery_status status)
    then value_error
    else if not (is_safe error_code)
    then value_error
    else if not (any (str_eq e.profile_id) t.profiles)
        || any (is_notification e.profile_id (identifier_of notification_id fresh)) t.notifications
    then integrity_error
    else recorded (identifier_of notification_id fresh) (record t {
      notifications =
          t.notifications
          ++ (row_of e status error_code (identifier_of notification_id fresh) ∷ []);
    })

-- `ORDER BY occurred_at DESC, notification_id DESC`
unfoldable pub is_newer : NotificationRow → NotificationRow → Bool
is_newer a b =
    if a.occurred_at == b.occurred_at
    then not (text_lt (codes a.notification_id) (codes b.notification_id))
    else ltb b.occurred_at a.occurred_at

abbrev at_most : {A : Type 0} → ℕ → List A → List A
at_most zero xs = []
at_most (suc n) [] = []
at_most (suc n) (x ∷ xs) = x ∷ at_most n xs

unfoldable pub rows_of : String → List NotificationRow → List NotificationRow
rows_of p [] = []
rows_of p (x ∷ xs) = let rest = rows_of p xs in if str_eq x.profile_id p then x ∷ rest else rest

-- `notification_history`; `none` is the `ValueError` of the limit.
unfoldable pub notification_history : String → ℕ → Tables → Option (List NotificationRow)
notification_history p limit t =
    if leb 1 limit && leb limit 1000
    then some (at_most limit (sorted is_newer (rows_of p t.notifications)))
    else none
