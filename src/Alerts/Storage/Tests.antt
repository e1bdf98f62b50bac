-- ===== src/Alerts/Storage/Tests.antt =====
-- The persistent alert state at concrete calls.
use openai_free_credit_track.Base.{ℕ, String, ◌+◌, ◌≤◌, ◌≡◌, refl, true, List, [], ◌∷◌}
use openai_free_credit_track.Base.Sorting.{sorted}
use openai_free_credit_track.Alerts.{AlertRule, UsageObservation, is_skipped, crosses}
use openai_free_credit_track.Alerts.Storage.{
  Tables, save_rule, upsert_rule, delete_rule, drop_rule, drop_dedup, evaluate, evaluate_rules,
  after_rule, fires, find_row, upsert_row, set_sent,
}
use openai_free_credit_track.Alerts.Storage.Once.{weight, is_recorded}
use openai_free_credit_track.Alerts.Storage.Calls.{
  Call, save_call, delete_call, evaluate_call, run, run_all, sent_count, sent_count-recorded,
}

abbrev rule : ℕ → AlertRule
rule t = record {
  rule_id = "r50";
  profile_id = "a";
  group_id = "mini";
  threshold_percent = t;
  project_key = "all";
  enabled = true;
}

abbrev seen : ℕ → UsageObservation
seen p = record {
  profile_id = "a";
  group_id = "mini";
  project_key = "all";
  utc_day = 20674;
  percent = p;
  observed_at = 7000000;
  fresh = true;
}

abbrev tables : Tables
tables = record { profiles = "a" ∷ []; alert_rules = []; alert_dedup = []; notifications = [] }

-- The rule is sent at 60 percent; raising its threshold to 80 does not send it again that day.
abbrev calls : List Call
calls =
    save_call (rule 50) 1
    ∷ evaluate_call (seen 60) (rule 50 ∷ [])
    ∷ save_call (rule 80) 2
    ∷ evaluate_call (seen 90) (rule 80 ∷ [])
    ∷ []

sent_once : sent_count "a" "r50" 20674 calls tables ≡ 1
unfolding sent_count run evaluate evaluate_rules sorted is_skipped save_rule upsert_rule fires
    find_row crosses after_rule set_sent upsert_row
sent_once = refl

abbrev seen_in : String → ℕ → UsageObservation
seen_in project percent = record (seen percent) { project_key = project }

-- The two projects cross the level of a rule for all projects, and the first alone is sent.
first_project_sent :
    sent_count "a" "r50" 20674
      (save_call (rule 50) 1
        ∷ evaluate_call (seen_in "first" 60) (rule 50 ∷ [])
        ∷ evaluate_call (seen_in "second" 60) (rule 50 ∷ [])
        ∷ [])
      tables
    ≡ 1
unfolding sent_count run evaluate evaluate_rules sorted is_skipped save_rule upsert_rule fires
    find_row crosses after_rule set_sent upsert_row
first_project_sent = refl

-- A rule that is deleted and saved again is sent again.
sent_again :
    sent_count "a" "r50" 20674
      (save_call (rule 50) 1
        ∷ evaluate_call (seen 60) (rule 50 ∷ [])
        ∷ delete_call "a" "r50"
        ∷ save_call (rule 50) 2
        ∷ evaluate_call (seen 60) (rule 50 ∷ [])
        ∷ [])
      tables
    ≡ 2
unfolding sent_count run evaluate evaluate_rules sorted is_skipped save_rule upsert_rule fires
    find_row crosses delete_rule drop_rule drop_dedup after_rule set_sent upsert_row
sent_again = refl

sent_count-recorded_example :
    (weight (is_recorded "a" "r50" 20674 []) + sent_count "a" "r50" 20674 calls tables
      ≡ weight (is_recorded "a" "r50" 20674 (run_all calls tables).alert_dedup))
    × (sent_count "a" "r50" 20674 calls tables ≤ 1)
sent_count-recorded_example = sent_count-recorded "a" "r50" 20674 calls tables refl
