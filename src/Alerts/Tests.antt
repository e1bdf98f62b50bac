-- ===== src/Alerts/Tests.antt =====
-- Observations of tests/test_alerts.py, and the theorems at concrete values.
use openai_free_credit_track.Base.{
  ℕ, ◌≡◌, ◌≢◌, ◌⊎◌, refl, inl, true, false, String, List, [], ◌∷◌, arith, All, Any, ◌*◌, ◌^◌,
}
use openai_free_credit_track.Alerts.{
  AlertRule, UsageObservation, init, is_sent, evaluate, run, is_valid_rule,
}
use openai_free_credit_track.Alerts.Sent.{IsDistinct, run-IsDistinct, evaluate_silent}
use openai_free_credit_track.Alerts.Crossing.{
  IsCrossing, evaluate_sound, evaluate_complete, evaluate_twice,
}

abbrev rule : String → String → ℕ → AlertRule
rule profile id t = record {
  rule_id = id;
  profile_id = profile;
  group_id = "mini";
  threshold_percent = t;
  project_key = "all";
  enabled = true;
}

abbrev seen : String → ℕ → UsageObservation
seen profile p = record {
  profile_id = profile;
  group_id = "mini";
  project_key = "all";
  utc_day = 20674;
  percent = p;
  observed_at = 1;
  fresh = true;
}

abbrev stale : ℕ → UsageObservation
stale p = record (seen "a" p) { fresh = false }

abbrev rules : List AlertRule
rules = rule "a" "r100" 100 ∷ rule "a" "r50" 50 ∷ rule "a" "r80" 80 ∷ []

accepted : is_valid_rule (rule "a" "r80" (80 * 2 ^ 1074)) ≡ true
unfolding is_valid_rule
accepted = refl

sent_in_order : run init ((seen "a" 80, rules) ∷ []) ≡ (20674, "r50") ∷ (20674, "r80") ∷ []
unfolding run
sent_in_order = refl

run-IsDistinct_example : IsDistinct (run init ((seen "a" 80, rules) ∷ (seen "a" 90, rules) ∷ []))
run-IsDistinct_example = run-IsDistinct ((seen "a" 80, rules) ∷ (seen "a" 90, rules) ∷ [])

evaluate_sound_example :
    All (IsCrossing 0 (seen "a" 80) rules) (evaluate init (seen "a" 80) rules).1
    × (true ≡ false → (evaluate init (seen "a" 80) rules).1 ≡ [])
unfolding evaluate
evaluate_sound_example = evaluate_sound init (seen "a" 80) rules

evaluate_complete_example :
    (is_sent (20674, "r50") [] ≡ true)
    ⊎ Any (λ e. e.rule_id ≡ "r50") (evaluate init (seen "a" 60) (rule "a" "r50" 50 ∷ [])).1
unfolding evaluate
evaluate_complete_example =
    evaluate_complete init (seen "a" 60) (rule "a" "r50" 50 ∷ []) (rule "a" "r50" 50) refl
      (inl refl) refl (omega arith) (omega arith)

evaluate_twice_example :
    All
      (IsCrossing 90 (seen "a" 90) rules)
      (evaluate (evaluate init (stale 90) rules).0 (seen "a" 90) rules).1
evaluate_twice_example = evaluate_twice init (stale 90) (seen "a" 90) rules rules refl

-- The rule of another profile is silent, since it has the id of a rule that was sent.
evaluate_silent_example :
    All
      (λ e. e.rule_id ≢ "r50")
      (evaluate
        (evaluate init (seen "a" 60) (rule "a" "r50" 50 ∷ [])).0
        (seen "b" 60)
        (rule "b" "r50" 50 ∷ [])).1
unfolding evaluate
evaluate_silent_example =
    evaluate_silent (evaluate init (seen "a" 60) (rule "a" "r50" 50 ∷ [])).0 (seen "b" 60)
      (rule "b" "r50" 50 ∷ []) "r50" refl
