-- ===== src/Alerts/Sent.antt =====
-- No rule is sent twice on one day.
use openai_free_credit_track.Base.{
  ℕ, ◌≡◌, refl, Bool, true, false, String, str_eq, str_eq_iff, List, [], ◌∷◌, ◌++◌, arith, All,
  All-append, Bool-cases, inl, inr, map, ap, ◌&&◌, ◌||◌, ◌==◌, ◌≢◌,
}
use openai_free_credit_track.Base.Sorting.{sorted}
use openai_free_credit_track.Alerts.{
  by_threshold, AlertRule, UsageObservation, AlertEvent, AlertEvaluator, SentKey, init, is_sent,
  evaluate_rules, is_skipped, crosses, evaluate, run, get_previous, series_of,
}

-- No key stands twice in the list.
abbrev pub IsDistinct : List SentKey → Type 0
IsDistinct [] = Unit
IsDistinct (k ∷ ks) = (is_sent k ks ≡ false) × IsDistinct ks

abbrev keys : UsageObservation → List AlertEvent → List SentKey
keys o events = map (λ e. (o.utc_day, e.rule_id)) events

-- What a step from `sent` to `after` guarantees of the keys that it sends.
record IsStep (sent after ks : List SentKey) : Type 0 where
  was_new : (k : SentKey) → is_sent k after ≡ false → is_sent k sent ≡ false
  keeps : (k : SentKey) → is_sent k sent ≡ true → is_sent k after ≡ true
  were_new : All (λ k. is_sent k sent ≡ false) ks
  are_sent : All (λ k. is_sent k after ≡ true) ks
  distinct : IsDistinct ks

is_sent-cons : (k j : SentKey) (ks : List SentKey) → is_sent k ks ≡ true → is_sent k (j ∷ ks) ≡ true
unfolding is_sent
is_sent-cons k j ks h = ground arith

is_sent_self : (k : SentKey) (ks : List SentKey) → is_sent k (k ∷ ks) ≡ true
unfolding is_sent
is_sent_self k ks = ground (arith, str_eq_iff k.1 k.1)

is_sent-cons_false :
    (k j : SentKey) (ks : List SentKey) → is_sent k (j ∷ ks) ≡ false → is_sent k ks ≡ false
unfolding is_sent
is_sent-cons_false k j ks h = ground arith

key_test : SentKey → SentKey → Bool
key_test (e, s) (d, r) = (e == d) && str_eq s r

key_test→eq : (j k : SentKey) → key_test j k ≡ true → j ≡ k
unfolding key_test
key_test→eq (e, s) (d, r) h = ground (arith, str_eq_iff s r)

is_sent_step :
    (k j : SentKey) (ks : List SentKey) → is_sent k (j ∷ ks) ≡ (key_test j k || is_sent k ks)
unfolding is_sent key_test
is_sent_step k j ks = refl

-- A key that is in `sent` is none of keys that are not.
is_sent-new :
    (k : SentKey) (sent ks : List SentKey)
    → is_sent k sent ≡ true
    → All (λ j. is_sent j sent ≡ false) ks
    → is_sent k ks ≡ false
is_sent-new k sent [] h new = unfold is_sent in refl
is_sent-new k sent (j ∷ ks) h (n, new) = elim (Bool-cases (key_test j k)) [
  | inl same ↦ absurd (differ (key_test→eq j k same))
  | inr other ↦ rw is_sent_step (rw other (is_sent-new k sent ks h new))
]
  where
    differ : j ≡ k → ⊥
    differ e = cc (h, n, ap (λ (x : SentKey). is_sent x sent) e)

All-map_sent :
    {P Q : SentKey → Type 0} (ks : List SentKey) → ((k : SentKey) → P k → Q k) → All P ks → All Q ks
All-map_sent [] f h = tt
All-map_sent (k ∷ ks) f (p, h) = (f k p, All-map_sent ks f h)

IsStep-none : (sent : List SentKey) → IsStep sent sent []
IsStep-none sent = record {
  was_new = λ k h. h;
  keeps = λ k h. h;
  were_new = tt;
  are_sent = tt;
  distinct = tt;
}

-- A rule that fires sends its key, and then the rest of the loop goes on from there.
IsStep-fire :
    (k : SentKey) (sent after ks : List SentKey)
    → is_sent k sent ≡ false
    → IsStep (k ∷ sent) after ks
    → IsStep sent after (k ∷ ks)
IsStep-fire k sent after ks new s = record {
  was_new = λ j h. is_sent-cons_false j k sent (s.was_new j h);
  keeps = λ j h. s.keeps j (is_sent-cons j k sent h);
  were_new = (new, All-map_sent ks (λ j n. is_sent-cons_false j k sent n) s.were_new);
  are_sent = (s.keeps k (is_sent_self k sent), s.are_sent);
  distinct = (is_sent-new k (k ∷ sent) ks (is_sent_self k sent) s.were_new, s.distinct);
}

IsStep-evaluate_rules :
    (o : UsageObservation) (previous : ℕ) (rules : List AlertRule) (sent : List SentKey)
    → IsStep sent
        (evaluate_rules o previous rules sent).0
        (keys o (evaluate_rules o previous rules sent).1)
unfolding evaluate_rules
IsStep-evaluate_rules o previous [] sent = IsStep-none sent
IsStep-evaluate_rules o previous (r ∷ rules) sent = elim (Bool-cases (is_skipped o r)) [
  | inl skipped ↦ rw skipped (IsStep-evaluate_rules o previous rules sent)
  | inr addressed ↦ rw addressed (elim (Bool-cases (is_sent (o.utc_day, r.rule_id) sent)) [
    | inl old ↦ rw old (IsStep-evaluate_rules o previous rules sent)
    | inr new ↦ rw new (elim (Bool-cases (crosses previous o r)) [
      | inl fires ↦ rw fires (
          IsStep-fire (o.utc_day, r.rule_id) sent _ _ new
            (IsStep-evaluate_rules o previous rules ((o.utc_day, r.rule_id) ∷ sent)))
      | inr below ↦ rw below (IsStep-evaluate_rules o previous rules sent)
    ])
  ])
]

IsStep-evaluate :
    (s : AlertEvaluator) (o : UsageObservation) (rules : List AlertRule)
    → IsStep s.sent (evaluate s o rules).0.sent (keys o (evaluate s o rules).1)
unfolding evaluate
IsStep-evaluate s o rules = elim (Bool-cases o.fresh) [
  | inl fresh ↦ rw fresh (
      IsStep-evaluate_rules o (get_previous (series_of o) s.previous) (sorted by_threshold rules)
        s.sent)
  | inr stale ↦ rw stale (IsStep-none s.sent)
]

All-append_new :
    (k : SentKey) (ks js : List SentKey)
    → is_sent k ks ≡ false
    → is_sent k js ≡ false
    → is_sent k (ks ++ js) ≡ false
unfolding is_sent
All-append_new k [] js h g = g
All-append_new k (j ∷ ks) js h g = ground (arith, All-append_new k ks js (ground arith) g)

IsDistinct-append :
    (sent ks js : List SentKey)
    → IsDistinct ks
    → IsDistinct js
    → All (λ k. is_sent k sent ≡ true) ks
    → All (λ k. is_sent k sent ≡ false) js
    → IsDistinct (ks ++ js)
IsDistinct-append sent [] js hk hj a n = hj
IsDistinct-append sent (k ∷ ks) js (f, hk) hj (q, a) n =
    (All-append_new k ks js f (is_sent-new k sent js q n), IsDistinct-append sent ks js hk hj a n)

run-new :
    (s : AlertEvaluator) (steps : List (UsageObservation × List AlertRule))
    → IsDistinct (run s steps) × All (λ k. is_sent k s.sent ≡ false) (run s steps)
unfolding run
run-new s [] = (tt, tt)
run-new s ((o, rules) ∷ rest) =
    let step = IsStep-evaluate s o rules in
    let (distinct, new) = run-new (evaluate s o rules).0 rest in
    let earlier =
      λ (k : SentKey) (n : is_sent k (evaluate s o rules).0.sent ≡ false). step.was_new k n in
    (
      IsDistinct-append (evaluate s o rules).0.sent _ _ step.distinct distinct step.are_sent new,
      All-append _ _ _ step.were_new (All-map_sent _ earlier new),
    )

-- Whatever is observed, and however the rules change, no rule id is sent twice on one UTC day.
pub run-IsDistinct :
    (steps : List (UsageObservation × List AlertRule)) → IsDistinct (run init steps)
run-IsDistinct steps = (run-new init steps).0

silent_events :
    (o : UsageObservation) (id : String) (sent : List SentKey) (events : List AlertEvent)
    → is_sent (o.utc_day, id) sent ≡ true
    → All (λ k. is_sent k sent ≡ false) (keys o events)
    → All (λ e. e.rule_id ≢ id) events
silent_events o id sent [] h n = tt
silent_events o id sent (e ∷ events) h (new, n) = (
  λ same. cc (h, new, ap (λ (i : String). is_sent (o.utc_day, i) sent) same),
  silent_events o id sent events h n,
)

-- Once an id was sent on a day, no observation of that day alerts under it, whatever the profile,
-- group and project of the observation and of the rule.
pub evaluate_silent :
    (s : AlertEvaluator) (o : UsageObservation) (rules : List AlertRule) (id : String)
    → is_sent (o.utc_day, id) s.sent ≡ true
    → All (λ e. e.rule_id ≢ id) (evaluate s o rules).1
evaluate_silent s o rules id h = silent_events o id s.sent _ h (IsStep-evaluate s o rules).were_new
