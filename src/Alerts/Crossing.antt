-- ===== src/Alerts/Crossing.antt =====
-- Which rules fire: those that the observation crosses, and no others.
use openai_free_credit_track.Base.{
  ℕ, ◌≤◌, ◌<◌, ◌≡◌, refl, Bool, true, false, str_eq_iff, List, [], ◌∷◌, arith, All, Any, In, All→at,
  str_eq, if◌then◌else◌, Bool-cases, inl, inr, subst, ◌∙◌, ◌⊎◌, ap,
}
use openai_free_credit_track.Base.Sorting.{sorted, All-sorted, In-sorted}
use openai_free_credit_track.Alerts.{
  by_threshold, AlertRule, UsageObservation, AlertEvent, AlertEvaluator, SentKey, SeriesKey,
  is_sent, evaluate_rules, is_skipped, crosses, evaluate, get_previous, series_of, event_of,
}

-- The event is that of a listed rule, which is addressed to the observation and crossed by it.
abbrev pub IsCrossing : ℕ → UsageObservation → List AlertRule → AlertEvent → Type 0
IsCrossing before o rules e =
    (r : AlertRule) × In r rules
    × (is_skipped o r ≡ false)
    × (before < r.threshold_percent)
    × (r.threshold_percent ≤ o.percent)
    × (e ≡ event_of o r)

module _ (o : UsageObservation) (before : ℕ) where
  IsCrossing-cons :
      (r : AlertRule) (rules : List AlertRule) (events : List AlertEvent)
      → All (IsCrossing before o rules) events
      → All (IsCrossing before o (r ∷ rules)) events
  IsCrossing-cons r rules [] h = tt
  IsCrossing-cons r rules (e ∷ events) ((q, m, a, low, high, same), h) =
      ((q, inr m, a, low, high, same), IsCrossing-cons r rules events h)

  crosses_bounds :
      (r : AlertRule)
      → crosses before o r ≡ true
      → (before < r.threshold_percent) × (r.threshold_percent ≤ o.percent)
  unfolding crosses
  crosses_bounds r h = ground arith

  evaluate_rules-IsCrossing :
      (rules : List AlertRule) (sent : List SentKey)
      → All (IsCrossing before o rules) (evaluate_rules o before rules sent).1
  unfolding evaluate_rules
  evaluate_rules-IsCrossing [] sent = tt
  evaluate_rules-IsCrossing (r ∷ rules) sent =
      let rest = IsCrossing-cons r rules _ (evaluate_rules-IsCrossing rules sent) in
      elim (Bool-cases (is_skipped o r)) [
        | inl skipped ↦ rw skipped rest
        | inr addressed ↦ rw addressed (elim (Bool-cases (is_sent (o.utc_day, r.rule_id) sent)) [
          | inl old ↦ rw old rest
          | inr new ↦ rw new (elim (Bool-cases (crosses before o r)) [
            | inl fires ↦ rw fires (
                let (low, high) = crosses_bounds r fires in
                (
                  (r, inl refl, addressed, low, high, refl),
                  IsCrossing-cons r rules _
                      (evaluate_rules-IsCrossing rules ((o.utc_day, r.rule_id) ∷ sent)),
                ))
            | inr below ↦ rw below rest
          ])
        ])
      ]

  abbrev Fires : AlertRule → List SentKey → List AlertEvent → Type 0
  Fires r sent events =
      (is_sent (o.utc_day, r.rule_id) sent ≡ true) ⊎ Any (λ e. e.rule_id ≡ r.rule_id) events

  -- What is sent once `q` has fired was sent before, or has the id of `q`.
  Fires-cons :
      (r q : AlertRule) (sent : List SentKey) (events : List AlertEvent)
      → Fires r ((o.utc_day, q.rule_id) ∷ sent) events
      → Fires r sent (event_of o q ∷ events)
  unfolding is_sent
  Fires-cons r q sent events (inr later) = inr (inr later)
  Fires-cons r q sent events (inl h) = elim (Bool-cases (str_eq q.rule_id r.rule_id)) [
    | inl same ↦ inr (inl ((str_eq_iff q.rule_id r.rule_id).0 same))
    | inr other ↦ inl (ground (arith, other))
  ]

  -- A crossed rule was sent before, or an event carries its id.
  evaluate_rules-Fires :
      (r : AlertRule) (rules : List AlertRule) (sent : List SentKey)
      → In r rules
      → is_skipped o r ≡ false
      → crosses before o r ≡ true
      → Fires r sent (evaluate_rules o before rules sent).1
  unfolding evaluate_rules
  evaluate_rules-Fires r [] sent m a c = absurd m
  evaluate_rules-Fires r (q ∷ rules) sent (inl e) a c =
      elim (Bool-cases (is_sent (o.utc_day, r.rule_id) sent)) [
        | inl old ↦ inl old
        | inr new ↦ rw (← e) (rw (a, new, c) (inr (inl refl)))
      ]
  evaluate_rules-Fires r (q ∷ rules) sent (inr m) a c =
      let rest = evaluate_rules-Fires r rules sent m a c in
      elim (Bool-cases (is_skipped o q)) [
        | inl skipped ↦ rw skipped rest
        | inr addressed ↦ rw addressed (elim (Bool-cases (is_sent (o.utc_day, q.rule_id) sent)) [
          | inl old ↦ rw old rest
          | inr new ↦ rw new (elim (Bool-cases (crosses before o q)) [
            | inl fires ↦ rw fires (
                Fires-cons r q sent _
                  (evaluate_rules-Fires r rules ((o.utc_day, q.rule_id) ∷ sent) m a c))
            | inr below ↦ rw below rest
          ])
        ])
      ]

In-cons_All :
    (r : AlertRule) (rules qs : List AlertRule)
    → All (λ q. In q rules) qs
    → All (λ q. In q (r ∷ rules)) qs
In-cons_All r rules [] h = tt
In-cons_All r rules (q ∷ qs) (m, h) = (inr m, In-cons_All r rules qs h)

All-listed : (rules : List AlertRule) → All (λ q. In q rules) rules
All-listed [] = tt
All-listed (r ∷ rules) = (inl refl, In-cons_All r rules rules (All-listed rules))

abbrev before_of : AlertEvaluator → UsageObservation → ℕ
before_of s o = get_previous (series_of o) s.previous

IsCrossing-sorted :
    (before : ℕ) (o : UsageObservation) (rules : List AlertRule) (events : List AlertEvent)
    → All (IsCrossing before o (sorted by_threshold rules)) events
    → All (IsCrossing before o rules) events
IsCrossing-sorted before o rules [] h = tt
IsCrossing-sorted before o rules (e ∷ events) ((r, m, a, low, high, same), h) =
    let listed =
      All→at (λ q. In q rules) (sorted by_threshold rules) r
        (All-sorted by_threshold (λ q. In q rules) rules (All-listed rules)) m in
    ((r, listed, a, low, high, same), IsCrossing-sorted before o rules events h)

All-if :
    (P : AlertEvent → Type 0) (b : Bool) (events : List AlertEvent)
    → All P events
    → All P (if b then events else [])
All-if P true events h = h
All-if P false events h = tt

events-evaluate :
    (s : AlertEvaluator) (o : UsageObservation) (rules : List AlertRule)
    → (evaluate s o rules).1 ≡ (
        if o.fresh
        then (evaluate_rules o (before_of s o) (sorted by_threshold rules) s.sent).1
        else [])
unfolding evaluate
events-evaluate s o rules = ground arith

-- An observation alerts only for listed rules that address it and whose threshold lies above the
-- level remembered for its series and not above its own; a stale one alerts for none.
pub evaluate_sound :
    (s : AlertEvaluator) (o : UsageObservation) (rules : List AlertRule)
    → All (IsCrossing (before_of s o) o rules) (evaluate s o rules).1
      × (o.fresh ≡ false → (evaluate s o rules).1 ≡ [])
evaluate_sound s o rules = (
  rw (events-evaluate s o rules) (
      All-if (IsCrossing (before_of s o) o rules) o.fresh _ (
        IsCrossing-sorted (before_of s o) o rules _
          (evaluate_rules-IsCrossing o (before_of s o) (sorted by_threshold rules) s.sent))),
  λ stale. ground (arith, events-evaluate s o rules),
)

-- A fresh observation that crosses a listed, addressed rule alerts under its id, unless that id was
-- sent on that day before.
pub evaluate_complete :
    (s : AlertEvaluator) (o : UsageObservation) (rules : List AlertRule) (r : AlertRule)
    → o.fresh ≡ true
    → In r rules
    → is_skipped o r ≡ false
    → before_of s o < r.threshold_percent
    → r.threshold_percent ≤ o.percent
    → (is_sent (o.utc_day, r.rule_id) s.sent ≡ true)
      ⊎ Any (λ e. e.rule_id ≡ r.rule_id) (evaluate s o rules).1
unfolding evaluate
evaluate_complete s o rules r fresh m a low high = rw fresh (
    evaluate_rules-Fires o (before_of s o) r (sorted by_threshold rules) s.sent
      (In-sorted by_threshold r rules m) a (unfold crosses in ground arith))

get_previous-here :
    (k : SeriesKey) (v : ℕ) (rest : List (SeriesKey × ℕ)) → get_previous k ((k, v) ∷ rest) ≡ v
unfolding get_previous
get_previous-here k v rest = ground (
  arith,
  str_eq_iff k.profile_id k.profile_id,
  str_eq_iff k.group_id k.group_id,
  str_eq_iff k.project_key k.project_key,
)

before-evaluate :
    (s : AlertEvaluator) (o : UsageObservation) (rules : List AlertRule)
    → get_previous (series_of o) (evaluate s o rules).0.previous ≡ o.percent
unfolding evaluate
before-evaluate s o rules = ground (arith, get_previous-here (series_of o) o.percent s.previous)

-- After an observation, fresh or stale, the next one of the same series alerts only for thresholds
-- above the percentage of the first: a crossing that only a stale observation saw never alerts.
pub evaluate_twice :
    (s : AlertEvaluator) (o p : UsageObservation) (rules later : List AlertRule)
    → series_of p ≡ series_of o
    → All (IsCrossing o.percent p later) (evaluate (evaluate s o rules).0 p later).1
evaluate_twice s o p rules later same =
    let h = (evaluate_sound (evaluate s o rules).0 p later).0 in
    subst (λ (n : ℕ). All (IsCrossing n p later) (evaluate (evaluate s o rules).0 p later).1)
      (ap (λ (k : SeriesKey). get_previous k (evaluate s o rules).0.previous) same
        ∙ before-evaluate s o rules)
      h
