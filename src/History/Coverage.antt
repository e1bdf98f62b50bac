-- ===== src/History/Coverage.antt =====
-- `_interval_is_covered` of src/quota_monitor/database.py.
use openai_free_credit_track.Base.{
  ℕ, ◌≤◌, ◌<◌, ◌≡◌, ◌↔◌, inl, inr, Bool, true, false, List, [], ◌∷◌, All, Any, arith, max, ltb, leb,
  ◌==◌, if◌then◌else◌, Bool-cases,
}
use openai_free_credit_track.Base.Sorting.{
  sorted, IsSorted, sorted-IsSorted, Any-sorted, Any-sorted_of,
}
use openai_free_credit_track.History.Ranges.{Interval}

-- `p <= q` on pairs
unfoldable pub pair_le : Interval → Interval → Bool
pair_le (a, b) (c, d) = if a == c then leb b d else ltb a c

-- The loop of `_interval_is_covered`, from a cursor; its tests in their order.
unfoldable pub covers_from : ℕ → ℕ → List Interval → Bool
covers_from cursor end [] = false
covers_from cursor end ((interval_start, interval_end) ∷ intervals) =
    let skipped = leb interval_end cursor in
    let next = if skipped then cursor else max cursor interval_end in
    let rest = covers_from next end intervals in
    if skipped
    then rest
    else if ltb cursor interval_start
    then false
    else if leb end next
    then true
    else rest

unfoldable pub interval_is_covered : ℕ → ℕ → List Interval → Bool
interval_is_covered start end intervals = covers_from start end (sorted pair_le intervals)

-- The interval contains the instant.
abbrev pub Contains : ℕ → Interval → Type 0
Contains t (a, b) = (a ≤ t) × (t < b)

-- Each instant of the range lies in some interval.
abbrev pub IsCovered : ℕ → ℕ → List Interval → Type 0
IsCovered start end intervals = (t : ℕ) → start ≤ t → t < end → Any (Contains t) intervals

pair_le_total : (p q : Interval) → pair_le p q ≡ false → pair_le q p ≡ true
unfolding pair_le
pair_le_total (a, b) (c, d) h = ground arith

pair_le_trans : (p q r : Interval) → pair_le p q ≡ true → pair_le q r ≡ true → pair_le p r ≡ true
unfolding pair_le
pair_le_trans (a, b) (c, d) (e, f) h k = ground arith

pair_le_start : (a b c d : ℕ) → pair_le (a, b) (c, d) ≡ true → a ≤ c
unfolding pair_le
pair_le_start a b c d h = ground arith

covers_from-IsCovered :
    (cursor end : ℕ) (intervals : List Interval)
    → covers_from cursor end intervals ≡ true
    → IsCovered cursor end intervals
unfolding covers_from
covers_from-IsCovered cursor end [] h t l u = ground arith
covers_from-IsCovered cursor end ((a, b) ∷ rest) h t l u = elim (Bool-cases (leb b cursor)) [
  | inl skipped ↦ inr (covers_from-IsCovered cursor end rest (rw skipped at h) t l u)
  | inr used ↦ elim (Bool-cases (ltb t b)) [
    | inl inside ↦ inl (ground arith)
    | inr outside ↦
        inr (covers_from-IsCovered (max cursor b) end rest (ground arith) t (ground arith) u)
  ]
]

no_earlier :
    (t a b : ℕ) (rest : List Interval)
    → t < a
    → All (λ q. pair_le (a, b) q ≡ true) rest
    → ¬ Any (Contains t) rest
no_earlier t a b [] h k m = m
no_earlier t a b ((c, d) ∷ rest) h (p, k) (inl m) = ground (arith, pair_le_start a b c d p)
no_earlier t a b ((c, d) ∷ rest) h (p, k) (inr m) = no_earlier t a b rest h k m

in_rest :
    (t a b : ℕ) (rest : List Interval)
    → b ≤ t
    → Any (Contains t) ((a, b) ∷ rest)
    → Any (Contains t) rest
in_rest t a b rest h (inl m) = ground arith
in_rest t a b rest h (inr m) = m

IsCovered-covers_from :
    (cursor end : ℕ) (intervals : List Interval)
    → cursor < end
    → IsSorted pair_le intervals
    → IsCovered cursor end intervals
    → covers_from cursor end intervals ≡ true
unfolding covers_from
IsCovered-covers_from cursor end [] h s c = absurd (c cursor (omega arith) h)
IsCovered-covers_from cursor end ((a, b) ∷ rest) h (first, s) c = elim (Bool-cases (leb b cursor)) [
  | inl skipped ↦ rw skipped (
      IsCovered-covers_from cursor end rest h s
        (λ t l u. in_rest t a b rest (ground arith) (c t l u)))
  | inr used ↦ elim (Bool-cases (ltb cursor a)) [
    | inl gap ↦ elim (c cursor (omega arith) h) [
      | inl m ↦ ground arith
      | inr m ↦ absurd (no_earlier cursor a b rest (ground arith) first m)
    ]
    | inr joined ↦ elim (Bool-cases (leb end (max cursor b))) [
      | inl done ↦ ground arith
      | inr more ↦
          let tail =
            IsCovered-covers_from (max cursor b) end rest (ground arith) s
              (λ t l u. in_rest t a b rest (ground arith) (c t (ground arith) u)) in
          ground arith
    ]
  ]
]

-- For a range that is not empty, `_interval_is_covered` answers yes just when each instant of the
-- range lies in one of the intervals, which may be in any order, overlap or be empty.
pub interval_is_covered_iff :
    (start end : ℕ) (intervals : List Interval)
    → start < end
    → (interval_is_covered start end intervals ≡ true) ↔ IsCovered start end intervals
unfolding interval_is_covered
interval_is_covered_iff start end intervals h = (
  λ e t l u.
      Any-sorted_of pair_le (Contains t) intervals (covers_from-IsCovered start end _ e t l u),
  λ c.
      IsCovered-covers_from start end (sorted pair_le intervals) h
        (sorted-IsSorted pair_le pair_le_total pair_le_trans intervals)
        (λ t l u. Any-sorted pair_le (Contains t) intervals (c t l u)),
)
