-- ===== src/Upstream/Within.antt =====
-- What every record that the parser accepts satisfies.
use openai_free_credit_track.Base.{
  ℕ, ◌≤◌, ◌<◌, ◌≡◌, inl, inr, refl, List, [], ◌∷◌, ◌||◌, ltb, leb, arith, Bool-cases, Option-cases,
  All, All-append,
}
use openai_free_credit_track.Base.Text.{Text, codes}
use openai_free_credit_track.Json.{null, number, Items, no_items, item, Fields, get_or}
use openai_free_credit_track.Upstream.{
  UsageBucketRecord, Result, done, failed, and_then, nonnegative_int, label_of, items_of, fields_of,
  usage_bucket_invalid, usage_result_invalid, usage_model_invalid, usage_service_tier_invalid,
}
use openai_free_credit_track.Upstream.Parsing.{
  number_of, bucket_times, derive, parse_row, parse_results, parse_usage_buckets,
}

-- What a result has if it is one.
abbrev pub Holds : {A : Type 0} → (A → Type 0) → Result A → Type 0
Holds P (done a) = P a
Holds P (failed e) = Unit

pub and_then-Holds :
    {A B : Type 0} (P : A → Type 0) (Q : B → Type 0) (m : Result A) (f : A → Result B)
    → Holds P m
    → ((a : A) → P a → Holds Q (f a))
    → Holds Q (and_then m f)
and_then-Holds P Q (done a) f h k = k a h
and_then-Holds P Q (failed e) f h k = tt

pub and_then_any :
    {A B : Type 0} (Q : B → Type 0) (m : Result A) (f : A → Result B)
    → ((a : A) → Holds Q (f a))
    → Holds Q (and_then m f)
and_then_any Q (done a) f k = k a
and_then_any Q (failed e) f k = tt

abbrev pub Spans : ℕ → ℕ → UsageBucketRecord → Type 0
Spans start end r =
    (r.bucket_start_utc ≡ start)
    × (r.bucket_end_utc ≡ end)
    × (r.cached_input_tokens ≤ r.input_tokens)

-- The bucket of the record lies in the range that was asked for and is not empty, and no more of the
-- input is cached than there is.
abbrev pub IsWithin : ℕ → ℕ → UsageBucketRecord → Type 0
IsWithin from until r =
    (from ≤ r.bucket_start_utc)
    × (r.bucket_start_utc < r.bucket_end_utc)
    × (r.bucket_end_utc ≤ until)
    × (r.cached_input_tokens ≤ r.input_tokens)

abbrev IsSpan : ℕ → ℕ → ℕ × ℕ → Type 0
IsSpan from until (start, end) = (from ≤ start) × (start < end) × (end ≤ until)

bucket_times-IsSpan :
    (from until : ℕ) (bucket : Fields) → Holds (IsSpan from until) (bucket_times from until bucket)
unfolding bucket_times
bucket_times-IsSpan from until bucket =
    elim (Option-cases (number_of (get_or (codes "start_time") (number from) bucket))) [
      | inl e ↦ rw (e, bucket_times) tt
      | inr (s, e) ↦
          elim (Option-cases (number_of (get_or (codes "end_time") (number until) bucket))) [
            | inl f ↦ rw (e, f, bucket_times) tt
            | inr (t, f) ↦ elim (Bool-cases (ltb s from || ltb until t || leb t s)) [
              | inl g ↦ rw (e, f, g, bucket_times) tt
              | inr g ↦ rw (e, f, g, bucket_times) (ground (arith, g))
            ]
          ]
    ]

module _ (hexdigest : Text → Text) where
  parse_row-Spans :
      (start end : ℕ) (row : Fields) → Holds (Spans start end) (parse_row hexdigest start end row)
  unfolding parse_row
  parse_row-Spans start end row =
      and_then_any P (label_of usage_model_invalid (get_or (codes "model") null row)) _ (λ model.
        and_then_any P
          (label_of usage_service_tier_invalid (get_or (codes "service_tier") null row)) _
          (λ tier. and_then_any P (nonnegative_int row (codes "input_tokens")) _ (λ input.
            and_then_any P (nonnegative_int row (codes "input_cached_tokens")) _ (λ cached.
              and_then_any P (nonnegative_int row (codes "input_cache_write_tokens")) _ (λ written.
                and_then_any P (nonnegative_int row (codes "output_tokens")) _ (λ output.
                  and_then_any P (nonnegative_int row (codes "num_model_requests")) _ (λ requests.
                    elim (Bool-cases (ltb input cached)) [
                      | inl above ↦ rw above tt
                      | inr fine ↦ elim (Bool-cases (ltb input written)) [
                        | inl above ↦ rw (fine, above) tt
                        | inr low ↦
                            rw (fine, low)
                              (and_then_any P
                                (derive hexdigest (get_or (codes "project_id") null row)) _
                                (λ key. (refl, refl, ground (arith, fine))))
                      ]
                    ])))))))
    where
      P : UsageBucketRecord → Type 0
      P = Spans start end

  parse_results-Spans :
      (start end : ℕ) (xs : Items)
      → Holds (All (Spans start end)) (parse_results hexdigest start end xs)
  unfolding parse_results
  parse_results-Spans start end no_items = tt
  parse_results-Spans start end (item x rest) =
      and_then_any P (fields_of usage_result_invalid x) _ (λ row.
        and_then-Holds (Spans start end) P (parse_row hexdigest start end row) _
          (parse_row-Spans start end row)
          (λ r h.
            and_then-Holds P P (parse_results hexdigest start end rest) _
              (parse_results-Spans start end rest) (λ rs hs. (h, hs))))
    where
      P : List UsageBucketRecord → Type 0
      P = All (Spans start end)

  Spans-IsWithin :
      (from until start end : ℕ) (rs : List UsageBucketRecord)
      → IsSpan from until (start, end)
      → All (Spans start end) rs
      → All (IsWithin from until) rs
  Spans-IsWithin from until start end [] s h = tt
  Spans-IsWithin from until start end (r ∷ rs) (a, b, c) ((e, f, g), h) = (
    (omega arith, omega arith, omega arith, g),
    Spans-IsWithin from until start end rs (a, b, c) h,
  )

  pub parse_usage_buckets-IsWithin :
      (from until : ℕ) (xs : Items)
      → Holds (All (IsWithin from until)) (parse_usage_buckets hexdigest from until xs)
  unfolding parse_usage_buckets
  parse_usage_buckets-IsWithin from until no_items = tt
  parse_usage_buckets-IsWithin from until (item x rest) =
      and_then_any P (fields_of usage_bucket_invalid x) _ (λ bucket.
        and_then_any P (items_of usage_bucket_invalid (get_or (codes "results") null bucket)) _
          (λ results.
            and_then-Holds (IsSpan from until) P (bucket_times from until bucket) _
              (bucket_times-IsSpan from until bucket)
              (λ (start, end) span.
                and_then-Holds (All (Spans start end)) P (parse_results hexdigest start end results)
                  _ (parse_results-Spans start end results)
                  (λ rs h.
                    and_then-Holds P P (parse_usage_buckets hexdigest from until rest) _
                      (parse_usage_buckets-IsWithin from until rest)
                      (λ more hs.
                        All-append (IsWithin from until) rs more
                          (Spans-IsWithin from until start end rs span h) hs)))))
    where
      P : List UsageBucketRecord → Type 0
      P = All (IsWithin from until)
