-- ===== src/Upstream/Parsing.antt =====
-- `ProjectKeyDeriver` and `parse_usage_buckets` of src/quota_monitor/upstream_adapter.py.
use openai_free_credit_track.Base.{
  ℕ, zero, suc, Option, some, none, List, [], ◌∷◌, ◌++◌, ◌||◌, ltb, leb, if◌then◌else◌, is_empty,
}
use openai_free_credit_track.Base.Text.{Text, codes}
use openai_free_credit_track.Json.{
  Json, null, boolean, number, negative, fraction, text, array, object, Items, no_items, item,
  Fields, get_or,
}
use openai_free_credit_track.Upstream.{
  UsageBucketRecord, Result, done, failed, and_then, nonnegative_int, label_of, items_of, fields_of,
  usage_project_invalid, usage_bucket_invalid, usage_bucket_time_invalid, usage_result_invalid,
  usage_model_invalid, usage_service_tier_invalid, usage_cached_tokens_invalid,
  usage_cache_write_tokens_invalid,
}

abbrev pub number_of : Json → Option ℕ
number_of (number n) = some n
number_of (negative n) = none
number_of null = none
number_of (boolean b) = none
number_of (fraction n) = none
number_of (text t) = none
number_of (array xs) = none
number_of (object fs) = none

-- The times of a bucket. A negative time fails as the code's comparisons make it fail, since the
-- requested start is not negative.
unfoldable pub bucket_times : ℕ → ℕ → Fields → Result (ℕ × ℕ)
bucket_times from until bucket =
    elim (number_of (get_or (codes "start_time") (number from) bucket)) [
      | none ↦ failed usage_bucket_time_invalid
      | some start ↦ elim (number_of (get_or (codes "end_time") (number until) bucket)) [
        | none ↦ failed usage_bucket_time_invalid
        | some end ↦
            if ltb start from || ltb until end || leb end start
            then failed usage_bucket_time_invalid
            else done (start, end)
      ]
    ]

abbrev private_of : Json → Option Text
private_of (text t) = if is_empty t then none else some t
private_of null = none
private_of (boolean b) = none
private_of (number n) = none
private_of (negative n) = none
private_of (fraction n) = none
private_of (array xs) = none
private_of (object fs) = none

abbrev first : ℕ → Text → Text
first zero s = []
first (suc n) [] = []
first (suc n) (c ∷ s) = c ∷ first n s

-- The keyed hash of a project's identifier, in hexadecimal digits.
module _ (hexdigest : Text → Text) where
  -- `ProjectKeyDeriver.derive`
  unfoldable pub derive : Json → Result Text
  derive null = done (codes "unattributed")
  derive (text t) =
      if is_empty t
      then done (codes "unattributed")
      else done (codes "project-" ++ first 24 (hexdigest t))
  derive (boolean b) = failed usage_project_invalid
  derive (number n) = failed usage_project_invalid
  derive (negative n) = failed usage_project_invalid
  derive (fraction n) = failed usage_project_invalid
  derive (array xs) = failed usage_project_invalid
  derive (object fs) = failed usage_project_invalid

  -- One result of a bucket.
  unfoldable pub parse_row : ℕ → ℕ → Fields → Result UsageBucketRecord
  parse_row start end row =
      and_then (label_of usage_model_invalid (get_or (codes "model") null row)) (λ model.
        and_then (label_of usage_service_tier_invalid (get_or (codes "service_tier") null row))
          (λ tier. and_then (nonnegative_int row (codes "input_tokens")) (λ input.
            and_then (nonnegative_int row (codes "input_cached_tokens")) (λ cached.
              and_then (nonnegative_int row (codes "input_cache_write_tokens")) (λ written.
                and_then (nonnegative_int row (codes "output_tokens")) (λ output.
                  and_then (nonnegative_int row (codes "num_model_requests")) (λ requests.
                    if ltb input cached
                    then failed usage_cached_tokens_invalid
                    else if ltb input written
                    then failed usage_cache_write_tokens_invalid
                    else and_then (derive (get_or (codes "project_id") null row)) (λ key.
                      done (record {
                        bucket_start_utc = start;
                        bucket_end_utc = end;
                        project_key = key;
                        model = model;
                        service_tier = tier;
                        input_tokens = input;
                        cached_input_tokens = cached;
                        output_tokens = output;
                        request_count = requests;
                        project_id_private = private_of (get_or (codes "project_id") null row);
                      })))))))))

  unfoldable pub parse_results : ℕ → ℕ → Items → Result (List UsageBucketRecord)
  parse_results start end no_items = done []
  parse_results start end (item x rest) =
      let later = parse_results start end rest in
      and_then (fields_of usage_result_invalid x)
        (λ row. and_then (parse_row start end row) (λ r. and_then later (λ rs. done (r ∷ rs))))

  unfoldable pub parse_usage_buckets : ℕ → ℕ → Items → Result (List UsageBucketRecord)
  parse_usage_buckets from until no_items = done []
  parse_usage_buckets from until (item x rest) =
      let later = parse_usage_buckets from until rest in
      and_then (fields_of usage_bucket_invalid x) (λ bucket.
        and_then (items_of usage_bucket_invalid (get_or (codes "results") null bucket)) (λ results.
          and_then (bucket_times from until bucket) (λ (start, end).
            and_then (parse_results start end results)
              (λ rs. and_then later (λ more. done (rs ++ more))))))
