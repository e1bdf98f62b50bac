-- ===== src/Usage/Rows.antt =====
-- The checks of a result in `summarize_usage` of src/quota_monitor/usage_service.py.
use openai_free_credit_track.Base.{
  ℕ, zero, suc, Option, some, none, ◌||◌, ltb, if◌then◌else◌, is_empty,
}
use openai_free_credit_track.Base.Text.{Text, codes}
use openai_free_credit_track.Json.{
  Json, null, boolean, number, negative, fraction, text, array, object, Items, no_items, item,
  Fields, no_fields, field, get_or,
}
use openai_free_credit_track.Usage.{Row}

-- The `UsageDataError` and the `KeyError` of a group that is not in the catalog.
pub data Result (A : Type 0) : Type 0 where
  done : A → Result A
  data_error key_error : Result A

abbrev pub and_then : {A B : Type 0} → Result A → (A → Result B) → Result B
and_then (done a) f = f a
and_then data_error f = data_error
and_then key_error f = key_error

-- `_token_count`
abbrev pub token_of : Json → Result ℕ
token_of (number n) = done n
token_of (negative n) = data_error
token_of null = data_error
token_of (boolean b) = data_error
token_of (fraction n) = data_error
token_of (text t) = data_error
token_of (array xs) = data_error
token_of (object fs) = data_error

unfoldable pub token_count : Fields → Text → Result ℕ
token_count row key = token_of (get_or key (number 0) row)

-- `row.get("model") or "unknown"`, which must be a text.
abbrev pub name_of : Json → Result Text
name_of (text t) = if is_empty t then done (codes "unknown") else done t
name_of null = done (codes "unknown")
name_of (boolean b) = if b then data_error else done (codes "unknown")
name_of (number zero) = done (codes "unknown")
name_of (number (suc n)) = data_error
name_of (negative n) = data_error
name_of (fraction zero) = done (codes "unknown")
name_of (fraction (suc n)) = data_error
name_of (array no_items) = done (codes "unknown")
name_of (array (item x xs)) = data_error
name_of (object no_fields) = done (codes "unknown")
name_of (object (field k v fs)) = data_error

abbrev pub tier_of : Json → Result (Option Text)
tier_of null = done none
tier_of (text t) = done (some t)
tier_of (boolean b) = data_error
tier_of (number n) = data_error
tier_of (negative n) = data_error
tier_of (fraction n) = data_error
tier_of (array xs) = data_error
tier_of (object fs) = data_error

abbrev pub object_of : Json → Result Fields
object_of (object fs) = done fs
object_of null = data_error
object_of (boolean b) = data_error
object_of (number n) = data_error
object_of (negative n) = data_error
object_of (fraction n) = data_error
object_of (text t) = data_error
object_of (array xs) = data_error

abbrev pub list_of : Json → Result Items
list_of (array xs) = done xs
list_of null = data_error
list_of (boolean b) = data_error
list_of (number n) = data_error
list_of (negative n) = data_error
list_of (fraction n) = data_error
list_of (text t) = data_error
list_of (object fs) = data_error

-- The checks of a result, from its model's name to its cache writes.
unfoldable pub check_row : Fields → Result Row
check_row row = and_then (name_of (get_or (codes "model") null row)) (λ name.
    and_then (tier_of (get_or (codes "service_tier") null row)) (λ tier.
      and_then (token_count row (codes "input_tokens")) (λ input.
        and_then (token_count row (codes "input_cached_tokens")) (λ cached.
          and_then (token_count row (codes "input_cache_write_tokens")) (λ written.
            and_then (token_count row (codes "output_tokens")) (λ output.
              if ltb input cached || ltb input written
              then data_error
              else done (record {
                name = name;
                service_tier = tier;
                input = input;
                cached = cached;
                cache_write = written;
                output = output;
              })))))))
