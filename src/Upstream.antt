-- ===== src/Upstream.antt =====
-- src/quota_monitor/upstream_adapter.py: the pages of the usage service and the records in them.
-- The service and the keyed hash of the project's identifier are parameters.
pub mod Parsing
pub mod Fetching
mod Tests
pub mod Trail
pub mod Within
use openai_free_credit_track.Base.{
  ℕ, ◌+◌, Bool, true, false, Option, some, none, List, [], ◌∷◌, ◌++◌, ◌||◌, not, ltb, leb,
  if◌then◌else◌, any, is_empty,
}
use openai_free_credit_track.Base.Text.{Text, codes, text_eq}
use openai_free_credit_track.Json.{
  Json, null, boolean, number, negative, fraction, text, array, object, Items, no_items, item,
  Fields, get_field, get_or,
}

pub record UsageBucketRecord : Type 0 where
  pub bucket_start_utc : ℕ
  pub bucket_end_utc : ℕ
  pub project_key : Text
  pub model : Text
  pub service_tier : Text
  pub input_tokens : ℕ
  pub cached_input_tokens : ℕ
  pub output_tokens : ℕ
  pub request_count : ℕ
  pub project_id_private : Option Text

pub record UsageSlice : Type 0 where
  pub requested_start_utc : ℕ
  pub requested_end_utc : ℕ
  pub records : List UsageBucketRecord
  pub pages_fetched : ℕ

-- The codes of `UpstreamContractError`, the `ValueError` of the range, and what the client raises.
pub data Fault : Type 0 where
  usage_project_invalid usage_field_invalid usage_response_invalid usage_cursor_invalid : Fault
  usage_cursor_missing usage_bucket_invalid usage_bucket_time_invalid usage_result_invalid : Fault
  usage_model_invalid usage_service_tier_invalid usage_cached_tokens_invalid : Fault
  usage_cache_write_tokens_invalid usage_cursor_repeated range_invalid client_failed : Fault

pub data Result (A : Type 0) : Type 0 where
  done : A → Result A
  failed : Fault → Result A

abbrev pub and_then : {A B : Type 0} → Result A → (A → Result B) → Result B
and_then (done a) f = f a
and_then (failed e) f = failed e

-- `_nonnegative_int`
abbrev pub natural_of : Json → Result ℕ
natural_of (number n) = done n
natural_of (negative n) = failed usage_field_invalid
natural_of null = failed usage_field_invalid
natural_of (boolean b) = failed usage_field_invalid
natural_of (fraction n) = failed usage_field_invalid
natural_of (text t) = failed usage_field_invalid
natural_of (array xs) = failed usage_field_invalid
natural_of (object fs) = failed usage_field_invalid

unfoldable pub nonnegative_int : Fields → Text → Result ℕ
nonnegative_int row key = natural_of (get_or key (number 0) row)

-- The model and the service tier: a missing or empty one is "unknown".
abbrev pub label_of : Fault → Json → Result Text
label_of e null = done (codes "unknown")
label_of e (text t) = if is_empty t then done (codes "unknown") else done t
label_of e (boolean b) = failed e
label_of e (number n) = failed e
label_of e (negative n) = failed e
label_of e (fraction n) = failed e
label_of e (array xs) = failed e
label_of e (object fs) = failed e

abbrev pub is_true : Json → Bool
is_true (boolean b) = b
is_true null = false
is_true (number n) = false
is_true (negative n) = false
is_true (fraction n) = false
is_true (text t) = false
is_true (array xs) = false
is_true (object fs) = false

-- The cursor of a page, absent or a text that is not empty.
abbrev pub cursor_of : Json → Result (Option Text)
cursor_of null = done none
cursor_of (text t) = if is_empty t then failed usage_cursor_invalid else done (some t)
cursor_of (boolean b) = failed usage_cursor_invalid
cursor_of (number n) = failed usage_cursor_invalid
cursor_of (negative n) = failed usage_cursor_invalid
cursor_of (fraction n) = failed usage_cursor_invalid
cursor_of (array xs) = failed usage_cursor_invalid
cursor_of (object fs) = failed usage_cursor_invalid

abbrev pub items_of : Fault → Json → Result Items
items_of e (array xs) = done xs
items_of e null = failed e
items_of e (boolean b) = failed e
items_of e (number n) = failed e
items_of e (negative n) = failed e
items_of e (fraction n) = failed e
items_of e (text t) = failed e
items_of e (object fs) = failed e

abbrev pub fields_of : Fault → Json → Result Fields
fields_of e (object fs) = done fs
fields_of e null = failed e
fields_of e (boolean b) = failed e
fields_of e (number n) = failed e
fields_of e (negative n) = failed e
fields_of e (fraction n) = failed e
fields_of e (text t) = failed e
fields_of e (array xs) = failed e

-- `_page`: the data list and the next cursor.
unfoldable pub page : Json → Result (Items × Option Text)
page payload = and_then (fields_of usage_response_invalid payload) (λ fs.
    and_then (items_of usage_response_invalid (get_or (codes "data") null fs)) (λ items.
      and_then (cursor_of (get_or (codes "next_page") null fs)) (λ cursor.
        if is_true (get_or (codes "has_more") null fs)
        then elim cursor [ none ↦ failed usage_cursor_missing | some c ↦ done (items, some c) ]
        else done (items, cursor))))
