-- ===== src/History/Usage.antt =====
-- The usage rows of src/quota_monitor/database.py: the part of `reconcile_slice` that replaces the
-- rows of a slice, once its buckets are normalised. The rows of the staging table stand in the order
-- of their first bucket; neither table has two rows under one key. The CHECK constraints of the
-- table are left out: valid buckets meet them.
pub mod Replaced
pub mod Totals
use openai_free_credit_track.Base.{
  ℕ, ◌+◌, ◌^◌, Bool, true, false, Option, some, none, List, [], ◌∷◌, ◌&&◌, not, ltb, leb, ◌==◌,
  if◌then◌else◌, all,
}
use openai_free_credit_track.Base.Text.{Text, text_eq}
use openai_free_credit_track.History.Ranges.{is_range}
use openai_free_credit_track.History.Runs.{Result, done, refused, value_error, overflow_error}

-- The columns of the primary keys, but for the profile.
pub record BucketKey : Type 0 where
  pub bucket_start : ℕ
  pub bucket_end : ℕ
  pub project_key : Text
  pub model : Text
  pub service_tier : Text

pub record UsageBucket : Type 0 where
  pub key : BucketKey
  pub input_tokens : ℕ
  pub cached_input_tokens : ℕ
  pub output_tokens : ℕ
  pub request_count : ℕ
  pub catalog_version : Text
  pub collected_at : Text

-- What an INTEGER column holds of a number that is not negative: a 64-bit integer, or a REAL, whose
-- value is not modelled.
pub data Amount : Type 0 where
  integer : ℕ → Amount
  real : Amount

-- A bucket in a table.
pub record StoredBucket : Type 0 where
  pub key : BucketKey
  pub input_tokens : Amount
  pub cached_input_tokens : Amount
  pub output_tokens : Amount
  pub request_count : Amount
  pub catalog_version : Text
  pub collected_at : Text

pub record UsageRow : Type 0 where
  pub profile_id : Text
  pub bucket : StoredBucket

-- Where the 64-bit integers of SQLite end.
unfoldable pub is_int64 : ℕ → Bool
is_int64 n = ltb n (2 ^ 63)

unfoldable pub key_eq : BucketKey → BucketKey → Bool
key_eq a b =
    (a.bucket_start == b.bucket_start)
    && (a.bucket_end == b.bucket_end)
    && text_eq a.project_key b.project_key
    && text_eq a.model b.model
    && text_eq a.service_tier b.service_tier

-- `bucket_start_utc >= ? AND bucket_end_utc <= ?`
unfoldable pub is_inside : ℕ → ℕ → BucketKey → Bool
is_inside slice_start slice_end k = leb slice_start k.bucket_start && leb k.bucket_end slice_end

-- `sqlite3` refuses to bind a number that is not a 64-bit integer, with `OverflowError`.
unfoldable pub is_bindable : UsageBucket → Bool
is_bindable b =
    is_int64 b.input_tokens
    && is_int64 b.cached_input_tokens
    && is_int64 b.output_tokens
    && is_int64 b.request_count

-- The values that are bound.
abbrev pub stored_of : UsageBucket → StoredBucket
stored_of b = record {
  key = b.key;
  input_tokens = integer b.input_tokens;
  cached_input_tokens = integer b.cached_input_tokens;
  output_tokens = integer b.output_tokens;
  request_count = integer b.request_count;
  catalog_version = b.catalog_version;
  collected_at = b.collected_at;
}

-- SQLite's `+`, of which the second is a bound integer: a sum that is not a 64-bit integer is a REAL.
unfoldable pub add_amount : Amount → ℕ → Amount
add_amount (integer a) n = if is_int64 (a + n) then integer (a + n) else real
add_amount real n = real

-- `DO UPDATE SET` of the staging table: the first is the row that is there.
abbrev pub add : StoredBucket → UsageBucket → StoredBucket
add x b = record x {
  input_tokens = add_amount x.input_tokens b.input_tokens;
  cached_input_tokens = add_amount x.cached_input_tokens b.cached_input_tokens;
  output_tokens = add_amount x.output_tokens b.output_tokens;
  request_count = add_amount x.request_count b.request_count;
  catalog_version = b.catalog_version;
  collected_at = b.collected_at;
}

unfoldable pub stage_one : UsageBucket → List StoredBucket → List StoredBucket
stage_one b [] = stored_of b ∷ []
stage_one b (x ∷ xs) =
    let rest = stage_one b xs in if key_eq x.key b.key then add x b ∷ xs else x ∷ rest

-- The loop over the records.
unfoldable pub stage_from : List StoredBucket → List UsageBucket → List StoredBucket
stage_from staged [] = staged
stage_from staged (b ∷ buckets) = stage_from (stage_one b staged) buckets

unfoldable pub find_bucket : BucketKey → List StoredBucket → Option StoredBucket
find_bucket k [] = none
find_bucket k (x ∷ xs) = let rest = find_bucket k xs in if key_eq x.key k then some x else rest

unfoldable pub find_row : Text → BucketKey → List UsageRow → Option StoredBucket
find_row p k [] = none
find_row p k (x ∷ xs) =
    let rest = find_row p k xs in
    if text_eq x.profile_id p && key_eq x.bucket.key k then some x.bucket else rest

abbrev pub is_staged : BucketKey → List StoredBucket → Bool
is_staged k staged = elim (find_bucket k staged) [ none ↦ false | some b ↦ true ]

-- `DELETE FROM usage_buckets ... AND NOT EXISTS`
unfoldable pub is_deleted : Text → ℕ → ℕ → List StoredBucket → Text → BucketKey → Bool
is_deleted p slice_start slice_end staged q k =
    text_eq q p && is_inside slice_start slice_end k && not (is_staged k staged)

unfoldable pub delete_rows : Text → ℕ → ℕ → List StoredBucket → List UsageRow → List UsageRow
delete_rows p slice_start slice_end staged [] = []
delete_rows p slice_start slice_end staged (x ∷ xs) =
    let rest = delete_rows p slice_start slice_end staged xs in
    if is_deleted p slice_start slice_end staged x.profile_id x.bucket.key then rest else x ∷ rest

-- `INSERT INTO usage_buckets ... ON CONFLICT ... DO UPDATE SET`, which sets all other columns.
unfoldable pub put_row : Text → StoredBucket → List UsageRow → List UsageRow
put_row p b [] = record { profile_id = p; bucket = b } ∷ []
put_row p b (x ∷ xs) =
    let rest = put_row p b xs in
    if text_eq x.profile_id p && key_eq x.bucket.key b.key
    then record { profile_id = p; bucket = b } ∷ xs
    else x ∷ rest

unfoldable pub put_rows : Text → List StoredBucket → List UsageRow → List UsageRow
put_rows p [] rows = rows
put_rows p (b ∷ staged) rows = put_row p b (put_rows p staged rows)

unfoldable pub replace_rows : Text → ℕ → ℕ → List UsageBucket → List UsageRow → List UsageRow
replace_rows p slice_start slice_end buckets rows =
    let staged = stage_from [] buckets in
    put_rows p staged (delete_rows p slice_start slice_end staged rows)

-- What `_validate_bucket` checks of the numbers.
unfoldable pub is_valid_bucket : ℕ → ℕ → UsageBucket → Bool
is_valid_bucket slice_start slice_end b =
    is_inside slice_start slice_end b.key
    && is_range b.key.bucket_start b.key.bucket_end
    && leb b.cached_input_tokens b.input_tokens

-- The usage rows afterwards, or the error. The transaction keeps nothing of what it did before one.
unfoldable pub reconcile_rows :
    Text → ℕ → ℕ → List UsageBucket → List UsageRow → Result (List UsageRow)
reconcile_rows p slice_start slice_end buckets rows =
    if all is_bindable buckets
    then done (replace_rows p slice_start slice_end buckets rows)
    else refused overflow_error
