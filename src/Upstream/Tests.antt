-- ===== src/Upstream/Tests.antt =====
-- A usage service with two pages, and the theorems at it.
use openai_free_credit_track.Base.{
  zero, suc, ◌≡◌, ◌≢◌, inl, refl, true, some, none, List, [], ◌∷◌, All,
}
use openai_free_credit_track.Base.Text.{Text, codes, text_eq}
use openai_free_credit_track.Json.{
  Json, boolean, number, text, array, object, no_items, item, no_fields, field, get_field, get_or,
}
use openai_free_credit_track.Upstream.{
  UsageBucketRecord, page, nonnegative_int, usage_bucket_time_invalid, usage_cursor_repeated,
}
use openai_free_credit_track.Upstream.Fetching.{
  fetched, faulty, out_of_fuel, Client, fetch_page, fetch_pages, fetch_usage_slice, IsPool,
  fetch_usage_slice_ends,
}
use openai_free_credit_track.Upstream.Parsing.{
  parse_usage_buckets, bucket_times, parse_results, parse_row, derive,
}
use openai_free_credit_track.Upstream.Within.{IsWithin}
use openai_free_credit_track.Upstream.Trail.{Trail, fetch_usage_slice-Trail}

abbrev digest : Text → Text
digest t = codes "00112233445566778899aabbccddeeff"

abbrev row : Json
row = object (
    field (codes "model") (text (codes "gpt-5-mini")) (
      field (codes "input_tokens") (number 30) (
        field (codes "input_cached_tokens") (number 10) (
          field (codes "output_tokens") (number 5)
            (field (codes "num_model_requests") (number 2) no_fields)))))

abbrev bucket : Json
bucket = object (
    field (codes "start_time") (number 100) (
      field (codes "end_time") (number 200)
        (field (codes "results") (array (item row no_items)) no_fields)))

abbrev first_page : Json
first_page = object (
    field (codes "data") (array (item bucket no_items)) (
      field (codes "has_more") (boolean true)
        (field (codes "next_page") (text (codes "p2")) no_fields)))

abbrev last_page : Json
last_page = object (field (codes "data") (array (item bucket no_items)) no_fields)

abbrev two_pages : Client
two_pages zero cursor = some first_page
two_pages (suc n) cursor = some last_page

-- The service that names the same next page for ever.
abbrev endless : Client
endless n cursor = some first_page

abbrev record_of_row : UsageBucketRecord
record_of_row = record {
  bucket_start_utc = 100;
  bucket_end_utc = 200;
  project_key = codes "unattributed";
  model = codes "gpt-5-mini";
  service_tier = codes "unknown";
  input_tokens = 30;
  cached_input_tokens = 10;
  output_tokens = 5;
  request_count = 2;
  project_id_private = none;
}

abbrev both : List UsageBucketRecord
both = record_of_row ∷ record_of_row ∷ []

fetches_both : fetch_usage_slice digest two_pages 100 200 2 ≡ fetched both 2
unfolding fetch_usage_slice fetch_pages fetch_page page get_or get_field text_eq parse_usage_buckets
    bucket_times parse_results parse_row nonnegative_int derive
fetches_both = refl

-- A bucket outside of the range is an error, and so is a cursor named twice.
outside : fetch_usage_slice digest two_pages 101 200 2 ≡ faulty usage_bucket_time_invalid
unfolding fetch_usage_slice fetch_pages fetch_page page get_or get_field text_eq parse_usage_buckets
    bucket_times parse_results parse_row nonnegative_int derive
outside = refl

repeated : fetch_usage_slice digest endless 100 200 5 ≡ faulty usage_cursor_repeated
unfolding fetch_usage_slice fetch_pages fetch_page page get_or get_field text_eq parse_usage_buckets
    bucket_times parse_results parse_row nonnegative_int derive
repeated = refl

two_pages-IsPool : IsPool digest two_pages 100 200 (codes "p2" ∷ [])
unfolding fetch_usage_slice fetch_pages fetch_page page get_or get_field text_eq parse_usage_buckets
    bucket_times parse_results parse_row nonnegative_int derive
two_pages-IsPool zero cursor rs c h = inl cc
two_pages-IsPool (suc n) cursor rs c h = absurd cc

fetch_usage_slice-Trail_example :
    Trail digest two_pages 100 200 [] 0 none both 2 × All (IsWithin 100 200) both
fetch_usage_slice-Trail_example =
    fetch_usage_slice-Trail digest two_pages 100 200 2 both 2 fetches_both

fetch_usage_slice_ends_example : fetch_usage_slice digest two_pages 100 200 2 ≢ out_of_fuel
fetch_usage_slice_ends_example =
    fetch_usage_slice_ends digest two_pages 100 200 (codes "p2" ∷ []) two_pages-IsPool
